-- ===== src/Api/PeerCommands/Stored.antt =====
-- src/lib/api/DeleteCommand.cpp, src/lib/api/AddPeerCommand.cpp and
-- src/lib/api/RemovePeerCommand.cpp over streams on which nothing fails.
use turbopump.Prelude.{
  ℕ, ◌≤◌, ◌≡◌, refl, ap, ◌∙◌, str_eq, str_eq_refl, Bool, true, false, Bytes, [], ◌∷◌, ◌++◌, some,
  length, is_empty, arith,
}
use turbopump.Common.VectorClock
use turbopump.Common.VectorClock.{Clocks, FrontLaw, mark_deleted, is_deleted}
use turbopump.Api.Instructions.{Instructions}
use turbopump.Storage.Streams.{Streams, IsReliable}
use turbopump.Api.WriteCommand.{Cmd}
use turbopump.Api.WriteCommand.Open.{Ended}
use turbopump.Api.WriteCommand.Upload.{first-IsOpen, run_end}
use turbopump.Common.VectorClock.{VersionText}
use turbopump.Api.PeerCommands.{
  delete_request, add_peer_request, remove_peer_request, delete_key, pass_status, add_peer,
}
use turbopump.Callbacks.ModifyPeer.{membership_prefix, strip_prefix, World}
use turbopump.Callbacks.ModifyPeer

module _ {c : Clocks} (front : FrontLaw c) where
  is_deleted-increment :
      (v : c.Version) (key : Bytes) (time : ℕ)
      → is_deleted c (c.increment v key time) ≡ str_eq key VectorClock.delete_key
  is_deleted-increment v key time =
      let (count, rest, e) = front.clocks-increment v key time in
      unfold is_deleted in rw (e, is_deleted) refl

  is_deleted-mark_deleted : (v : c.Version) (time : ℕ) → is_deleted c (mark_deleted c v time) ≡ true
  is_deleted-mark_deleted v time =
      unfold mark_deleted in
      is_deleted-increment v VectorClock.delete_key time ∙ str_eq_refl VectorClock.delete_key

module _ {k : Streams} (r : IsReliable k) (on_commit : Instructions → k.Reader → Instructions)
    (keeps : (i : Instructions) (x : k.Reader) → (on_commit i x).is_complete ≡ i.is_complete)
    {c : Clocks} (front : FrontLaw c) (t : VersionText c) where
  abbrev opened : Instructions → k.Writer
  opened i = k.open_write i.name i.version i.copies i.offset

  pass_status-Ended :
      (start all : Bytes) (p : Bool × Cmd k on_commit)
      → Ended r on_commit keeps start all p
      → Ended r on_commit keeps start all (pass_status c t k on_commit p.1)
  pass_status-Ended start all (ok, cmd) e = record {
    returned = simp e.status refl;
    finished = e.finished;
    status = e.status;
    content = e.content;
    last = e.last;
    earlier = e.earlier;
    committed = e.committed;
    complete = e.complete;
    none_earlier = e.none_earlier;
  }

  -- A delete of a named key, over streams on which no call fails, returns true. The write that it
  -- makes is of the same key, and of a version that is deleted when it is read, if the text of the
  -- version is read as it was written. The write command ends with status 200: what was opened for
  -- that key and version has been committed as complete exactly once, with nothing written to it.
  pub delete_key-Ended :
      (name version : Bytes) (now : ℕ)
      → is_empty name ≡ false
      → t.from_string (t.to_string (mark_deleted c (t.from_string version) now))
        ≡ mark_deleted c (t.from_string version) now
      → k.good (opened (delete_request c t name version now)) ≡ true
      → ((delete_request c t name version now).name ≡ name)
        × (is_deleted c (t.from_string (delete_request c t name version now).version) ≡ true)
        × Ended r on_commit keeps
            (r.written (opened (delete_request c t name version now)))
            []
            (delete_key c t k on_commit name version now)
  unfolding delete_request
  delete_key-Ended name version now named reads good =
      let i = delete_request c t name version now in
      let (cmd, ran, open_still) =
        first-IsOpen r on_commit keeps i [] named refl good (omega arith) in
      (
        refl,
        ap (is_deleted c) reads ∙ is_deleted-mark_deleted front (t.from_string version) now,
        unfold delete_key in rw ran (run_end r on_commit keeps _ [] cmd open_still),
      )

  -- A peer that is added, over streams on which no call fails: the command returns true with status
  -- 200, and the address, if it has no more than 64 KiB, has been written and committed as complete
  -- exactly once, to the file of the peer's membership.
  pub add_peer-Ended :
      (uid ip : Bytes) (now : ℕ)
      → length ip ≤ 65536
      → k.good (opened (add_peer_request c t uid now)) ≡ true
      → Ended r on_commit keeps
          (r.written (opened (add_peer_request c t uid now)))
          ip
          (add_peer c t k on_commit uid ip now)
  unfolding add_peer_request
  add_peer-Ended uid ip now short good =
      let i = add_peer_request c t uid now in
      let (cmd, ran, open_still) = first-IsOpen r on_commit keeps i ip refl refl good short in
      unfold add_peer in
      rw ran (pass_status-Ended _ ip _ (run_end r on_commit keeps _ ip cmd open_still))

strip_prefix-append : (prefix name : Bytes) → strip_prefix prefix (prefix ++ name) ≡ some name
unfolding strip_prefix
strip_prefix-append [] name = refl
strip_prefix-append (x ∷ xs) name = ground (arith, strip_prefix-append xs name)

-- What ModifyPeer makes of a write: whether it is deleted is read from its version.
abbrev pub run_request :
    {S : Type 0} (c : Clocks) (t : VersionText c) → World S → S → Instructions → Bytes → Bool × S
run_request c t w s i contents =
    ModifyPeer.run w s i.name (is_deleted c (t.from_string i.version)) contents

run-stripped :
    {S : Type 0} (w : World S) (s : S) (name uid ip : Bytes)
    → strip_prefix membership_prefix name ≡ some uid
    → (ModifyPeer.run w s name false ip ≡ ModifyPeer.update_peer w s uid ip)
      × (ModifyPeer.run w s name true ip ≡ ModifyPeer.remove_peer w s uid)
unfolding ModifyPeer.run
run-stripped w s name uid ip e = (rw (e, ModifyPeer.run) refl, rw (e, ModifyPeer.run) refl)

-- The files that the commands for peers write are those that change the membership. Where the
-- texts of their versions are read as they were written, and the peer's uid is not the word that
-- marks a deletion, ModifyPeer takes from the request of an added peer that its version is not
-- deleted, and updates that peer with the contents, and from the request of a removed peer that it
-- is, and removes that peer.
pub run-requests :
    {S : Type 0} (w : World S) (s : S) {c : Clocks} (front : FrontLaw c) (t : VersionText c)
    (uid ip : Bytes) (now later : ℕ)
    → str_eq uid VectorClock.delete_key ≡ false
    → t.from_string (t.to_string (c.increment c.empty uid now)) ≡ c.increment c.empty uid now
    → t.from_string (t.to_string (mark_deleted c (c.increment c.empty uid now) later))
      ≡ mark_deleted c (c.increment c.empty uid now) later
    → (run_request c t w s (add_peer_request c t uid now) ip ≡ ModifyPeer.update_peer w s uid ip)
      × (run_request c t w s (remove_peer_request c t uid now later) ip
          ≡ ModifyPeer.remove_peer w s uid)
unfolding add_peer_request remove_peer_request
run-requests w s {c} front t uid ip now later apart reads reads' =
    let v = c.increment c.empty uid now in
    let (updates, removes) =
      run-stripped w s (membership_prefix ++ uid) uid ip
        (strip_prefix-append membership_prefix uid) in
    let live = ap (is_deleted c) reads ∙ is_deleted-increment front c.empty uid now ∙ apart in
    let erased = ap (is_deleted c) reads' ∙ is_deleted-mark_deleted front v later in
    (
      ap (λ d. ModifyPeer.run w s (membership_prefix ++ uid) d ip) live ∙ updates,
      ap (λ d. ModifyPeer.run w s (membership_prefix ++ uid) d ip) erased ∙ removes,
    )
