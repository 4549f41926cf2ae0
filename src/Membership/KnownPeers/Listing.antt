-- ===== src/Membership/KnownPeers/Listing.antt =====
-- src/lib/membership/KnownPeers.cpp: the walk over all peers, and what is made of it.
use turbopump.Prelude.{
  ℕ, Bool, true, Bytes, List, [], ◌∷◌, ◌++◌, Option, none, some, codes, is_empty, if◌then◌else◌,
}
use turbopump.Common.VectorClock.{Clocks, VersionText}
use turbopump.Storage.Streams.{Streams}
use turbopump.Storage.SimpleFileStore.{membership_prefix}
use turbopump.Membership.Peer.{Peer, Text, address, to_string, from_string}
use turbopump.Membership.KnownPeers.{Addresses, RoutingTable, State, peer_at, update, add_self}

module _ (a : Addresses) (t : RoutingTable) where
  members_of : State a t → List ℕ → List Peer
  members_of s [] = []
  members_of s (r ∷ rest) =
      let others = members_of s rest in
      elim (peer_at a t s r) [ none ↦ others | some p ↦ p ∷ others ]

  -- The peers that forEachPeer calls its function on, in turn.
  unfoldable pub for_each_peer : State a t → List Peer
  unfolding members_of
  for_each_peer s = elim s.self [
    | none ↦ members_of s (t.members s.members)
    | some me ↦ me ∷ members_of s (t.members s.members)
  ]

  lines_of : Text → List Peer → Bytes
  lines_of text [] = []
  lines_of text (p ∷ rest) = to_string text p ++ (codes "\n" ++ lines_of text rest)

  -- KnownPeers::toString, which `save` writes to the file.
  unfoldable pub to_text : Text → State a t → Bytes
  unfolding lines_of
  to_text text s = lines_of text (for_each_peer s)

  load_lines : Text → List Bytes → State a t → State a t
  load_lines text [] s = s
  load_lines text (line ∷ rest) s =
      load_lines text rest (elim (from_string text (record { uid = []; ips = [] }) line) [
        | none ↦ s
        | some p ↦ (update a t p.uid p.ips s).1
      ])

  -- `lines` is what StateSaver reads, and `read` whether it could. `generated` is as in addSelf.
  unfoldable pub load :
      Text → (lines : List Bytes) (read : Bool) (generated : Bytes) → State a t → Bool × State a t
  unfolding load_lines
  load text lines read generated s = (read, (add_self a t generated (load_lines text lines s)).1)

  -- The write of one peer: none if nothing is committed.
  unfoldable pub sync_peer :
      (c : Clocks) → VersionText c → (k : Streams) → ℕ → Peer → Option k.Writer
  sync_peer c text k now p =
      let version = c.increment c.empty p.uid now in
      let writer = k.open_write (membership_prefix ++ p.uid) (text.to_string version) 0 0 in
      let written = k.write writer (address p) in
      if is_empty (address p)
      then none
      else if k.good writer
      then some (k.commit written true).1
      else none

  sync_all : (c : Clocks) → VersionText c → (k : Streams) → ℕ → List Peer → List k.Writer
  sync_all c text k now [] = []
  sync_all c text k now (p ∷ rest) =
      let others = sync_all c text k now rest in
      elim (sync_peer c text k now p) [ none ↦ others | some written ↦ written ∷ others ]

  -- The writers that have been committed, in turn.
  unfoldable pub sync_to_data_store :
      (c : Clocks) → VersionText c → (k : Streams) → ℕ → State a t → List k.Writer
  unfolding sync_all
  sync_to_data_store c text k now s = sync_all c text k now (for_each_peer s)
