-- ===== src/Api/WriteCommand/Upload.antt =====
-- src/lib/api/WriteCommand.cpp over streams on which nothing fails: an upload.
use turbopump.Prelude.{
  ◌≤◌, ◌<◌, ◌≡◌, refl, sym, ◌∙◌, true, false, Bytes, List, [], ◌∷◌, ◌++◌, append_assoc, append-nil,
  length, is_empty, arith, inl, inr, ◌⊎◌,
}
use turbopump.Api.Instructions.{Instructions}
use turbopump.Storage.Streams.{Streams, IsReliable}
use turbopump.Api.WriteCommand.{Cmd, new, commit, run_open, open_stream, run, reset_outstream}
use turbopump.Api.WriteCommand.Open.{IsOpen, Ended, flush-reliable, write_buffer-IsOpen}

-- The calls of `run` with one buffer each, then the call with none.
abbrev pub feed :
    (k : Streams) (on_commit : Instructions → k.Reader → Instructions)
    → Cmd k on_commit
    → List Bytes
    → Cmd k on_commit
feed k f c [] = c
feed k f c (b ∷ bs) = feed k f (run k f c b).1 bs

-- No buffer is empty or longer than 64 KiB.
abbrev pub AreChunks : List Bytes → Type 0
AreChunks [] = Unit {0}
AreChunks (b ∷ bs) = (0 < length b) × (length b ≤ 65536) × AreChunks bs

abbrev pub concat : List Bytes → Bytes
concat [] = []
concat (b ∷ bs) = b ++ concat bs

module _ {k : Streams} (r : IsReliable k) (on_commit : Instructions → k.Reader → Instructions)
    (keeps : (i : Instructions) (x : k.Reader) → (on_commit i x).is_complete ≡ i.is_complete) where
  start_command : Cmd k on_commit → Cmd k on_commit
  start_command c = record c { started = true }

  -- A buffer on a command that has its stream, started or not.
  run_open-IsOpen :
      (start all : Bytes) (c : Cmd k on_commit) (b : Bytes)
      → IsOpen r on_commit keeps start all (start_command c)
      → (0 < length b) ⊎ (c.started ≡ false)
      → length b ≤ 65536
      → (c' : Cmd k on_commit) × (run_open k on_commit c b ≡ (true, c'))
        × IsOpen r on_commit keeps start (all ++ b) c'
  unfolding run_open start_command
  run_open-IsOpen start all c (x ∷ b) v any h =
      write_buffer-IsOpen r on_commit keeps start all (start_command c) (x ∷ b) v h
  run_open-IsOpen start all c [] v (inl any) h = absurd (omega arith)
  run_open-IsOpen start all c [] v (inr first) h = (start_command c, rw first, rw append-nil v)

  run-IsOpen :
      (start all : Bytes) (c : Cmd k on_commit) (b : Bytes)
      → IsOpen r on_commit keeps start all c
      → 0 < length b
      → length b ≤ 65536
      → (c' : Cmd k on_commit) × (run k on_commit c b ≡ (true, c'))
        × IsOpen r on_commit keeps start (all ++ b) c'
  run-IsOpen start all c b v some_bytes h =
      let same : start_command c ≡ c = unfold start_command in ground (arith, v.started) in
      let (c', ran, v') = run_open-IsOpen start all c b (rw same v) (inl some_bytes) h in
      let step : run k on_commit c b ≡ run_open k on_commit c b =
        unfold run in rw (v.unfinished, v.started) in
      (c', step ∙ ran, v')

  feed-IsOpen :
      (start all : Bytes) (c : Cmd k on_commit) (bs : List Bytes)
      → IsOpen r on_commit keeps start all c
      → AreChunks bs
      → IsOpen r on_commit keeps start (all ++ concat bs) (feed k on_commit c bs)
  feed-IsOpen start all c [] v h = rw append-nil v
  feed-IsOpen start all c (b ∷ bs) v h =
      let (c', ran, v') = run-IsOpen start all c b v h.0 h.1 in
      rw (ran, ← append_assoc all b (concat bs)) (feed-IsOpen start (all ++ b) c' bs v' h.2)

  -- The last call.
  pub run_end :
      (start all : Bytes) (c : Cmd k on_commit)
      → IsOpen r on_commit keeps start all c
      → Ended r on_commit keeps start all (run k on_commit c [])
  run_end start all c v =
      let closing : Cmd k on_commit = record c {
        finished = true;
        instructions = record c.instructions { is_complete = true };
      } in
      let (c', e, w, z, st, fi, ic, i, log, ii) = flush-reliable r on_commit keeps closing in
      let step : run k on_commit c [] ≡ commit k on_commit c =
        unfold run run_open in rw (v.unfinished, v.started) in
      let last : commit k on_commit c
          ≡ (true, record (reset_outstream k on_commit c') { status = 200 }) =
        unfold commit in rw e in
      rw (step, last)
        (record {
          returned = refl;
          finished = fi;
          status = refl;
          content = w ∙ v.content;
          last = i;
          earlier = c.committed;
          committed = log;
          complete = ii;
          none_earlier = v.none_complete;
        })

  -- The first call opens the stream.
  pub first-IsOpen :
      (i : Instructions) (b : Bytes)
      → is_empty i.name ≡ false
      → i.is_complete ≡ false
      → k.good (k.open_write i.name i.version i.copies i.offset) ≡ true
      → length b ≤ 65536
      → (c' : Cmd k on_commit) × (run k on_commit (new k on_commit i) b ≡ (true, c'))
        × IsOpen r on_commit keeps
            (r.written (k.open_write i.name i.version i.copies i.offset))
            b
            c'
  first-IsOpen i b named open_request good h =
      let c = open_stream k on_commit (new k on_commit i) in
      let v : IsOpen r on_commit keeps (r.written (k.open_write i.name i.version i.copies i.offset))
          [] (start_command c) =
        unfold open_stream start_command in
        record {
          started = refl;
          unfinished = refl;
          incomplete = open_request;
          level = omega arith;
          content = sym (append-nil _);
          none_complete = tt;
        } in
      let (c', ran, v') = run_open-IsOpen _ [] c b v (unfold open_stream in inr refl) h in
      let step : run k on_commit (new k on_commit i) b ≡ run_open k on_commit c b =
        unfold run open_stream in rw (named, good) in
      (c', step ∙ ran, v')

  -- An upload, over streams on which no call fails: the request names a key, is not marked
  -- complete, and the store opens a stream for it. The first buffer may be empty, the others are
  -- not, and none is longer than 64 KiB. Then the call with no buffer returns true with status
  -- 200 and the command has finished. The stream has got all buffers in their order, no byte
  -- twice and none left out, behind what it held when it was opened. `_onCommit` has run on
  -- instructions marked complete exactly once, at the end.
  pub run-upload :
      (i : Instructions) (b : Bytes) (bs : List Bytes)
      → is_empty i.name ≡ false
      → i.is_complete ≡ false
      → k.good (k.open_write i.name i.version i.copies i.offset) ≡ true
      → length b ≤ 65536
      → AreChunks bs
      → Ended r on_commit keeps
          (r.written (k.open_write i.name i.version i.copies i.offset))
          (b ++ concat bs)
          (run k on_commit (feed k on_commit (run k on_commit (new k on_commit i) b).1 bs) [])
  run-upload i b bs named open_request good h chunks =
      let (c', ran, v') = first-IsOpen i b named open_request good h in
      rw ran (run_end _ (b ++ concat bs) (feed k on_commit c' bs) (feed-IsOpen _ b c' bs v' chunks))

run_finished :
    (k : Streams) (on_commit : Instructions → k.Reader → Instructions) (c : Cmd k on_commit)
    (b : Bytes)
    → c.finished ≡ true
    → run k on_commit c b ≡ (false, c)
unfolding run
run_finished k f c b h = simp h

-- A command that has finished takes nothing more: whatever buffers follow, it stays as it is, and
-- each call returns false.
pub feed-finished :
    (k : Streams) (on_commit : Instructions → k.Reader → Instructions) (c : Cmd k on_commit)
    (bs : List Bytes)
    → c.finished ≡ true
    → (feed k on_commit c bs ≡ c) × ((b : Bytes) → run k on_commit c b ≡ (false, c))
feed-finished k f c [] h = (refl, λ b. run_finished k f c b h)
feed-finished k f c (b ∷ bs) h =
    (rw (run_finished k f c b h) (feed-finished k f c bs h).0, λ b. run_finished k f c b h)
