-- ===== src/Api/WriteCommand/Open.antt =====
-- src/lib/api/WriteCommand.cpp over streams on which nothing fails: what a command has been given
-- is what its stream has got.
use turbopump.Prelude.{
  ℕ, zero, suc, ◌+◌, ◌-◌, ◌%◌, ◌^◌, ◌≤◌, ◌<◌, ◌≡◌, refl, ap, ◌∙◌, subst, Bool, true, false, Bytes,
  List, [], ◌∷◌, ◌++◌, append_assoc, append-nil, length, take, drop, arith, lt→ltb, le→ltb_false,
  take-append-drop, length-drop, take_all, dec_lt,
}
use turbopump.Api.Instructions.{Instructions}
use turbopump.Storage.Streams.{Streams, IsReliable}
use turbopump.Api.WriteCommand.{Cmd, flushed, flush, write_buffer, put, count, top_off, write_over}

-- No committed instructions were complete.
abbrev pub NoneComplete : List Instructions → Type 0
NoneComplete [] = Unit {0}
NoneComplete (i ∷ is) = (i.is_complete ≡ false) × NoneComplete is

module _ {k : Streams} (r : IsReliable k) (on_commit : Instructions → k.Reader → Instructions)
    (keeps : (i : Instructions) (x : k.Reader) → (on_commit i x).is_complete ≡ i.is_complete) where
  -- A command that takes data: `all` is what its stream has been given since it was opened.
  pub record IsOpen (start all : Bytes) (c : Cmd k on_commit) : Type 0 where
    pub started : c.started ≡ true
    pub unfinished : c.finished ≡ false
    pub incomplete : c.instructions.is_complete ≡ false
    pub level : c.bytes_since_flush ≤ 65536
    pub content : r.written c.writer ≡ start ++ all
    pub none_complete : NoneComplete c.committed

  -- A command that has ended well.
  pub record Ended (start all : Bytes) (result : Bool × Cmd k on_commit) : Type 0 where
    pub returned : result.0 ≡ true
    pub finished : result.1.finished ≡ true
    pub status : result.1.status ≡ 200
    pub content : r.written result.1.writer ≡ start ++ all
    pub last : Instructions
    pub earlier : List Instructions
    pub committed : result.1.committed ≡ last ∷ earlier
    pub complete : last.is_complete ≡ true
    pub none_earlier : NoneComplete earlier

  pub flush-reliable :
      (c : Cmd k on_commit)
      → (c' : Cmd k on_commit) × (flush k on_commit c ≡ (true, c'))
        × (r.written c'.writer ≡ r.written c.writer)
        × (c'.bytes_since_flush ≡ 0)
        × (c'.started ≡ c.started)
        × (c'.finished ≡ c.finished)
        × (c'.instructions.is_complete ≡ c.instructions.is_complete)
        × (i : Instructions) × (c'.committed ≡ i ∷ c.committed)
        × (i.is_complete ≡ c.instructions.is_complete)
  unfolding flush flushed
  flush-reliable c =
      let (x, e) = r.commits c.writer c.instructions.is_complete in
      (
        flushed k on_commit c x (k.commit c.writer c.instructions.is_complete).1,
        rw (e, flush),
        r.written-commit c.writer c.instructions.is_complete,
        refl,
        refl,
        refl,
        keeps _ x,
        _,
        refl,
        refl,
      )

  short_write :
      (start all : Bytes) (c : Cmd k on_commit) (b : Bytes)
      → IsOpen start all c
      → length b ≤ 65536
      → c.bytes_since_flush + length b ≤ 65536
      → (c' : Cmd k on_commit) × (write_buffer k on_commit c b ≡ (true, c'))
        × IsOpen start (all ++ b) c'
  unfolding write_buffer
  short_write start all c b v h fits =
      let e : (c.bytes_since_flush + length b) % 2 ^ 32 ≡ c.bytes_since_flush + length b =
        omega arith in
      (
        record c {
          writer = k.write c.writer b;
          bytes_since_flush = c.bytes_since_flush + length b;
        },
        rw (e, le→ltb_false _ _ fits),
        record {
          started = v.started;
          unfinished = v.unfinished;
          incomplete = v.incomplete;
          level = fits;
          content = r.written-write c.writer b ∙ rw v.content (append_assoc start all b);
          none_complete = v.none_complete;
        },
      )

  top_off-IsOpen :
      (start all : Bytes) (c : Cmd k on_commit) (b : Bytes) (t : ℕ)
      → IsOpen start all c
      → IsOpen start (all ++ take t b) (top_off k on_commit c b t)
  unfolding top_off
  top_off-IsOpen start all c b zero v = rw append-nil v
  top_off-IsOpen start all c b (suc t) v = rw (lt→ltb 0 (suc t) (omega arith)) (record {
    started = v.started;
    unfinished = v.unfinished;
    incomplete = v.incomplete;
    level = v.level;
    content = r.written-write c.writer (take (suc t) b) ∙ rw v.content (append_assoc start all _);
    none_complete = v.none_complete;
  })

  flush-IsOpen :
      (start all : Bytes) (c : Cmd k on_commit)
      → IsOpen start all c
      → (c' : Cmd k on_commit) × (flush k on_commit c ≡ (true, c'))
        × (c'.bytes_since_flush ≡ 0)
        × IsOpen start all c'
  flush-IsOpen start all c v =
      let (c', e, w, z, st, fi, ic, i, log, ii) = flush-reliable c in
      (
        c',
        e,
        z,
        record {
          started = st ∙ v.started;
          unfinished = fi ∙ v.unfinished;
          incomplete = ic ∙ v.incomplete;
          level = omega arith;
          content = w ∙ v.content;
          none_complete = rw log (ii ∙ v.incomplete, v.none_complete);
        },
      )

  write_over-IsOpen :
      (start all : Bytes) (c : Cmd k on_commit) (b : Bytes) (t o : ℕ)
      → IsOpen start all c
      → length (drop t b) ≡ o
      → o ≤ 65536
      → (c' : Cmd k on_commit) × (write_over k on_commit c b t o ≡ (true, c'))
        × IsOpen start (all ++ b) c'
  write_over-IsOpen start all c b t o v el h =
      let (c1, e, z, v1) =
        flush-IsOpen start (all ++ take t b) (top_off k on_commit c b t)
          (top_off-IsOpen start all c b t v) in
      let rest : take o (drop t b) ≡ drop t b =
        subst (λ m. take m (drop t b) ≡ drop t b) el (take_all (drop t b)) in
      let level : (c1.bytes_since_flush + o) % 2 ^ 32 ≡ o = omega arith in
      (
        count k on_commit (put k on_commit c1 (drop t b)) o,
        unfold write_over in rw (e, rest),
        record {
          started = v1.started;
          unfinished = v1.unfinished;
          incomplete = v1.incomplete;
          level = rw level h;
          content =
              r.written-write c1.writer (drop t b)
              ∙ rw v1.content (
                  append_assoc start (all ++ take t b) (drop t b)
                  ∙ ap (◌++◌ start) (
                      append_assoc all (take t b) (drop t b)
                      ∙ ap (◌++◌ all) (take-append-drop t b)));
          none_complete = v1.none_complete;
        },
      )

  long_write :
      (start all : Bytes) (c : Cmd k on_commit) (b : Bytes)
      → IsOpen start all c
      → length b ≤ 65536
      → 65536 < c.bytes_since_flush + length b
      → (c' : Cmd k on_commit) × (write_buffer k on_commit c b ≡ (true, c'))
        × IsOpen start (all ++ b) c'
  unfolding write_buffer
  long_write start all c b v h over =
      let o = c.bytes_since_flush + length b - 65536 in
      let t = length b - o in
      let e : (c.bytes_since_flush + length b) % 2 ^ 32 ≡ c.bytes_since_flush + length b =
        omega arith in
      let et : (length b + 2 ^ 32 - o) % 2 ^ 32 ≡ t = omega (arith, v.level) in
      let (c', ran, v') =
        write_over-IsOpen start all c b t o v (omega (arith, v.level, length-drop t b))
          (omega (arith, v.level)) in
      let step : write_buffer k on_commit c b ≡ write_over k on_commit c b t o =
        rw (e, lt→ltb _ _ over, et) in
      (c', step ∙ ran, v')

  pub write_buffer-IsOpen :
      (start all : Bytes) (c : Cmd k on_commit) (b : Bytes)
      → IsOpen start all c
      → length b ≤ 65536
      → (c' : Cmd k on_commit) × (write_buffer k on_commit c b ≡ (true, c'))
        × IsOpen start (all ++ b) c'
  write_buffer-IsOpen start all c b v h = elim (dec_lt 65536 (c.bytes_since_flush + length b)) [
    | yes over ↦ long_write start all c b v h over
    | no fits ↦ short_write start all c b v h (omega arith)
  ]
