-- ===== src/Api/WriteCommand.antt =====
-- src/lib/api/WriteCommand.cpp.
pub mod Open
pub mod Upload
use turbopump.Prelude.{
  ℕ, ◌+◌, ◌-◌, ◌%◌, ◌^◌, Bool, true, false, Bytes, List, [], ◌∷◌, none, some, length, take, drop,
  ltb, is_empty, if◌then◌else◌,
}
use turbopump.Api.Instructions.{Instructions}
use turbopump.Storage.Streams.{Streams}

-- The members of the command. `committed` keeps the instructions with which `_onCommit` has been
-- called, the last first.
pub record Command (W : Type 0) : Type 0 where
  pub instructions : Instructions
  pub started : Bool
  pub finished : Bool
  pub bytes_since_flush : ℕ
  pub status : ℕ
  pub writer : W
  pub committed : List Instructions

-- setStatus
abbrev pub set_status : {W : Type 0} → Command W → ℕ → Bool × Command W
set_status c code = (ltb code 400, record c { status = code })

module _ (k : Streams) (on_commit : Instructions → k.Reader → Instructions) where
  abbrev pub Cmd : Type 0
  Cmd = Command k.Writer

  abbrev pub new : Instructions → Cmd
  new request = record {
    instructions = request;
    started = false;
    finished = false;
    bytes_since_flush = 0;
    status = 0;
    writer = k.unopened;
    committed = [];
  }

  -- The end of `flush`, with the reader and the writer behind the commit.
  unfoldable pub flushed : Cmd → k.Reader → k.Writer → Cmd
  flushed c reader w =
      let i = c.instructions in
      let i1 = record i { version = if is_empty i.version then k.version reader else i.version } in
      let i2 = on_commit i1 reader in
      record c {
        instructions = record i2 {
          digest = k.digest reader;
          offset = if k.good w then k.position w else i2.offset;
        };
        bytes_since_flush = 0;
        writer = w;
        committed = i1 ∷ c.committed;
      }

  unfoldable pub flush : Cmd → Bool × Cmd
  flush c =
      let (reader, w) = k.commit c.writer c.instructions.is_complete in
      elim reader [ none ↦ (false, record c { writer = w }) | some r ↦ (true, flushed c r w) ]

  -- _instructions.outstream.reset()
  abbrev pub reset_outstream : Cmd → Cmd
  reset_outstream c = record c { instructions = record c.instructions { outstream = none } }

  unfoldable pub commit : Cmd → Bool × Cmd
  commit c =
      let closing = record c {
        finished = true;
        instructions = record c.instructions { is_complete = true };
      } in
      let (ok, c') = flush closing in
      if ok then set_status (reset_outstream c') 200 else set_status c' 500

  abbrev pub put : Cmd → Bytes → Cmd
  put c b = record c { writer = k.write c.writer b }

  -- _bytesSinceLastFlush += bytes
  abbrev pub count : Cmd → ℕ → Cmd
  count c bytes = record c { bytes_since_flush = (c.bytes_since_flush + bytes) % 2 ^ 32 }

  -- The write before the flush.
  unfoldable pub top_off : Cmd → Bytes → ℕ → Cmd
  top_off c buff topoff = if ltb 0 topoff then put c (take topoff buff) else c

  -- The buffer takes the command over the limit: top off, flush, and write the rest.
  unfoldable pub write_over : Cmd → Bytes → ℕ → ℕ → Bool × Cmd
  write_over c buff topoff overfill =
      let (ok, c') = flush (top_off c buff topoff) in
      if ok then (true, count (put c' (take overfill (drop topoff buff))) overfill) else (false, c')

  -- The end of `run`, for a buffer that is not empty.
  unfoldable pub write_buffer : Cmd → Bytes → Bool × Cmd
  write_buffer c buff =
      let size = length buff in
      let next_size = (c.bytes_since_flush + size) % 2 ^ 32 in
      let overfill = next_size - 0x10000 in
      let topoff = (size + 2 ^ 32 - overfill) % 2 ^ 32 in
      if ltb 0x10000 next_size
      then write_over c buff topoff overfill
      else (true, record (put c buff) { bytes_since_flush = next_size })

  -- `run` once the stream is open.
  unfoldable pub run_open : Cmd → Bytes → Bool × Cmd
  run_open c buff =
      if is_empty buff
      then (if c.started then commit c else (true, record c { started = true }))
      else write_buffer (record c { started = true }) buff

  unfoldable pub open_stream : Cmd → Cmd
  open_stream c =
      let i = c.instructions in
      record c { writer = k.open_write i.name i.version i.copies i.offset }

  unfoldable pub run : Cmd → Bytes → Bool × Cmd
  run c buff =
      let opened = open_stream c in
      let first =
        if is_empty c.instructions.name
        then set_status (record c { finished = true }) 400
        else if k.good opened.writer
        then run_open opened buff
        else set_status opened 500 in
      let later = run_open c buff in
      if c.finished then (false, c) else if c.started then later else first
