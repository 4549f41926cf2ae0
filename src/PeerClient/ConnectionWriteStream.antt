-- ===== src/PeerClient/ConnectionWriteStream.antt =====
-- src/lib/peer_server/ConnectionWriteStream.cpp, over the writer of a connection (ISocketWriter of
-- the library beside the program).
use turbopump.Prelude.{ℕ, Bool, false, not, Bytes, length, ◌==◌, if◌then◌else◌}
use turbopump.Wire.Socket.{ℤ, pos, negsuc}

pub record Writer : Type 1 where
  pub State : Type 0
  pub capacity : State → ℕ
  pub send : State → Bytes → ℤ × State
  pub try_send : State → Bytes → ℤ × State
  pub flush : State → Bool → Bool × State

-- An `int` against a length of type `unsigned`.
abbrev pub is_count : ℤ → ℕ → Bool
is_count (pos n) length = n == length
is_count (negsuc n) length = false

module _ (w : Writer) where
  pub record Stream : Type 0 where
    pub writer : w.State
    pub blocking : Bool
    pub full : Bool
    pub background : Bool

  abbrev pub new : w.State → Bool → Stream
  new writer blocking = record {
    writer = writer;
    blocking = blocking;
    full = false;
    background = false;
  }

  abbrev pub max_packet_length : Stream → ℕ
  max_packet_length s = w.capacity s.writer

  unfoldable pub write : Stream → Bytes → ℤ × Stream
  write s buff =
      let (sent, writer) = w.send s.writer buff in
      let (sent', writer') = w.try_send s.writer buff in
      if s.blocking
      then (sent, record s { writer = writer })
      else (sent', record s { writer = writer'; full = not (is_count sent' (length buff)) })

  unfoldable pub flush : Stream → Bool × Stream
  flush s = let (ok, writer) = w.flush s.writer s.blocking in (ok, record s { writer = writer })

  abbrev pub set_background : Stream → Bool → Stream
  set_background s background = record s { background = background }
