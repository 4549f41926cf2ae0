-- ===== src/Wire/BufferedWriter.antt =====
-- src/lib/peer_server/BufferedConnectionWriter.h. The calls of one thread at a time: what another
-- thread may write while a blocking flush has released the buffer's lock is not modelled.
pub mod Delivery
pub mod Truncation
use turbopump.Prelude.{
  ℕ, zero, suc, ◌+◌, ◌-◌, ◌*◌, ◌%◌, ◌^◌, min, Bool, true, false, ◌&&◌, Bytes, [], ◌∷◌, ◌++◌, length,
  take, drop, ltb, leb, ◌==◌, if◌then◌else◌,
}
use turbopump.Wire.MessagePacker.{pack}
use turbopump.Wire.Socket.{ℤ, pos, negsuc, to_bool, Socket}

pub record Writer (S : Type 0) : Type 0 where
  pub buffer : Bytes
  pub capacity : ℕ
  pub sock : S

-- The constructor, for a packet size that is at least 3.
abbrev pub init : {S : Type 0} → S → ℕ → Writer S
init sock packetsize = record { buffer = []; capacity = packetsize - 3; sock = sock }

-- The loop of findFirstTruncatedPacket, over the bytes from position i on.
unfoldable pub truncated_from : ℕ → Bytes → ℕ → ℕ → ℕ
truncated_from zero rest i size = i
truncated_from (suc fuel) rest i size =
    let stop = if ltb i size then i else size in
    elim rest [
      | hi ∷ lo ∷ r ↦
          let packet_len = hi * 256 + lo in
          let next = truncated_from fuel (drop packet_len r) (i + 2 + packet_len) size in
          if ltb i size then (if ltb size (packet_len + i + 2) then i else next) else size
      | _ ↦ stop
    ]

-- Each round goes at least two bytes forward, so that `size` rounds are enough.
unfoldable pub find_first_truncated_packet : Bytes → ℕ → ℕ
find_first_truncated_packet buff size = truncated_from (size + 1) buff 0 size

module _ (k : Socket) where
  abbrev pub W : Type 0
  W = Writer k.State

  unfoldable pub push_bytes : W → ℕ → Bytes → W
  push_bytes w virtid buff = record w { buffer = w.buffer ++ pack virtid buff }

  -- The end of a flush that does not block, from what try_send returned.
  unfoldable pub after_try_send : W → ℤ → Bool × W
  after_try_send w (pos res) =
      if res == length w.buffer
      then (true, record w { buffer = [] })
      else if ltb 0 res
      then (false, record w { buffer = drop (find_first_truncated_packet w.buffer res) w.buffer })
      else (false, w)
  after_try_send w (negsuc n) = (false, w)

  unfoldable pub flush_internal : Bool → W → Bool × W
  unfolding after_try_send
  flush_internal true w =
      let r = k.send w.sock w.buffer in (to_bool r.0, record w { buffer = []; sock = r.1 })
  flush_internal false w =
      let r = k.try_send w.sock w.buffer in after_try_send (record w { sock = r.1 }) r.0

  -- The loop of `write`: what is left of the buffer, the count `remaining`, and `good`. The fuel
  -- bounds the rounds.
  unfoldable pub write_loop : ℕ → Bool → W → ℕ → Bytes → ℕ → Bool → ℕ × W
  write_loop zero blocking w virtid buff remaining good = (remaining, w)
  write_loop (suc fuel) blocking w virtid buff remaining false = (remaining, w)
  write_loop (suc fuel) blocking w virtid buff remaining true =
      let total = (length w.buffer + remaining) % 2 ^ 32 in
      let full = leb w.capacity total in
      let room = ltb (length w.buffer) w.capacity in
      let packet_size =
        if full then (if room then w.capacity - length w.buffer else total) else remaining in
      let pushed = push_bytes w virtid (take packet_size buff) in
      let flushed = flush_internal blocking (if room then pushed else w) in
      let (good', w') = if full then flushed else (true, pushed) in
      let remaining' = remaining - min packet_size remaining in
      let again = write_loop fuel blocking w' virtid (drop packet_size buff) remaining' good' in
      if remaining' == 0 then (remaining', w') else again

  -- The count of bytes taken, and the writer.
  unfoldable pub write : Bool → W → ℕ → Bytes → ℕ × W
  write blocking w virtid buff =
      let n = length buff in
      let first = flush_internal blocking w in
      let (good, w') =
        if ltb 0 (length w.buffer) && ltb w.capacity (length w.buffer + n)
        then first
        else (true, w) in
      let (remaining, w'') = write_loop (n + 1) blocking w' virtid buff n good in
      (n - remaining, w'')

  unfoldable pub flush : Bool → W → Bool × W
  flush blocking w = flush_internal blocking w
