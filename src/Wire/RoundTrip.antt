-- ===== src/Wire/RoundTrip.antt =====
-- A packed message comes back whole from the parser, and nothing of it is read twice.
use turbopump.Prelude.{
  ℕ, ◌+◌, ◌<◌, ◌≡◌, true, Bytes, ◌++◌, length, length-le_append, take-append_left, drop-append_left,
  le→ltb_false, arith,
}
use turbopump.Wire.DataBuffer.{DataBuffer, skip_within, skip_header}
use turbopump.Wire.MessagePacker.{pack, high_byte, low_byte}
use turbopump.Wire.PacketParser.{get_next, length_field}

length_field-bytes : (n : ℕ) → n < 65535 → length_field (high_byte (n + 1)) (low_byte (n + 1)) ≡ n
length_field-bytes n h = omega arith

-- Whatever follows it, a packet of at most 65534 bytes is parsed back with its channel, and the
-- parser stops right behind it.
pub get_next-pack :
    (id : ℕ) (packet rest : Bytes) (v : ℕ) (old : DataBuffer)
    → length packet < 65535
    → get_next (record { bytes = pack id packet ++ rest }) v old ≡ record {
      found = true;
      virtid = id;
      next = record { bytes = packet };
      rest = record { bytes = rest };
    }
unfolding get_next pack
get_next-pack id packet rest v old h = rw (
  length_field-bytes (length packet) h,
  skip_header (high_byte (length packet + 1)) (low_byte (length packet + 1)) id (packet ++ rest),
  le→ltb_false (length packet) (length (packet ++ rest)) (length-le_append packet rest),
  skip_within (record { bytes = packet ++ rest }) (length packet) (length-le_append packet rest),
  take-append_left packet rest,
  drop-append_left packet rest,
)
