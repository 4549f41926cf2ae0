-- ===== src/Wire/MessagePacker.antt =====
-- src/lib/peer_client/MessagePacker.cpp.
use turbopump.Prelude.{ℕ, Bytes, ◌∷◌, ◌+◌, ◌/◌, ◌%◌, length}

-- htons: the two bytes of an `unsigned short`, the high one first.
abbrev pub high_byte : ℕ → ℕ
high_byte n = n % 65536 / 256

abbrev pub low_byte : ℕ → ℕ
low_byte n = n % 256

-- `pack` fills the string that `package` sizes; they are one function here.
unfoldable pub pack : ℕ → Bytes → Bytes
pack id packet = high_byte (length packet + 1) ∷ low_byte (length packet + 1) ∷ id ∷ packet
