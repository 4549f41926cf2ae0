-- ===== src/Wire/PacketParser.antt =====
-- src/lib/peer_server/PacketParser.cpp.
use turbopump.Prelude.{ℕ, ◌+◌, ◌*◌, ◌%◌, Bool, true, false, ◌∷◌, ltb, if◌then◌else◌, take}
use turbopump.Wire.DataBuffer
use turbopump.Wire.DataBuffer.{DataBuffer, skip}

-- What a call of getNext leaves: its result, its two out-parameters and the parser's buffer.
pub record Next : Type 0 where
  pub found : Bool
  pub virtid : ℕ
  pub next : DataBuffer
  pub rest : DataBuffer

-- ntohs(...) - 1, as an `unsigned short`.
abbrev pub length_field : ℕ → ℕ → ℕ
length_field hi lo = (hi * 256 + lo + 65535) % 65536

unfoldable pub get_next : DataBuffer → ℕ → DataBuffer → Next
get_next buff virtid next = elim buff.bytes [
  | hi ∷ lo ∷ id ∷ rest ↦
      let length = length_field hi lo in
      let buff' = skip (skip buff 2) 1 in
      if ltb (DataBuffer.size buff') length
      then record { found = false; virtid = id; next = next; rest = buff' }
      else record {
        found = true;
        virtid = id;
        next = record { bytes = take length buff'.bytes };
        rest = skip buff' length;
      }
  | _ ↦ record { found = false; virtid = virtid; next = next; rest = buff }
]
