-- ===== src/Wire/DataBuffer.antt =====
-- src/lib/common/DataBuffer.cpp. A buffer is the bytes that its pointer and size delimit.
use turbopump.Prelude.{ℕ, ◌≤◌, ◌≡◌, Bytes, [], ◌∷◌, ltb, length, take, drop, if◌then◌else◌, arith}

pub record DataBuffer : Type 0 where
  pub bytes : Bytes

-- DataBuffer::Null
abbrev pub null : DataBuffer
null = record { bytes = [] }

abbrev pub size : DataBuffer → ℕ
size b = length b.bytes

-- The count that `skip` and `read` move by.
abbrev clip : ℕ → DataBuffer → ℕ
clip bytes b = if ltb (size b) bytes then size b else bytes

unfoldable pub skip : DataBuffer → ℕ → DataBuffer
skip b bytes = record { bytes = drop (clip bytes b) b.bytes }

-- The bytes read, and the buffer behind them.
unfoldable pub read : DataBuffer → ℕ → Bytes × DataBuffer
read b bytes = (take (clip bytes b) b.bytes, record { bytes = drop (clip bytes b) b.bytes })

pub skip_within :
    (b : DataBuffer) (n : ℕ) → n ≤ size b → skip b n ≡ record { bytes = drop n b.bytes }
unfolding skip
skip_within b n h = ground arith

pub skip_header :
    (x y z : ℕ) (rest : Bytes)
    → skip (skip (record { bytes = x ∷ y ∷ z ∷ rest }) 2) 1 ≡ record { bytes = rest }
skip_header x y z rest =
    rw (skip_within (record { bytes = x ∷ y ∷ z ∷ rest }) 2 (omega arith))
      (skip_within (record { bytes = z ∷ rest }) 1 (omega arith))
