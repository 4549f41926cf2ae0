-- ===== src/Wire/Frames.antt =====
-- What the bytes between two peers stand for: a sequence of frames, each with its channel.
use turbopump.Prelude.{
  ℕ, ◌+◌, ◌<◌, ◌≤◌, ◌≡◌, refl, Bytes, List, [], ◌∷◌, ◌++◌, append_assoc, length, arith,
}
use turbopump.Wire.MessagePacker.{pack}

pub record Frame : Type 0 where
  pub channel : ℕ
  pub packet : Bytes

-- The bytes of a sequence of frames.
abbrev pub wire : List Frame → Bytes
wire [] = []
wire (f ∷ fs) = pack f.channel f.packet ++ wire fs

-- The bytes of the packets alone.
abbrev pub payload : List Frame → Bytes
payload [] = []
payload (f ∷ fs) = f.packet ++ payload fs

-- Every packet fits the 16 bits of its length field, and n bytes.
abbrev pub FitIn : ℕ → List Frame → Type 0
FitIn n [] = Unit {0}
FitIn n (f ∷ fs) = (length f.packet < n) × FitIn n fs

pub wire-append : (fs gs : List Frame) → wire (fs ++ gs) ≡ wire fs ++ wire gs
wire-append [] gs = refl
wire-append (f ∷ fs) gs = rw (wire-append fs gs) (rw append_assoc)

pub length-pack : (id : ℕ) (packet : Bytes) → length (pack id packet) ≡ length packet + 3
unfolding pack
length-pack id packet = omega arith

pub FitIn-mono : (m n : ℕ) (fs : List Frame) → m ≤ n → FitIn m fs → FitIn n fs
FitIn-mono m n [] h k = tt
FitIn-mono m n (f ∷ fs) h k = (omega arith, FitIn-mono m n fs h k.1)
