-- ===== src/Common/MerklePoint.antt =====
-- src/lib/common/MerklePoint.cpp: a location in the tree of the library beside the program, written
-- to a stream and read from one.
pub mod RoundTrip
use turbopump.Prelude.{
  ℕ, zero, suc, ◌+◌, ◌-◌, ◌*◌, ◌/◌, ◌%◌, ◌^◌, Bool, true, false, ◌&&◌, ◌||◌, Bytes, [], ◌∷◌, ◌++◌,
  Option, none, some, codes, ltb, leb, ◌==◌, if◌then◌else◌,
}

pub record MerklePoint : Type 0 where
  pub key : ℕ
  pub keybits : ℕ
  pub hash : ℕ

-- The digits of a number, on enough fuel.
unfoldable pub digits : ℕ → ℕ → Bytes
digits zero n = []
digits (suc fuel) n =
    let more = digits fuel (n / 10) in
    if ltb n 10 then (48 + n) ∷ [] else more ++ (48 + n % 10) ∷ []

-- operator<< of an unsigned number
unfoldable pub decimal : ℕ → Bytes
decimal n = digits (n + 1) n

unfoldable pub to_string : MerklePoint → Bytes
to_string p = decimal p.key ++ (codes " " ++ (decimal p.keybits ++ (codes " " ++ decimal p.hash)))

abbrev pub is_digit : ℕ → Bool
is_digit c = leb 48 c && leb c 57

unfoldable pub is_space : ℕ → Bool
is_space c = c == 32 || leb 9 c && leb c 13

unfoldable pub skip_spaces : Bytes → Bytes
skip_spaces [] = []
skip_spaces (c ∷ cs) = let rest = skip_spaces cs in if is_space c then rest else c ∷ cs

-- The digits at the front, behind a number that has been read, and what is left.
unfoldable pub read_digits : ℕ → Bytes → ℕ × Bytes
read_digits acc [] = (acc, [])
read_digits acc (c ∷ cs) =
    let rest = read_digits (acc * 10 + (c - 48)) cs in if is_digit c then rest else (acc, c ∷ cs)

unfoldable pub read_unsigned : ℕ → Bytes → Option (ℕ × Bytes)
read_unsigned bound [] = none
read_unsigned bound (c ∷ cs) =
    let (n, rest) = read_digits 0 (c ∷ cs) in
    if is_digit c then (if ltb n bound then some (n, rest) else none) else none

negate : ℕ → Option (ℕ × Bytes) → Option (ℕ × Bytes)
negate bound none = none
negate bound (some (n, rest)) = some ((bound - n) % bound, rest)

-- operator>> of an unsigned number below `bound`, which takes a sign.
unfoldable pub read_signed : ℕ → Bytes → Option (ℕ × Bytes)
unfolding read_unsigned negate
read_signed bound [] = none
read_signed bound (c ∷ cs) =
    if c == b'-'
    then negate bound (read_unsigned bound cs)
    else if c == b'+'
    then read_unsigned bound cs
    else read_unsigned bound (c ∷ cs)

unfoldable pub read_number : ℕ → Bytes → Option (ℕ × Bytes)
unfolding read_signed skip_spaces is_space
read_number bound b = read_signed bound (skip_spaces b)

infixl 5 ◌>>=◌
abbrev pub ◌>>=◌ {ℓ κ} : {A : Type ℓ} {B : Type κ} → Option A → (A → Option B) → Option B
none >>= f = none
some a >>= f = f a

-- The three numbers in turn. `bits` is the bound of the number of bits, by its type in the library.
unfoldable pub from_string : (bits : ℕ) → Bytes → Option MerklePoint
unfolding read_number
from_string bits b = do
  (key, r1) ← read_number (2 ^ 64) b
  (keybits, r2) ← read_number bits r1
  (hash, r3) ← read_number (2 ^ 64) r2
  some (record { key = key; keybits = keybits; hash = hash })
