-- ===== src/Common/MerklePoint/RoundTrip.antt =====
-- src/lib/common/MerklePoint.cpp: a point that is written is read as it was.
use turbopump.Prelude.{
  ℕ, zero, suc, ◌+◌, ◌-◌, ◌*◌, ◌/◌, ◌%◌, ◌^◌, ◌<◌, ◌≡◌, refl, ◌∙◌, true, false, Bytes, [], ◌∷◌,
  ◌++◌, some, codes, ltb, arith, Bool-cases, inl, inr, append_assoc, append-nil, lt→ltb,
}
use turbopump.Common.MerklePoint.{
  MerklePoint, digits, decimal, to_string, is_digit, is_space, skip_spaces, read_digits,
  read_unsigned, read_signed, read_number, from_string,
}

is_digit_add : (d : ℕ) → d < 10 → is_digit (48 + d) ≡ true
is_digit_add d h = ground arith

read_digits_step :
    (acc d : ℕ) (rest : Bytes)
    → d < 10
    → read_digits acc ((48 + d) ∷ rest) ≡ read_digits (acc * 10 + d) rest
unfolding read_digits
read_digits_step acc d rest h =
    let e : 48 + d - 48 ≡ d = omega arith in rw (is_digit_add d h, e) refl

-- Digits are read behind those that have been read.
read_digits-digits :
    (fuel n : ℕ) (rest : Bytes)
    → n < fuel
    → read_digits 0 (digits fuel n ++ rest) ≡ read_digits n rest
unfolding digits
read_digits-digits zero n rest h = absurd (omega arith)
read_digits-digits (suc fuel) n rest h = elim (Bool-cases (ltb n 10)) [
  | inl small ↦
      let e : 0 * 10 + n ≡ n = omega arith in
      rw small (read_digits_step 0 n rest (ground (arith, small)) ∙ rw e refl)
  | inr large ↦
      let e : n / 10 * 10 + n % 10 ≡ n = omega arith in
      rw (large, append_assoc)
        (read_digits-digits fuel (n / 10) ((48 + n % 10) ∷ rest) (ground (arith, h, large))
          ∙ read_digits_step (n / 10) (n % 10) rest (omega arith)
          ∙ rw e refl)
]

-- A number begins with a digit.
digits_front :
    (fuel n : ℕ)
    → n < fuel
    → (d : ℕ) × (more : Bytes) × (digits fuel n ≡ (48 + d) ∷ more) × (d < 10)
unfolding digits
digits_front zero n h = absurd (omega arith)
digits_front (suc fuel) n h = elim (Bool-cases (ltb n 10)) [
  | inl small ↦ (n, [], rw small refl, ground (arith, small))
  | inr large ↦
      let (d, more, e, digit) = digits_front fuel (n / 10) (ground (arith, h, large)) in
      (d, more ++ (48 + n % 10) ∷ [], rw (large, e) refl, digit)
]

-- What follows a number: the end, or a byte that is no digit.
abbrev pub IsEnd : Bytes → Type 0
IsEnd [] = Unit {0}
IsEnd (c ∷ cs) = is_digit c ≡ false

read_digits_end : (n : ℕ) (rest : Bytes) → IsEnd rest → read_digits n rest ≡ (n, rest)
unfolding read_digits
read_digits_end n [] h = refl
read_digits_end n (c ∷ cs) h = rw h refl

read_unsigned-decimal :
    (bound n : ℕ) (rest : Bytes)
    → n < bound
    → IsEnd rest
    → read_unsigned bound (decimal n ++ rest) ≡ some (n, rest)
unfolding decimal read_unsigned
read_unsigned-decimal bound n rest h end =
    let (d, more, e, digit) = digits_front (n + 1) n (omega arith) in
    let all = read_digits-digits (n + 1) n rest (omega arith) ∙ read_digits_end n rest end in
    let all' : read_digits 0 ((48 + d) ∷ (more ++ rest)) ≡ (n, rest) = rw e at all in
    rw (e) (rw (all', is_digit_add d digit, lt→ltb n bound h) refl)

pub read_number-decimal :
    (bound n : ℕ) (rest : Bytes)
    → n < bound
    → IsEnd rest
    → read_number bound (decimal n ++ rest) ≡ some (n, rest)
unfolding read_number skip_spaces is_space read_signed decimal
read_number-decimal bound n rest h end =
    let (d, more, e, digit) = digits_front (n + 1) n (omega arith) in
    let read = read_unsigned-decimal bound n rest h end in
    let read' : read_unsigned bound ((48 + d) ∷ (more ++ rest)) ≡ some (n, rest) = rw e at read in
    rw e (ground (arith, read', digit))

pub read_number-space :
    (bound : ℕ) (b : Bytes) → read_number bound (codes " " ++ b) ≡ read_number bound b
unfolding read_number skip_spaces is_space
read_number-space bound b = refl

-- A point that is written is read as it was, where its numbers are within their types.
pub from_string-to_string :
    (bits : ℕ) (p : MerklePoint)
    → p.key < 2 ^ 64
    → p.keybits < bits
    → p.hash < 2 ^ 64
    → from_string bits (to_string p) ≡ some p
unfolding from_string to_string
from_string-to_string bits p hk hb hh =
    let third = read_number-decimal (2 ^ 64) p.hash [] hh tt in
    let third' : read_number (2 ^ 64) (decimal p.hash) ≡ some (p.hash, []) =
      rw append-nil at third in
    rw
      (
        read_number-decimal (2 ^ 64) p.key
            (codes " " ++ (decimal p.keybits ++ (codes " " ++ decimal p.hash))) hk refl,
        read_number-space bits (decimal p.keybits ++ (codes " " ++ decimal p.hash)),
        read_number-decimal bits p.keybits (codes " " ++ decimal p.hash) hb refl,
        read_number-space (2 ^ 64) (decimal p.hash),
        third',
      )
      refl
