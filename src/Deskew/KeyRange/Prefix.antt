-- ===== src/Deskew/KeyRange/Prefix.antt =====
-- src/lib/deskew/KeyRange.cpp: the keys of a range.
use native.Mathlib.Nat.{
  div-eq_of_lt, mod-add-div, mul_comm, one-le-pow, mul-suc, suc-mul, div-lt_iff_lt-mul, mod-lt,
  mul-le-mul_right,
}
use turbopump.Prelude.{
  ℕ, suc, ◌+◌, ◌-◌, ◌*◌, ◌/◌, ◌%◌, ◌^◌, ◌<◌, ◌≤◌, ◌≡◌, ◌↔◌, refl, sym, ◌∙◌, ap, subst, arith, false,
  true, leb, ◌==◌, div-of, xor-add, pow_add, Bool-cases, inl, inr,
}
use turbopump.Common.MerklePoint.{MerklePoint}
use turbopump.Deskew.KeyRange.{from_location, be64, all_ones}
use turbopump.Deskew.KeyRange.ByteOrder.{be64-be64, be64-bound}

-- What is left of 64 ones.
ones-right : (n m : ℕ) → n + m ≡ 64 → all_ones / 2 ^ n ≡ 2 ^ m - 1
ones-right n m e =
    let whole : 2 ^ n * 2 ^ m ≡ 2 ^ 64 = sym (pow_add n m) ∙ ap (λ k. 2 ^ k) e in
    let some : 1 ≤ 2 ^ n = one-le-pow n 2 (omega arith) in
    let some' : 1 ≤ 2 ^ m = one-le-pow m 2 (omega arith) in
    let rest : 2 ^ n * (2 ^ m - 1) + 2 ^ n ≡ 2 ^ n * 2 ^ m =
      sym (mul-suc (2 ^ n) (2 ^ m - 1)) ∙ ap (λ k. 2 ^ n * k) (omega arith) in
    (div-of all_ones (2 ^ n - 1) (2 ^ n) (2 ^ m - 1) (omega (arith, whole, rest, some, some'))
      (omega (arith, some))).0

-- The keys of which the first `bits` bits in memory are those of the point.
abbrev pub prefix : ℕ → ℕ → ℕ
prefix bits k = be64 k / 2 ^ (64 - bits)

-- The ends of a range: the lowest and the highest number with these first bits.
abbrev pub Ends : MerklePoint → Type 0
Ends p =
    let s = 2 ^ (64 - p.keybits) in
    let q = prefix p.keybits p.key in
    (be64 (from_location p).first ≡ s * q) × (be64 (from_location p).last ≡ s * q + (s - 1))

some-Ends : (p : MerklePoint) → 0 < p.keybits → p.keybits < 64 → Ends p
some-Ends p some_bits few =
    let n = 64 - p.keybits in
    let s = 2 ^ n in
    let q = prefix p.keybits p.key in
    let bits : p.keybits + n ≡ 64 = omega arith in
    let first : be64 p.key / s * s ≡ s * q = mul_comm q s in
    let ones : all_ones / 2 ^ p.keybits ≡ s - 1 = ones-right p.keybits n bits in
    let some : 1 ≤ s = one-le-pow n 2 (omega arith) in
    let last = xor-add n q (s - 1) (omega (arith, some)) in
    let whole : 2 ^ p.keybits * s ≡ 2 ^ 64 = sym (pow_add p.keybits n) ∙ ap (λ m. 2 ^ m) bits in
    let below : q < 2 ^ p.keybits =
      (div-lt_iff_lt-mul {k = s} some).1
        (subst (λ m. be64 p.key < m) (sym whole) (be64-bound p.key)) in
    let grown : suc q * s ≤ 2 ^ p.keybits * s = mul-le-mul_right s below in
    let bound : s * q + s ≤ 2 ^ 64 = omega (arith, grown, whole, suc-mul q s, mul_comm q s) in
    let front = be64-be64 (s * q) (omega (arith, bound, some)) in
    let back = be64-be64 (s * q + (s - 1)) (omega (arith, bound, some)) in
    let not_whole : leb 64 p.keybits ≡ false = ground arith in
    let not_none : (p.keybits == 0) ≡ false = ground arith in
    unfold from_location in rw (not_whole, not_none, first, ones, last) (front, back)

within : (s q x : ℕ) → 0 < s → ((s * q ≤ x) × (x ≤ s * q + (s - 1))) ↔ (x / s ≡ q)
within s q x some =
    let parts = mod-add-div x s in
    let left = mod-lt x {m = s} some in
    (
      λ (low, high).
          (div-of x (x - s * q) s q (omega (arith, low)) (omega (arith, low, high, some))).0,
      λ e.
          let here : x % s + s * q ≡ x = ap (λ n. x % s + s * n) (sym e) ∙ parts in
          (omega (arith, here), omega (arith, here, left)),
    )

none-Ends : (p : MerklePoint) → p.keybits ≡ 0 → Ends p
none-Ends p none_bits =
    let first : be64 0 ≡ 0 = unfold be64 in refl in
    let last : be64 all_ones ≡ all_ones = unfold be64 in refl in
    let zero_bits : (p.keybits == 0) ≡ true = ground (arith, none_bits) in
    let not_whole : leb 64 p.keybits ≡ false = ground (arith, none_bits) in
    let nothing : be64 p.key / 2 ^ 64 ≡ 0 = div-eq_of_lt (be64-bound p.key) in
    unfold from_location in rw (not_whole, zero_bits, none_bits, nothing) (first, last)

all-Ends : (p : MerklePoint) → 64 ≤ p.keybits → Ends p
all-Ends p many =
    let none_left : 64 - p.keybits ≡ 0 = omega (arith, many) in
    let whole : leb 64 p.keybits ≡ true = ground (arith, many) in
    unfold from_location in rw (whole, none_left) (omega arith, omega arith)

pub ends : (p : MerklePoint) → Ends p
ends p = elim (Bool-cases (leb 64 p.keybits)) [
  | inl whole ↦ all-Ends p (ground (arith, whole))
  | inr part ↦ elim (Bool-cases (p.keybits == 0)) [
    | inl none_bits ↦ none-Ends p (ground (arith, none_bits))
    | inr some_bits ↦ some-Ends p (ground (arith, some_bits)) (ground (arith, part))
  ]
]

-- A key is in the range of a point, in the order of the bytes of keys in memory and the ends
-- included, exactly when as many of its first bits as the point has are those of the key of the
-- point, for any point and key, none of its bits and all of them included.
pub from_location-prefix :
    (p : MerklePoint) (k : ℕ)
    → ((be64 (from_location p).first ≤ be64 k) × (be64 k ≤ be64 (from_location p).last))
      ↔ (prefix p.keybits k ≡ prefix p.keybits p.key)
from_location-prefix p k =
    let (first, last) = ends p in
    rw (first, last) (within _ _ (be64 k) (one-le-pow (64 - p.keybits) 2 (omega arith)))
