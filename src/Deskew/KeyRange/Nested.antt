-- ===== src/Deskew/KeyRange/Nested.antt =====
-- src/lib/deskew/KeyRange.cpp: what the ends of a range inside another are as numbers.
use native.Mathlib.Nat.{one-le-pow, pow-le-pow_right, mul-le-mul_right, add-mul, mul_assoc}
use turbopump.Prelude.{
  ℕ, zero, suc, ◌+◌, ◌-◌, ◌*◌, ◌/◌, ◌%◌, ◌^◌, ◌≤◌, ◌<◌, ◌≡◌, refl, sym, ◌∙◌, ap, subst, leb, ◌==◌,
  pow_add, dec_lt, Bool-cases, inl, inr, arith,
}
use turbopump.Common.MerklePoint.{MerklePoint}
use turbopump.Deskew.KeyRange.{from_location, be64, swap_bytes}
use turbopump.Deskew.KeyRange.ByteOrder.{be64-be64, be64-bound}
use turbopump.Deskew.KeyRange.Prefix.{prefix, ends}

swap_bytes-zero : (n : ℕ) → swap_bytes n 0 ≡ 0
unfolding swap_bytes
swap_bytes-zero zero = refl
swap_bytes-zero (suc n) = let rest = swap_bytes-zero n in rw rest (omega arith)

-- No carry from the lowest byte, nor from the others.
add_step :
    (n a e : ℕ)
    → (a + e) % 256 ≡ a % 256 + e % 256
    → (a + e) / 256 ≡ a / 256 + e / 256
    → swap_bytes n (a / 256 + e / 256) ≡ swap_bytes n (a / 256) + swap_bytes n (e / 256)
    → swap_bytes (suc n) (a + e) ≡ swap_bytes (suc n) a + swap_bytes (suc n) e
unfolding swap_bytes
add_step n a e low high rest =
    rw (low, high, rest) (omega (arith, add-mul (a % 256) (e % 256) (256 ^ n)))

small_step :
    (n a e : ℕ)
    → (a + e) % 256 ≡ a % 256 + e % 256
    → e < 256
    → swap_bytes (suc n) (a + e) ≡ swap_bytes (suc n) a + swap_bytes (suc n) e
small_step n a e low small =
    let none_high : e / 256 ≡ 0 = omega (arith, small) in
    let same : a / 256 + e / 256 ≡ a / 256 = omega arith in
    let rest : swap_bytes n (a / 256 + e / 256) ≡ swap_bytes n (a / 256) + swap_bytes n (e / 256) =
      ap (swap_bytes n) same
      ∙ sym (
          ap (λ z. swap_bytes n (a / 256) + swap_bytes n z) none_high
          ∙ ap (λ z. swap_bytes n (a / 256) + z) (swap_bytes-zero n)
          ∙ omega arith) in
    add_step n a e low (omega (arith, low, small)) rest

double_byte : (t q : ℕ) → 2 ^ (8 + t) * q ≡ 256 * (2 ^ t * q)
double_byte t q = ap (λ m. m * q) (pow_add 8 t) ∙ mul_assoc 256 (2 ^ t) q

-- A sum with what is below the lowest bit of a byte has no carry.
low_sum : (s q e : ℕ) → s < 8 → e < 2 ^ s → (2 ^ s * q + e) % 256 ≡ (2 ^ s * q) % 256 + e % 256
low_sum zero q e few h = omega (arith, h)
low_sum (suc zero) q e few h = omega (arith, h)
low_sum (suc (suc zero)) q e few h = omega (arith, h)
low_sum (suc (suc (suc zero))) q e few h = omega (arith, h)
low_sum (suc (suc (suc (suc zero)))) q e few h = omega (arith, h)
low_sum (suc (suc (suc (suc (suc zero))))) q e few h = omega (arith, h)
low_sum (suc (suc (suc (suc (suc (suc zero)))))) q e few h = omega (arith, h)
low_sum (suc (suc (suc (suc (suc (suc (suc zero))))))) q e few h = omega (arith, h)
low_sum (suc (suc (suc (suc (suc (suc (suc (suc s)))))))) q e few h = absurd (omega (arith, few))

swap_bytes-add :
    (n s q e : ℕ)
    → e < 2 ^ s
    → swap_bytes n (2 ^ s * q + e) ≡ swap_bytes n (2 ^ s * q) + swap_bytes n e
swap_bytes-add zero s q e h = unfold swap_bytes in refl
swap_bytes-add (suc n) s q e h = elim (dec_lt s 8) [
  | yes few ↦
      let low = low_sum s q e few h in
      let below : e < 256 =
        omega
          (arith, h, pow-le-pow_right {n = 2} (omega arith) {i = s} {j = 8} (omega (arith, few))) in
      small_step n (2 ^ s * q) e low below
  | no many ↦
      let t = s - 8 in
      let split : s ≡ 8 + t = omega (arith, many) in
      let whole : 2 ^ s * q ≡ 256 * (2 ^ t * q) = ap (λ m. 2 ^ m * q) split ∙ double_byte t q in
      let bound : e < 256 * 2 ^ t = subst (λ m. e < m) (ap (λ m. 2 ^ m) split ∙ pow_add 8 t) h in
      let rest = swap_bytes-add n t q (e / 256) (omega (arith, bound)) in
      let high : (2 ^ s * q) / 256 ≡ 2 ^ t * q = omega (arith, whole) in
      add_step n (2 ^ s * q) e (omega (arith, whole)) (omega (arith, whole)) (
        ap (λ m. swap_bytes n (m + e / 256)) high
        ∙ rest
        ∙ ap (λ m. swap_bytes n m + swap_bytes n (e / 256)) (sym high))
]

ones_below : (s e : ℕ) → s < 8 → e < 2 ^ s → (e % 256 ≤ (2 ^ s - 1) % 256) × (e / 256 ≡ 0)
ones_below zero e few h = (omega (arith, h), omega (arith, h))
ones_below (suc zero) e few h = (omega (arith, h), omega (arith, h))
ones_below (suc (suc zero)) e few h = (omega (arith, h), omega (arith, h))
ones_below (suc (suc (suc zero))) e few h = (omega (arith, h), omega (arith, h))
ones_below (suc (suc (suc (suc zero)))) e few h = (omega (arith, h), omega (arith, h))
ones_below (suc (suc (suc (suc (suc zero))))) e few h = (omega (arith, h), omega (arith, h))
ones_below (suc (suc (suc (suc (suc (suc zero)))))) e few h = (omega (arith, h), omega (arith, h))
ones_below (suc (suc (suc (suc (suc (suc (suc zero))))))) e few h =
    (omega (arith, h), omega (arith, h))
ones_below (suc (suc (suc (suc (suc (suc (suc (suc s)))))))) e few h = absurd (omega (arith, few))

-- A number of s bits is, its bytes swapped, no greater than that of s ones.
swap_bytes-ones : (n s e : ℕ) → e < 2 ^ s → swap_bytes n e ≤ swap_bytes n (2 ^ s - 1)
unfolding swap_bytes
swap_bytes-ones zero s e h = omega arith
swap_bytes-ones (suc n) s e h = elim (dec_lt s 8) [
  | yes few ↦
      let (low, high) = ones_below s e few h in
      let none_high : swap_bytes n (e / 256) ≡ 0 = ap (swap_bytes n) high ∙ swap_bytes-zero n in
      omega (arith, none_high, mul-le-mul_right (256 ^ n) low)
  | no many ↦
      let t = s - 8 in
      let split : s ≡ 8 + t = omega (arith, many) in
      let whole : 2 ^ s ≡ 256 * 2 ^ t = ap (λ m. 2 ^ m) split ∙ pow_add 8 t in
      let positive : 1 ≤ 2 ^ t = one-le-pow t 2 (omega arith) in
      let rest = swap_bytes-ones n t (e / 256) (omega (arith, whole, h)) in
      let high : (2 ^ s - 1) / 256 ≡ 2 ^ t - 1 = omega (arith, whole, positive) in
      let low : e % 256 ≤ (2 ^ s - 1) % 256 = omega (arith, whole, positive) in
      let rest' : swap_bytes n (e / 256) ≤ swap_bytes n ((2 ^ s - 1) / 256) =
        subst (λ m. swap_bytes n (e / 256) ≤ swap_bytes n m) (sym high) rest in
      omega (arith, rest', mul-le-mul_right (256 ^ n) low)
]

pub ends-bound :
    (p : MerklePoint)
    → p.key < 2 ^ 64
    → ((from_location p).first < 2 ^ 64) × ((from_location p).last < 2 ^ 64)
ends-bound p small = elim (Bool-cases (leb 64 p.keybits)) [
  | inl whole ↦ unfold from_location in rw whole (small, small)
  | inr part ↦ elim (Bool-cases (p.keybits == 0)) [
    | inl none_bits ↦ unfold from_location in rw (part, none_bits) (omega arith, omega arith)
    | inr some_bits ↦ unfold from_location in rw (part, some_bits) (be64-bound _, be64-bound _)
  ]
]

-- In the order of the bytes of keys in memory, the one key is no greater than the other.
abbrev pub InOrder : ℕ → ℕ → Type 0
InOrder a b = be64 a ≤ be64 b

-- The part of a number in a range behind the first of the range.
offset_of : (a x m : ℕ) → 1 ≤ m → a ≤ x → x ≤ a + (m - 1) → (x ≡ a + (x - a)) × (x - a < m)
offset_of a x m positive low high = (omega (arith, low), omega (arith, positive, low, high))

-- A key in the range of a point, in that order, also lies between the ends of the range as a number.
pub nested-between :
    (outer : MerklePoint) (x : ℕ)
    → outer.key < 2 ^ 64
    → x < 2 ^ 64
    → InOrder (from_location outer).first x
    → InOrder x (from_location outer).last
    → ((from_location outer).first ≤ x) × (x ≤ (from_location outer).last)
nested-between outer x small small' low high =
    let s = 64 - outer.keybits in
    let a = 2 ^ s * prefix outer.keybits outer.key in
    let (first, last) = ends outer in
    let positive : 1 ≤ 2 ^ s = one-le-pow s 2 (omega arith) in
    let (split, bound) =
      offset_of a (be64 x) (2 ^ s) positive (omega (arith, low, first))
        (omega (arith, high, last)) in
    let e = be64 x - a in
    let (fb, lb) = ends-bound outer small in
    let f : (from_location outer).first ≡ be64 a =
      sym (be64-be64 (from_location outer).first fb) ∙ ap be64 first in
    let l : (from_location outer).last ≡ be64 a + be64 (2 ^ s - 1) =
      sym (be64-be64 (from_location outer).last lb)
      ∙ ap be64 last
      ∙ unfold be64 in
        swap_bytes-add 8 s (prefix outer.keybits outer.key) (2 ^ s - 1) (omega (arith, positive)) in
    let here : x ≡ be64 a + be64 e =
      sym (be64-be64 x small')
      ∙ ap be64 split
      ∙ unfold be64 in swap_bytes-add 8 s (prefix outer.keybits outer.key) e bound in
    let most : be64 e ≤ be64 (2 ^ s - 1) = unfold be64 in swap_bytes-ones 8 s e bound in
    (omega (arith, f, here), omega (arith, l, here, most))
