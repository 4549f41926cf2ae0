-- ===== src/Prelude/Bits.antt =====
-- Quotients, powers of two and bits of numbers.
use Prim.Native.Nat.{
  ℕ, zero, suc, ◌+◌, ◌*◌, ◌/◌, ◌%◌, ◌^◌, ◌<◌, ◌≤◌, bit_xor, bit_xor-bitwise, digits, differ,
}
use native.Mathlib.Nat.{
  add-mul-div_left, div-eq_of_lt, zero-add, add-zero, mod-add-div, pow-succ', mul_assoc,
}
use mathlib.Core.Path.{◌≡◌, refl, sym, ap, ◌∙◌, subst}
use native.Mathlib.Omega.{arith}

pub div-of : (x u m t : ℕ) → x ≡ u + m * t → u < m → (x / m ≡ t) × (x % m ≡ u)
div-of x u m t e h =
    let whole : x / m ≡ t =
      ap (λ n. n / m) e
      ∙ add-mul-div_left u t (omega (arith, h))
      ∙ ap (λ n. n + t) (div-eq_of_lt h)
      ∙ zero-add t in
    let left : x % m + m * t ≡ x = ap (λ n. x % m + m * n) (sym whole) ∙ mod-add-div x m in
    (whole, omega (arith, left, e))

differ-zero : (x : ℕ) → differ x 0 ≡ x
differ-zero zero = refl
differ-zero (suc x) = refl

abbrev xor_digits : ℕ → ℕ → ℕ → ℕ
xor_digits n a b = digits (λ b. b) differ n a b

xor_digits-zero : (n a : ℕ) → a ≤ n → xor_digits n a 0 ≡ a
xor_digits-zero zero zero h = refl
xor_digits-zero zero (suc a) h = absurd (omega (arith, h))
xor_digits-zero (suc n) zero h = refl
xor_digits-zero (suc n) (suc a) h =
    let rest = xor_digits-zero n (suc a / 2) (omega (arith, h)) in
    let digit = differ-zero (suc a % 2) in rw (rest, digit) (omega arith)

xor_digits-none : (n b : ℕ) → xor_digits n 0 b ≡ b
xor_digits-none zero b = refl
xor_digits-none (suc n) b = refl

-- The lowest digits of `a` are 0.
xor_digits-add : (s n q a b : ℕ) → a ≡ 2 ^ s * q → a ≤ n → b < 2 ^ s → xor_digits n a b ≡ a + b
xor_digits-add zero n q a b e h h' =
    let none_set : b ≡ 0 = omega (arith, h') in
    rw none_set (xor_digits-zero n a h ∙ sym (add-zero a))
xor_digits-add (suc s) n q zero b e h h' = xor_digits-none n b ∙ sym (zero-add b)
xor_digits-add (suc s) zero q (suc a) b e h h' = absurd (omega (arith, h))
xor_digits-add (suc s) (suc n) q (suc a) b e h h' =
    let doubled : suc a ≡ 2 * (2 ^ s * q) =
      e ∙ ap (λ m. m * q) (pow-succ' 2 s) ∙ mul_assoc 2 (2 ^ s) q in
    let below : b < 2 * 2 ^ s = subst (λ m. b < m) (pow-succ' 2 s) h' in
    let rest =
      xor_digits-add s n q (suc a / 2) (b / 2) (omega (arith, doubled)) (omega (arith, h))
        (omega (arith, below)) in
    let even : suc a % 2 ≡ 0 = omega (arith, doubled) in rw (rest, even) (omega (arith, doubled))

pub xor-add : (s q b : ℕ) → b < 2 ^ s → bit_xor (2 ^ s * q) b ≡ 2 ^ s * q + b
xor-add s q b h =
    (λ i. bit_xor-bitwise (2 ^ s * q) b i)
    ∙ xor_digits-add s (2 ^ s * q) q (2 ^ s * q) b refl (omega arith) h

pub pow_add : (n m : ℕ) → 2 ^ (n + m) ≡ 2 ^ n * 2 ^ m
pow_add zero m = let e : 0 + m ≡ m = omega arith in rw e (omega arith)
pow_add (suc n) m =
    let e : suc n + m ≡ suc (n + m) = omega arith in
    ap (λ k. 2 ^ k) e
    ∙ pow-succ' 2 (n + m)
    ∙ ap (λ k. 2 * k) (pow_add n m)
    ∙ sym (mul_assoc 2 (2 ^ n) (2 ^ m))
    ∙ ap (λ k. k * 2 ^ m) (sym (pow-succ' 2 n))
