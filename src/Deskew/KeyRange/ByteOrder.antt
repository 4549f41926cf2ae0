-- ===== src/Deskew/KeyRange/ByteOrder.antt =====
-- htobe64 and be64toh on a machine that stores the low byte first, as src/lib/deskew/KeyRange.cpp
-- uses them: each undoes the other.
use native.Mathlib.Nat.{mod-add-div, pow-succ', mul_assoc, mul_comm, mod-lt, mul-le-mul_right}
use turbopump.Prelude.{
  ℕ, zero, suc, ◌+◌, ◌*◌, ◌/◌, ◌%◌, ◌^◌, ◌<◌, ◌≤◌, ◌≡◌, sym, ◌∙◌, ap, subst, arith, div-of,
}
use turbopump.Deskew.KeyRange.{be64, swap_bytes}

swap_bytes-bound : (n k : ℕ) → swap_bytes n k < 256 ^ n
unfolding swap_bytes
swap_bytes-bound zero k = omega arith
swap_bytes-bound (suc n) k =
    let rest = swap_bytes-bound n (k / 256) in
    let digit : k % 256 * 256 ^ n ≤ 255 * 256 ^ n = mul-le-mul_right (256 ^ n) (omega arith) in
    subst (λ m. swap_bytes (suc n) k < m) (sym (pow-succ' 256 n)) (omega (arith, rest, digit))

shorter : (n k : ℕ) → k < 256 ^ suc n → k / 256 < 256 ^ n
shorter n k h =
    let whole : k < 256 * 256 ^ n = subst (λ m. k < m) (pow-succ' 256 n) h in omega (arith, whole)

byte_times : (b m : ℕ) → b * (256 * m) ≡ 256 * (b * m)
byte_times b m = sym (mul_assoc b 256 m) ∙ ap (λ c. c * m) (mul_comm b 256) ∙ mul_assoc 256 b m

-- The last byte of the result is the first of the number.
swap_bytes-last :
    (n k : ℕ)
    → k < 256 ^ suc n
    → swap_bytes (suc n) k ≡ swap_bytes n (k % 256 ^ n) * 256 + k / 256 ^ n
unfolding swap_bytes
swap_bytes-last zero k h = omega (arith, h)
swap_bytes-last (suc n) k h =
    let m = 256 ^ n in
    let r = k / 256 in
    let rest = swap_bytes-last n r (shorter (suc n) k h) in
    let parts = mod-add-div r m in
    let bound = mod-lt r {m = m} (omega (arith, swap_bytes-bound n 0)) in
    let times = mul_assoc 256 m (r / m) in
    let low = k % 256 + 256 * (r % m) in
    let (q, l) =
      div-of k low (256 * m) (r / m) (omega (arith, parts, times)) (omega (arith, bound)) in
    let whole : 256 ^ suc n ≡ 256 * m = pow-succ' 256 n in
    let first : low % 256 ≡ k % 256 = omega arith in
    let others : low / 256 ≡ r % m = omega arith in
    rw (whole, rest, l, q, first, others) (omega (arith, byte_times (k % 256) m))

swap-swap : (n k : ℕ) → k < 256 ^ n → swap_bytes n (swap_bytes n k) ≡ k
unfolding swap_bytes
swap-swap zero k h = omega (arith, h)
swap-swap (suc n) k h =
    let m = 256 ^ n in
    let rest = swap_bytes n (k / 256) in
    let (q, l) =
      div-of (swap_bytes (suc n) k) rest m (k % 256) (omega (arith, mul_comm m (k % 256)))
        (swap_bytes-bound n (k / 256)) in
    let again = swap-swap n (k / 256) (shorter n k h) in
    swap_bytes-last n (swap_bytes (suc n) k) (swap_bytes-bound (suc n) k)
    ∙ rw (l, q, again) (omega arith)

pub be64-be64 : (k : ℕ) → k < 2 ^ 64 → be64 (be64 k) ≡ k
unfolding be64
be64-be64 k h = swap-swap 8 k h

pub be64-bound : (k : ℕ) → be64 k < 2 ^ 64
unfolding be64
be64-bound k = swap_bytes-bound 8 k
