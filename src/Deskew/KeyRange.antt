-- ===== src/Deskew/KeyRange.antt =====
-- src/lib/deskew/KeyRange.cpp, on a machine that stores the low byte first: the keys of a subtree,
-- whose location is the first bits of the bytes of a key in memory.
pub mod ByteOrder
pub mod Prefix
pub mod Nested
use Prim.Native.Nat.{bit_xor}
use turbopump.Prelude.{ℕ, zero, suc, ◌+◌, ◌-◌, ◌*◌, ◌/◌, ◌%◌, ◌^◌, leb, ◌==◌, if◌then◌else◌}
use turbopump.Common.MerklePoint.{MerklePoint}

pub record KeyRange : Type 0 where
  pub first : ℕ
  pub last : ℕ

abbrev pub all_ones : ℕ
all_ones = 2 ^ 64 - 1

-- The lowest `n` bytes in reverse order.
pub swap_bytes : ℕ → ℕ → ℕ
swap_bytes zero k = 0
swap_bytes (suc n) k = (k % 256) * 256 ^ n + swap_bytes n (k / 256)

-- htobe64 and be64toh
unfoldable pub be64 : ℕ → ℕ
unfolding swap_bytes
be64 k = swap_bytes 8 k

unfoldable pub from_location : MerklePoint → KeyRange
from_location p =
    let shift = 64 - p.keybits in
    let first = be64 p.key / 2 ^ shift * 2 ^ shift in
    let last = bit_xor first (all_ones / 2 ^ p.keybits) in
    if leb 64 p.keybits
    then record { first = p.key; last = p.key }
    else if p.keybits == 0
    then record { first = 0; last = all_ones }
    else record { first = be64 first; last = be64 last }
