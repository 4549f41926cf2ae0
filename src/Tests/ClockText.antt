-- ===== src/Tests/ClockText.antt =====
-- Versions as texts: src/lib/common/VectorClock.cpp.
use turbopump.Prelude.{ℕ, ◌≡◌, refl, Bytes, [], ◌∷◌, codes, length, replicate, arith}
use turbopump.Common.VectorClock.{Clock}
use turbopump.Common.MerklePoint.{decimal, digits, read_number, read_digits, is_space, skip_spaces}
use turbopump.Common.ClockText.{
  done, to_string, from_string, clock_text, clocks_text, parse_clock, split_at, to_unsigned,
}
use turbopump.Common.ClockText.RoundTrip.{IsWritable, from_string-to_string}

-- Times in unary.
abbrev unary : ℕ → Bytes
unary n = replicate n b'A'

abbrev at_three : ℕ → Clock
at_three count = record { key = codes "k"; time = 3; count = count }

three-IsWritable : IsWritable unary (λ b. length b) (at_three 0)
unfolding is_space
three-IsWritable = ((refl, tt), (refl, (refl, (refl, tt))), refl, refl)

from_string-to_string_example :
    from_string unary
      (λ b. length b)
      (to_string unary (λ b. length b) (at_three 0 ∷ at_three 0 ∷ []))
    ≡ done (at_three 0 ∷ at_three 0 ∷ [])
from_string-to_string_example =
    from_string-to_string unary (λ b. length b) (at_three 0 ∷ at_three 0 ∷ [])
      (three-IsWritable, (three-IsWritable, tt)) (omega arith)

two_clocks :
    to_string unary (λ b. length b) (at_three 0 ∷ at_three 2 ∷ []) ≡ codes "2,k.AAA,k.AAA.2"
unfolding to_string decimal digits clocks_text clock_text
two_clocks = refl

-- With a count, the time takes two bytes too many.
counted_time :
    parse_clock unary (λ b. length b) (codes "k.AAA.2")
    ≡ done (record { key = codes "k"; time = 5; count = 2 })
unfolding parse_clock split_at to_unsigned read_number read_digits skip_spaces is_space
counted_time = refl
