-- ===== src/Common/ClockText/RoundTrip.antt =====
-- src/lib/common/VectorClock.cpp: a version whose clocks count nothing is read as it was written.
use turbopump.Prelude.{
  ℕ, zero, suc, ◌+◌, ◌^◌, ◌<◌, ◌≡◌, refl, sym, ap, Bool, true, false, Bytes, List, [], ◌∷◌, ◌++◌,
  none, some, codes, length, ◌==◌, ltb, ◌/◌, if◌then◌else◌, arith, append-nil, Bool-cases, inl, inr,
}
use turbopump.Common.VectorClock.{Clock}
use turbopump.Common.MerklePoint.{decimal, digits, is_space, skip_spaces}
use turbopump.Common.MerklePoint.RoundTrip.{read_number-decimal, IsEnd}
use turbopump.Common.ClockText.{
  done, split_at, until_space, read_word, clock_text, clocks_text, to_string, parse_clock,
  read_clocks, replace, from_string,
}

-- A byte that stands for itself in a text of clocks.
abbrev is_plain : ℕ → Bool
is_plain c =
    if c == b'.' then false else if c == b',' then false else if is_space c then false else true

abbrev pub ArePlain : Bytes → Type 0
ArePlain [] = Unit {0}
ArePlain (c ∷ cs) = (is_plain c ≡ true) × ArePlain cs

split_at-plain :
    (key behind : Bytes)
    → ArePlain key
    → split_at b'.' (key ++ (codes "." ++ behind)) ≡ some (key, behind)
unfolding split_at
split_at-plain [] behind h = refl
split_at-plain (c ∷ cs) behind (hc, h) = rw (split_at-plain cs behind h) (ground (arith, hc))

split_at_without : (b : Bytes) → ArePlain b → split_at b'.' b ≡ none
unfolding split_at
split_at_without [] h = refl
split_at_without (c ∷ cs) (hc, h) = rw (split_at_without cs h) (ground (arith, hc))

replace-plain : (b : Bytes) → ArePlain b → replace b ≡ b
replace-plain [] h = refl
replace-plain (c ∷ cs) (hc, h) = rw (replace-plain cs h) (ground (arith, hc))

replace-append : (a b : Bytes) → replace (a ++ b) ≡ replace a ++ replace b
replace-append [] b = refl
replace-append (c ∷ a) b = ap (λ r. (if c == b',' then b' ' else c) ∷ r) (replace-append a b)

replace-digits : (fuel n : ℕ) → replace (digits fuel n) ≡ digits fuel n
unfolding digits
replace-digits zero n = refl
replace-digits (suc fuel) n = elim (Bool-cases (ltb n 10)) [
  | inl small ↦ rw small (ground (arith, small))
  | inr large ↦ rw (large, replace-append, replace-digits fuel (n / 10)) (ground arith)
]

replace-decimal : (n : ℕ) → replace (decimal n) ≡ decimal n
unfolding decimal
replace-decimal n = replace-digits (n + 1) n

-- No space in it.
abbrev IsWord : Bytes → Type 0
IsWord [] = Unit {0}
IsWord (c ∷ cs) = (is_space c ≡ false) × IsWord cs

append-IsWord : (a b : Bytes) → ArePlain a → IsWord b → IsWord (a ++ b)
append-IsWord [] b h hb = hb
append-IsWord (c ∷ a) b (hc, h) hb = (ground (arith, hc), append-IsWord a b h hb)

plain-IsWord : (a : Bytes) → ArePlain a → IsWord a
plain-IsWord [] h = tt
plain-IsWord (c ∷ a) (hc, h) = (ground (arith, hc), plain-IsWord a h)

-- The end, or a space.
abbrev IsGap : Bytes → Type 0
IsGap [] = Unit {0}
IsGap (c ∷ cs) = is_space c ≡ true

until_space-append : (a b : Bytes) → IsWord a → IsGap b → until_space (a ++ b) ≡ (a, b)
unfolding until_space
until_space-append [] [] h gap = refl
until_space-append [] (c ∷ cs) h gap = rw gap refl
until_space-append (c ∷ a) b (hc, h) gap = rw (hc, until_space-append a b h gap) refl

dot_is_no_space : is_space b'.' ≡ false
unfolding is_space
dot_is_no_space = refl

blank_is_space : is_space b' ' ≡ true
unfolding is_space
blank_is_space = refl

-- A word behind a space.
read_word_front :
    (c : ℕ) (a b : Bytes)
    → IsWord (c ∷ a)
    → IsGap b
    → read_word (b' ' ∷ ((c ∷ a) ++ b)) ≡ done (c ∷ a, b)
unfolding read_word skip_spaces
read_word_front c a b h gap =
    rw (blank_is_space, h.0) (ap done (until_space-append (c ∷ a) b h gap))

read_word_dotted :
    (key behind b : Bytes)
    → IsWord (key ++ (codes "." ++ behind))
    → IsGap b
    → read_word (b' ' ∷ ((key ++ (codes "." ++ behind)) ++ b))
      ≡ done (key ++ (codes "." ++ behind), b)
read_word_dotted [] behind b h gap = read_word_front b'.' behind b h gap
read_word_dotted (c ∷ key) behind b h gap = read_word_front c (key ++ (codes "." ++ behind)) b h gap

module _ (encode : ℕ → Bytes) (decode : Bytes → ℕ) where
  -- A clock that counts nothing, whose name and whose time in base 64 have no dot, comma or space.
  abbrev pub IsWritable : Clock → Type 0
  IsWritable c =
      ArePlain c.key × ArePlain (encode c.time) × (decode (encode c.time) ≡ c.time) × (c.count ≡ 0)

  abbrev pub AreWritable : List Clock → Type 0
  AreWritable [] = Unit {0}
  AreWritable (c ∷ cs) = IsWritable c × AreWritable cs

  -- The clocks as `from_string` sees them.
  abbrev word_of : Clock → Bytes
  word_of c = c.key ++ (codes "." ++ encode c.time)

  abbrev spaced : List Clock → Bytes
  spaced [] = []
  spaced (c ∷ cs) = b' ' ∷ (word_of c ++ spaced cs)

  clock_text-word : (c : Clock) → IsWritable c → clock_text encode decode c ≡ word_of c
  unfolding clock_text
  clock_text-word c h = rw h.3 (ap (λ t. c.key ++ (codes "." ++ t)) (append-nil (encode c.time)))

  replace-clocks_text :
      (cs : List Clock) → AreWritable cs → replace (clocks_text encode decode cs) ≡ spaced cs
  unfolding clocks_text
  replace-clocks_text [] h = refl
  replace-clocks_text (c ∷ cs) (hc, h) =
      rw
        (
          clock_text-word c hc,
          replace-append,
          replace-append,
          replace-plain c.key hc.0,
          replace-plain (encode c.time) hc.1,
          replace-clocks_text cs h,
        )
        refl

  spaced-IsGap : (cs : List Clock) → IsGap (spaced cs)
  spaced-IsGap [] = tt
  spaced-IsGap (c ∷ cs) = blank_is_space

  spaced-IsEnd : (cs : List Clock) → IsEnd (spaced cs)
  spaced-IsEnd [] = tt
  spaced-IsEnd (c ∷ cs) = refl

  parse_clock-word : (c : Clock) → IsWritable c → parse_clock encode decode (word_of c) ≡ done c
  unfolding parse_clock
  parse_clock-word c h =
      rw
        (
          split_at-plain c.key (encode c.time) h.0,
          parse_clock,
          split_at_without (encode c.time) h.1,
          h.2,
        )
        (ap (λ n. done (record c { count = n })) (sym h.3))

  read_clocks-spaced :
      (cs : List Clock)
      → AreWritable cs
      → read_clocks encode decode (length cs) (spaced cs) ≡ done cs
  unfolding read_clocks
  read_clocks-spaced [] h = refl
  read_clocks-spaced (c ∷ cs) (hc, h) =
      let word : IsWord (word_of c) =
        append-IsWord c.key (codes "." ++ encode c.time) hc.0
          (dot_is_no_space, plain-IsWord (encode c.time) hc.1) in
      rw
        (
          read_word_dotted c.key (encode c.time) (spaced cs) word (spaced-IsGap cs),
          parse_clock-word c hc,
          read_clocks-spaced cs h,
        )
        refl

  -- Clocks that count nothing, and whose names and times in base 64 have no dot, comma or space, are
  -- read as they were written. Their number is within 32 bits.
  pub from_string-to_string :
      (cs : List Clock)
      → AreWritable cs
      → length cs < 2 ^ 32
      → from_string encode decode (to_string encode decode cs) ≡ done cs
  unfolding from_string to_string
  from_string-to_string cs h few =
      let text : replace (decimal (length cs) ++ clocks_text encode decode cs)
          ≡ decimal (length cs) ++ spaced cs =
        rw (replace-append, replace-decimal (length cs), replace-clocks_text cs h) refl in
      let read = read_number-decimal (2 ^ 32) (length cs) (spaced cs) few (spaced-IsEnd cs) in
      rw (text, read, from_string) (read_clocks-spaced cs h)
