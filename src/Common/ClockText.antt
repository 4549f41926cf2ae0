-- ===== src/Common/ClockText.antt =====
-- src/lib/common/VectorClock.cpp: the text of a version, on streams of the standard library.
-- `encode` and `decode` are base64::encode_bin and decode_as of the library beside the program. The
-- count of a clock is held whole.
pub mod RoundTrip
use turbopump.Prelude.{
  ℕ, zero, suc, ◌+◌, ◌^◌, Bool, true, false, Bytes, List, [], ◌∷◌, ◌++◌, Option, none, some, codes,
  length, take, map, ◌==◌, if◌then◌else◌,
}
use turbopump.Common.VectorClock.{Clock}
use turbopump.Common.MerklePoint.{decimal, is_space, skip_spaces, read_number}

-- What reading makes: a value, a stream that has failed, or an exception.
pub data Outcome {ℓ} (A : Type ℓ) : Type ℓ where
  done : A → Outcome A
  failed threw : Outcome A

infixl 5 ◌>>=◌
abbrev pub ◌>>=◌ {ℓ κ} : {A : Type ℓ} {B : Type κ} → Outcome A → (A → Outcome B) → Outcome B
done a >>= f = f a
failed >>= f = failed
threw >>= f = threw

-- What is before and behind the first byte `c`.
unfoldable pub split_at : ℕ → Bytes → Option (Bytes × Bytes)
split_at c [] = none
split_at c (x ∷ xs) =
    let rest : Option (Bytes × Bytes) = elim (split_at c xs) [
      | none ↦ none
      | some (before, behind) ↦ some (x ∷ before, behind)
    ] in
    if x == c then some ([], xs) else rest

-- The bytes up to a space, and the others.
unfoldable pub until_space : Bytes → Bytes × Bytes
until_space [] = ([], [])
until_space (x ∷ xs) =
    let (word, rest) = until_space xs in if is_space x then ([], x ∷ xs) else (x ∷ word, rest)

-- operator>> of a string
read_word_from : Bytes → Outcome (Bytes × Bytes)
read_word_from [] = failed
read_word_from (x ∷ xs) = done (until_space (x ∷ xs))

unfoldable pub read_word : Bytes → Outcome (Bytes × Bytes)
unfolding read_word_from
read_word b = read_word_from (skip_spaces b)

-- std::stoul
unfoldable pub to_unsigned : Bytes → Outcome ℕ
to_unsigned b = elim (read_number (2 ^ 64) b) [ none ↦ threw | some (n, rest) ↦ done n ]

abbrev pub replace : Bytes → Bytes
replace b = map (λ x. if x == b',' then b' ' else x) b

module _ (encode : ℕ → Bytes) (decode : Bytes → ℕ) where
  unfoldable pub clock_text : Clock → Bytes
  clock_text c =
      c.key
      ++ (codes "."
          ++ (encode c.time ++ (if c.count == 0 then [] else codes "." ++ decimal c.count)))

  unfoldable pub clocks_text : List Clock → Bytes
  clocks_text [] = []
  clocks_text (c ∷ cs) = codes "," ++ (clock_text c ++ clocks_text cs)

  unfoldable pub to_string : List Clock → Bytes
  unfolding clocks_text
  to_string cs = decimal (length cs) ++ clocks_text cs

  -- The length that `substr` is given for the time is the position of the second dot.
  unfoldable pub parse_clock : Bytes → Outcome Clock
  parse_clock str = elim (split_at b'.' str) [
    | none ↦ done (record { key = []; time = 0; count = 0 })
    | some (key, behind) ↦ elim (split_at b'.' behind) [
      | none ↦ done (record { key = key; time = decode behind; count = 0 })
      | some (time, count) ↦ to_unsigned count >>= λ n. done (record {
        key = key;
        time = decode (take (length key + 1 + length time) behind);
        count = n;
      })
    ]
  ]

  unfoldable pub read_clocks : ℕ → Bytes → Outcome (List Clock)
  read_clocks zero b = done []
  read_clocks (suc size) b = do
    (word, rest) ← read_word b
    c ← parse_clock word
    cs ← read_clocks size rest
    done (c ∷ cs)

  -- The clocks that fromString sets: none if it returns false or throws.
  unfoldable pub from_string : Bytes → Outcome (List Clock)
  from_string str = elim (read_number (2 ^ 32) (replace str)) [
    | none ↦ failed
    | some (size, rest) ↦ read_clocks size rest
  ]
