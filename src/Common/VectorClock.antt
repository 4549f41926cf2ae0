-- ===== src/Common/VectorClock.antt =====
-- src/lib/common/VectorClock.cpp and src/lib/common/KeyMetadata.h, over the vector of the library
-- beside the program (vector_clock::bounded_time_vector). The wall clock is an argument.
use turbopump.Prelude.{
  ℕ, ◌+◌, ◌%◌, ◌^◌, ◌≡◌, Bool, true, false, Bytes, List, [], ◌∷◌, codes, str_eq, leb, if◌then◌else◌,
}

pub record Clock : Type 0 where
  pub key : Bytes
  pub time : ℕ
  pub count : ℕ

-- VectorClock::COMPARE. The code names the first three.
pub data Compare : Type 0 where
  equal less_than greater_than conflict : Compare

abbrev pub is_equal : Compare → Bool
is_equal equal = true
is_equal less_than = false
is_equal greater_than = false
is_equal conflict = false

abbrev pub is_less : Compare → Bool
is_less equal = false
is_less less_than = true
is_less greater_than = false
is_less conflict = false

abbrev pub is_greater : Compare → Bool
is_greater equal = false
is_greater less_than = false
is_greater greater_than = true
is_greater conflict = false

-- bounded_time_vector<std::string,6>
pub record Clocks : Type 1 where
  pub Version : Type 0
  pub empty : Version
  pub clocks : Version → List Clock
  pub increment : Version → Bytes → ℕ → Version
  pub compare : Version → Version → Compare
  pub merge : Version → Version → Version

-- VectorClock::toString, and fromString on a new clock, which a text it cannot read leaves empty.
pub record VersionText (c : Clocks) : Type 0 where
  pub to_string : c.Version → Bytes
  pub from_string : Bytes → c.Version

-- Versions compare as equal if they are the same.
pub record Laws (k : Clocks) : Type 0 where
  pub compare_self : (v : k.Version) → k.compare v v ≡ equal
  pub compare_sound : (v w : k.Version) → is_equal (k.compare v w) ≡ true → v ≡ w

-- The clock that was incremented last stands in front.
pub record FrontLaw (k : Clocks) : Type 0 where
  pub clocks-increment :
      (v : k.Version) (key : Bytes) (time : ℕ)
      → (count : ℕ) × (rest : List Clock) × (k.clocks (k.increment v key time)
          ≡ record { key = key; time = time; count = count } ∷ rest)

abbrev pub delete_key : Bytes
delete_key = codes "delete"

module _ (k : Clocks) where
  unfoldable pub mark_deleted : k.Version → ℕ → k.Version
  mark_deleted v time = k.increment v delete_key time

  unfoldable pub is_deleted : k.Version → Bool
  is_deleted v = elim (k.clocks v) [ [] ↦ false | c ∷ cs ↦ str_eq c.key delete_key ]

  front_time : List Clock → ℕ
  front_time [] = 0
  front_time (c ∷ cs) = c.time

  -- The time in seconds, a uint64_t.
  unfoldable pub is_expired : k.Version → ℕ → ℕ → Bool
  unfolding front_time
  is_expired v timeout now =
      if is_deleted v then leb ((front_time (k.clocks v) + timeout) % 2 ^ 64) now else false

  pub record KeyMetadata : Type 0 where
    pub version : k.Version
    pub total_copies : ℕ
    pub supercede : Bool
    pub digest : ℕ
