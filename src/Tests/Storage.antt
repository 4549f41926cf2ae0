-- ===== src/Tests/Storage.antt =====
-- A chain of versions that are numbers: src/lib/storage/DataChain.cpp.
use turbopump.Common.VectorClock.{is_deleted, mark_deleted}
use turbopump.Prelude.{str_eq}
use turbopump.Storage.DataChain.{scan, store_unlocked, clear_lesser}
use turbopump.Prelude.{
  ℕ, ◌+◌, ◌≡◌, refl, true, false, Bytes, [], ◌∷◌, ◌++◌, some, codes, ltb, ◌==◌, if◌then◌else◌,
  arith, ◌⊎◌,
}
use turbopump.Common.VectorClock.{Compare, equal, less_than, greater_than, Clocks, Laws}
use turbopump.Storage.DataChain.{DataEntry, Chain, store, find}
use turbopump.Storage.DataChain.Versions.{Refused, Continues, any_bars, Distinct, content_of}
use turbopump.Storage.DataChain.Stored.{NoLesser, store-Distinct, store-find, store-NoLesser}

abbrev compare_count : ℕ → ℕ → Compare
compare_count v w = if v == w then equal else if ltb v w then less_than else greater_than

-- The clock of a single node.
abbrev pub counters : Clocks
counters = record {
  Version = ℕ;
  empty = 0;
  clocks = λ v. record { key = codes "a"; time = 0; count = v } ∷ [];
  increment = λ v key time. v + 1;
  compare = compare_count;
  merge = λ v w. if ltb v w then w else v;
}

counters-Laws : Laws counters
counters-Laws = record { compare_self = λ v. ground arith; compare_sound = λ v w. ground arith }

abbrev entry : ℕ → Bytes → DataEntry counters
entry v b = record {
  content = b;
  md = record { version = v; total_copies = 3; supercede = true; digest = 0 };
}

abbrev one_version : Chain counters
one_version = entry 1 (5 ∷ []) ∷ []

store-Distinct_example : Distinct (store counters (entry 3 (6 ∷ [])) 0 0 one_version).1
unfolding is_deleted str_eq
store-Distinct_example =
    store-Distinct counters-Laws (entry 3 (6 ∷ [])) 0 0 one_version refl (tt, tt)

store-find_example :
    ((store counters (entry 1 (6 ∷ [])) 1 0 one_version ≡ (false, one_version))
      × Refused counters-Laws
          (entry 1 (6 ∷ []))
          (mark_deleted counters (entry 1 (6 ∷ [])).md.version 0)
          1
          one_version)
    ⊎ ((x : DataEntry counters) × ((store counters (entry 1 (6 ∷ [])) 1 0 one_version).0 ≡ true)
        × (find counters 1 (store counters (entry 1 (6 ∷ [])) 1 0 one_version).1 ≡ some x)
        × (x.content ≡ content_of (find counters 1 one_version) ++ 6 ∷ [])
        × Continues counters-Laws 1 (find counters 1 one_version)
        × (any_bars counters-Laws
              (entry 1 (6 ∷ []))
              (mark_deleted counters (entry 1 (6 ∷ [])).md.version 0)
              one_version
            ≡ false))
unfolding is_deleted str_eq
store-find_example = store-find counters-Laws (entry 1 (6 ∷ [])) 1 0 one_version refl (tt, tt)

store-NoLesser_example : NoLesser counters-Laws 3 (entry 3 (6 ∷ []) ∷ [])
unfolding is_deleted str_eq store scan store_unlocked clear_lesser mark_deleted
store-NoLesser_example =
    store-NoLesser counters-Laws (entry 3 (6 ∷ [])) 0 0 one_version (entry 3 (6 ∷ []) ∷ []) refl
      (tt, tt) refl refl
