-- ===== src/Storage/DataChain.antt =====
-- src/lib/storage/DataChain.cpp and src/lib/storage/DataEntry.h: the versions of a key in memory.
-- Each operation is one step. An entry is a value: readers that hold the pointer of one that
-- storeDeleted changes in place are not modelled.
pub mod Versions
pub mod Stored
use Prim.Native.Nat.{bit_xor}
use turbopump.Prelude.{
  ℕ, Bool, true, false, not, ◌&&◌, Bytes, List, [], ◌∷◌, ◌++◌, Option, none, some, length, ◌==◌,
  if◌then◌else◌,
}
use turbopump.Common.VectorClock.{Clocks, KeyMetadata, mark_deleted, is_deleted, is_equal, is_less}

module _ (k : Clocks) where
  pub record DataEntry : Type 0 where
    pub content : Bytes
    pub md : KeyMetadata k

  abbrev pub Chain : Type 0
  Chain = List DataEntry

  -- The chain without the entries of a lesser version.
  unfoldable pub clear_lesser : k.Version → Chain → Chain
  clear_lesser version [] = []
  clear_lesser version (x ∷ xs) =
      let rest = clear_lesser version xs in
      if is_less (k.compare x.md.version version) then rest else x ∷ rest

  unfoldable pub store_unlocked : DataEntry → Chain → Chain
  store_unlocked entry xs =
      (if entry.md.supercede then clear_lesser entry.md.version xs else xs) ++ entry ∷ []

  -- _entries behind some that have been passed over.
  abbrev pub pass_over : DataEntry → Option (DataEntry × Chain) → Option (DataEntry × Chain)
  pass_over x none = none
  pass_over x (some (entry, xs)) = some (entry, x ∷ xs)

  -- `entry` with the data of the entry that it continues.
  abbrev pub continue_entry : DataEntry → DataEntry → DataEntry
  continue_entry x entry = record {
    content = x.content ++ entry.content;
    md = record entry.md { total_copies = x.md.total_copies };
  }

  -- The loop of `store`: none if it returns, else the entry to be stored and the other entries.
  unfoldable pub scan : DataEntry → k.Version → ℕ → Chain → Option (DataEntry × Chain)
  scan entry deleted_version offset [] = some (entry, [])
  scan entry deleted_version offset (x ∷ xs) =
      let comp = k.compare entry.md.version x.md.version in
      let rest = pass_over x (scan entry deleted_version offset xs) in
      if is_equal comp
      then (if offset == length x.content then some (continue_entry x entry, xs) else none)
      else if is_less comp && x.md.supercede
      then none
      else if is_equal (k.compare deleted_version x.md.version)
      then none
      else rest

  -- `x` deleted.
  abbrev pub tombstone : DataEntry → DataEntry → ℕ → DataEntry
  tombstone x entry now = record {
    content = entry.content;
    md = record x.md { version = mark_deleted k x.md.version now };
  }

  -- storeDeleted: none if it returns false. `all` is the chain, for the end of the loop.
  unfoldable pub replace_deleted : DataEntry → ℕ → Chain → Option (Bool × Chain)
  replace_deleted entry now [] = some (false, [])
  replace_deleted entry now (x ∷ xs) =
      let comp = k.compare entry.md.version x.md.version in
      let rest = elim (replace_deleted entry now xs) as (λ _. Option (Bool × Chain)) [
        | none ↦ none
        | some (done, ys) ↦ some (done, x ∷ ys)
      ] in
      if is_equal comp
      then none
      else if is_less comp && x.md.supercede
      then none
      else if is_equal (k.compare entry.md.version (mark_deleted k x.md.version now))
      then some (true, tombstone x entry now ∷ xs)
      else rest

  unfoldable pub store_deleted : DataEntry → ℕ → Chain → Bool × Chain
  store_deleted entry now xs = elim (replace_deleted entry now xs) [
    | none ↦ (false, xs)
    | some (done, ys) ↦ (true, (if done then ys else store_unlocked entry xs))
  ]

  unfoldable pub store : DataEntry → ℕ → ℕ → Chain → Bool × Chain
  store entry offset now xs =
      let live : Bool × Chain = elim (scan entry (mark_deleted k entry.md.version now) offset xs) [
        | none ↦ (false, xs)
        | some (entry', ys) ↦ (true, store_unlocked entry' ys)
      ] in
      if is_deleted k entry.md.version then store_deleted entry now xs else live

  unfoldable pub best_version_from : k.Version → Chain → k.Version
  best_version_from aggregate [] = aggregate
  best_version_from aggregate (x ∷ xs) = best_version_from (k.merge aggregate x.md.version) xs

  unfoldable pub best_version : Chain → k.Version
  best_version xs = best_version_from k.empty xs

  -- `self` is MyMemberId.
  unfoldable pub store_as_best_version : DataEntry → Bytes → ℕ → Chain → Bool × Chain
  store_as_best_version entry self now xs =
      let version = k.increment (best_version xs) self now in
      (true, store_unlocked (record entry { md = record entry.md { version = version } }) xs)

  unfoldable pub find : k.Version → Chain → Option DataEntry
  find version [] = none
  find version (x ∷ xs) =
      let rest = find version xs in
      if is_equal (k.compare x.md.version version) then some x else rest

  -- The chain behind `erase`, which returns its length.
  unfoldable pub erase : k.Version → Chain → Chain
  erase version [] = []
  erase version (x ∷ xs) =
      let rest = erase version xs in
      if is_equal (k.compare x.md.version version) then xs else x ∷ rest

  -- `hash` is Hash(...).integer(), `str` is StringUtil::str and `to_string` VectorClock::toString.
  unfoldable pub summary :
      (hash : Bytes → ℕ) (str : ℕ → Bytes) (to_string : k.Version → Bytes) → ℕ → Chain → ℕ
  summary hash str to_string sum [] = sum
  summary hash str to_string sum (x ∷ xs) =
      summary hash str to_string
        (bit_xor sum (hash (str (length x.content) ++ to_string x.md.version))) xs
