-- ===== src/Deskew/DigestIndexer.antt =====
-- src/lib/deskew/DigestIndexer.cpp: a forest of trees by section of the ring, with the names of
-- those that are wanted here and of those that are not.
pub mod Partition
pub mod Operations
pub mod Sections
pub mod History
pub mod Updated
use turbopump.Prelude.{
  ℕ, zero, suc, ◌+◌, ◌*◌, ◌/◌, ◌%◌, ◌^◌, Bool, true, false, ◌&&◌, Bytes, List, [], ◌∷◌, map, Option,
  none, some, str_eq, is_empty, if◌then◌else◌, get_elem?,
}
use turbopump.Deskew.Names
use turbopump.Deskew.Names.{str_lt}
use turbopump.Deskew.DigestTree.{Leaf, Merkle, DigestTree, null, set_id, max_key}
use turbopump.Deskew.DigestTree

-- What the code reads of its surroundings: the locator, and the hasher. `integer` is
-- Hash(...).integer(), and `digest_integer` Hash().fromHash(...).integer().
pub record Locator : Type 0 where
  pub section : Bytes → Bytes
  pub section_is_mine : Bytes → ℕ → Bool

-- htobe64 on a little-endian machine, which is also be64toh.
unfoldable pub swap_bytes : ℕ → ℕ → ℕ
swap_bytes zero n = 0
swap_bytes (suc k) n = n % 256 * 256 ^ k + swap_bytes k (n / 256)

module _ (m : Merkle) (integer digest_integer : Bytes → ℕ) (mirrors : ℕ) where
  abbrev pub Tree : Type 0
  Tree = DigestTree m integer

  pub record Indexer : Type 0 where
    pub forest : List (Bytes × Tree)
    pub wanted : List Bytes
    pub unwanted : List Bytes

  abbrev pub fresh : Indexer
  fresh = record { forest = []; wanted = []; unwanted = [] }

  -- The tree and the names behind initTree; the caller puts the tree into the forest.
  unfoldable pub init_tree : Locator → Indexer → Tree → Bytes → Tree × Indexer
  init_tree l s tree section =
      let entered : Indexer =
        if l.section_is_mine section mirrors
        then record s { wanted = Names.add section s.wanted }
        else record s { unwanted = Names.add section s.unwanted } in
      let named : Tree × Indexer = (set_id m integer tree section mirrors, entered) in
      if DigestTree.empty m integer tree then named else (tree, s)

  -- A tree of the forest, changed by the caller, put back or erased.
  unfoldable pub prune : Indexer → Bytes → Tree → Indexer
  prune s k tree =
      if DigestTree.empty m integer tree
      then record {
        forest = Names.erase k s.forest;
        wanted = Names.remove tree.id s.wanted;
        unwanted = Names.remove tree.id s.unwanted;
      }
      else record s { forest = Names.put k tree s.forest }

  abbrev pub or_null : Option Tree → Tree
  or_null none = null m integer
  or_null (some t) = t

  unfoldable pub update : Locator → Indexer → Bytes → ℕ → Indexer
  update l s key value =
      let k = l.section key in
      let (tree, s1) = init_tree l s (or_null (Names.find k s.forest)) k in
      record s1 { forest = Names.put k (DigestTree.update m integer tree key value) s1.forest }

  unfoldable pub remove : Locator → Indexer → Bytes → Indexer
  remove l s key =
      let k = l.section key in
      elim (Names.find k s.forest) [
        | none ↦ s
        | some tree ↦ prune s k (DigestTree.remove m integer tree key)
      ]

  -- nextTree, by the key of the tree.
  unfoldable pub next_tree : Bytes → List (Bytes × Tree) → Option Bytes
  next_tree k forest = elim (Names.after k forest) [ none ↦ Names.first forest | some n ↦ some n ]

  unfoldable pub add_all : Tree → List Leaf → Tree
  add_all t [] = t
  add_all t (x ∷ xs) = add_all (DigestTree.add m integer t x.file x.hash) xs

  unfoldable pub remove_all : Tree → List Leaf → Tree
  remove_all t [] = t
  remove_all t (x ∷ xs) = remove_all (DigestTree.remove m integer t x.file) xs

  -- `first` of splitSection: the key behind the source tree's own, in the order of the bytes.
  unfoldable pub split_from : Bool → Tree → Bytes → ℕ
  split_from is_begin source section =
      if is_begin && str_lt source.id section
      then swap_bytes 8 ((swap_bytes 8 (digest_integer source.id) + 1) % 2 ^ 64)
      else 0

  -- The keys that move, and the two trees. `s` has the new tree's name.
  unfoldable pub split_trees : Indexer → Bytes → Tree → Bytes → Tree → ℕ → ℕ → Indexer
  split_trees s k new_tree n source first last =
      let new_tree' = add_all new_tree (m.leaves source.tree first last) in
      let source' = remove_all source (m.leaves new_tree'.tree 0 max_key) in
      prune (prune s n source') k new_tree'

  abbrev pub is_first : Bytes → Option Bytes → Bool
  is_first n none = false
  is_first n (some x) = str_eq x n

  -- splitSection behind the emplacement. The forest holds an empty tree at `k`.
  unfoldable pub split_emplaced : Locator → Indexer → Bytes → Bytes → Bytes → Option Tree → Indexer
  split_emplaced l s where_ k n none = s
  split_emplaced l s where_ k n (some source) =
      let (new_tree, s1) = init_tree l s (null m integer) k in
      split_trees s1 k new_tree n source (split_from (is_first n (Names.first s.forest)) source k)
        (integer where_)

  unfoldable pub split_new : Locator → Indexer → Bytes → Bytes → Indexer
  split_new l s where_ k =
      let s0 = record s { forest = Names.put k (null m integer) s.forest } in
      elim (next_tree k s0.forest) [
        | none ↦ s0
        | some n ↦ split_emplaced l s0 where_ k n (Names.find n s0.forest)
      ]

  unfoldable pub split_section : Locator → Indexer → Bytes → Indexer
  split_section l s where_ =
      let k = l.section where_ in
      let emplaced : Indexer = elim (Names.find k s.forest) [
        | none ↦ split_new l s where_ k
        | some tree ↦ s
      ] in
      if is_empty s.forest then s else emplaced

  -- The dying tree's leaves go into the refugee tree.
  unfoldable pub merge_into : Indexer → Bytes → Tree → Bytes → Option Tree → Indexer
  merge_into s k dying n none = s
  merge_into s k dying n (some refugee) = record {
    forest = Names.erase k (Names.put n (add_all refugee (m.leaves dying.tree 0 max_key)) s.forest);
    wanted = Names.remove dying.id s.wanted;
    unwanted = Names.remove dying.id s.unwanted;
  }

  unfoldable pub cannibalize_into : Indexer → Bytes → Tree → Option Bytes → Indexer
  cannibalize_into s k dying none = s
  cannibalize_into s k dying (some n) =
      let merged = merge_into s k dying n (Names.find n s.forest) in
      if str_eq n k then s else merged

  unfoldable pub cannibalize_section : Locator → Indexer → Bytes → Indexer
  cannibalize_section l s where_ =
      let k = l.section where_ in
      elim (Names.find k s.forest) [
        | none ↦ s
        | some dying ↦ cannibalize_into s k dying (next_tree k s.forest)
      ]

  unfoldable pub find : Indexer → Bytes → Tree
  find s id = or_null (Names.find id s.forest)

  abbrev pub find_picked : Indexer → Option Bytes → Tree
  find_picked s none = null m integer
  find_picked s (some id) = find s id

  -- The names are drawn by their place.
  unfoldable pub random_tree : Indexer → ℕ → Tree
  random_tree s place =
      if is_empty s.forest then null m integer else find_picked s (get_elem? s.wanted place)

  unfoldable pub unwanted_tree : Indexer → ℕ → Tree
  unwanted_tree s place =
      if is_empty s.forest then null m integer else find_picked s (get_elem? s.unwanted place)

  unfoldable pub list : Indexer → List Bytes
  list s = map (λ p. p.0) s.forest
