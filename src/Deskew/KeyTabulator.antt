-- ===== src/Deskew/KeyTabulator.antt =====
-- src/lib/deskew/KeyTabulator.cpp and src/lib/deskew/UniversalDigestIndexer.cpp: an index for each
-- number of mirrors. The keys of the map are of type `unsigned char`.
pub mod Draw
use turbopump.Prelude.{
  ℕ, ◌+◌, ◌-◌, ◌%◌, Bytes, List, [], ◌∷◌, map, Option, none, some, get_elem?, ltb, ◌==◌, is_empty,
  if◌then◌else◌,
}
use turbopump.Deskew.DigestTree.{Merkle, DigestTree, null}
use turbopump.Deskew.DigestTree
use turbopump.Deskew.DigestIndexer.{Locator, Indexer, fresh}
use turbopump.Deskew.DigestIndexer

module _ (m : Merkle) (integer digest_integer : Bytes → ℕ) where
  -- IDigestIndexer: a UniversalDigestIndexer or a DigestIndexer.
  pub data Index : Type 0 where
    universal : DigestTree m integer → Index
    indexer : (mirrors : ℕ) → Indexer m integer digest_integer mirrors → Index

  abbrev pub Forest : Type 0
  Forest = List (ℕ × Index)

  unfoldable pub find_index : ℕ → Forest → Option Index
  find_index k [] = none
  find_index k ((j, i) ∷ rest) = let later = find_index k rest in if j == k then some i else later

  -- The index at a key, in the order of the keys.
  unfoldable pub put_index : ℕ → Index → Forest → Forest
  put_index k i [] = (k, i) ∷ []
  put_index k i ((j, x) ∷ rest) =
      let later = put_index k i rest in
      if j == k then (k, i) ∷ rest else if ltb k j then (k, i) ∷ (j, x) ∷ rest else (j, x) ∷ later

  abbrev pub new_index : ℕ → Index
  new_index mirrors =
      if mirrors == 0
      then universal (record (null m integer) { mirrors = 0 })
      else indexer mirrors (fresh m integer digest_integer mirrors)

  abbrev pub or_new : ℕ → Option Index → Index
  or_new mirrors none = new_index mirrors
  or_new mirrors (some i) = i

  unfoldable pub update_index : Locator → Bytes → ℕ → Index → Index
  update_index l key value (universal t) = universal (DigestTree.update m integer t key value)
  update_index l key value (indexer mirrors s) =
      indexer mirrors (DigestIndexer.update m integer digest_integer mirrors l s key value)

  unfoldable pub remove_from_index : Locator → Bytes → Index → Index
  remove_from_index l key (universal t) = universal (DigestTree.remove m integer t key)
  remove_from_index l key (indexer mirrors s) =
      indexer mirrors (DigestIndexer.remove m integer digest_integer mirrors l s key)

  unfoldable pub split_index : Locator → Bytes → Index → Index
  split_index l where_ (universal t) = universal t
  split_index l where_ (indexer mirrors s) =
      indexer mirrors (DigestIndexer.split_section m integer digest_integer mirrors l s where_)

  unfoldable pub cannibalize_index : Locator → Bytes → Index → Index
  cannibalize_index l where_ (universal t) = universal t
  cannibalize_index l where_ (indexer mirrors s) =
      indexer mirrors
        (DigestIndexer.cannibalize_section m integer digest_integer mirrors l s where_)

  unfoldable pub update : Locator → Forest → Bytes → ℕ → ℕ → Forest
  update l f key value mirrors =
      let k = mirrors % 256 in
      put_index k (update_index l key value (or_new mirrors (find_index k f))) f

  unfoldable pub remove : Locator → Forest → Bytes → ℕ → Forest
  remove l f key mirrors =
      let k = mirrors % 256 in
      elim (find_index k f) [ none ↦ f | some i ↦ put_index k (remove_from_index l key i) f ]

  unfoldable pub split_section : Locator → Forest → Bytes → Forest
  split_section l f where_ = map (λ p. (p.0, split_index l where_ p.1)) f

  unfoldable pub cannibalize_section : Locator → Forest → Bytes → Forest
  cannibalize_section l f where_ = map (λ p. (p.0, cannibalize_index l where_ p.1)) f

  unfoldable pub find_in_index : Bytes → Index → DigestTree m integer
  find_in_index id (universal t) = t
  find_in_index id (indexer mirrors s) = DigestIndexer.find m integer digest_integer mirrors s id

  abbrev pub find_held : Bytes → Option Index → DigestTree m integer
  find_held id none = null m integer
  find_held id (some i) = find_in_index id i

  unfoldable pub find : Forest → Bytes → ℕ → DigestTree m integer
  find f id mirrors = find_held id (find_index (mirrors % 256) f)

  -- randomTree: a draw of the place in the map, moved to a neighbour off the key 1.
  abbrev pub move_off : ℕ → Option (ℕ × Index) → ℕ
  move_off place none = place
  move_off place (some (k, i)) =
      if k == 1 then (if place == 0 then place + 1 else place - 1) else place

  unfoldable pub pick : Forest → ℕ → Option (ℕ × Index)
  pick f place = get_elem? f (move_off place (get_elem? f place))

  unfoldable pub random_of_index : ℕ → Index → DigestTree m integer
  random_of_index place (universal t) = t
  random_of_index place (indexer mirrors s) =
      DigestIndexer.random_tree m integer digest_integer mirrors s place

  abbrev pub random_of : ℕ → Option (ℕ × Index) → DigestTree m integer
  random_of place none = null m integer
  random_of place (some (k, i)) = random_of_index place i

  unfoldable pub random_tree : Forest → ℕ → ℕ → DigestTree m integer
  random_tree f place inner = if is_empty f then null m integer else random_of inner (pick f place)

  unfoldable pub unwanted_of_index : ℕ → Index → DigestTree m integer
  unwanted_of_index place (universal t) = null m integer
  unwanted_of_index place (indexer mirrors s) =
      DigestIndexer.unwanted_tree m integer digest_integer mirrors s place

  abbrev pub unwanted_of : ℕ → Option (ℕ × Index) → DigestTree m integer
  unwanted_of place none = null m integer
  unwanted_of place (some (k, i)) = unwanted_of_index place i

  -- The map without the key 0, if that is there.
  abbrev pub copied : Forest → Forest
  copied [] = []
  copied ((k, i) ∷ rest) = if k == 0 then rest else (k, i) ∷ rest

  unfoldable pub unwanted_tree : Forest → ℕ → ℕ → DigestTree m integer
  unwanted_tree f place inner = unwanted_of inner (get_elem? (copied f) place)
