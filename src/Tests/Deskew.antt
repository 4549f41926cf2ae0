-- ===== src/Tests/Deskew.antt =====
-- An index over a tree that is a list of leaves: src/lib/deskew/DigestIndexer.cpp.
use turbopump.Prelude.{
  ℕ, ◌≡◌, refl, false, List, [], ◌∷◌, Option, none, some, arith, codes, length, is_empty, ◌==◌,
  if◌then◌else◌, str_eq,
}
use turbopump.Deskew.Names
use turbopump.Deskew.DigestIndexer
use turbopump.Deskew.DigestIndexer.Updated.{FindLaws, updated_digest, find-update}
use turbopump.Deskew.DigestTree.{Leaf, Merkle, Laws}
use turbopump.Deskew.DigestTree
use turbopump.Deskew.DigestIndexer.{Locator, fresh, random_tree, unwanted_tree, update, init_tree}
use turbopump.Deskew.KeyTabulator.{Forest}
use turbopump.Deskew.KeyTabulator.Draw
use turbopump.Deskew.DigestIndexer.Partition.{IsIndexed}
use turbopump.Deskew.DigestIndexer.History.{
  Call, update_key, split, perform_all, history-IsIndexed, history-drawn,
}

abbrev find_leaf : List Leaf → ℕ → Option ℕ
find_leaf [] key = none
find_leaf (x ∷ xs) key = let rest = find_leaf xs key in if x.key == key then some x.hash else rest

abbrev remove_leaf : List Leaf → ℕ → List Leaf
remove_leaf [] key = []
remove_leaf (x ∷ xs) key = let rest = remove_leaf xs key in if x.key == key then rest else x ∷ rest

abbrev leaf_list : Merkle
leaf_list = record {
  Tree = List Leaf;
  no_leaf = [];
  is_null = λ t. is_empty t;
  find = find_leaf;
  insert = λ t key hash file. record { key = key; hash = hash; file = file } ∷ t;
  remove = remove_leaf;
  leaves = λ t from last. t;
}

leaf_list-Laws : Laws leaf_list
leaf_list-Laws = record { is_null-no_leaf = refl; is_null-insert = λ t key hash file. refl }

-- Every name is its own section; a node holds sections of one byte.
abbrev short_is_mine : Locator
short_is_mine = record { section = λ b. b; section_is_mine = λ id limit. length id == 1 }

abbrev calls : List Call
calls = update_key short_is_mine (codes "a") 3 ∷ update_key short_is_mine (codes "bb") 4 ∷ []

history-IsIndexed_example :
    IsIndexed leaf_list
      (λ b. length b)
      (λ b. length b)
      3
      (perform_all leaf_list
        (λ b. length b)
        (λ b. length b)
        3
        (fresh leaf_list (λ b. length b) (λ b. length b) 3)
        (split short_is_mine (codes "c") ∷ calls))
history-IsIndexed_example =
    history-IsIndexed leaf_list (λ b. length b) (λ b. length b) 3 leaf_list-Laws
      (split short_is_mine (codes "c") ∷ calls)

history-drawn_example :
    ((random_tree leaf_list
        (λ b. length b)
        (λ b. length b)
        3
        (perform_all leaf_list
          (λ b. length b)
          (λ b. length b)
          3
          (fresh leaf_list (λ b. length b) (λ b. length b) 3)
          calls)
        0).id
      ≡ codes "a")
    × (DigestTree.empty leaf_list
          (λ b. length b)
          (random_tree leaf_list
            (λ b. length b)
            (λ b. length b)
            3
            (perform_all leaf_list
              (λ b. length b)
              (λ b. length b)
              3
              (fresh leaf_list (λ b. length b) (λ b. length b) 3)
              calls)
            0)
        ≡ false)
    × ((unwanted_tree leaf_list
          (λ b. length b)
          (λ b. length b)
          3
          (perform_all leaf_list
            (λ b. length b)
            (λ b. length b)
            3
            (fresh leaf_list (λ b. length b) (λ b. length b) 3)
            calls)
          0).id
        ≡ codes "bb")
    × (DigestTree.empty leaf_list
          (λ b. length b)
          (unwanted_tree leaf_list
            (λ b. length b)
            (λ b. length b)
            3
            (perform_all leaf_list
              (λ b. length b)
              (λ b. length b)
              3
              (fresh leaf_list (λ b. length b) (λ b. length b) 3)
              calls)
            0)
        ≡ false)
unfolding update init_tree Names.find Names.add Names.has Names.put DigestTree.update str_eq
history-drawn_example =
    history-drawn leaf_list (λ b. length b) (λ b. length b) 3 leaf_list-Laws calls 0 0 (codes "a")
      (codes "bb") refl refl

-- An update for a single copy and one for two.
abbrev tabulated : List Draw.Call
tabulated =
    Draw.update_key short_is_mine (codes "a") 3 1
    ∷ Draw.update_key short_is_mine (codes "b") 4 2
    ∷ []

abbrev tabulated_forest : Forest leaf_list (λ b. length b) (λ b. length b)
tabulated_forest = Draw.perform_all leaf_list (λ b. length b) (λ b. length b) [] tabulated

find-remove_leaf : (t : List Leaf) (key : ℕ) → find_leaf (remove_leaf t key) key ≡ none
find-remove_leaf [] key = refl
find-remove_leaf (x ∷ t) key = ground (arith, find-remove_leaf t key)

leaf_list-FindLaws : FindLaws leaf_list
leaf_list-FindLaws = record {
  find-insert = λ t key hash file missing. ground arith;
  find-remove = find-remove_leaf;
}

find-update_example :
    find_leaf
      (DigestIndexer.find leaf_list
        (λ b. length b)
        (λ b. length b)
        3
        (update leaf_list
          (λ b. length b)
          (λ b. length b)
          3
          short_is_mine
          (fresh leaf_list (λ b. length b) (λ b. length b) 3)
          (codes "a")
          3)
        (codes "a")).tree
      1
    ≡ some (
        updated_digest 3 1 (
          find_leaf
            (DigestIndexer.find leaf_list
              (λ b. length b)
              (λ b. length b)
              3
              (fresh leaf_list (λ b. length b) (λ b. length b) 3)
              (codes "a")).tree
            1))
find-update_example =
    find-update leaf_list-FindLaws (λ b. length b) (λ b. length b) 3 short_is_mine
      (fresh leaf_list (λ b. length b) (λ b. length b) 3) (codes "a") 3
