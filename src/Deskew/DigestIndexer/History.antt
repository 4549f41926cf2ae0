-- ===== src/Deskew/DigestIndexer/History.antt =====
-- src/lib/deskew/DigestIndexer.cpp: what holds after any calls, while the ring changes between
-- them.
use turbopump.Prelude.{
  ℕ, ◌≡◌, refl, Bool, true, false, Bytes, List, [], ◌∷◌, Option, none, some, str_eq_refl, is_empty,
  get_elem?, zero, suc, arith, ◌||◌,
}
use turbopump.Deskew.Names
use turbopump.Deskew.DigestTree.{Merkle, Laws, DigestTree, null}
use turbopump.Deskew.DigestTree
use turbopump.Deskew.DigestIndexer.{
  Locator, Tree, Indexer, fresh, update, remove, split_section, cannibalize_section, unwanted_tree,
  random_tree, find,
}
use turbopump.Deskew.DigestIndexer.Partition.{Agrees, IsIndexed}
use turbopump.Deskew.DigestIndexer.Operations.{update-IsIndexed, remove-IsIndexed}
use turbopump.Deskew.DigestIndexer.Sections.{split_section-IsIndexed, cannibalize_section-IsIndexed}

-- A call, with what the locator answers during it.
pub data Call : Type 0 where
  update_key : Locator → Bytes → ℕ → Call
  remove_key : Locator → Bytes → Call
  split : Locator → Bytes → Call
  cannibalize : Locator → Bytes → Call

module _ (m : Merkle) (integer digest_integer : Bytes → ℕ) (mirrors : ℕ) where
  abbrev I : Type 0
  I = Indexer m integer digest_integer mirrors

  abbrev pub perform : I → Call → I
  perform s (update_key l key value) = update m integer digest_integer mirrors l s key value
  perform s (remove_key l key) = remove m integer digest_integer mirrors l s key
  perform s (split l where_) = split_section m integer digest_integer mirrors l s where_
  perform s (cannibalize l where_) = cannibalize_section m integer digest_integer mirrors l s where_

  abbrev pub perform_all : I → List Call → I
  perform_all s [] = s
  perform_all s (c ∷ cs) = perform_all (perform s c) cs

  perform-IsIndexed :
      Laws m
      → (s : I) (c : Call) → IsIndexed m integer digest_integer mirrors s
      → IsIndexed m integer digest_integer mirrors (perform s c)
  perform-IsIndexed laws s (update_key l key value) ok =
      update-IsIndexed laws integer digest_integer mirrors l s key value ok
  perform-IsIndexed laws s (remove_key l key) ok =
      remove-IsIndexed laws integer digest_integer mirrors l s key ok
  perform-IsIndexed laws s (split l where_) ok =
      split_section-IsIndexed laws integer digest_integer mirrors l s where_ ok
  perform-IsIndexed laws s (cannibalize l where_) ok =
      cannibalize_section-IsIndexed laws integer digest_integer mirrors l s where_ ok

  perform_all-IsIndexed :
      Laws m
      → (s : I) (cs : List Call) → IsIndexed m integer digest_integer mirrors s
      → IsIndexed m integer digest_integer mirrors (perform_all s cs)
  perform_all-IsIndexed laws s [] ok = ok
  perform_all-IsIndexed laws s (c ∷ cs) ok =
      perform_all-IsIndexed laws (perform s c) cs (perform-IsIndexed laws s c ok)

  -- After any sequence of updates, removals, splits and cannibalizations on a fresh index, with a
  -- ring and a membership that may change between them, every tree of the forest is not empty,
  -- bears the name of its section, and has that name in exactly one of the wanted and the unwanted
  -- names; no other name is in either. The tree beside the program is assumed to be empty at first
  -- and not to be empty after an insertion.
  pub history-IsIndexed :
      Laws m
      → (cs : List Call)
      → IsIndexed m integer digest_integer mirrors
          (perform_all (fresh m integer digest_integer mirrors) cs)
  history-IsIndexed laws cs =
      perform_all-IsIndexed laws (fresh m integer digest_integer mirrors) cs
        (λ x. unfold Names.find Names.has in (refl, refl))

  has-get_elem? :
      (xs : List Bytes) (i : ℕ) (x : Bytes) → get_elem? xs i ≡ some x → Names.has x xs ≡ true
  unfolding Names.has
  has-get_elem? [] i x h = cc
  has-get_elem? (y ∷ ys) zero x h = ground (arith, str_eq_refl y)
  has-get_elem? (y ∷ ys) (suc i) x h = ground (arith, has-get_elem? ys i x h)

  find-is_empty :
      (x : Bytes) (f : List (Bytes × Tree m integer digest_integer mirrors))
      (t : Tree m integer digest_integer mirrors)
      → Names.find x f ≡ some t
      → is_empty f ≡ false
  unfolding Names.find
  find-is_empty x [] t h = cc
  find-is_empty x (p ∷ f) t h = refl

  -- A name of either set leads to a tree.
  held :
      (s : I) (x : Bytes) (o : Option (Tree m integer digest_integer mirrors)) (w u : Bool)
      → (w || u) ≡ true
      → Agrees m integer digest_integer mirrors x o w u
      → Names.find x s.forest ≡ o
      → (is_empty s.forest ≡ false)
        × ((find m integer digest_integer mirrors s x).id ≡ x)
        × (DigestTree.empty m integer (find m integer digest_integer mirrors s x) ≡ false)
  held s x none w u h a e = ground (arith, h, a.0, a.1)
  held s x (some t) w u h a e =
      let step : find m integer digest_integer mirrors s x ≡ t = unfold find in rw e refl in
      (find-is_empty x s.forest t e, rw step a.0, rw step a.1)

  -- After any such sequence of calls, whichever names are drawn from the wanted and from the
  -- unwanted ones, the trees that randomTree and unwantedTree return are not empty and bear the
  -- drawn names.
  pub history-drawn :
      Laws m
      → (cs : List Call) (place place' : ℕ) (id id' : Bytes)
      → get_elem? (perform_all (fresh m integer digest_integer mirrors) cs).wanted place ≡ some id
      → get_elem? (perform_all (fresh m integer digest_integer mirrors) cs).unwanted place'
        ≡ some id'
      → ((random_tree m integer digest_integer mirrors
            (perform_all (fresh m integer digest_integer mirrors) cs)
            place).id
          ≡ id)
        × (DigestTree.empty m integer (
              random_tree m integer digest_integer mirrors
                (perform_all (fresh m integer digest_integer mirrors) cs)
                place)
            ≡ false)
        × ((unwanted_tree m integer digest_integer mirrors
              (perform_all (fresh m integer digest_integer mirrors) cs)
              place').id
            ≡ id')
        × (DigestTree.empty m integer (
              unwanted_tree m integer digest_integer mirrors
                (perform_all (fresh m integer digest_integer mirrors) cs)
                place')
            ≡ false)
  history-drawn laws cs place place' id id' h h' =
      let s : I = perform_all (fresh m integer digest_integer mirrors) cs in
      let ok = history-IsIndexed laws cs in
      let w : (Names.has id s.wanted || Names.has id s.unwanted) ≡ true =
        ground (arith, has-get_elem? s.wanted place id h) in
      let u : (Names.has id' s.wanted || Names.has id' s.unwanted) ≡ true =
        ground (arith, has-get_elem? s.unwanted place' id' h') in
      let (full, named, kept) = held s id _ _ _ w (ok id) refl in
      let (full', named', kept') = held s id' _ _ _ u (ok id') refl in
      let step : random_tree m integer digest_integer mirrors s place
          ≡ find m integer digest_integer mirrors s id =
        unfold random_tree in rw (full, h) refl in
      let step' : unwanted_tree m integer digest_integer mirrors s place'
          ≡ find m integer digest_integer mirrors s id' =
        unfold unwanted_tree in rw (full', h') refl in
      (rw step named, rw step kept, rw step' named', rw step' kept')
