-- ===== src/Deskew/DigestIndexer/Sections.antt =====
-- src/lib/deskew/DigestIndexer.cpp: a section that is split or cannibalized keeps the names as
-- they should be.
use turbopump.Prelude.{
  ℕ, ◌≡◌, refl, sym, ◌∙◌, subst, ap, false, not, Bytes, List, [], ◌∷◌, Option, none, some, str_eq,
  str_eq_sym, str_eq→eq, is_empty, Bool-cases, Option-cases, inl, inr,
}
use turbopump.Deskew.Names
use turbopump.Deskew.Names.{
  NotName, after-put, first-put, first-Found, after-Found, find-put, find-erase, has-remove,
}
use turbopump.Deskew.DigestTree.{Leaf, Merkle, Laws, DigestTree, null, max_key}
use turbopump.Deskew.DigestTree
use turbopump.Deskew.DigestIndexer.{
  Locator, Tree, Indexer, init_tree, next_tree, add_all, remove_all, split_trees, split_emplaced,
  split_new, split_section, merge_into, cannibalize_into, cannibalize_section,
}
use turbopump.Deskew.DigestIndexer.Partition.{
  Agrees, At, IsIndexed, IsPending, prune-IsIndexed, named-IsPending, prune-IsPending,
}
use turbopump.Deskew.DigestIndexer.Operations.{known}

module _ {m : Merkle} (laws : Laws m) (integer digest_integer : Bytes → ℕ) (mirrors : ℕ) where
  abbrev I : Type 0
  I = Indexer m integer digest_integer mirrors

  abbrev T : Type 0
  T = Tree m integer digest_integer mirrors

  abbrev Ok : I → Type 0
  Ok = IsIndexed m integer digest_integer mirrors

  abbrev Pending : Bytes → T → I → Type 0
  Pending = IsPending m integer digest_integer mirrors

  add_all-id : (t : T) (xs : List Leaf) → (add_all m integer digest_integer mirrors t xs).id ≡ t.id
  unfolding add_all DigestTree.add
  add_all-id t [] = refl
  add_all-id t (x ∷ xs) = add_all-id (DigestTree.add m integer t x.file x.hash) xs

  add_all-full :
      (t : T) (xs : List Leaf)
      → DigestTree.empty m integer t ≡ false
      → DigestTree.empty m integer (add_all m integer digest_integer mirrors t xs) ≡ false
  unfolding add_all DigestTree.add
  add_all-full t [] h = h
  add_all-full t (x ∷ xs) h =
      add_all-full (DigestTree.add m integer t x.file x.hash) xs (laws.is_null-insert _ _ _ _)

  remove_all-id :
      (t : T) (xs : List Leaf) → (remove_all m integer digest_integer mirrors t xs).id ≡ t.id
  unfolding remove_all DigestTree.remove
  remove_all-id t [] = refl
  remove_all-id t (x ∷ xs) = remove_all-id (DigestTree.remove m integer t x.file) xs

  split_trees-IsIndexed :
      (s : I) (k : Bytes) (new : T) (n : Bytes) (source : T) (from last : ℕ)
      → Pending k new s
      → str_eq n k ≡ false
      → Names.find n s.forest ≡ some source
      → Ok (split_trees m integer digest_integer mirrors s k new n source from last)
  split_trees-IsIndexed s k new n source from last p other at =
      let new' = add_all m integer digest_integer mirrors new (m.leaves source.tree from last) in
      let p' : Pending k new' s = record {
        others = p.others;
        named = add_all-id new _ ∙ p.named;
        once = p.once;
      } in
      let kn : str_eq k n ≡ false = str_eq_sym k n ∙ other in
      let a : Agrees m integer digest_integer mirrors n (some source) (Names.has n s.wanted)
          (Names.has n s.unwanted) =
        subst
          (λ o.
            Agrees m integer digest_integer mirrors n o (Names.has n s.wanted)
              (Names.has n s.unwanted))
          at (p.others n kn) in
      unfold split_trees in
      prune-IsIndexed m integer digest_integer mirrors _ k new' (
        prune-IsPending m integer digest_integer mirrors s k n new' _ p' other
          (remove_all-id source (m.leaves new'.tree 0 max_key) ∙ a.0) a.2)

  init_tree-forest :
      (l : Locator) (s : I) (t : T) (k : Bytes)
      → (init_tree m integer digest_integer mirrors l s t k).1.forest ≡ s.forest
  init_tree-forest l s t k = elim (Bool-cases (DigestTree.empty m integer t)) [
    | inr full ↦ unfold init_tree in rw full refl
    | inl e ↦ elim (Bool-cases (l.section_is_mine k mirrors)) [
      | inl mine ↦ unfold init_tree in rw (e, mine) refl
      | inr other ↦ unfold init_tree in rw (e, other) refl
    ]
  ]

  split_emplaced-IsIndexed :
      (l : Locator) (s : I) (where_ k n : Bytes) (o : Option T)
      → ((x : Bytes) → str_eq k x ≡ false → At m integer digest_integer mirrors x s)
      → Names.has k s.wanted ≡ false
      → Names.has k s.unwanted ≡ false
      → str_eq n k ≡ false
      → Names.find n s.forest ≡ o
      → (t : T) × (o ≡ some t)
      → Ok (split_emplaced m integer digest_integer mirrors l s where_ k n o)
  split_emplaced-IsIndexed l s where_ k n none a hw hu other e (t, held) = cc
  split_emplaced-IsIndexed l s where_ k n (some source) a hw hu other e held =
      unfold split_emplaced in
      split_trees-IsIndexed _ k _ n source _ _
        (named-IsPending m integer digest_integer mirrors l s k (null m integer) a hw hu
          laws.is_null-no_leaf)
        other (ap (Names.find n) (init_tree-forest l s (null m integer) k) ∙ e)

  next_tree-Found :
      (k : Bytes) (f : List (Bytes × T))
      → Names.Found f (next_tree m integer digest_integer mirrors k f)
  next_tree-Found k f = elim (Option-cases (Names.after k f)) [
    | inl e ↦
        let step : next_tree m integer digest_integer mirrors k f ≡ Names.first f =
          unfold next_tree in rw (e, next_tree) refl in
        subst (Names.Found f) (sym step) (first-Found f)
    | inr (n, e) ↦
        let step : next_tree m integer digest_integer mirrors k f ≡ Names.after k f =
          unfold next_tree in rw (e, next_tree) refl in
        subst (Names.Found f) (sym step) (after-Found k f)
  ]

  -- The neighbour of a new tree is one of the trees that were there.
  next_tree-put :
      (k : Bytes) (t : T) (f : List (Bytes × T))
      → Names.find k f ≡ none
      → is_empty f ≡ false
      → (n : Bytes) × (next_tree m integer digest_integer mirrors k (Names.put k t f) ≡ some n)
        × (str_eq n k ≡ false)
  next_tree-put k t f absent full = elim (Option-cases (Names.after k (Names.put k t f))) [
    | inl e ↦
        let (n, at, other) = first-put k t f absent full e in
        (n, unfold next_tree in rw (e, next_tree) at, other)
    | inr (n, e) ↦ (
      n,
      unfold next_tree in rw (e, next_tree) refl,
      subst (NotName k) e (after-put k t f absent),
    )
  ]

  split_new-IsIndexed :
      (l : Locator) (s : I) (where_ k : Bytes)
      → Names.find k s.forest ≡ none
      → is_empty s.forest ≡ false
      → Ok s
      → Ok (split_new m integer digest_integer mirrors l s where_ k)
  split_new-IsIndexed l s where_ k absent full ok =
      let f0 = Names.put k (null m integer) s.forest in
      let s0 : I = record s { forest = f0 } in
      let (n, step, other) = next_tree-put k (null m integer) s.forest absent full in
      let held : Names.Found f0 (some n) = subst (Names.Found f0) step (next_tree-Found k f0) in
      let a = known laws integer digest_integer mirrors s k none ok absent in
      let split =
        split_emplaced-IsIndexed l s0 where_ k n (Names.find n f0)
          (λ x o. rw (find-put x k (null m integer) s.forest, o) (ok x)) a.0 a.1 other refl held in
      unfold split_new in rw (step, split_new) split

  pub split_section-IsIndexed :
      (l : Locator) (s : I) (where_ : Bytes)
      → Ok s
      → Ok (split_section m integer digest_integer mirrors l s where_)
  split_section-IsIndexed l s where_ ok = elim (Bool-cases (is_empty s.forest)) [
    | inl e ↦ unfold split_section in rw e ok
    | inr full ↦ elim (Option-cases (Names.find (l.section where_) s.forest)) [
      | inl absent ↦
          unfold split_section in
          rw (full, absent, split_section)
            (split_new-IsIndexed l s where_ (l.section where_) absent full ok)
      | inr (t, e) ↦ unfold split_section in rw (full, e, split_section) ok
    ]
  ]

  merge_into-IsIndexed :
      (s : I) (k n : Bytes) (dying : T) (o : Option T)
      → Ok s
      → Names.find k s.forest ≡ some dying
      → str_eq n k ≡ false
      → Names.find n s.forest ≡ o
      → Ok (merge_into m integer digest_integer mirrors s k dying n o)
  merge_into-IsIndexed s k n dying none ok held other e = unfold merge_into in ok
  merge_into-IsIndexed s k n dying (some refugee) ok held other e =
      let a = known laws integer digest_integer mirrors s k (some dying) ok held in
      let b = known laws integer digest_integer mirrors s n (some refugee) ok e in
      let xs = m.leaves dying.tree 0 max_key in
      let grown : T = add_all m integer digest_integer mirrors refugee xs in
      λ x. elim (Bool-cases (str_eq k x)) [
        | inl same ↦
            unfold merge_into in
            rw
              (
                find-erase x k (Names.put n grown s.forest),
                a.0,
                has-remove x k s.wanted,
                has-remove x k s.unwanted,
                same,
              )
              (refl, refl)
        | inr away ↦ elim (Bool-cases (str_eq n x)) [
          | inl at ↦
              unfold merge_into in
              rw
                (
                  find-erase x k (Names.put n grown s.forest),
                  find-put x n grown s.forest,
                  a.0,
                  has-remove x k s.wanted,
                  has-remove x k s.unwanted,
                  away,
                  at,
                )
                (
                  add_all-id refugee xs ∙ b.0 ∙ str_eq→eq n x at,
                  add_all-full refugee xs b.1,
                  subst (λ y. Names.has y s.wanted ≡ not (Names.has y s.unwanted))
                      (str_eq→eq n x at) b.2,
                )
          | inr off ↦
              unfold merge_into in
              rw
                (
                  find-erase x k (Names.put n grown s.forest),
                  find-put x n grown s.forest,
                  a.0,
                  has-remove x k s.wanted,
                  has-remove x k s.unwanted,
                  away,
                  off,
                )
                (ok x)
        ]
      ]

  cannibalize_into-IsIndexed :
      (s : I) (k : Bytes) (dying : T) (o : Option Bytes)
      → Ok s
      → Names.find k s.forest ≡ some dying
      → Ok (cannibalize_into m integer digest_integer mirrors s k dying o)
  cannibalize_into-IsIndexed s k dying none ok held = unfold cannibalize_into in ok
  cannibalize_into-IsIndexed s k dying (some n) ok held = elim (Bool-cases (str_eq n k)) [
    | inl alone ↦ unfold cannibalize_into in rw alone ok
    | inr other ↦
        unfold cannibalize_into in
        rw other (merge_into-IsIndexed s k n dying (Names.find n s.forest) ok held other refl)
  ]

  pub cannibalize_section-IsIndexed :
      (l : Locator) (s : I) (where_ : Bytes)
      → Ok s
      → Ok (cannibalize_section m integer digest_integer mirrors l s where_)
  cannibalize_section-IsIndexed l s where_ ok =
      elim (Option-cases (Names.find (l.section where_) s.forest)) [
        | inl absent ↦ unfold cannibalize_section in rw (absent, cannibalize_section) ok
        | inr (t, e) ↦
            unfold cannibalize_section in
            rw (e, cannibalize_section) (cannibalize_into-IsIndexed s _ t _ ok e)
      ]
