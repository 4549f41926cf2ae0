-- ===== src/Deskew/DigestIndexer/Partition.antt =====
-- src/lib/deskew/DigestIndexer.cpp: the names of the trees, wanted and unwanted.
use turbopump.Prelude.{
  ℕ, ◌≡◌, refl, subst, Bool, true, false, not, Bytes, Option, none, some, str_eq, str_eq_refl,
  str_eq→eq, Bool-cases, inl, inr,
}
use turbopump.Deskew.Names
use turbopump.Deskew.Names.{find-put, find-erase, has-add, has-remove}
use turbopump.Deskew.DigestTree.{Leaf, Merkle, Laws, DigestTree, null}
use turbopump.Deskew.DigestTree
use turbopump.Deskew.DigestIndexer.{Locator, Tree, Indexer, init_tree, prune}

module _ (m : Merkle) (integer digest_integer : Bytes → ℕ) (mirrors : ℕ) where
  abbrev I : Type 0
  I = Indexer m integer digest_integer mirrors

  abbrev T : Type 0
  T = Tree m integer digest_integer mirrors

  -- What a name's tree, if it has one, and its place in the two sets have to do with each other: a
  -- tree is not empty, bears its name, and has it in exactly one of the sets; without a tree the
  -- name is in neither.
  abbrev pub Agrees : Bytes → Option T → Bool → Bool → Type 0
  Agrees x none wanted unwanted = (wanted ≡ false) × (unwanted ≡ false)
  Agrees x (some t) wanted unwanted =
      (t.id ≡ x) × (DigestTree.empty m integer t ≡ false) × (wanted ≡ not unwanted)

  abbrev pub At : Bytes → I → Type 0
  At x s = Agrees x (Names.find x s.forest) (Names.has x s.wanted) (Names.has x s.unwanted)

  abbrev pub IsIndexed : I → Type 0
  IsIndexed s = (x : Bytes) → At x s

  -- A tree that is not in the forest yet, or no longer up to date there.
  pub record IsPending (k : Bytes) (t : T) (s : I) : Type 0 where
    pub others : (x : Bytes) → str_eq k x ≡ false → At x s
    pub named : t.id ≡ k
    pub once : Names.has k s.wanted ≡ not (Names.has k s.unwanted)

  prune_else :
      (s : I) (n : Bytes) (t : T) (x : Bytes)
      → t.id ≡ n
      → str_eq n x ≡ false
      → At x s
      → At x (prune m integer digest_integer mirrors s n t)
  prune_else s n t x named other a = elim (Bool-cases (DigestTree.empty m integer t)) [
    | inl e ↦
        unfold prune in
        rw
          (
            e,
            named,
            find-erase x n s.forest,
            has-remove x n s.wanted,
            has-remove x n s.unwanted,
            other,
          )
          a
    | inr e ↦ unfold prune in rw (e, find-put x n t s.forest, other) a
  ]

  prune_there :
      (s : I) (n : Bytes) (t : T)
      → t.id ≡ n
      → Names.has n s.wanted ≡ not (Names.has n s.unwanted)
      → At n (prune m integer digest_integer mirrors s n t)
  prune_there s n t named once = elim (Bool-cases (DigestTree.empty m integer t)) [
    | inl e ↦
        unfold prune in
        rw
          (
            e,
            named,
            find-erase n n s.forest,
            has-remove n n s.wanted,
            has-remove n n s.unwanted,
            str_eq_refl n,
          )
          (refl, refl)
    | inr e ↦ unfold prune in rw (e, find-put n n t s.forest, str_eq_refl n) (named, e, once)
  ]

  pub prune-IsIndexed :
      (s : I) (k : Bytes) (t : T)
      → IsPending k t s
      → IsIndexed (prune m integer digest_integer mirrors s k t)
  prune-IsIndexed s k t p x = elim (Bool-cases (str_eq k x)) [
    | inl same ↦
        subst (λ y. At y (prune m integer digest_integer mirrors s k t)) (str_eq→eq k x same)
          (prune_there s k t p.named p.once)
    | inr other ↦ prune_else s k t x p.named other (p.others x other)
  ]

  pub put-IsIndexed :
      (s : I) (k : Bytes) (t : T)
      → IsPending k t s
      → DigestTree.empty m integer t ≡ false
      → IsIndexed (record s { forest = Names.put k t s.forest })
  put-IsIndexed s k t p full x = elim (Bool-cases (str_eq k x)) [
    | inl same ↦
        subst (λ y. At y (record s { forest = Names.put k t s.forest })) (str_eq→eq k x same)
          (rw (find-put k k t s.forest, str_eq_refl k) (p.named, full, p.once))
    | inr other ↦ rw (find-put x k t s.forest, other) (p.others x other)
  ]

  pub named-IsPending :
      (l : Locator) (s : I) (k : Bytes) (t : T)
      → ((x : Bytes) → str_eq k x ≡ false → At x s)
      → Names.has k s.wanted ≡ false
      → Names.has k s.unwanted ≡ false
      → DigestTree.empty m integer t ≡ true
      → IsPending k
          (init_tree m integer digest_integer mirrors l s t k).0
          (init_tree m integer digest_integer mirrors l s t k).1
  named-IsPending l s k t a hw hu e = elim (Bool-cases (l.section_is_mine k mirrors)) [
    | inl mine ↦
        unfold init_tree in
        rw (e, mine)
          (record {
            others = λ x o. rw (has-add x k s.wanted, o) (a x o);
            named = refl;
            once = rw (has-add k k s.wanted, str_eq_refl k, hu) refl;
          })
    | inr other ↦
        unfold init_tree in
        rw (e, other)
          (record {
            others = λ x o. rw (has-add x k s.unwanted, o) (a x o);
            named = refl;
            once = rw (has-add k k s.unwanted, str_eq_refl k, hw) refl;
          })
  ]

  -- What is done to a pending tree's state on behalf of another name.
  pub prune-IsPending :
      (s : I) (k n : Bytes) (new t : T)
      → IsPending k new s
      → str_eq n k ≡ false
      → t.id ≡ n
      → Names.has n s.wanted ≡ not (Names.has n s.unwanted)
      → IsPending k new (prune m integer digest_integer mirrors s n t)
  prune-IsPending s k n new t p other named once = record {
    others = λ x o. elim (Bool-cases (str_eq n x)) [
      | inl same ↦
          subst (λ y. At y (prune m integer digest_integer mirrors s n t)) (str_eq→eq n x same)
            (prune_there s n t named once)
      | inr away ↦ prune_else s n t x named away (p.others x o)
    ];
    named = p.named;
    once = prune-once;
  }
    where
      prune-once :
          Names.has k (prune m integer digest_integer mirrors s n t).wanted
          ≡ not (Names.has k (prune m integer digest_integer mirrors s n t).unwanted)
      prune-once = elim (Bool-cases (DigestTree.empty m integer t)) [
        | inl e ↦
            unfold prune in
            rw (e, named, has-remove k n s.wanted, has-remove k n s.unwanted, other) p.once
        | inr e ↦ unfold prune in rw e p.once
      ]
