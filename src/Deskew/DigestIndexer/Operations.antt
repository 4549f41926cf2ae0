-- ===== src/Deskew/DigestIndexer/Operations.antt =====
-- src/lib/deskew/DigestIndexer.cpp: the operations keep the names as they should be.
use turbopump.Prelude.{
  ℕ, ◌≡◌, refl, ◌∙◌, subst, false, Bytes, Option, none, some, Option-cases, inl, inr,
}
use turbopump.Deskew.Names
use turbopump.Deskew.Names.{find-put, find-erase, has-add, has-remove}
use turbopump.Deskew.DigestTree.{Leaf, Merkle, Laws, DigestTree, null, max_key}
use turbopump.Deskew.DigestTree
use turbopump.Deskew.DigestIndexer.{
  Locator, Tree, Indexer, init_tree, prune, or_null, update, remove,
}
use turbopump.Deskew.DigestIndexer.Partition.{
  Agrees, IsIndexed, IsPending, prune-IsIndexed, put-IsIndexed, named-IsPending,
}

module _ {m : Merkle} (laws : Laws m) (integer digest_integer : Bytes → ℕ) (mirrors : ℕ) where
  abbrev I : Type 0
  I = Indexer m integer digest_integer mirrors

  abbrev T : Type 0
  T = Tree m integer digest_integer mirrors

  abbrev Ok : I → Type 0
  Ok = IsIndexed m integer digest_integer mirrors

  pub known :
      (s : I) (k : Bytes) (o : Option T)
      → Ok s
      → Names.find k s.forest ≡ o
      → Agrees m integer digest_integer mirrors k o (Names.has k s.wanted) (Names.has k s.unwanted)
  known s k o ok e =
      subst
        (λ o.
          Agrees m integer digest_integer mirrors k o (Names.has k s.wanted)
            (Names.has k s.unwanted))
        e (ok k)

  update_tree-full :
      (t : T) (key : Bytes) (value : ℕ)
      → (DigestTree.empty m integer (DigestTree.update m integer t key value) ≡ false)
        × ((DigestTree.update m integer t key value).id ≡ t.id)
  update_tree-full t key value = elim (Option-cases (m.find t.tree (integer key))) [
    | inl e ↦
        unfold DigestTree.update in rw (e, DigestTree.update) (laws.is_null-insert _ _ _ _, refl)
    | inr (hash, e) ↦
        unfold DigestTree.update in rw (e, DigestTree.update) (laws.is_null-insert _ _ _ _, refl)
  ]

  -- initTree on the tree that the forest has under a name, or on a new one.
  init-IsPending :
      (l : Locator) (s : I) (k : Bytes) (o : Option T)
      → Ok s
      → Names.find k s.forest ≡ o
      → IsPending m integer digest_integer mirrors k
          (init_tree m integer digest_integer mirrors l s
            (or_null m integer digest_integer mirrors o)
            k).0
          (init_tree m integer digest_integer mirrors l s
            (or_null m integer digest_integer mirrors o)
            k).1
  init-IsPending l s k none ok e =
      let a = known s k _ ok e in
      named-IsPending m integer digest_integer mirrors l s k (null m integer) (λ x other. ok x) a.0
        a.1 laws.is_null-no_leaf
  init-IsPending l s k (some t) ok e =
      let a = known s k _ ok e in
      unfold init_tree in rw a.1 (record { others = λ x other. ok x; named = a.0; once = a.2 })

  update_pending :
      (s : I) (k key : Bytes) (value : ℕ) (t : T)
      → IsPending m integer digest_integer mirrors k t s
      → Ok (record s { forest = Names.put k (DigestTree.update m integer t key value) s.forest })
  update_pending s k key value t p =
      let (full, id) = update_tree-full t key value in
      put-IsIndexed m integer digest_integer mirrors s k (DigestTree.update m integer t key value)
        (record { others = p.others; named = id ∙ p.named; once = p.once }) full

  pub update-IsIndexed :
      (l : Locator) (s : I) (key : Bytes) (value : ℕ)
      → Ok s
      → Ok (update m integer digest_integer mirrors l s key value)
  update-IsIndexed l s key value ok =
      let k = l.section key in
      unfold update in
      update_pending _ k key value _ (init-IsPending l s k (Names.find k s.forest) ok refl)

  remove-IsIndexed_at :
      (s : I) (k key : Bytes) (o : Option T)
      → Names.find k s.forest ≡ o
      → Ok s
      → Ok (elim o [
        | none ↦ s
        | some tree ↦
            prune m integer digest_integer mirrors s k (DigestTree.remove m integer tree key)
      ])
  remove-IsIndexed_at s k key none e ok = ok
  remove-IsIndexed_at s k key (some t) e ok =
      let a = known s k _ ok e in
      prune-IsIndexed m integer digest_integer mirrors s k _
        (record { others = λ x other. ok x; named = unfold DigestTree.remove in a.0; once = a.2 })

  pub remove-IsIndexed :
      (l : Locator) (s : I) (key : Bytes)
      → Ok s
      → Ok (remove m integer digest_integer mirrors l s key)
  remove-IsIndexed l s key ok = unfold remove in remove-IsIndexed_at s (l.section key) key _ refl ok
