-- ===== src/Deskew/DigestIndexer/Updated.antt =====
-- src/lib/deskew/DigestIndexer.cpp: what an update leaves at its key.
use Prim.Native.Nat.{bit_xor}
use turbopump.Prelude.{
  ℕ, ◌≡◌, refl, ◌∙◌, ap, Bytes, Option, none, some, str_eq_refl, Bool-cases, Option-cases, inl, inr,
}
use turbopump.Deskew.Names
use turbopump.Deskew.Names.{find-put}
use turbopump.Deskew.DigestTree.{Merkle, DigestTree}
use turbopump.Deskew.DigestTree
use turbopump.Deskew.DigestIndexer.{Locator, Tree, Indexer, init_tree, or_null, update, find}

-- A leaf that is inserted under a key that has none is found, and one that is removed is not. What
-- an insertion does to a leaf that is there is left open.
pub record FindLaws (m : Merkle) : Type 0 where
  pub find-insert :
      (t : m.Tree) (key hash : ℕ) (file : Bytes)
      → m.find t key ≡ none
      → m.find (m.insert t key hash file) key ≡ some hash
  pub find-remove : (t : m.Tree) (key : ℕ) → m.find (m.remove t key) key ≡ none

-- The digest of a key after an update, from the one before.
abbrev pub updated_digest : ℕ → ℕ → Option ℕ → ℕ
updated_digest value keyhash none = bit_xor value keyhash
updated_digest value keyhash (some hash) = bit_xor value hash

module _ {m : Merkle} (laws : FindLaws m) (integer digest_integer : Bytes → ℕ) (mirrors : ℕ) where
  update-digest :
      (t : Tree m integer digest_integer mirrors) (key : Bytes) (value : ℕ)
      → m.find (DigestTree.update m integer t key value).tree (integer key)
        ≡ some (updated_digest value (integer key) (m.find t.tree (integer key)))
  update-digest t key value = elim (Option-cases (m.find t.tree (integer key))) [
    | inl e ↦ unfold DigestTree.update in rw (e, DigestTree.update) (laws.find-insert _ _ _ _ e)
    | inr (hash, e) ↦
        let gone = laws.find-remove t.tree (integer key) in
        unfold DigestTree.update in rw (e, DigestTree.update) (laws.find-insert _ _ _ _ gone)
  ]

  init_tree-tree :
      (l : Locator) (s : Indexer m integer digest_integer mirrors)
      (t : Tree m integer digest_integer mirrors) (k : Bytes)
      → (init_tree m integer digest_integer mirrors l s t k).0.tree ≡ t.tree
  init_tree-tree l s t k = elim (Bool-cases (DigestTree.empty m integer t)) [
    | inl e ↦ unfold init_tree in rw e refl
    | inr e ↦ unfold init_tree in rw e refl
  ]

  -- After an update of a key, the tree of the key's section has the key, with the value that was
  -- given folded into the digest that the key had there, or into the key's hash if it had none,
  -- whatever the index held. The tree beside the program is assumed to find what is inserted
  -- under a key that it does not have, and not to have what was removed.
  pub find-update :
      (l : Locator) (s : Indexer m integer digest_integer mirrors) (key : Bytes) (value : ℕ)
      → m.find
          (find m integer digest_integer mirrors
            (update m integer digest_integer mirrors l s key value)
            (l.section key)).tree
          (integer key)
        ≡ some (
            updated_digest value
              (integer key)
              (m.find (find m integer digest_integer mirrors s (l.section key)).tree (integer key)))
  find-update l s key value =
      let k = l.section key in
      let t = or_null m integer digest_integer mirrors (Names.find k s.forest) in
      let p = init_tree m integer digest_integer mirrors l s t k in
      let grown = DigestTree.update m integer p.0 key value in
      let digest =
        update-digest p.0 key value
        ∙ ap (λ tree. some (updated_digest value (integer key) (m.find tree (integer key))))
            (init_tree-tree l s t k) in
      unfold find update in rw (find-put k k grown p.1.forest, str_eq_refl k) digest
