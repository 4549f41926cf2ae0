-- ===== src/Deskew/DigestTree.antt =====
-- src/lib/deskew/DigestTree.cpp, over the tree of the library beside the program.
use Prim.Native.Nat.{bit_xor}
use turbopump.Prelude.{
  ℕ, ◌-◌, ◌^◌, ◌≡◌, Bool, true, false, Bytes, List, [], ◌∷◌, map, take, Option, none, some,
}

-- A key is the hash of a file's name.
pub record Leaf : Type 0 where
  pub key : ℕ
  pub hash : ℕ
  pub file : Bytes

-- turbo::merkle_tree<unsigned long long, unsigned long long, string>.
pub record Merkle : Type 1 where
  pub Tree : Type 0
  pub no_leaf : Tree
  -- top() == MerklePoint::null()
  pub is_null : Tree → Bool
  -- the hash at a key
  pub find : Tree → ℕ → Option ℕ
  pub insert : Tree → ℕ → ℕ → Bytes → Tree
  pub remove : Tree → ℕ → Tree
  -- the leaves that `enumerate` passes to a function that always goes on
  pub leaves : Tree → ℕ → ℕ → List Leaf

-- A tree is empty at first, and not after an insertion.
pub record Laws (m : Merkle) : Type 0 where
  pub is_null-no_leaf : m.is_null m.no_leaf ≡ true
  pub is_null-insert :
      (t : m.Tree) (key hash : ℕ) (file : Bytes) → m.is_null (m.insert t key hash file) ≡ false

abbrev pub max_key : ℕ
max_key = 2 ^ 64 - 1

-- `integer` is Hash(...).integer().
module _ (m : Merkle) (integer : Bytes → ℕ) where
  pub record DigestTree : Type 0 where
    pub id : Bytes
    pub mirrors : ℕ
    pub tree : m.Tree

  -- DigestTree::null(), and a new tree.
  abbrev pub null : DigestTree
  null = record { id = []; mirrors = 3; tree = m.no_leaf }

  abbrev pub set_id : DigestTree → Bytes → ℕ → DigestTree
  set_id t id mirrors = record t { id = id; mirrors = mirrors }

  unfoldable pub update : DigestTree → Bytes → ℕ → DigestTree
  update t key value =
      let keyhash = integer key in
      elim (m.find t.tree keyhash) [
        | none ↦ record t { tree = m.insert t.tree keyhash (bit_xor value keyhash) key }
        | some hash ↦ record t {
          tree = m.insert (m.remove t.tree keyhash) keyhash (bit_xor value hash) key;
        }
      ]

  unfoldable pub add : DigestTree → Bytes → ℕ → DigestTree
  add t key hash = record t { tree = m.insert t.tree (integer key) hash key }

  unfoldable pub remove : DigestTree → Bytes → DigestTree
  remove t key = record t { tree = m.remove t.tree (integer key) }

  abbrev pub empty : DigestTree → Bool
  empty t = m.is_null t.tree

  -- The function stops the enumeration once it has seen `limit` files; it sees one at least.
  unfoldable pub enumerate : DigestTree → ℕ → ℕ → ℕ → List Bytes
  enumerate t first last limit =
      map (λ leaf. leaf.file) (take_some limit (m.leaves t.tree first last))
    where
      take_some : ℕ → List Leaf → List Leaf
      take_some limit [] = []
      take_some limit (x ∷ xs) = x ∷ take (limit - 1) xs
