-- ===== src/Hashing/Ring.antt =====
-- src/lib/hashing/ConsistentHashRing.cpp, over the circular map of the library beside the program.
use turbopump.Prelude.{ℕ, ◌≡◌, Bool, Bytes, List, [], ◌∷◌, map, take}

-- turbo::circular_map<string,string>. `walk m key` is what an iterator from lower_bound(key) on
-- passes until it reaches the end: once round the ring.
pub record CircularMap : Type 1 where
  pub Map : Type 0
  pub insert : Map → Bytes → Bytes → Map
  -- whether the key was there, and the map without it
  pub erase : Map → Bytes → Bool × Map
  pub walk : Map → Bytes → List (Bytes × Bytes)

-- A walk from a node's own key starts at that node.
pub record Laws (c : CircularMap) : Type 0 where
  pub walk_self :
      (m : c.Map) (key node peer : Bytes) (rest : List (Bytes × Bytes))
      → c.walk m key ≡ (node, peer) ∷ rest
      → c.walk m node ≡ (node, peer) ∷ rest
  pub walk_none : (m : c.Map) (key other : Bytes) → c.walk m key ≡ [] → c.walk m other ≡ []

-- `hash` is the hasher of src/lib/hashing/Hash.cpp.
module _ (c : CircularMap) (hash : Bytes → Bytes) where
  unfoldable pub insert : c.Map → Bytes → Bytes → c.Map
  insert ring node peer = c.insert ring (hash node) peer

  unfoldable pub erase : c.Map → Bytes → Bool × c.Map
  erase ring node = c.erase ring (hash node)

  -- The keys here are hashes.
  unfoldable pub locations : c.Map → Bytes → ℕ → List Bytes
  locations ring key limit = map (λ p. p.1) (take limit (c.walk ring key))

  unfoldable pub node_id : c.Map → Bytes → Bytes
  node_id ring key = elim (c.walk ring key) [ [] ↦ [] | p ∷ rest ↦ p.0 ]
