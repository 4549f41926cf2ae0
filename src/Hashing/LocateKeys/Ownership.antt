-- ===== src/Hashing/LocateKeys/Ownership.antt =====
-- src/lib/hashing/LocateKeys.cpp: keys and their sections belong to the same nodes.
use turbopump.Prelude.{
  ℕ, zero, suc, ◌<◌, ◌≤◌, ◌≡◌, refl, true, Bytes, List, [], ◌∷◌, map, take, Option, none, some,
  arith,
}
use turbopump.Membership.Peer.{Peer}
use turbopump.Hashing.Ring.{CircularMap, Laws}
use turbopump.Hashing.Ring
use turbopump.Hashing.LocateKeys.{
  contains, contains_self, are_mine, locations, section, key_is_mine, section_is_mine,
}

locations-node_id :
    (c : CircularMap) (hash : Bytes → Bytes) (ring : c.Map) (laws : Laws c) (key : Bytes)
    (limit : ℕ) (w : List (Bytes × Bytes))
    → c.walk ring key ≡ w
    → Ring.locations c hash ring (Ring.node_id c hash ring key) limit
      ≡ Ring.locations c hash ring key limit
unfolding Ring.locations Ring.node_id
locations-node_id c hash ring laws key limit [] e =
    rw (e, Ring.node_id, laws.walk_none ring key [] e)
locations-node_id c hash ring laws key limit ((node, peer) ∷ rest) e =
    rw (e, Ring.node_id, laws.walk_self ring key node peer rest e)

take-contains :
    (m n : ℕ) (xs : List (Bytes × Bytes)) (uid : Bytes)
    → m ≤ n
    → contains (map (λ p. p.1) (take m xs)) uid ≡ true
    → contains (map (λ p. p.1) (take n xs)) uid ≡ true
unfolding contains
take-contains zero n xs uid h e = cc
take-contains (suc m) zero xs uid h e = absurd (omega arith)
take-contains (suc m) (suc n) [] uid h e = cc
take-contains (suc m) (suc n) (x ∷ xs) uid h e =
    ground (arith, take-contains m n xs uid (omega arith))

are_mine-take :
    (self : Option Peer) (m n : ℕ) (xs : List (Bytes × Bytes))
    → 0 < m
    → m ≤ n
    → are_mine self (map (λ p. p.1) (take m xs)) ≡ true
    → are_mine self (map (λ p. p.1) (take n xs)) ≡ true
unfolding contains_self
are_mine-take self zero n xs h0 h e = absurd (omega arith)
are_mine-take self (suc m) zero xs h0 h e = absurd (omega arith)
are_mine-take self (suc m) (suc n) [] h0 h e = refl
are_mine-take none (suc m) (suc n) (x ∷ xs) h0 h e = cc
are_mine-take (some self) (suc m) (suc n) (x ∷ xs) h0 h e =
    take-contains (suc m) (suc n) (x ∷ xs) self.uid h e

module _ (c : CircularMap) (hash : Bytes → Bytes) (ring : c.Map) (self : Option Peer) where
  -- A section belongs to this node exactly when the keys in it do: the section that a name falls
  -- into and the name itself have the same locations, for every number of mirrors, also on the
  -- empty ring.
  pub section_is_mine-section :
      Laws c
      → (name : Bytes) (limit : ℕ)
      → section_is_mine c hash ring self (section c hash ring self name) limit
        ≡ key_is_mine c hash ring self name limit
  unfolding section_is_mine section key_is_mine locations
  section_is_mine-section laws name limit =
      rw (locations-node_id c hash ring laws (hash name) limit _ refl)

  -- With more mirrors a key stays with the nodes that hold it: a key that is this node's for some
  -- number of mirrors, at least 1, is this node's for every greater one.
  pub key_is_mine_mono :
      (name : Bytes) (m n : ℕ)
      → 0 < m
      → m ≤ n
      → key_is_mine c hash ring self name m ≡ true
      → key_is_mine c hash ring self name n ≡ true
  unfolding key_is_mine locations Ring.locations
  key_is_mine_mono name m n h0 h e = are_mine-take self m n (c.walk ring (hash name)) h0 h e
