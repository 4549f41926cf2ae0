-- ===== src/Tests/Hashing.antt =====
-- A ring of two nodes: src/lib/hashing/LocateKeys.cpp.
use turbopump.Prelude.{◌≡◌, true, Bytes, List, [], ◌∷◌, some, codes}
use turbopump.Membership.Peer.{Peer}
use turbopump.Hashing.Ring.{CircularMap, Laws}
use turbopump.Hashing.LocateKeys.{section, key_is_mine, section_is_mine}
use turbopump.Hashing.LocateKeys.Ownership.{section_is_mine-section}

-- Every key falls to the first of the nodes, as do the nodes themselves.
abbrev pub one_node : List (Bytes × Bytes)
one_node = (7 ∷ [], codes "a") ∷ []

abbrev pub fixed : CircularMap
fixed = record {
  Map = List (Bytes × Bytes);
  insert = λ m node peer. (node, peer) ∷ [];
  erase = λ m node. (true, []);
  walk = λ m key. m;
}

fixed-Laws : Laws fixed
fixed-Laws = record { walk_self = λ m key node peer rest e. e; walk_none = λ m key other e. e }

abbrev pub node_a : Peer
node_a = record { uid = codes "a"; ips = [] }

section_is_mine-section_example :
    section_is_mine fixed
      (λ b. b)
      one_node
      (some node_a)
      (section fixed (λ b. b) one_node (some node_a) (3 ∷ []))
      2
    ≡ key_is_mine fixed (λ b. b) one_node (some node_a) (3 ∷ []) 2
section_is_mine-section_example =
    section_is_mine-section fixed (λ b. b) one_node (some node_a) fixed-Laws (3 ∷ []) 2
