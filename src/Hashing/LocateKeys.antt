-- ===== src/Hashing/LocateKeys.antt =====
-- src/lib/hashing/LocateKeys.cpp.
pub mod Ownership
use turbopump.Prelude.{
  ℕ, zero, suc, ◌+◌, ◌<◌, ◌≡◌, refl, Bool, true, false, ◌||◌, Bytes, List, [], ◌∷◌, map, take,
  Option, none, some, str_eq, is_empty, if◌then◌else◌, arith,
}
use turbopump.Membership.Peer.{Peer}
use turbopump.Hashing.Ring.{CircularMap}
use turbopump.Hashing.Ring

-- std::find
unfoldable pub contains : List Bytes → Bytes → Bool
contains [] uid = false
contains (x ∷ xs) uid = str_eq x uid || contains xs uid

unfoldable pub contains_self : Option Peer → List Bytes → Bool
contains_self none locs = false
contains_self (some self) locs = contains locs self.uid

-- What keyIsMine and sectionIsMine make of the locations.
abbrev pub are_mine : Option Peer → List Bytes → Bool
are_mine self locs = if is_empty locs then true else contains_self self locs

module _ (c : CircularMap) (hash : Bytes → Bytes) (ring : c.Map) (self : Option Peer) where
  unfoldable pub locations : Bytes → ℕ → List Bytes
  locations name limit = Ring.locations c hash ring (hash name) limit

  unfoldable pub section : Bytes → Bytes
  section name = Ring.node_id c hash ring (hash name)

  unfoldable pub key_is_mine : Bytes → ℕ → Bool
  key_is_mine name limit = are_mine self (locations name limit)

  unfoldable pub section_is_mine : Bytes → ℕ → Bool
  section_is_mine id limit = are_mine self (Ring.locations c hash ring id limit)
