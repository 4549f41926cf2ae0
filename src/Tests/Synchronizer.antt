-- ===== src/Tests/Synchronizer.antt =====
-- A comparison of two nodes, and the message that asks for it: src/lib/deskew/Synchronizer.cpp,
-- src/lib/peer_client/MessageSender.cpp and src/lib/common/MerklePoint.cpp.
use turbopump.Prelude.{
  ℕ, ◌≤◌, ◌↔◌, ◌≡◌, refl, true, false, Bytes, List, [], ◌∷◌, ◌++◌, Option, none, some, codes,
  has_byte, str_eq, ◌==◌, inl, inr, if◌then◌else◌, arith, Bool-cases,
}
use turbopump.Common.MerklePoint.{MerklePoint, from_string, decimal, digits, to_string}
use turbopump.Membership.Peer.{Peer}
use turbopump.Deskew.KeyRange.{from_location, be64}
use turbopump.Deskew.KeyRange.Prefix.{prefix, from_location-prefix}
use turbopump.Deskew.Synchronizer.{TreeId, Tree, compare, random_peer_from_list}
use turbopump.Deskew.Synchronizer.Asked.{any_asks, compare-asks}
use turbopump.Deskew.Synchronizer.Located.{IsLocated, random_peer_from_list-IsLocated}
use turbopump.Api.NodeCommands.{sync}
use turbopump.PeerClient.MessageSender.{points_text}
use turbopump.PeerClient.MessageSender.Received.{SplitLaws, sync-points_text}

abbrev other : Peer
other = record { uid = codes "b"; ips = [] }

abbrev tree_id : TreeId
tree_id = record { id = codes "t"; mirrors = 3 }

abbrev point_at : ℕ → ℕ → MerklePoint
point_at key keybits = record { key = key; keybits = keybits; hash = 1 }

-- A tree that holds the key 5 only.
abbrev five : Tree
five = record {
  id = tree_id;
  is_empty = false;
  top = point_at 5 64;
  diff = λ p. record {
    no_difference = false;
    traverse = false;
    need_range = false;
    need_partial_range = true;
    need_exchange = false;
    points = point_at 5 64 ∷ [];
  };
}

compare-asks_example :
    any_asks 9 (compare (λ p. false) five other tree_id (point_at 0 0) false) ≡ true
unfolding from_location be64
compare-asks_example =
    compare-asks (λ p. false) five other tree_id (point_at 0 0) false 9 refl refl refl refl
      (inr (refl, refl, (point_at 5 64, [], refl, refl, (omega arith, omega arith, refl, refl))))

abbrev known : Bytes → Option Peer
known uid = if str_eq uid (codes "b") then some other else none

random_peer_from_list-IsLocated_example :
    IsLocated
      (λ l. 0)
      known
      (codes "a" ∷ codes "b" ∷ [])
      (random_peer_from_list (λ l. 0) known (codes "a" ∷ codes "b" ∷ []))
random_peer_from_list-IsLocated_example =
    random_peer_from_list-IsLocated (λ l. 0) known (λ x xs. omega arith)
      (codes "a" ∷ codes "b" ∷ [])

onto_first : ℕ → List Bytes → List Bytes
onto_first c [] = (c ∷ []) ∷ []
onto_first c (part ∷ parts) = (c ∷ part) ∷ parts

split_bars : Bytes → List Bytes
unfolding onto_first
split_bars [] = [] ∷ []
split_bars (c ∷ cs) = let rest = split_bars cs in if c == b'|' then [] ∷ rest else onto_first c rest

split_bars_one : (a : Bytes) → has_byte b'|' a ≡ false → split_bars a ≡ a ∷ []
unfolding split_bars onto_first has_byte
split_bars_one [] h = refl
split_bars_one (c ∷ cs) h = elim (Bool-cases (c == b'|')) [
  | inl bar ↦ absurd (ground (arith, h, bar))
  | inr other_byte ↦ rw (other_byte, split_bars_one cs (ground (arith, h, other_byte))) refl
]

split_bars_more :
    (a b : Bytes) → has_byte b'|' a ≡ false → split_bars (a ++ (codes "|" ++ b)) ≡ a ∷ split_bars b
unfolding split_bars onto_first has_byte
split_bars_more [] b h = refl
split_bars_more (c ∷ cs) b h = elim (Bool-cases (c == b'|')) [
  | inl bar ↦ absurd (ground (arith, h, bar))
  | inr other_byte ↦ rw (other_byte, split_bars_more cs b (ground (arith, h, other_byte))) refl
]

split_bars-SplitLaws : SplitLaws split_bars
split_bars-SplitLaws = record {
  split_one = λ a h full. split_bars_one a h;
  split_more = λ a b h full. split_bars_more a b h;
}

sync-points_text_example :
    (text : Bytes) × (points_text (point_at 5 64 ∷ point_at 0 8 ∷ []) ≡ some text)
    × (sync split_bars (from_string 65536) text
        ≡ (true, (point_at 5 64, false) ∷ (point_at 0 8, false) ∷ []))
sync-points_text_example =
    sync-points_text split_bars split_bars-SplitLaws 65536 (point_at 5 64) (point_at 0 8 ∷ [])
      ((omega arith, omega arith, omega arith), ((omega arith, omega arith, omega arith), tt))

-- The text of a point.
point_text : to_string (point_at 1234 10) ≡ codes "1234 10 1"
unfolding to_string decimal digits
point_text = refl

-- The first three bits in memory of the keys 5 and 6, whose low byte comes first, are 0.
from_location-prefix_example :
    ((be64 (from_location (point_at 5 3)).first ≤ be64 6)
      × (be64 6 ≤ be64 (from_location (point_at 5 3)).last))
    ↔ (prefix 3 6 ≡ prefix 3 5)
from_location-prefix_example = from_location-prefix (point_at 5 3) 6
