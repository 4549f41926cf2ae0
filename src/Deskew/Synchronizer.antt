-- ===== src/Deskew/Synchronizer.antt =====
-- src/lib/deskew/Synchronizer.cpp: what a node asks of another, and pushes to it, when it compares
-- a tree with a point of the other's. The result of each operation is the calls that it makes of
-- IMessageSender and ICorrectSkew, in turn.
pub mod Asked
pub mod Located
use turbopump.Prelude.{
  ℕ, zero, suc, ◌-◌, ◌^◌, Bool, true, false, not, ◌&&◌, ◌||◌, Bytes, List, [], ◌∷◌, ◌++◌, Option,
  none, some, length, get_elem?, ltb, ◌==◌, is_empty, if◌then◌else◌,
}
use turbopump.Membership.Peer.{Peer}
use turbopump.Common.MerklePoint.{MerklePoint}
use turbopump.Deskew.KeyRange.{KeyRange, from_location}

pub record TreeId : Type 0 where
  pub id : Bytes
  pub mirrors : ℕ

-- MerkleDiffResult of the library beside the program.
pub record Diff : Type 0 where
  pub no_difference : Bool
  pub traverse : Bool
  pub need_range : Bool
  pub need_partial_range : Bool
  pub need_exchange : Bool
  pub points : List MerklePoint

-- IDigestKeys, as it is used here.
pub record Tree : Type 0 where
  pub id : TreeId
  pub is_empty : Bool
  pub top : MerklePoint
  pub diff : MerklePoint → Diff

pub data Call : Type 0 where
  digest_ping : Peer → TreeId → List MerklePoint → Call
  request_key_range : Peer → TreeId → ℕ → ℕ → Call
  request_key : Peer → TreeId → ℕ → Call
  push_key_range : Peer → TreeId → ℕ → ℕ → Bytes → Call
  push_key : Peer → TreeId → ℕ → Call

abbrev pub max_key : ℕ
max_key = 2 ^ 64 - 1

unfoldable pub drop_last {ℓ} : {A : Type ℓ} → List A → List A
drop_last [] = []
drop_last (x ∷ []) = []
drop_last (x ∷ y ∷ rest) = x ∷ drop_last (y ∷ rest)

-- The ranges of a partial range: `outer` of the other node, `inner` of this one.
unfoldable pub request_partial : Peer → TreeId → KeyRange → KeyRange → List Call
request_partial peer treeid outer inner =
    if ltb inner.first outer.first
      || (ltb outer.last inner.first || outer.first == inner.first && outer.last == inner.last)
    then request_key_range peer treeid outer.first outer.last ∷ []
    else (if ltb outer.first inner.first
        then request_key_range peer treeid outer.first inner.first ∷ []
        else [])
      ++ (if ltb inner.last outer.last
          then request_key_range peer treeid inner.last outer.last ∷ []
          else [])

-- diffs[0] is only taken where there is a point.
unfoldable pub with_first : List MerklePoint → (MerklePoint → List Call) → List Call
with_first [] f = []
with_first (p ∷ rest) f = f p

-- `is_null` is whether a point is MerklePoint::null().
unfoldable pub compare :
    (is_null : MerklePoint → Bool) → Tree → Peer → TreeId → MerklePoint → Bool → List Call
unfolding with_first
compare is_null tree peer treeid point is_response =
    let diffs = tree.diff point in
    if is_null point
    then (if tree.is_empty then [] else push_key_range peer treeid 0 max_key [] ∷ [])
    else if diffs.no_difference
    then []
    else if diffs.traverse
    then digest_ping peer treeid (if is_response then drop_last diffs.points else diffs.points) ∷ []
    else if diffs.need_range
    then (let range = from_location point in
        request_key_range peer treeid range.first range.last ∷ [])
    else if diffs.need_partial_range
    then with_first diffs.points
        (λ p. request_partial peer treeid (from_location point) (from_location p))
    else if diffs.need_exchange
    then with_first diffs.points
        (λ p. request_key peer treeid p.key ∷ push_key peer treeid p.key ∷ [])
    else []

-- std::vector::erase at a position
unfoldable pub erase_at {ℓ} : {A : Type ℓ} → ℕ → List A → List A
erase_at i [] = []
erase_at zero (x ∷ xs) = xs
erase_at (suc i) (x ∷ xs) = x ∷ erase_at i xs

-- `select` is turbo::random::select, as a position, and `lookup` that of the membership.
module _ (select : List Bytes → ℕ) (lookup : Bytes → Option Peer) where
  unfoldable pub random_peer_loop : ℕ → List Bytes → Option Peer
  random_peer_loop zero locs = none
  random_peer_loop (suc n) locs = elim (get_elem? locs (select locs)) [
    | none ↦ none
    | some uid ↦ elim (lookup uid) [
      | none ↦ random_peer_loop n (erase_at (select locs) locs)
      | some peer ↦ some peer
    ]
  ]

  -- Each round takes one location away.
  unfoldable pub random_peer_from_list : List Bytes → Option Peer
  random_peer_from_list locs = random_peer_loop (length locs) locs

  -- `locations` is that of the ring for the tree, and `random_peer` that of the membership.
  unfoldable pub ping_random_peer :
      Tree → (locations : List Bytes) → (random_peer : Option Peer) → List Call
  ping_random_peer tree locations random_peer =
      elim (if is_empty locations then random_peer else random_peer_from_list locations) [
        | none ↦ []
        | some peer ↦ digest_ping peer tree.id (tree.top ∷ []) ∷ []
      ]

  -- `self` is the uid of this node.
  unfoldable pub offload_unwanted_keys :
      Tree → (locations : List Bytes) → (self : Bytes) → List Call
  offload_unwanted_keys tree locations self =
      let calls : List Call = elim (random_peer_from_list locations) [
        | none ↦ []
        | some peer ↦ push_key_range peer tree.id 0 max_key self ∷ []
      ] in
      if tree.is_empty then [] else if is_empty locations then [] else calls
