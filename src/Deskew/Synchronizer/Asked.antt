-- ===== src/Deskew/Synchronizer/Asked.antt =====
-- src/lib/deskew/Synchronizer.cpp: a comparison asks for every key that may be missing.
use turbopump.Prelude.{
  ℕ, ◌≡◌, ◌⊎◌, inl, inr, Bool, true, false, ◌&&◌, ◌||◌, List, [], ◌∷◌, leb, ◌==◌, ◌<◌, ◌≤◌, ◌^◌, ap,
  ℕ_discrete, arith,
}
use turbopump.Membership.Peer.{Peer}
use turbopump.Common.MerklePoint.{MerklePoint}
use turbopump.Deskew.KeyRange.{KeyRange, from_location, be64}
use turbopump.Deskew.KeyRange.Nested.{ends-bound, nested-between}
use turbopump.Deskew.Synchronizer.{
  TreeId, Diff, Tree, Call, digest_ping, request_key_range, request_key, push_key_range, push_key,
  request_partial, compare,
}

-- In the order of the bytes of keys in memory, in which a tree enumerates them.
abbrev pub between : ℕ → ℕ → ℕ → Bool
between first last key = leb (be64 first) (be64 key) && leb (be64 key) (be64 last)

abbrev pub within : KeyRange → ℕ → Bool
within range key = between range.first range.last key

-- The range of one point lies in that of another. Keys have 64 bits.
abbrev pub Nested : MerklePoint → MerklePoint → Type 0
Nested outer inner =
    (outer.key < 2 ^ 64)
    × (inner.key < 2 ^ 64)
    × (within (from_location outer) (from_location inner).first ≡ true)
    × (within (from_location outer) (from_location inner).last ≡ true)

-- What the code compares as numbers, in the order in which keys are enumerated: where the inner
-- range starts behind the outer one, or ends before it, so it does as numbers.
abbrev AgreeOn : KeyRange → KeyRange → Type 0
AgreeOn outer inner =
    (be64 outer.first < be64 inner.first → outer.first < inner.first)
    × (be64 inner.last < be64 outer.last → inner.last < outer.last)

-- Whether a call asks for a key.
abbrev pub asks : ℕ → Call → Bool
asks key (digest_ping peer treeid points) = false
asks key (request_key_range peer treeid first last) = between first last key
asks key (request_key peer treeid k) = key == k
asks key (push_key_range peer treeid first last source) = false
asks key (push_key peer treeid k) = false

abbrev pub any_asks : ℕ → List Call → Bool
any_asks key [] = false
any_asks key (c ∷ cs) = asks key c || any_asks key cs

-- The keys of the other node's point that this node lacks, as far as the difference tells: all of
-- its range, or those that are not in the range of this node's own point, which lies in it.
abbrev pub Lacks : MerklePoint → Diff → ℕ → Type 0
Lacks point diffs key =
    (diffs.need_range ≡ true)
    ⊎ (diffs.need_range ≡ false)
      × (diffs.need_partial_range ≡ true)
      × ((p : MerklePoint) × (rest : List MerklePoint) × (diffs.points ≡ p ∷ rest)
          × (within (from_location p) key ≡ false)
          × Nested point p)

less_of : (x y : ℕ) → x ≤ y → be64 x < be64 y → x < y
less_of x y h strict = elim (ℕ_discrete x y) [
  | yes same ↦ let clash : be64 x ≡ be64 y = ap be64 same in absurd (omega (arith, strict, clash))
  | no apart ↦ omega (arith, h, apart)
]

Nested-AgreeOn :
    (outer inner : MerklePoint)
    → Nested outer inner
    → AgreeOn (from_location outer) (from_location inner)
Nested-AgreeOn outer inner (small, small', front, back) =
    let (fb, lb) = ends-bound inner small' in
    let a =
      nested-between outer (from_location inner).first small fb (ground (arith, front))
        (ground (arith, front)) in
    let b =
      nested-between outer (from_location inner).last small lb (ground (arith, back))
        (ground (arith, back)) in
    (less_of _ _ a.0, less_of _ _ b.1)

request_partial-asks :
    (peer : Peer) (treeid : TreeId) (outer inner : KeyRange) (key : ℕ)
    → within outer key ≡ true
    → within inner key ≡ false
    → AgreeOn outer inner
    → any_asks key (request_partial peer treeid outer inner) ≡ true
unfolding request_partial
request_partial-asks peer treeid outer inner key h away (front, back) =
    ground (arith, h, away, front, back)

-- Where a node finds that it needs the range of a point, or the part of it that its own point
-- leaves out, it asks the other node for each key that it lacks there, in the order of the bytes
-- of keys in memory. Of a part it is assumed that the range of the own point lies in that of the
-- other's. That the code compares the ends of ranges as numbers does no harm then.
pub compare-asks :
    (is_null : MerklePoint → Bool) (tree : Tree) (peer : Peer) (treeid : TreeId)
    (point : MerklePoint) (is_response : Bool) (key : ℕ)
    → is_null point ≡ false
    → (tree.diff point).no_difference ≡ false
    → (tree.diff point).traverse ≡ false
    → within (from_location point) key ≡ true
    → Lacks point (tree.diff point) key
    → any_asks key (compare is_null tree peer treeid point is_response) ≡ true
unfolding compare
compare-asks is_null tree peer treeid point is_response key real differs ends h (inl all) =
    simp (real, differs, ends, all) (ground (arith, h))
compare-asks is_null tree peer treeid point is_response key real differs ends h
      (inr (part, partial, (p, rest, at, away, agree))) =
    simp (real, differs, ends, part, partial, at)
      (request_partial-asks peer treeid (from_location point) (from_location p) key h away
        (Nested-AgreeOn point p agree))
