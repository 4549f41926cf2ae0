-- ===== src/Callbacks/MirrorToPeer.antt =====
-- src/lib/callbacks/MirrorToPeer.cpp and src/lib/callbacks/RandomizedMirrorToPeer.cpp. Peers are
-- told apart by their uid, of which the membership has one object each.
pub mod Chain
use turbopump.Prelude.{
  ℕ, ◌+◌, Bool, ◌||◌, Bytes, List, [], ◌∷◌, Option, none, some, drop, leb, ltb, str_eq, ◌==◌,
  if◌then◌else◌,
}
use turbopump.Membership.Peer.{Peer}
use turbopump.Api.Instructions.{Instructions}

-- What chooseMirror reads of its node: `locations` of the locator, and of the membership `self`
-- and `lookup`.
pub record Node : Type 0 where
  pub locations : Bytes → ℕ → List Bytes
  pub self : Option Peer
  pub lookup : Bytes → Option Peer

-- The loop over the locations from `next` on: the first that is neither the source nor this node.
unfoldable pub next_location : Bytes → Bytes → ℕ → List Bytes → Option (ℕ × Bytes)
next_location source self next [] = none
next_location source self next (loc ∷ rest) =
    let later = next_location source self (next + 1) rest in
    if str_eq loc source || str_eq loc self then later else some (next, loc)

-- The source is set at the first write.
abbrev pub with_source : Instructions → Peer → Instructions
with_source params self = record params {
  source = if params.mirror == 0 then self.uid else params.source;
}

-- The test behind the loop, on the peer that was looked up.
unfoldable pub accept : Instructions → Peer → ℕ → Option Peer → Option Peer × Instructions
accept params self next none = (none, params)
accept params self next (some peer) =
    if str_eq peer.uid self.uid || str_eq peer.uid params.source
    then (none, params)
    else (some peer, record params { mirror = next + 1 })

unfoldable pub choose_located : Node → Instructions → Peer → Option Peer × Instructions
choose_located node params self =
    let p = with_source params self in
    elim (next_location p.source self.uid params.mirror
      (drop params.mirror (node.locations params.name params.copies))) [
        | none ↦ (none, p)
        | some (next, loc) ↦ accept p self next (node.lookup loc)
      ]

-- The peer if chooseMirror returns true, and the parameters that it leaves.
unfoldable pub choose_mirror : Node → Instructions → Option Peer × Instructions
choose_mirror node params =
    let chosen = elim node.self as (λ _. Option Peer × Instructions) [
      | none ↦ (none, params)
      | some self ↦ choose_located node params self
    ] in
    if leb params.copies params.mirror then (none, params) else chosen

-- RandomizedMirrorToPeer::chooseMirror, with the peer that the membership draws.
unfoldable pub choose_random : Option Peer → Instructions → Option Peer
choose_random drawn params = if leb params.copies params.mirror then none else drawn
