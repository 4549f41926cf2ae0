-- ===== src/Callbacks/MirrorToPeer/Chain.antt =====
-- src/lib/callbacks/MirrorToPeer.cpp: the chain of nodes that a write passes through.
use turbopump.Prelude.{
  ℕ, suc, ◌+◌, ◌-◌, ◌≤◌, ◌<◌, ◌≡◌, refl, sym, true, false, ◌||◌, Bytes, List, [], ◌∷◌, Option, none,
  some, drop, take, leb, str_eq, ◌==◌, if◌then◌else◌, arith, length, length-drop, get_elem?,
  Bool-cases, Option-cases, inl, inr, subst,
}
use turbopump.Membership.Peer.{Peer}
use turbopump.Api.Instructions.{Instructions}
use turbopump.Callbacks.MirrorToPeer.{
  Node, next_location, with_source, accept, choose_located, choose_mirror,
}

-- All locations are the source or this node.
abbrev pub Skipped : Bytes → Bytes → List Bytes → Type 0
Skipped source self [] = Unit {0}
Skipped source self (x ∷ xs) = ((str_eq x source || str_eq x self) ≡ true) × Skipped source self xs

-- What the loop finds, from position `next` on, over the locations that are left there.
record Found (source self : Bytes) (next : ℕ) (locs : List Bytes) (m : ℕ) (loc : Bytes)
    : Type 0 where
  forward : next ≤ m
  within : m < next + length locs
  at : get_elem? locs (m - next) ≡ some loc
  skipped : Skipped source self (take (m - next) locs)

abbrev FoundOk : Bytes → Bytes → ℕ → List Bytes → Option (ℕ × Bytes) → Type 0
FoundOk source self next locs none = Skipped source self locs
FoundOk source self next locs (some (m, loc)) = Found source self next locs m loc

later-FoundOk :
    (source self : Bytes) (next : ℕ) (x : Bytes) (xs : List Bytes) (o : Option (ℕ × Bytes))
    → (str_eq x source || str_eq x self) ≡ true
    → FoundOk source self (next + 1) xs o
    → FoundOk source self next (x ∷ xs) o
later-FoundOk source self next x xs none s f = (s, f)
later-FoundOk source self next x xs (some (m, loc)) s f =
    let e : m - next ≡ suc (m - (next + 1)) = omega (arith, f.forward) in
    record {
      forward = omega (arith, f.forward);
      within = omega (arith, f.within);
      at = rw e f.at;
      skipped = rw e (s, f.skipped);
    }

next_location-FoundOk :
    (source self : Bytes) (next : ℕ) (locs : List Bytes)
    → FoundOk source self next locs (next_location source self next locs)
unfolding next_location
next_location-FoundOk source self next [] = tt
next_location-FoundOk source self next (x ∷ xs) =
    elim (Bool-cases (str_eq x source || str_eq x self)) [
      | inl skip ↦ rw skip (
          later-FoundOk source self next x xs (next_location source self (next + 1) xs) skip
            (next_location-FoundOk source self (next + 1) xs))
      | inr stop ↦
          let e : next - next ≡ 0 = omega arith in
          rw stop
            (record { forward = omega arith; within = omega arith; at = rw e; skipped = rw e tt })
    ]

-- How a chosen mirror stands to the locations of the key at the node that chose it.
pub record Chosen (node : Node) (params : Instructions) (peer : Peer) (after : Instructions)
    : Type 0 where
  pub self : Peer
  pub self_known : node.self ≡ some self
  pub source : after.source ≡ (if params.mirror == 0 then self.uid else params.source)
  pub forward : params.mirror < after.mirror
  pub within : after.mirror ≤ length (node.locations params.name params.copies)
  pub loc : Bytes
  pub located :
      get_elem?
        (drop params.mirror (node.locations params.name params.copies))
        (after.mirror - 1 - params.mirror)
      ≡ some loc
  pub known : node.lookup loc ≡ some peer
  pub not_self : str_eq peer.uid self.uid ≡ false
  pub not_source : str_eq peer.uid after.source ≡ false
  pub skipped : Skipped after.source self.uid (
      take
        (after.mirror - 1 - params.mirror)
        (drop params.mirror (node.locations params.name params.copies)))
  pub rest : (after.name ≡ params.name) × (after.copies ≡ params.copies)

abbrev ChosenOk : Node → Instructions → Option Peer × Instructions → Type 0
ChosenOk node params (none, after) = Unit {0}
ChosenOk node params (some peer, after) = Chosen node params peer after

accept-ChosenOk :
    (node : Node) (params : Instructions) (self : Peer) (m : ℕ) (loc : Bytes) (o : Option Peer)
    → node.self ≡ some self
    → node.lookup loc ≡ o
    → Found
        (with_source params self).source
        self.uid
        params.mirror
        (drop params.mirror (node.locations params.name params.copies))
        m
        loc
    → ChosenOk node params (accept (with_source params self) self m o)
unfolding accept
accept-ChosenOk node params self m loc none known l f = tt
accept-ChosenOk node params self m loc (some peer) known l f =
    elim (Bool-cases
      (str_eq peer.uid self.uid || str_eq peer.uid (with_source params self).source)) [
        | inl bad ↦ rw bad tt
        | inr good ↦
            let e : m + 1 - 1 - params.mirror ≡ m - params.mirror = omega arith in
            rw good (record {
              self = self;
              self_known = known;
              source = refl;
              forward = omega (arith, f.forward);
              within = omega (
                arith,
                f.within,
                length-drop params.mirror (node.locations params.name params.copies),
              );
              loc = loc;
              located = rw e f.at;
              known = l;
              not_self = ground arith;
              not_source = ground arith;
              skipped = rw e f.skipped;
              rest = (refl, refl);
            })
      ]

choose_located-ChosenOk :
    (node : Node) (params : Instructions) (self : Peer)
    → node.self ≡ some self
    → ChosenOk node params (choose_located node params self)
choose_located-ChosenOk node params self known =
    let p = with_source params self in
    let locs = drop params.mirror (node.locations params.name params.copies) in
    let ok = next_location-FoundOk p.source self.uid params.mirror locs in
    elim (Option-cases (next_location p.source self.uid params.mirror locs)) [
      | inl e ↦
          let step : choose_located node params self ≡ (none, p) =
            unfold choose_located in rw (e, choose_located) in
          subst (ChosenOk node params) (sym step) tt
      | inr ((m, loc), e) ↦
          let f : Found p.source self.uid params.mirror locs m loc =
            subst (FoundOk p.source self.uid params.mirror locs) e ok in
          let step : choose_located node params self ≡ accept p self m (node.lookup loc) =
            unfold choose_located in rw (e, choose_located) in
          subst (ChosenOk node params) (sym step)
            (accept-ChosenOk node params self m loc (node.lookup loc) known refl f)
    ]

choose_mirror-ChosenOk :
    (node : Node) (params : Instructions) → ChosenOk node params (choose_mirror node params)
choose_mirror-ChosenOk node params = elim (Bool-cases (leb params.copies params.mirror)) [
  | inl full ↦ unfold choose_mirror in rw full tt
  | inr more ↦ elim (Option-cases node.self) [
    | inl e ↦
        let step : choose_mirror node params ≡ (none, params) =
          unfold choose_mirror in rw (more, e) in
        subst (ChosenOk node params) (sym step) tt
    | inr (self, e) ↦
        let step : choose_mirror node params ≡ choose_located node params self =
          unfold choose_mirror in simp (more, e) in
        subst (ChosenOk node params) (sym step) (choose_located-ChosenOk node params self e)
  ]
]

-- When chooseMirror returns true, the peer is what the membership knows under the first location
-- of the key, from the write's position on, that is neither the source nor this node: all that
-- are passed over are one of these two. It is itself neither of them. The write's position moves
-- forward, to behind that location; the source is this node if the position was 0, and stays what
-- it was otherwise; name and copies stay.
pub choose_mirror-Chosen :
    (node : Node) (params : Instructions) (peer : Peer) (after : Instructions)
    → choose_mirror node params ≡ (some peer, after)
    → Chosen node params peer after
choose_mirror-Chosen node params peer after e =
    subst (ChosenOk node params) e (choose_mirror-ChosenOk node params)

-- The parameters behind a chain of nodes, if each of them chooses a mirror.
abbrev pub after_hop : Option Peer × Instructions → Option Instructions
after_hop (none, after) = none
after_hop (some peer, after) = some after

abbrev pub and_then :
    (Instructions → Option Instructions) → Option Instructions → Option Instructions
and_then f none = none
and_then f (some p) = f p

abbrev pub chain : List Node → Instructions → Option Instructions
chain [] params = some params
chain (node ∷ nodes) params = and_then (chain nodes) (after_hop (choose_mirror node params))

-- Every node lists at most as many locations as it is asked for.
abbrev pub AreBounded : List Node → Type 0
AreBounded [] = Unit {0}
AreBounded (node ∷ nodes) =
    ((name : Bytes) (limit : ℕ) → length (node.locations name limit) ≤ limit) × AreBounded nodes

-- A write is passed on at most as often as it has copies to make: a chain of nodes that all choose
-- a mirror, from the start of the write, is no longer than the copies, whatever rings and
-- memberships the nodes have, if none lists more locations than it is asked for.
pub chain_bounded :
    (nodes : List Node) (params after : Instructions)
    → AreBounded nodes
    → params.mirror ≤ params.copies
    → chain nodes params ≡ some after
    → params.mirror + length nodes ≤ params.copies
chain_bounded [] params after b h e = omega arith
chain_bounded (node ∷ nodes) params after b h e =
    hop (choose_mirror node params) refl e (λ next. chain_bounded nodes next after b.1)
  where
    hop :
        (o : Option Peer × Instructions)
        → choose_mirror node params ≡ o
        → and_then (chain nodes) (after_hop o) ≡ some after
        → ((next : Instructions)
            → next.mirror ≤ next.copies
            → chain nodes next ≡ some after
            → next.mirror + length nodes ≤ next.copies)
        → params.mirror + suc (length nodes) ≤ params.copies
    hop (none, next) e1 e2 ih = cc
    hop (some peer, next) e1 e2 ih =
        let c = choose_mirror-Chosen node params peer next e1 in
        let fits = b.0 params.name params.copies in
        let more = ih next (omega (arith, c.within, c.rest.1)) e2 in
        omega (arith, c.forward, c.rest.1)
