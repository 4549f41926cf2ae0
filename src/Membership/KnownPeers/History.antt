-- ===== src/Membership/KnownPeers/History.antt =====
-- src/lib/membership/KnownPeers.cpp: a node that knows itself, through updates and removals.
use turbopump.Prelude.{
  ℕ, suc, zero, ◌≡◌, subst, refl, sym, ap, ◌∙◌, true, false, Bytes, List, [], ◌∷◌, ◌++◌, none, some,
  length, get_elem?, set, str_eq, str_eq→eq, arith, Bool-cases, Option-cases, inl, inr,
  get_elem?-set_self, get_elem?-set_ne, ◌<◌, ==_iff, ◌==◌,
}
use turbopump.Membership.Peer.{Peer}
use turbopump.Membership.KnownPeers.{
  Addresses, RoutingTable, TableLaws, State, add_ips, place, update, update_for, remove, remove_at,
}

get_elem?-append_last :
    {A : Type 0} (xs : List A) (x : A) → get_elem? (xs ++ x ∷ []) (length xs) ≡ some x
get_elem?-append_last [] x = refl
get_elem?-append_last (y ∷ xs) x = get_elem?-append_last xs x

get_elem?-append_left :
    {A : Type 0} (xs ys : List A) (i : ℕ) (x : A)
    → get_elem? xs i ≡ some x
    → get_elem? (xs ++ ys) i ≡ some x
get_elem?-append_left [] ys i x h = cc
get_elem?-append_left (y ∷ xs) ys zero x h = h
get_elem?-append_left (y ∷ xs) ys (suc i) x h = get_elem?-append_left xs ys i x h

lt-length : {A : Type 0} (xs : List A) (i : ℕ) (x : A) → get_elem? xs i ≡ some x → i < length xs
lt-length [] i x h = cc
lt-length (y ∷ xs) zero x h = omega arith
lt-length (y ∷ xs) (suc i) x h = omega (arith, lt-length xs i x h)

module _ (a : Addresses) (t : RoutingTable) where
  -- The table says where the peer of each uid is.
  abbrev pub IsSound : State a t → Type 0
  IsSound s =
      (uid : Bytes) (r : ℕ)
      → t.find s.members uid ≡ some r
      → (p : Peer) × (get_elem? s.peers r ≡ some p) × (p.uid ≡ uid)

  -- Updates and removals from a node with no members.
  pub data Reach : State a t → Type 0 where
    start : (s : State a t) → ((uid : Bytes) → t.find s.members uid ≡ none) → Reach s
    updated :
        (s : State a t) (me : Peer) (uid : Bytes) (ips : List Bytes)
        → s.self ≡ some me
        → Reach s
        → Reach (update a t uid ips s).1
    removed : (s : State a t) (uid : Bytes) → Reach s → Reach (remove a t uid s).1

module _ (a : Addresses) (t : RoutingTable) (laws : TableLaws t) where
  -- What `update` does to the member: where it is, and what is there.
  pub record Placed (uid : Bytes) (ips : List Bytes) (s : State a t) (r : ℕ) (s' : State a t)
      : Type 0 where
    pub found : t.find s'.members uid ≡ some r
    pub there : get_elem? s'.peers r ≡ some (record { uid = uid; ips = ips })
    pub sound : IsSound a t s'

  pub place-Placed :
      (uid : Bytes) (ips : List Bytes) (s : State a t)
      → IsSound a t s
      → Placed uid ips s (place a t uid ips s).0 (place a t uid ips s).1
  unfolding place
  place-Placed uid ips s sound = elim (Option-cases (t.find s.members uid)) [
    | inl new ↦
        rw (new, place)
          record {
            found = laws.find-insert s.members uid (length s.peers) new;
            there = get_elem?-append_last s.peers (record { uid = uid; ips = ips });
            sound = λ other r h. elim (Bool-cases (str_eq uid other)) [
              | inl same ↦
                  let e = str_eq→eq uid other same in
                  let found : t.find (t.insert s.members uid (length s.peers)) other
                      ≡ some (length s.peers) =
                    rw (← e) (laws.find-insert s.members uid (length s.peers) new) in
                  (
                    record { uid = uid; ips = ips },
                    ground (
                      arith,
                      found,
                      h,
                      get_elem?-append_last s.peers (record { uid = uid; ips = ips }),
                    ),
                    e,
                  )
              | inr apart ↦
                  let (q, at, named) =
                    sound other r
                      (sym (laws.find-insert_ne s.members uid other (length s.peers) apart) ∙ h) in
                  (
                    q,
                    get_elem?-append_left s.peers (record { uid = uid; ips = ips } ∷ []) r q at,
                    named,
                  )
            ];
          }
    | inr (r, known) ↦
        let (p, at, named) = sound uid r known in
        rw (known, at, place)
          record {
            found = known;
            there =
                get_elem?-set_self s.peers r (record p { ips = ips }) (lt-length s.peers r p at)
                ∙ ap (λ u. some (record { uid = u; ips = ips })) named;
            sound = λ other r' h.
                let (q, at', named') = sound other r' h in
                elim (Bool-cases (r == r')) [
                  | inl same ↦
                      let e : r ≡ r' = (==_iff r r').0 same in
                      let alike : some p ≡ some q =
                        sym at ∙ (ap (λ i. get_elem? s.peers i) e ∙ at') in
                      let name_of : p.uid ≡ q.uid = cc (alike) in
                      (
                        record p { ips = ips },
                        ap (λ i. get_elem? (set s.peers r (record p { ips = ips })) i) (sym e)
                            ∙ get_elem?-set_self s.peers r (record p { ips = ips })
                                (lt-length s.peers r p at),
                        name_of ∙ named',
                      )
                  | inr other_place ↦ (
                    q,
                    get_elem?-set_ne s.peers (record p { ips = ips })
                          (λ e. ground (arith, e, other_place))
                        ∙ at',
                    named',
                  )
                ];
          }
  ]

  -- What `update` makes of a node that knows itself, for another uid.
  pub update-add_ips :
      (s : State a t) (me : Peer) (uid : Bytes) (ips : List Bytes)
      → s.self ≡ some me
      → str_eq uid me.uid ≡ false
      → let placed = place a t uid ips s in
        (update a t uid ips s).1 ≡ record placed.1 { ips = add_ips a ips placed.0 placed.1.ips }
  unfolding update update_for
  update-add_ips s me uid ips known other =
      ap (λ o. (update_for a t o uid ips s).1) known ∙ rw other refl

  update-self :
      (s : State a t) (me : Peer) (uid : Bytes) (ips : List Bytes)
      → s.self ≡ some me
      → str_eq uid me.uid ≡ true
      → (update a t uid ips s).1 ≡ record s { self = some (record me { ips = ips }) }
  unfolding update update_for
  update-self s me uid ips known self =
      ap (λ o. (update_for a t o uid ips s).1) known ∙ rw self refl

  update-IsSound :
      (s : State a t) (me : Peer) (uid : Bytes) (ips : List Bytes)
      → s.self ≡ some me
      → IsSound a t s
      → IsSound a t (update a t uid ips s).1
  update-IsSound s me uid ips known sound = elim (Bool-cases (str_eq uid me.uid)) [
    | inl self ↦ subst (IsSound a t) (sym (update-self s me uid ips known self)) sound
    | inr other ↦
        subst (IsSound a t) (sym (update-add_ips s me uid ips known other))
          (place-Placed uid ips s sound).sound
  ]

  remove-IsSound : (s : State a t) (uid : Bytes) → IsSound a t s → IsSound a t (remove a t uid s).1
  unfolding remove
  remove-IsSound s uid sound = elim (Option-cases (t.find s.members uid)) [
    | inl unknown ↦ subst (λ o. IsSound a t (remove_at a t o uid s).1) (sym unknown) sound
    | inr (r, known) ↦
        subst (λ o. IsSound a t (remove_at a t o uid s).1) (sym known)
          (λ other r' h. elim (Bool-cases (str_eq uid other)) [
            | inl same ↦
                let gone : t.find (t.erase s.members uid).1 other ≡ none =
                  rw (← str_eq→eq uid other same) (laws.find-erase s.members uid) in
                cc (gone, h)
            | inr apart ↦ sound other r' (sym (laws.find-erase_ne s.members uid other apart) ∙ h)
          ])
  ]

  pub Reach-IsSound : {s : State a t} → Reach a t s → IsSound a t s
  Reach-IsSound (start s none_found) = λ uid r h. cc (none_found uid, h)
  Reach-IsSound (updated s me uid ips known reach) =
      update-IsSound s me uid ips known (Reach-IsSound reach)
  Reach-IsSound (removed s uid reach) = remove-IsSound s uid (Reach-IsSound reach)
