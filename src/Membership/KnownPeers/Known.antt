-- ===== src/Membership/KnownPeers/Known.antt =====
-- src/lib/membership/KnownPeers.cpp: peers are found after an update and forgotten when removed.
use turbopump.Prelude.{
  ℕ, ◌≡◌, refl, sym, ap, ◌∙◌, subst, Bool, true, false, Bytes, List, [], ◌∷◌, Option, none, some,
  get_elem?, str_eq, str_eq→eq, str_eq_refl, if◌then◌else◌, arith, Bool-cases, Option-cases, inl,
  inr,
}
use turbopump.Deskew.Names
use turbopump.Membership.Peer.{Peer}
use turbopump.Membership.KnownPeers.{
  Addresses, AddressLaws, RoutingTable, TableLaws, State, find_ip, erase_ip, remove_ips, place,
  update, remove, remove_at, lookup, lookup_addr, deref, peer_at,
}
use turbopump.Membership.KnownPeers.Lookup.{find_ip-add_ips, find_ip-erase_ip}
use turbopump.Membership.KnownPeers.History.{Reach, Reach-IsSound, place-Placed, update-add_ips}

module _ (a : Addresses) (t : RoutingTable) where
  open a use {Address, parse, ip_only}

  -- Lookups by uid, by each of the addresses, and by each address of the same host that is not
  -- itself recorded.
  abbrev pub Answers : Bytes → List Bytes → Option Peer → State a t → Type 0
  Answers uid ips answer s =
      (lookup a t uid s ≡ answer)
      × ((ip : Bytes) (x : Address)
          → Names.has ip ips ≡ true
          → parse ip ≡ some x
          → (lookup_addr a t x s ≡ answer)
            × ((y : Address)
                → ip_only y ≡ ip_only x
                → find_ip a y s.ips ≡ none
                → lookup_addr a t y s ≡ answer))

module _ (a : Addresses) (t : RoutingTable) (address_laws : AddressLaws a)
    (laws : TableLaws t) where
  open a use {Address, parse, ip_only}

  -- A node that knows itself finds a peer after an update of it: by its uid, by each of its
  -- addresses, and by each other address of the same host that is not itself recorded. What is found
  -- has the addresses of the update.
  pub lookup-update :
      (s : State a t) (me : Peer) (uid : Bytes) (ips : List Bytes)
      → Reach a t s
      → s.self ≡ some me
      → str_eq uid me.uid ≡ false
      → Answers a t uid ips (some (record { uid = uid; ips = ips })) (update a t uid ips s).1
  unfolding lookup lookup_addr deref peer_at
  lookup-update s me uid ips reach known other =
      let placed = place a t uid ips s in
      let at = place-Placed a t laws uid ips s (Reach-IsSound a t laws reach) in
      subst (Answers a t uid ips (some (record { uid = uid; ips = ips })))
        (sym (update-add_ips a t laws s me uid ips known other))
        (
          rw (at.found, deref) at.there,
          λ ip x listed good.
              let (full, only) =
                find_ip-add_ips a address_laws ip x ips placed.0 placed.1.ips listed good in
              (
                rw (full, deref) at.there,
                λ y same_host unrecorded. rw (unrecorded, same_host, only, deref) at.there,
              ),
        )

  find_ip-remove_ips_absent :
      (y : Address) (ips : List Bytes) (matches : Bool) (m : List (Address × ℕ))
      → find_ip a y m ≡ none
      → find_ip a y (remove_ips a ips matches m) ≡ none
  unfolding remove_ips
  find_ip-remove_ips_absent y [] matches m h = h
  find_ip-remove_ips_absent y (ip ∷ ips) matches m h = elim (Option-cases (parse ip)) [
    | inl bad ↦ rw bad (find_ip-remove_ips_absent y ips matches m h)
    | inr (x, good) ↦ rw good (
        find_ip-remove_ips_absent y ips matches
          (if matches then erase_ip a (ip_only x) (erase_ip a x m) else erase_ip a x m)
          (ground (
            arith,
            h,
            find_ip-erase_ip a address_laws y (ip_only x) (erase_ip a x m),
            find_ip-erase_ip a address_laws y x m,
          )))
  ]

  -- Both entries of an address are erased.
  find_ip-remove_ips :
      (ip : Bytes) (x : Address) (ips : List Bytes) (m : List (Address × ℕ))
      → Names.has ip ips ≡ true
      → parse ip ≡ some x
      → (find_ip a x (remove_ips a ips true m) ≡ none)
        × (find_ip a (ip_only x) (remove_ips a ips true m) ≡ none)
  unfolding remove_ips Names.has
  find_ip-remove_ips ip x [] m h e = cc
  find_ip-remove_ips ip x (jp ∷ ips) m h e = elim (Bool-cases (str_eq jp ip)) [
    | inr other ↦ elim (Option-cases (parse jp)) [
      | inl bad ↦ rw bad (find_ip-remove_ips ip x ips m (ground (arith, h, other)) e)
      | inr (y, good) ↦ rw good (
          find_ip-remove_ips ip x ips (erase_ip a (ip_only y) (erase_ip a y m))
            (ground (arith, h, other)) e)
    ]
    | inl here ↦
        let good : parse jp ≡ some x = rw (str_eq→eq jp ip here) e in
        let m' = erase_ip a (ip_only x) (erase_ip a x m) in
        let erased =
          λ (y : Address). find_ip-erase_ip a address_laws y (ip_only x) (erase_ip a x m) in
        let inner = find_ip-erase_ip a address_laws x x m in
        let x_refl = address_laws.same_refl x in
        let only_refl = address_laws.same_refl (ip_only x) in
        rw good (
          find_ip-remove_ips_absent x ips true m' (ground (arith, erased x, inner, x_refl)),
          find_ip-remove_ips_absent (ip_only x) ips true m'
              (ground (arith, erased (ip_only x), only_refl)),
        )
  ]

  -- What `remove` makes of a node that has the peer.
  remove-remove_ips :
      (s : State a t) (uid : Bytes) (p : Peer)
      → Reach a t s
      → lookup a t uid s ≡ some p
      → (remove a t uid s).1
        ≡ record s { members = (t.erase s.members uid).1; ips = remove_ips a p.ips true s.ips }
  unfolding lookup deref peer_at remove remove_at
  remove-remove_ips s uid p reach known = elim (Option-cases (t.find s.members uid)) [
    | inl unknown ↦
        let found : deref a t s (t.find s.members uid) ≡ none = rw (unknown, deref) refl in
        cc (found, known)
    | inr (r, at) ↦
        let (q, there, named) = Reach-IsSound a t laws reach uid r at in
        let found : deref a t s (t.find s.members uid) ≡ some q = rw (at, deref) there in
        let alike : some q ≡ some p = sym found ∙ known in
        let there' : get_elem? s.peers r ≡ some p = there ∙ alike in
        let named' : p.uid ≡ uid = cc (alike, named) in
        let matched : str_eq p.uid uid ≡ true = rw named' (str_eq_refl uid) in
        ap (λ o. (remove_at a t o uid s).1) at ∙ simp (there', matched) refl
  ]

  -- A peer that is removed is no more found: not by its uid, nor by any of the addresses that it has
  -- then, nor by any other address of the same hosts that is not itself recorded. The last of these
  -- holds also where another peer on that host was the one that was found by it.
  pub lookup-remove :
      (s : State a t) (uid : Bytes) (p : Peer)
      → Reach a t s
      → lookup a t uid s ≡ some p
      → Answers a t uid p.ips none (remove a t uid s).1
  unfolding lookup lookup_addr deref
  lookup-remove s uid p reach known =
      subst (Answers a t uid p.ips none) (sym (remove-remove_ips s uid p reach known)) (
        rw (laws.find-erase s.members uid, deref) refl,
        λ ip x listed good.
            let (full, only) = find_ip-remove_ips ip x p.ips s.ips listed good in
            (
              rw (full, only, deref) refl,
              λ y same_host unrecorded. rw (unrecorded, same_host, only, deref) refl,
            ),
      )
