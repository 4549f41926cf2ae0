-- ===== src/Membership/KnownPeers/Lookup.antt =====
-- src/lib/membership/KnownPeers.cpp: what lookups find after an update.
use turbopump.Prelude.{
  ℕ, ◌≡◌, refl, sym, ◌∙◌, true, false, Bytes, List, [], ◌∷◌, none, some, str_eq, str_eq→eq,
  if◌then◌else◌, arith, Bool-cases, Option-cases, inl, inr,
}
use turbopump.Deskew.Names
use turbopump.Membership.KnownPeers.{Addresses, AddressLaws, find_ip, erase_ip, put_ip, add_ips}

module _ (a : Addresses) (laws : AddressLaws a) where
  open a use {Address, parse, ip_only, same}

  same_apart : (z x y : Address) → same z y ≡ true → same z x ≡ false → same x y ≡ false
  same_apart z x y at other = elim (Bool-cases (same x y)) [
    | inr apart ↦ apart
    | inl e ↦
        let both : x ≡ z = laws.same→eq x y e ∙ sym (laws.same→eq z y at) in
        let found : same z x ≡ true = rw both (laws.same_refl z) in cc (found, other)
  ]

  pub find_ip-erase_ip :
      (y x : Address) (m : List (Address × ℕ))
      → find_ip a y (erase_ip a x m) ≡ (if same x y then none else find_ip a y m)
  unfolding find_ip erase_ip
  find_ip-erase_ip y x [] = ground arith
  find_ip-erase_ip y x ((z, r) ∷ m) = elim (Bool-cases (same z x)) [
    | inl e ↦
        let alike : same z y ≡ same x y = rw (laws.same→eq z x e) refl in
        ground (arith, e, alike, find_ip-erase_ip y x m)
    | inr other ↦ elim (Bool-cases (same z y)) [
      | inl at ↦ ground (arith, at, other, same_apart z x y at other, find_ip-erase_ip y x m)
      | inr away ↦ ground (arith, away, other, find_ip-erase_ip y x m)
    ]
  ]

  pub find_ip-put_ip :
      (y x : Address) (r : ℕ) (m : List (Address × ℕ))
      → find_ip a y (put_ip a x r m) ≡ (if same x y then some r else find_ip a y m)
  unfolding find_ip put_ip
  find_ip-put_ip y x r m = ground (arith, find_ip-erase_ip y x m)

  -- An address that is put at a place stays there.
  find_ip-add_ips_kept :
      (y : Address) (ips : List Bytes) (r : ℕ) (m : List (Address × ℕ))
      → find_ip a y m ≡ some r
      → find_ip a y (add_ips a ips r m) ≡ some r
  unfolding add_ips
  find_ip-add_ips_kept y [] r m h = h
  find_ip-add_ips_kept y (ip ∷ ips) r m h = elim (Option-cases (parse ip)) [
    | inl bad ↦ rw bad (find_ip-add_ips_kept y ips r m h)
    | inr (x, e) ↦ rw e (
        find_ip-add_ips_kept y ips r (put_ip a (ip_only x) r (put_ip a x r m)) (
          ground
            (arith, h, find_ip-put_ip y (ip_only x) r (put_ip a x r m), find_ip-put_ip y x r m)))
  ]

  -- Both entries of an address.
  pub find_ip-add_ips :
      (ip : Bytes) (x : Address) (ips : List Bytes) (r : ℕ) (m : List (Address × ℕ))
      → Names.has ip ips ≡ true
      → parse ip ≡ some x
      → (find_ip a x (add_ips a ips r m) ≡ some r)
        × (find_ip a (ip_only x) (add_ips a ips r m) ≡ some r)
  unfolding add_ips Names.has
  find_ip-add_ips ip x [] r m h e = cc
  find_ip-add_ips ip x (jp ∷ ips) r m h e = elim (Bool-cases (str_eq jp ip)) [
    | inr other ↦ elim (Option-cases (parse jp)) [
      | inl bad ↦ rw bad (find_ip-add_ips ip x ips r m (ground (arith, h, other)) e)
      | inr (y, good) ↦ rw good (
          find_ip-add_ips ip x ips r (put_ip a (ip_only y) r (put_ip a y r m))
            (ground (arith, h, other)) e)
    ]
    | inl here ↦
        let good : parse jp ≡ some x = rw (str_eq→eq jp ip here) e in
        let m' = put_ip a (ip_only x) r (put_ip a x r m) in
        let only = find_ip-put_ip (ip_only x) (ip_only x) r (put_ip a x r m) in
        let full = find_ip-put_ip x (ip_only x) r (put_ip a x r m) in
        let inner = find_ip-put_ip x x r m in
        let only_refl = laws.same_refl (ip_only x) in
        let full_refl = laws.same_refl x in
        rw good (
          find_ip-add_ips_kept x ips r m' (ground (arith, full, inner, full_refl)),
          find_ip-add_ips_kept (ip_only x) ips r m' (ground (arith, only, only_refl)),
        )
  ]
