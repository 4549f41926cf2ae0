-- ===== src/Deskew/KeyTabulator/Draw.antt =====
-- src/lib/deskew/KeyTabulator.cpp: the keys of the map, and which of them is drawn.
use turbopump.Prelude.{
  ℕ, zero, suc, ◌+◌, ◌-◌, ◌%◌, ◌<◌, ◌≤◌, ◌≡◌, ◌≢◌, refl, subst, Bytes, List, [], ◌∷◌, map, Option,
  none, some, get_elem?, ◌==◌, arith, Bool-cases, Option-cases, inl, inr,
}
use turbopump.Deskew.DigestTree.{Merkle}
use turbopump.Deskew.DigestIndexer.{Locator}
use turbopump.Deskew.KeyTabulator.{
  Index, Forest, find_index, put_index, split_index, cannibalize_index, update, remove,
  split_section, cannibalize_section, move_off, pick,
}

-- A call, with what the locator answers during it.
pub data Call : Type 0 where
  update_key : Locator → Bytes → ℕ → ℕ → Call
  remove_key : Locator → Bytes → ℕ → Call
  split : Locator → Bytes → Call
  cannibalize : Locator → Bytes → Call

module _ (m : Merkle) (integer digest_integer : Bytes → ℕ) where
  abbrev F : Type 0
  F = Forest m integer digest_integer

  abbrev pub perform : F → Call → F
  perform f (update_key l key value mirrors) = update m integer digest_integer l f key value mirrors
  perform f (remove_key l key mirrors) = remove m integer digest_integer l f key mirrors
  perform f (split l where_) = split_section m integer digest_integer l f where_
  perform f (cannibalize l where_) = cannibalize_section m integer digest_integer l f where_

  abbrev pub perform_all : F → List Call → F
  perform_all f [] = f
  perform_all f (c ∷ cs) = perform_all (perform f c) cs

  -- The keys from a bound on, in strictly rising order.
  abbrev Rising : ℕ → F → Type 0
  Rising n [] = Unit {0}
  Rising n ((k, i) ∷ rest) = (n ≤ k) × Rising (suc k) rest

  put_index-Rising :
      (n k : ℕ) (i : Index m integer digest_integer) (f : F)
      → n ≤ k
      → Rising n f
      → Rising n (put_index m integer digest_integer k i f)
  unfolding put_index
  put_index-Rising n k i [] h r = (h, tt)
  put_index-Rising n k i ((j, x) ∷ rest) h r = ground (arith, put_index-Rising (suc j) k i rest)

  map-Rising :
      (n : ℕ) (g : Index m integer digest_integer → Index m integer digest_integer) (f : F)
      → Rising n f
      → Rising n (map (λ p. (p.0, g p.1)) f)
  map-Rising n g [] r = tt
  map-Rising n g ((j, x) ∷ rest) r = (r.0, map-Rising (suc j) g rest r.1)

  perform-Rising : (f : F) (c : Call) → Rising 0 f → Rising 0 (perform f c)
  unfolding update split_section cannibalize_section
  perform-Rising f (update_key l key value mirrors) r =
      put_index-Rising 0 (mirrors % 256) _ f (omega arith) r
  perform-Rising f (remove_key l key mirrors) r =
      elim (Option-cases (find_index m integer digest_integer (mirrors % 256) f)) [
        | inl e ↦ unfold remove in rw (e, remove) r
        | inr (i, e) ↦
            unfold remove in rw (e, remove) (put_index-Rising 0 (mirrors % 256) _ f (omega arith) r)
      ]
  perform-Rising f (split l where_) r =
      map-Rising 0 (split_index m integer digest_integer l where_) f r
  perform-Rising f (cannibalize l where_) r =
      map-Rising 0 (cannibalize_index m integer digest_integer l where_) f r

  perform_all-Rising : (f : F) (cs : List Call) → Rising 0 f → Rising 0 (perform_all f cs)
  perform_all-Rising f [] r = r
  perform_all-Rising f (c ∷ cs) r = perform_all-Rising (perform f c) cs (perform-Rising f c r)

  get_elem?-least :
      (n : ℕ) (f : F) (a : ℕ) (k : ℕ) (x : Index m integer digest_integer)
      → Rising n f
      → get_elem? f a ≡ some (k, x)
      → n ≤ k
  get_elem?-least n [] a k x r h = cc
  get_elem?-least n ((j, y) ∷ rest) zero k x r h = ground (arith, h, r.0)
  get_elem?-least n ((j, y) ∷ rest) (suc a) k x r h =
      omega (arith, r.0, get_elem?-least (suc j) rest a k x r.1 h)

  get_elem?-Rising :
      (n : ℕ) (f : F) (a b k k' : ℕ) (x y : Index m integer digest_integer)
      → Rising n f
      → a < b
      → get_elem? f a ≡ some (k, x)
      → get_elem? f b ≡ some (k', y)
      → k < k'
  get_elem?-Rising n [] a b k k' x y r h e e' = cc
  get_elem?-Rising n ((j, z) ∷ rest) a zero k k' x y r h e e' = absurd (omega arith)
  get_elem?-Rising n ((j, z) ∷ rest) zero (suc b) k k' x y r h e e' =
      let above = get_elem?-least (suc j) rest b k' y r.1 e' in ground (arith, above, e)
  get_elem?-Rising n ((j, z) ∷ rest) (suc a) (suc b) k k' x y r h e e' =
      get_elem?-Rising (suc j) rest a b k k' x y r.1 (omega arith) e e'

  moved :
      (f : F) (place k : ℕ) (i : Index m integer digest_integer)
      (o : Option (ℕ × Index m integer digest_integer))
      → Rising 0 f
      → get_elem? f place ≡ o
      → get_elem? f (move_off m integer digest_integer place o) ≡ some (k, i)
      → k ≢ 1
  moved f place k i none r e h = cc
  moved f place k i (some (k0, i0)) r e h =
      let at : (q : ℕ)
          → move_off m integer digest_integer place (some (k0, i0)) ≡ q
          → get_elem? f q ≡ some (k, i) =
        λ q same. subst (λ q. get_elem? f q ≡ some (k, i)) same h in
      elim (Bool-cases (k0 == 1)) [
        | inr other ↦ let e' = at place (rw other refl) in ground (arith, other, e, e')
        | inl one ↦ elim (Bool-cases (place == 0)) [
          | inl front ↦
              let e' = at (place + 1) (rw (one, front) refl) in
              let above = get_elem?-Rising 0 f place (place + 1) k0 k i0 i r (omega arith) e e' in
              ground (arith, one, above)
          | inr behind ↦
              let e' = at (place - 1) (rw (one, behind) refl) in
              let below =
                get_elem?-Rising 0 f (place - 1) place k k0 i i0 r (ground (arith, behind)) e' e in
              ground (arith, one, below)
        ]
      ]

  -- The index that randomTree draws from, after any calls on an empty map and whatever the draw, is
  -- never the one for the key 1: keys with a single copy are not compared with other nodes.
  pick-single :
      (cs : List Call) (place k : ℕ) (i : Index m integer digest_integer)
      → pick m integer digest_integer (perform_all [] cs) place ≡ some (k, i)
      → k ≢ 1
  unfolding pick
  pick-single cs place k i h =
      moved (perform_all [] cs) place k i _ (perform_all-Rising [] cs tt) refl h
