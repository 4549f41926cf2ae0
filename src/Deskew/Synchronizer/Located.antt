-- ===== src/Deskew/Synchronizer/Located.antt =====
-- src/lib/deskew/Synchronizer.cpp: randomPeerFromList ends, and finds a peer if there is one.
use turbopump.Prelude.{
  ℕ, zero, suc, ◌≡◌, inl, inr, ◌<◌, refl, true, ◌||◌, Bytes, List, [], ◌∷◌, Option, none, some,
  length, get_elem?, str_eq, str_eq→eq, str_eq_refl, arith, Bool-cases, Option-cases, ap,
}
use turbopump.Deskew.Names
use turbopump.Membership.Peer.{Peer}
use turbopump.Deskew.Synchronizer.{erase_at, random_peer_loop, random_peer_from_list}

has-erase_at :
    (v u : Bytes) (i : ℕ) (xs : List Bytes)
    → get_elem? xs i ≡ some u
    → Names.has v xs ≡ (str_eq u v || Names.has v (erase_at i xs))
unfolding Names.has erase_at
has-erase_at v u i [] h = cc
has-erase_at v u zero (y ∷ ys) h = ground (arith, h)
has-erase_at v u (suc i) (y ∷ ys) h = ground (arith, has-erase_at v u i ys h)

length-erase_at :
    {A : Type 0} (i : ℕ) (xs : List A) → i < length xs → suc (length (erase_at i xs)) ≡ length xs
unfolding erase_at
length-erase_at i [] h = absurd (omega arith)
length-erase_at zero (x ∷ xs) h = refl
length-erase_at (suc i) (x ∷ xs) h = ap suc (length-erase_at i xs (omega arith))

get_elem?_below :
    {A : Type 0} (i : ℕ) (xs : List A) → i < length xs → (x : A) × (get_elem? xs i ≡ some x)
get_elem?_below i [] h = absurd (omega arith)
get_elem?_below zero (x ∷ xs) h = (x, refl)
get_elem?_below (suc i) (x ∷ xs) h = get_elem?_below i xs (omega arith)

module _ (select : List Bytes → ℕ) (lookup : Bytes → Option Peer) where
  -- A peer is the one that some location is looked up as, and none means that all are unknown.
  abbrev pub IsLocated : List Bytes → Option Peer → Type 0
  IsLocated locs none = (uid : Bytes) → Names.has uid locs ≡ true → lookup uid ≡ none
  IsLocated locs (some peer) =
      (uid : Bytes) × (Names.has uid locs ≡ true) × (lookup uid ≡ some peer)

  erase_at-IsLocated :
      (locs : List Bytes) (i : ℕ) (u : Bytes) (o : Option Peer)
      → get_elem? locs i ≡ some u
      → lookup u ≡ none
      → IsLocated (erase_at i locs) o
      → IsLocated locs o
  erase_at-IsLocated locs i u none at unknown h = λ uid listed. elim (Bool-cases (str_eq u uid)) [
    | inl same ↦ rw (← str_eq→eq u uid same) unknown
    | inr other ↦ h uid (ground (arith, other, listed, has-erase_at uid u i locs at))
  ]
  erase_at-IsLocated locs i u (some peer) at unknown (uid, listed, found) =
      (uid, ground (arith, listed, has-erase_at uid u i locs at), found)

  random_peer_loop-IsLocated :
      ((x : Bytes) (xs : List Bytes) → select (x ∷ xs) < length (x ∷ xs))
      → (n : ℕ) (locs : List Bytes) → length locs ≡ n
      → IsLocated locs (random_peer_loop select lookup n locs)
  unfolding random_peer_loop Names.has
  random_peer_loop-IsLocated valid zero [] e = λ uid h. cc
  random_peer_loop-IsLocated valid zero (x ∷ xs) e = absurd (omega arith)
  random_peer_loop-IsLocated valid (suc n) [] e = absurd (omega arith)
  random_peer_loop-IsLocated valid (suc n) (x ∷ xs) e =
      let i = select (x ∷ xs) in
      let (u, at) = get_elem?_below i (x ∷ xs) (valid x xs) in
      elim (Option-cases (lookup u)) [
        | inl unknown ↦
            rw (at, random_peer_loop, unknown)
              (erase_at-IsLocated (x ∷ xs) i u
                (random_peer_loop select lookup n (erase_at i (x ∷ xs))) at unknown
                (random_peer_loop-IsLocated valid n (erase_at i (x ∷ xs))
                  (omega (arith, e, length-erase_at i (x ∷ xs) (valid x xs)))))
        | inr (peer, known) ↦
            rw (at, random_peer_loop, known)
              (u, ground (arith, has-erase_at u u i (x ∷ xs) at, str_eq_refl u), known)
      ]

  -- Where a position that is selected is one of the list: randomPeerFromList gives a peer that one
  -- of the locations is known as, and no peer only if no location is known.
  pub random_peer_from_list-IsLocated :
      ((x : Bytes) (xs : List Bytes) → select (x ∷ xs) < length (x ∷ xs))
      → (locs : List Bytes) → IsLocated locs (random_peer_from_list select lookup locs)
  unfolding random_peer_from_list
  random_peer_from_list-IsLocated valid locs =
      random_peer_loop-IsLocated valid (length locs) locs refl
