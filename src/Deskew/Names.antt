-- ===== src/Deskew/Names.antt =====
-- std::set<string> and std::map<string, T>, as lists.
use turbopump.Prelude.{
  ◌≡◌, refl, sym, ◌∙◌, Bool, true, false, not, ◌&&◌, ◌||◌, Bytes, List, [], ◌∷◌, Option, none, some,
  str_eq, str_eq→eq, str_eq_refl, str_eq_apart, is_empty, ltb, if◌then◌else◌, ◌==◌, arith,
  Bool-cases, inl, inr,
}

-- operator< on strings
unfoldable pub str_lt : Bytes → Bytes → Bool
str_lt [] [] = false
str_lt [] (y ∷ ys) = true
str_lt (x ∷ xs) [] = false
str_lt (x ∷ xs) (y ∷ ys) = let rest = str_lt xs ys in if x == y then rest else ltb x y

unfoldable pub has : Bytes → List Bytes → Bool
has x [] = false
has x (y ∷ ys) = str_eq y x || has x ys

unfoldable pub add : Bytes → List Bytes → List Bytes
add k s = if has k s then s else k ∷ s

unfoldable pub remove : Bytes → List Bytes → List Bytes
remove k [] = []
remove k (y ∷ ys) = let rest = remove k ys in if str_eq y k then rest else y ∷ rest

pub has-add : (x k : Bytes) (s : List Bytes) → has x (add k s) ≡ (str_eq k x || has x s)
unfolding add has
has-add x k s = elim (Bool-cases (str_eq k x)) [
  | inl same ↦ rw (str_eq→eq k x same) (ground (arith, str_eq_refl x))
  | inr other ↦ ground (arith, other)
]

pub has-remove : (x k : Bytes) (s : List Bytes) → has x (remove k s) ≡ (not (str_eq k x) && has x s)
unfolding remove has
has-remove x k [] = ground arith
has-remove x k (y ∷ ys) = elim (Bool-cases (str_eq y k)) [
  | inl same ↦ rw (same, str_eq→eq y k same) (ground (arith, has-remove x k ys))
  | inr other ↦ elim (Bool-cases (str_eq y x)) [
    | inl at ↦ ground (arith, at, other, str_eq_apart y k x at other, has-remove x k ys)
    | inr away ↦ ground (arith, away, other, has-remove x k ys)
  ]
]

abbrev pub NotName : Bytes → Option Bytes → Type 0
NotName k none = Unit {0}
NotName k (some n) = str_eq n k ≡ false

module _ {T : Type 0} where
  unfoldable pub find : Bytes → List (Bytes × T) → Option T
  find x [] = none
  find x ((j, u) ∷ rest) = let later = find x rest in if str_eq j x then some u else later

  -- The value at a key, in the order of the keys.
  unfoldable pub put : Bytes → T → List (Bytes × T) → List (Bytes × T)
  put k t [] = (k, t) ∷ []
  put k t ((j, u) ∷ rest) =
      let later = put k t rest in
      if str_eq j k
      then (k, t) ∷ rest
      else if str_lt k j
      then (k, t) ∷ (j, u) ∷ rest
      else (j, u) ∷ later

  unfoldable pub erase : Bytes → List (Bytes × T) → List (Bytes × T)
  erase k [] = []
  erase k ((j, u) ∷ rest) = let later = erase k rest in if str_eq j k then later else (j, u) ∷ later

  unfoldable pub first : List (Bytes × T) → Option Bytes
  first [] = none
  first ((j, u) ∷ rest) = some j

  -- The key behind a key.
  unfoldable pub after : Bytes → List (Bytes × T) → Option Bytes
  after k [] = none
  after k ((j, u) ∷ rest) = let later = after k rest in if str_eq j k then first rest else later

  pub find-put :
      (x k : Bytes) (t : T) (f : List (Bytes × T))
      → find x (put k t f) ≡ (if str_eq k x then some t else find x f)
  unfolding find put
  find-put x k t [] = refl
  find-put x k t ((j, u) ∷ rest) = elim (Bool-cases (str_eq j k)) [
    | inl same ↦ let e = str_eq→eq j k same in ground (arith, e, same)
    | inr other ↦ elim (Bool-cases (str_eq j x)) [
      | inl at ↦ ground (arith, at, other, str_eq_apart j k x at other, find-put x k t rest)
      | inr away ↦ ground (arith, away, other, find-put x k t rest)
    ]
  ]

  pub find-erase :
      (x k : Bytes) (f : List (Bytes × T))
      → find x (erase k f) ≡ (if str_eq k x then none else find x f)
  unfolding find erase
  find-erase x k [] = ground arith
  find-erase x k ((j, u) ∷ rest) = elim (Bool-cases (str_eq j k)) [
    | inl same ↦ let e = str_eq→eq j k same in ground (arith, e, same, find-erase x k rest)
    | inr other ↦ elim (Bool-cases (str_eq j x)) [
      | inl at ↦ ground (arith, at, other, str_eq_apart j k x at other, find-erase x k rest)
      | inr away ↦ ground (arith, away, other, find-erase x k rest)
    ]
  ]

  find-cons :
      (k j : Bytes) (u : T) (rest : List (Bytes × T))
      → find k ((j, u) ∷ rest) ≡ none
      → (str_eq j k ≡ false) × (find k rest ≡ none)
  unfolding find
  find-cons k j u rest h = elim (Bool-cases (str_eq j k)) [
    | inl same ↦ let found : find k ((j, u) ∷ rest) ≡ some u = rw same refl in cc (h, found)
    | inr other ↦
        let later : find k ((j, u) ∷ rest) ≡ find k rest = rw other refl in (other, sym later ∙ h)
  ]

  -- Behind a key that is put in where it was not stands another one.
  pub after-put :
      (k : Bytes) (t : T) (f : List (Bytes × T)) → find k f ≡ none → NotName k (after k (put k t f))
  unfolding after put first
  after-put k t [] h = rw (str_eq_refl k) tt
  after-put k t ((j, u) ∷ rest) h =
      let (other, h') = find-cons k j u rest h in
      elim (Bool-cases (str_lt k j)) [
        | inl before ↦ rw (other, before, str_eq_refl k) other
        | inr behind ↦ rw (other, behind, other) (after-put k t rest h')
      ]

  -- And so does at the front, if it has been put in at the end.
  pub first-put :
      (k : Bytes) (t : T) (f : List (Bytes × T))
      → find k f ≡ none
      → is_empty f ≡ false
      → after k (put k t f) ≡ none
      → (n : Bytes) × (first (put k t f) ≡ some n) × (str_eq n k ≡ false)
  unfolding after put first
  first-put k t [] h full e = cc
  first-put k t ((j, u) ∷ rest) h full e =
      let (other, h') = find-cons k j u rest h in
      elim (Bool-cases (str_lt k j)) [
        | inl before ↦
            let found : after k (put k t ((j, u) ∷ rest)) ≡ some j =
              rw (other, before, str_eq_refl k) refl in
            cc (e, found)
        | inr behind ↦ (j, rw (other, behind) refl, other)
      ]

  abbrev pub Found : List (Bytes × T) → Option Bytes → Type 0
  Found f none = Unit {0}
  Found f (some n) = (t : T) × (find n f ≡ some t)

  Found-cons :
      (j : Bytes) (u : T) (rest : List (Bytes × T)) (o : Option Bytes)
      → Found rest o
      → Found ((j, u) ∷ rest) o
  unfolding find
  Found-cons j u rest none h = tt
  Found-cons j u rest (some n) (t, h) = elim (Bool-cases (str_eq j n)) [
    | inl same ↦ (u, rw same refl)
    | inr other ↦ (t, rw other h)
  ]

  pub first-Found : (f : List (Bytes × T)) → Found f (first f)
  unfolding find first
  first-Found [] = tt
  first-Found ((j, u) ∷ rest) = (u, rw (str_eq_refl j) refl)

  pub after-Found : (k : Bytes) (f : List (Bytes × T)) → Found f (after k f)
  unfolding after
  after-Found k [] = tt
  after-Found k ((j, u) ∷ rest) = elim (Bool-cases (str_eq j k)) [
    | inl same ↦ rw same (Found-cons j u rest (first rest) (first-Found rest))
    | inr other ↦ rw other (Found-cons j u rest (after k rest) (after-Found k rest))
  ]
