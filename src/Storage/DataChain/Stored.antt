-- ===== src/Storage/DataChain/Stored.antt =====
-- src/lib/storage/DataChain.cpp: what `store` leaves in a chain.
use turbopump.Prelude.{
  ℕ, ◌≡◌, refl, ap, ◌∙◌, subst, Bool, true, false, [], ◌∷◌, ◌++◌, some, arith, Bool-cases,
  Option-cases, inl, inr, ◌⊎◌,
}
use turbopump.Common.VectorClock.{Clocks, Laws, mark_deleted, is_deleted, is_less}
use turbopump.Storage.DataChain.{DataEntry, Chain, clear_lesser, store_unlocked, scan, store, find}
use turbopump.Storage.DataChain.Versions.{
  Absent, Distinct, content_of, equal_sym, clear_lesser-Absent, store_unlocked-Distinct, Scanned,
  Refused, Continues, any_bars, ScanOk, scan-ScanOk,
}

module _ {k : Clocks} (laws : Laws k) where
  find-last :
      (v : k.Version) (ys : Chain k) (y : DataEntry k)
      → Absent v ys
      → y.md.version ≡ v
      → find k v (ys ++ y ∷ []) ≡ some y
  unfolding find
  find-last v [] y a e = rw (e, laws.compare_self v)
  find-last v (x ∷ ys) y a e = rw (equal_sym laws v x.md.version a.0) (find-last v ys y a.1 e)

  find-store_unlocked :
      (v : k.Version) (ys : Chain k) (e : DataEntry k)
      → Absent v ys
      → e.md.version ≡ v
      → find k v (store_unlocked k e ys) ≡ some e
  unfolding store_unlocked
  find-store_unlocked v ys e a ev = elim (Bool-cases e.md.supercede) [
    | inl s ↦ simp s (
        find-last v (clear_lesser k e.md.version ys) e
          (clear_lesser-Absent laws v e.md.version ys a) ev)
    | inr s ↦ simp s (find-last v ys e a ev)
  ]

  -- The two ends of `store`, for an entry that is not a deletion.
  store-live :
      (e : DataEntry k) (offset now : ℕ) (xs : Chain k) (P : Bool × Chain k → Type 0)
      → is_deleted k e.md.version ≡ false
      → Distinct xs
      → (Refused laws e (mark_deleted k e.md.version now) offset xs → P (false, xs))
      → ((e' : DataEntry k) (ys : Chain k)
          → Scanned laws e xs (mark_deleted k e.md.version now) offset e' ys
          → P (true, store_unlocked k e' ys))
      → P (store k e offset now xs)
  store-live e offset now xs P live d refused stored =
      let dv = mark_deleted k e.md.version now in
      let ok = scan-ScanOk laws e dv offset xs d in
      elim (Option-cases (scan k e dv offset xs)) [
        | inl none_left ↦
            let why : Refused laws e dv offset xs =
              subst (ScanOk laws e dv offset xs) none_left ok in
            unfold store in rw (live, none_left) (refused why)
        | inr ((e', ys), left) ↦
            let seen : Scanned laws e xs (mark_deleted k e.md.version now) offset e' ys =
              subst (ScanOk laws e dv offset xs) left ok in
            unfold store in rw (live, left) (stored e' ys seen)
      ]

  -- A chain with no version twice has none twice after any live entry was stored or refused.
  pub store-Distinct :
      (e : DataEntry k) (offset now : ℕ) (xs : Chain k)
      → is_deleted k e.md.version ≡ false
      → Distinct xs
      → Distinct (store k e offset now xs).1
  store-Distinct e offset now xs live d =
      store-live e offset now xs (λ p. Distinct p.1) live d (λ why. d)
        λ e' ys s. store_unlocked-Distinct laws e' ys s.distinct (rw s.version s.absent)

  -- A live entry, stored into a chain with no version twice, is either refused, and then the chain
  -- stays as it is, or found under its version, behind the data that was there under that version.
  -- It is refused exactly if the data under its version has another length than the offset, or an
  -- entry ahead of the one under its version, or any if there is none, supersedes it as a lesser
  -- version or is its deletion.
  pub store-find :
      (e : DataEntry k) (offset now : ℕ) (xs : Chain k)
      → is_deleted k e.md.version ≡ false
      → Distinct xs
      → ((store k e offset now xs ≡ (false, xs))
          × Refused laws e (mark_deleted k e.md.version now) offset xs)
        ⊎ ((x : DataEntry k) × ((store k e offset now xs).0 ≡ true)
            × (find k e.md.version (store k e offset now xs).1 ≡ some x)
            × (x.content ≡ content_of (find k e.md.version xs) ++ e.content)
            × Continues laws offset (find k e.md.version xs)
            × (any_bars laws e (mark_deleted k e.md.version now) xs ≡ false))
  store-find e offset now xs live d =
      store-live e offset now xs
        (λ p.
          ((p ≡ (false, xs)) × Refused laws e (mark_deleted k e.md.version now) offset xs)
          ⊎ ((x : DataEntry k) × (p.0 ≡ true)
              × (find k e.md.version p.1 ≡ some x)
              × (x.content ≡ content_of (find k e.md.version xs) ++ e.content)
              × Continues laws offset (find k e.md.version xs)
              × (any_bars laws e (mark_deleted k e.md.version now) xs ≡ false)))
        live d (λ why. inl (refl, why))
        λ e' ys s. inr (
          e',
          refl,
          find-store_unlocked e.md.version ys e' s.absent s.version,
          s.content,
          s.continues,
          s.unbarred,
        )

  -- No entry has a version less than this.
  abbrev pub NoLesser : k.Version → Chain k → Type 0
  NoLesser v [] = Unit {0}
  NoLesser v (x ∷ xs) = (is_less (k.compare x.md.version v) ≡ false) × NoLesser v xs

  clear_lesser-NoLesser :
      (v : k.Version) (xs : Chain k) (y : DataEntry k)
      → y.md.version ≡ v
      → NoLesser v (clear_lesser k v xs ++ y ∷ [])
  unfolding clear_lesser
  clear_lesser-NoLesser v [] y e = (rw (e, laws.compare_self v), tt)
  clear_lesser-NoLesser v (x ∷ xs) y e = ground (arith, clear_lesser-NoLesser v xs y e)

  -- When a live entry that supersedes is stored, no entry of a lesser version is left.
  pub store-NoLesser :
      (e : DataEntry k) (offset now : ℕ) (xs ys : Chain k)
      → is_deleted k e.md.version ≡ false
      → Distinct xs
      → e.md.supercede ≡ true
      → store k e offset now xs ≡ (true, ys)
      → NoLesser e.md.version ys
  store-NoLesser e offset now xs ys live d sup eq =
      store-live e offset now xs (λ p. p ≡ (true, ys) → NoLesser e.md.version ys) live d
        (λ why h. cc)
        (λ e' zs s h.
          let stored : store_unlocked k e' zs ≡ ys = ap (λ (p : Bool × Chain k). p.1) h in
          subst (NoLesser e.md.version) stored (
            unfold store_unlocked in
            simp (s.supercede ∙ sup, s.version)
              (clear_lesser-NoLesser e.md.version zs e' s.version)))
        eq
