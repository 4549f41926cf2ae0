-- ===== src/Storage/DataChain/Versions.antt =====
-- src/lib/storage/DataChain.cpp: no version stands twice in a chain, and what a store does to the
-- others.
use turbopump.Prelude.{
  ℕ, ◌≡◌, ◌≢◌, ◌⊎◌, refl, sym, ap, subst, Bool, not, true, false, ◌&&◌, ◌||◌, Bytes, [], ◌∷◌, ◌++◌,
  Option, none, some, length, ◌==◌, arith, Bool-cases, inl, inr,
}
use turbopump.Common.VectorClock.{Clocks, Laws, is_equal, is_less}
use turbopump.Storage.DataChain.{
  DataEntry, Chain, clear_lesser, store_unlocked, pass_over, scan, find,
}

module _ {k : Clocks} where
  -- No entry has the version.
  abbrev pub Absent : k.Version → Chain k → Type 0
  Absent v [] = Unit {0}
  Absent v (x ∷ xs) = (is_equal (k.compare v x.md.version) ≡ false) × Absent v xs

  -- No two entries have one version.
  abbrev pub Distinct : Chain k → Type 0
  Distinct [] = Unit {0}
  Distinct (x ∷ xs) = Absent x.md.version xs × Distinct xs

-- The data of an entry that was found, or none.
abbrev pub content_of : {k : Clocks} → Option (DataEntry k) → Bytes
content_of none = []
content_of (some x) = x.content

module _ {k : Clocks} (laws : Laws k) where
  pub equal_sym :
      (v w : k.Version) → is_equal (k.compare v w) ≡ false → is_equal (k.compare w v) ≡ false
  equal_sym v w h = elim (Bool-cases (is_equal (k.compare w v))) [
    | inr e ↦ e
    | inl e ↦
        let same = laws.compare_sound w v e in
        cc (
          h,
          subst (λ u. is_equal (k.compare v u) ≡ true) (sym same)
              (ap is_equal (laws.compare_self v)),
        )
  ]

  equal_flip : (v w : k.Version) → is_equal (k.compare v w) ≡ true → is_equal (k.compare w v) ≡ true
  equal_flip v w h =
      subst (λ u. is_equal (k.compare u v) ≡ true) (laws.compare_sound v w h)
        (ap is_equal (laws.compare_self v))

  pub clear_lesser-Absent :
      (v w : k.Version) (xs : Chain k) → Absent v xs → Absent v (clear_lesser k w xs)
  unfolding clear_lesser
  clear_lesser-Absent v w [] a = tt
  clear_lesser-Absent v w (x ∷ xs) a = ground (arith, clear_lesser-Absent v w xs a.1)

  clear_lesser-Distinct :
      (w : k.Version) (xs : Chain k) → Distinct xs → Distinct (clear_lesser k w xs)
  unfolding clear_lesser
  clear_lesser-Distinct w [] d = tt
  clear_lesser-Distinct w (x ∷ xs) d =
      ground (arith, clear_lesser-Distinct w xs d.1, clear_lesser-Absent x.md.version w xs d.0)

  append-Absent :
      (v : k.Version) (xs : Chain k) (y : DataEntry k)
      → Absent v xs
      → is_equal (k.compare v y.md.version) ≡ false
      → Absent v (xs ++ y ∷ [])
  append-Absent v [] y a h = (h, tt)
  append-Absent v (x ∷ xs) y a h = (a.0, append-Absent v xs y a.1 h)

  append-Distinct :
      (xs : Chain k) (y : DataEntry k)
      → Distinct xs
      → Absent y.md.version xs
      → Distinct (xs ++ y ∷ [])
  append-Distinct [] y d a = (tt, tt)
  append-Distinct (x ∷ xs) y d a = (
    append-Absent x.md.version xs y d.0 (equal_sym y.md.version x.md.version a.0),
    append-Distinct xs y d.1 a.1,
  )

  pub store_unlocked-Distinct :
      (e : DataEntry k) (xs : Chain k)
      → Distinct xs
      → Absent e.md.version xs
      → Distinct (store_unlocked k e xs)
  unfolding store_unlocked
  store_unlocked-Distinct e xs d a = elim (Bool-cases e.md.supercede) [
    | inl s ↦ simp s (
        append-Distinct (clear_lesser k e.md.version xs) e (clear_lesser-Distinct e.md.version xs d)
          (clear_lesser-Absent e.md.version e.md.version xs a))
    | inr s ↦ simp s (append-Distinct xs e d a)
  ]

  -- An entry that keeps a version from being stored: it supersedes a lesser one, or is its deletion.
  abbrev pub bars : DataEntry k → k.Version → DataEntry k → Bool
  bars e dv x =
      is_less (k.compare e.md.version x.md.version) && x.md.supercede
      || is_equal (k.compare dv x.md.version)

  -- Whether there is one ahead of the entry under the version, or at all if there is none.
  abbrev pub any_bars : DataEntry k → k.Version → Chain k → Bool
  any_bars e dv [] = false
  any_bars e dv (x ∷ xs) =
      not (is_equal (k.compare e.md.version x.md.version)) && (bars e dv x || any_bars e dv xs)

  -- The data of an entry that is continued is as long as the offset.
  abbrev pub Continues : ℕ → Option (DataEntry k) → Type 0
  Continues offset none = Unit {0}
  Continues offset (some x) = offset ≡ length x.content

  -- Why `scan` gives up.
  abbrev pub Refused : DataEntry k → k.Version → ℕ → Chain k → Type 0
  Refused e dv offset xs =
      ((x : DataEntry k) × (find k e.md.version xs ≡ some x) × (offset ≢ length x.content))
      ⊎ (any_bars e dv xs ≡ true)

  -- What `scan` leaves: the entry's version, which no other entry has any more.
  pub record Scanned (e : DataEntry k) (xs : Chain k) (dv : k.Version) (offset : ℕ)
      (e' : DataEntry k) (ys : Chain k) : Type 0 where
    pub version : e'.md.version ≡ e.md.version
    pub supercede : e'.md.supercede ≡ e.md.supercede
    pub content : e'.content ≡ content_of (find k e.md.version xs) ++ e.content
    pub continues : Continues offset (find k e.md.version xs)
    pub unbarred : any_bars e dv xs ≡ false
    pub distinct : Distinct ys
    pub absent : Absent e.md.version ys
    pub keeps : (v : k.Version) → Absent v xs → Absent v ys

  abbrev pub ScanOk :
      DataEntry k → k.Version → ℕ → Chain k → Option (DataEntry k × Chain k) → Type 0
  ScanOk e dv offset xs none = Refused e dv offset xs
  ScanOk e dv offset xs (some (e', ys)) = Scanned e xs dv offset e' ys

  pass_over-Refused :
      (e x : DataEntry k) (dv : k.Version) (offset : ℕ) (xs : Chain k)
      → is_equal (k.compare e.md.version x.md.version) ≡ false
      → Refused e dv offset xs
      → Refused e dv offset (x ∷ xs)
  unfolding find
  pass_over-Refused e x dv offset xs ne (inl (y, found, wrong)) =
      inl (y, rw (equal_sym e.md.version x.md.version ne) found, wrong)
  pass_over-Refused e x dv offset xs ne (inr barred) = inr (ground (arith, ne, barred))

  pass_over-ScanOk :
      (e x : DataEntry k) (dv : k.Version) (offset : ℕ) (xs : Chain k)
      (o : Option (DataEntry k × Chain k))
      → is_equal (k.compare e.md.version x.md.version) ≡ false
      → bars e dv x ≡ false
      → Absent x.md.version xs
      → ScanOk e dv offset xs o
      → ScanOk e dv offset (x ∷ xs) (pass_over k x o)
  pass_over-ScanOk e x dv offset xs none ne clear a h = pass_over-Refused e x dv offset xs ne h
  pass_over-ScanOk e x dv offset xs (some (e', ys)) ne clear a h = record {
    version = h.version;
    supercede = h.supercede;
    content = unfold find in rw (equal_sym e.md.version x.md.version ne) h.content;
    unbarred = ground (arith, ne, clear, h.unbarred);
    continues = unfold find in rw (equal_sym e.md.version x.md.version ne) h.continues;
    distinct = (h.keeps x.md.version a, h.distinct);
    absent = (ne, h.absent);
    keeps = λ v b. (b.0, h.keeps v b.1);
  }

  pub scan-ScanOk :
      (e : DataEntry k) (dv : k.Version) (offset : ℕ) (xs : Chain k)
      → Distinct xs
      → ScanOk e dv offset xs (scan k e dv offset xs)
  unfolding scan
  scan-ScanOk e dv offset [] d = record {
    version = refl;
    supercede = refl;
    content = unfold find in refl;
    continues = unfold find in tt;
    unbarred = refl;
    distinct = tt;
    absent = tt;
    keeps = λ v b. tt;
  }
  scan-ScanOk e dv offset (x ∷ xs) d =
      elim (Bool-cases (is_equal (k.compare e.md.version x.md.version))) [
        | inl same ↦
            let ev = laws.compare_sound e.md.version x.md.version same in
            elim (Bool-cases (offset == length x.content)) [
              | inr wrong ↦
                  let found : find k e.md.version (x ∷ xs) ≡ some x =
                    unfold find in rw (equal_flip e.md.version x.md.version same) refl in
                  rw (same, wrong) (inl (x, found, ground (arith, wrong)))
              | inl right ↦
                  rw (same, right)
                    (record {
                      version = refl;
                      supercede = refl;
                      content = unfold find in rw (equal_flip e.md.version x.md.version same);
                      unbarred = ground (arith, same);
                      continues =
                          unfold find in
                          rw (equal_flip e.md.version x.md.version same) (ground (arith, right));
                      distinct = d.1;
                      absent = subst (λ v. Absent v xs) (sym ev) d.0;
                      keeps = λ v b. b.1;
                    })
            ]
        | inr other ↦
            elim (Bool-cases (is_less (k.compare e.md.version x.md.version) && x.md.supercede)) [
              | inl old ↦ rw (other, old) (inr (ground (arith, other, old)))
              | inr fresh ↦ elim (Bool-cases (is_equal (k.compare dv x.md.version))) [
                | inl gone ↦ rw (other, fresh, gone) (inr (ground (arith, other, gone)))
                | inr here ↦
                    let rest =
                      pass_over-ScanOk e x dv offset xs (scan k e dv offset xs) other
                        (ground (arith, fresh, here)) d.0 (scan-ScanOk e dv offset xs d.1) in
                    rw (other, fresh, here) rest
              ]
            ]
      ]
