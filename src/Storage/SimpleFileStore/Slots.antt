-- ===== src/Storage/SimpleFileStore/Slots.antt =====
-- src/lib/storage/SimpleFileStore.cpp: the four files of a key, apart from one another, and what
-- each call on one of them does to all.
use turbopump.Prelude.{
  ℕ, ◌+◌, ◌≡◌, refl, ap, ◌∙◌, Bool, true, false, Option, none, codes, length, length-append, str_eq,
  str_eq→eq, str_eq_refl, if◌then◌else◌, arith, Bool-cases, inl, inr,
}
use turbopump.Storage.Files.{FileData, Files, Laws, modify}
use turbopump.Storage.SimpleFileStore.{FilePaths, Slot, current, inprogress, deleted, reserve, path}

abbrev pub slot_eq : Slot → Slot → Bool
slot_eq current current = true
slot_eq inprogress inprogress = true
slot_eq deleted deleted = true
slot_eq reserve reserve = true
slot_eq _ _ = false

-- What is before and behind the name.
abbrev extra : Slot → ℕ
extra current = 0
extra inprogress = 2
extra deleted = 9
extra reserve = 3

length-path :
    (p : FilePaths) (s : Slot) → length (path p s) ≡ length p.homedir + length p.name + extra s
unfolding path
length-path p current = omega (arith, length-append p.homedir p.name)
length-path p inprogress = rw length-append (omega (arith, length-append p.name (codes "~")))
length-path p deleted = rw length-append (omega arith)
length-path p reserve = rw length-append (omega (arith, length-append p.name (codes "~~")))

slot_eq_of_extra : (s t : Slot) → extra s ≡ extra t → slot_eq s t ≡ true
slot_eq_of_extra s t h = ground arith

eq_of_slot_eq : (s t : Slot) → slot_eq s t ≡ true → s ≡ t
eq_of_slot_eq s t h = ground arith

pub str_eq-path : (p : FilePaths) (s t : Slot) → str_eq (path p s) (path p t) ≡ slot_eq s t
str_eq-path p s t = elim (Bool-cases (slot_eq s t)) [
  | inl same ↦ rw (same, eq_of_slot_eq s t same) (str_eq_refl (path p t))
  | inr other ↦ elim (Bool-cases (str_eq (path p s) (path p t))) [
    | inl at ↦
        let lengths = ap (λ b. length b) (str_eq→eq (path p s) (path p t) at) in
        let same = slot_eq_of_extra s t (omega (arith, length-path p s, length-path p t)) in
        cc (other, same)
    | inr apart ↦ rw (apart, other) refl
  ]
]

abbrev pub file : (f : Files) → FilePaths → f.Disk → Slot → Option FileData
file f p d s = f.look d (path p s)

module _ {f : Files} (laws : Laws f) (p : FilePaths) where
  pub file-remove :
      (d : f.Disk) (s x : Slot)
      → file f p (f.remove d (path p s)).1 x ≡ (
          if (f.remove d (path p s)).0
          then (if slot_eq s x then none else file f p d x)
          else file f p d x)
  file-remove d s x = rw (laws.look-remove d (path p s) (path p x), str_eq-path p s x) refl

  pub file-rename :
      (d : f.Disk) (s t x : Slot)
      → slot_eq s t ≡ false
      → file f p (f.rename d (path p s) (path p t)).1 x ≡ (
          if (f.rename d (path p s) (path p t)).0
          then (if slot_eq t x then file f p d s else if slot_eq s x then none else file f p d x)
          else file f p d x)
  file-rename d s t x h =
      rw
        (
          laws.look-rename d (path p s) (path p t) (path p x) (str_eq-path p s t ∙ h),
          str_eq-path p t x,
          str_eq-path p s x,
        )
        refl

  pub file-set_modified_time :
      (d : f.Disk) (s x : Slot) (time : ℕ)
      → file f p (f.set_modified_time d (path p s) time).1 x ≡ (
          if (f.set_modified_time d (path p s) time).0
          then (if slot_eq s x then modify time (file f p d s) else file f p d x)
          else file f p d x)
  file-set_modified_time d s x time =
      rw (laws.look-set_modified_time d (path p s) (path p x) time, str_eq-path p s x) refl

  abbrev pub with_time : FileData → ℕ → FileData
  with_time g time = record g { modified = time }
