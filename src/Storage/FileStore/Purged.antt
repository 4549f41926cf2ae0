-- ===== src/Storage/FileStore/Purged.antt =====
-- src/lib/storage/FileStore.cpp: which versions of a key are left when a write is complete.
use Prim.Native.Nat.{bit_xor}
use turbopump.Prelude.{
  ◌≡◌, refl, Bool, true, false, ◌&&◌, ◌||◌, Bytes, List, [], ◌∷◌, ◌++◌, none, codes, str_eq,
  str_eq→eq, if◌then◌else◌, arith, Bool-cases, Option-cases, inl, inr,
}
use turbopump.Common.VectorClock.{is_less, is_greater, Compare}
use turbopump.Deskew.Names
use turbopump.Deskew.Names.{has-add}
use turbopump.Storage.Files.{Laws, IsHealthy}
use turbopump.Storage.WriteStream.{World, Md, Disk, digest, size_of}
use turbopump.Storage.FileStore.{
  Directories, filepath, versions, obsolete, delete_all, purge_obsolete, on_write_complete,
}

str_eq-append : (a u v : Bytes) → str_eq (a ++ u) (a ++ v) ≡ str_eq u v
unfolding str_eq
str_eq-append [] u v = refl
str_eq-append (x ∷ a) u v = ground (arith, str_eq-append a u v)

str_eq-filepath :
    (home name u v : Bytes) → str_eq (filepath home name u) (filepath home name v) ≡ str_eq u v
unfolding str_eq
str_eq-filepath home name u v =
    str_eq-append (home ++ (codes "/" ++ name)) (codes "/" ++ u) (codes "/" ++ v)

greater_not_less : (c : Compare) → is_greater c ≡ true → is_less c ≡ false
greater_not_less c h = ground arith

module _ (w : World) (dirs : Directories w.files) (home name : Bytes) where
  open w use {clocks, text, files}

  -- The names of the versions are those that toString gives.
  abbrev pub Canonical : List Bytes → Type 0
  Canonical [] = Unit {0}
  Canonical (v ∷ vs) = (text.to_string (text.from_string v) ≡ v) × Canonical vs

  abbrev pub lesser : clocks.Version → Bytes → Bool
  lesser master v = is_less (clocks.compare (text.from_string v) master)

  abbrev pub any_greater : clocks.Version → List Bytes → Bool
  any_greater master [] = false
  any_greater master (v ∷ vs) =
      is_greater (clocks.compare (text.from_string v) master) || any_greater master vs

  -- A version is obsolete if it is less than that which has been written, which is so itself if
  -- another is greater.
  abbrev pub is_obsolete : clocks.Version → List Bytes → Bytes → Bool
  is_obsolete master all v =
      lesser master v || str_eq (text.to_string master) v && any_greater master all

  same_version :
      (master : clocks.Version) (x v : Bytes)
      → str_eq v x ≡ true
      → lesser master x ≡ is_less (clocks.compare (text.from_string v) master)
  same_version master x v same = rw (str_eq→eq v x same) refl

  has-obsolete :
      (master : clocks.Version) (x : Bytes) (all to_delete : List Bytes)
      → Canonical all
      → Names.has x (obsolete w dirs master all to_delete) ≡ (
          Names.has x to_delete
          || (Names.has x all && lesser master x
              || str_eq (text.to_string master) x && any_greater master all))
  unfolding obsolete Names.has
  has-obsolete master x [] to_delete h = ground arith
  has-obsolete master x (v ∷ vs) to_delete h =
      let comp = clocks.compare (text.from_string v) master in
      let others = λ (names : List Bytes). has-obsolete master x vs names h.1 in
      let seen = same_version master x v in
      let of_v = has-add x v to_delete in
      let of_master = has-add x (text.to_string master) to_delete in
      rw h.0 (elim (Bool-cases (is_less comp)) [
        | inl less ↦ rw less (ground (arith, others (Names.add v to_delete), of_v, seen, less))
        | inr other ↦ elim (Bool-cases (is_greater comp)) [
          | inl greater ↦
              rw (other, greater)
                (ground (
                  arith,
                  others (Names.add (text.to_string master) to_delete),
                  of_master,
                  seen,
                  other,
                ))
          | inr neither ↦ rw (other, neither) (ground (arith, others to_delete, seen, other))
        ]
      ])

  look-delete_all :
      (laws : Laws files) (healthy : IsHealthy files) (names : List Bytes) (master : Md w)
      (d : Disk w) (x : Bytes)
      → files.look (delete_all w dirs home name names master d).1 (filepath home name x)
        ≡ (if Names.has x names then none else files.look d (filepath home name x))
  unfolding delete_all Names.has
  look-delete_all laws healthy [] master d x = refl
  look-delete_all laws healthy (v ∷ vs) master d x =
      let p = filepath home name v in
      let removed = laws.look-remove d p (filepath home name x) in
      let removes = healthy.removes d p in
      let master' = record master {
        digest = bit_xor master.digest (digest w v (size_of (files.look d p)));
      } in
      let others = look-delete_all laws healthy vs master' (files.remove d p).1 x in
      let apart = str_eq-filepath home name v x in
      elim (Bool-cases (str_eq v x)) [
        | inl same ↦ elim (Option-cases (files.look d p)) [
          | inl missing ↦
              let at : files.look d (filepath home name x) ≡ none =
                rw (← str_eq→eq v x same) missing in
              ground (arith, others, removed, apart, same, at)
          | inr (g, there) ↦
              let gone = removes (λ e. cc (there, e)) in
              ground (arith, others, removed, apart, same, gone)
        ]
        | inr other ↦ ground (arith, others, removed, apart, other)
      ]

  -- On a disk on which no call fails, and where the versions of a key have the names that toString
  -- gives: onWriteComplete, once the file has its name, leaves of the versions that are then there
  -- all but the obsolete ones, as they were. Obsolete is a version less than the one that has been
  -- written, and that one if another is greater.
  pub on_write_complete-purged :
      (laws : Laws files) (healthy : IsHealthy files) (md : Md w) (d : Disk w)
      → let filename = filepath home name (text.to_string md.version) in
        let renamed = files.rename d (filename ++ codes "~") filename in
        let all = versions w dirs home name false renamed.1 in
        renamed.0 ≡ true
        → Canonical all
        → (v : Bytes) → Names.has v all ≡ true
        → files.look (on_write_complete w dirs home name md d).2 (filepath home name v) ≡ (
            if is_obsolete md.version all v
            then none
            else files.look renamed.1 (filepath home name v))
  unfolding on_write_complete purge_obsolete Names.has
  on_write_complete-purged laws healthy md d ok canonical v listed =
      let filename = filepath home name (text.to_string md.version) in
      let d1 = (files.rename d (filename ++ codes "~") filename).1 in
      let all = versions w dirs home name false d1 in
      let doomed = has-obsolete md.version v all [] canonical in
      let left = look-delete_all laws healthy (obsolete w dirs md.version all []) md d1 v in
      simp ok (ground (arith, left, doomed, listed))
