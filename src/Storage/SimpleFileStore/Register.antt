-- ===== src/Storage/SimpleFileStore/Register.antt =====
-- src/lib/storage/SimpleFileStore.cpp: what onWriteComplete promises. A key is a register that
-- holds a live or a deleted version with its time.
use turbopump.Prelude.{
  ℕ, ◌≡◌, refl, inl, inr, Bool, true, ◌||◌, ◌&&◌, Bytes, List, [], ◌∷◌, Option, none, some, ltb,
  ◌==◌, if◌then◌else◌, arith, Option-cases,
}
use turbopump.Common.VectorClock.{is_deleted}
use turbopump.Storage.Files.{FileData, Laws, IsHealthy}
use turbopump.Storage.WriteStream.{World, Md, Disk}
use turbopump.Storage.SimpleFileStore.{
  FilePaths, Slot, current, inprogress, deleted, reserve, path, remove_if_exists, time_from_version,
  test_if_version_greater,
}
use turbopump.Storage.SimpleFileStore.Complete.{install}
use turbopump.Storage.SimpleFileStore.Slots.{slot_eq, file, file-remove, file-set_modified_time}

pub record Register : Type 0 where
  pub live : Option FileData
  pub erased : Option FileData

-- A completed write: whether it is a deletion, its time, and what it writes.
pub record Completion : Type 0 where
  pub deletes : Bool
  pub time : ℕ
  pub bytes : Bytes

-- The time of what is there allows the completion.
abbrev pub allows : Option FileData → Completion → Bool
allows none c = true
allows (some g) c = ltb g.modified c.time || c.time == g.modified && c.deletes

abbrev pub value_of : Completion → Option FileData
value_of c = some (record { modified = c.time; content = c.bytes })

-- A write gives way to a deletion that is not older, and a deletion to a write that is younger.
unfoldable pub complete : Completion → Register → Register
complete c r =
    if c.deletes
    then (if allows r.live c then record { live = none; erased = value_of c } else r)
    else if allows r.erased c
    then record { live = value_of c; erased = none }
    else r

unfoldable pub replay : List Completion → Register → Register
replay [] r = r
replay (c ∷ cs) r = replay cs (complete c r)

module _ (w : World) (p : FilePaths) where
  open w use {files}

  abbrev pub view : Disk w → Register
  view d = record { live = file files p d current; erased = file files p d deleted }

  abbrev pub completion : Md w → FileData → Completion
  completion md g = record {
    deletes = is_deleted w.clocks md.version;
    time = time_from_version w md.version;
    bytes = g.content;
  }

  -- The disk holds the register, and nothing of the key besides.
  pub record Holds (r : Register) (d : Disk w) : Type 0 where
    pub live_file : file files p d current ≡ r.live
    pub erased_file : file files p d deleted ≡ r.erased
    pub settled : file files p d inprogress ≡ none
    pub unreserved : file files p d reserve ≡ none

  pub test_if_version_greater-eq :
      (md : Md w) (g : FileData) (d : Disk w) (s : Slot)
      → test_if_version_greater w md.version (path p s) d
        ≡ allows (file files p d s) (completion md g)
  unfolding test_if_version_greater
  test_if_version_greater-eq md g d s = elim (Option-cases (files.look d (path p s))) [
    | inl missing ↦ rw (missing, test_if_version_greater) refl
    | inr (g', there) ↦ rw (there, test_if_version_greater) refl
  ]

module _ (w : World) (laws : Laws w.files) (healthy : IsHealthy w.files) (p : FilePaths) where
  open w use {files}

  pub install_succeeds :
      (slot : Slot) (time : ℕ) (d : Disk w) (g : FileData)
      → file files p d inprogress ≡ some g
      → (install w p slot time d).0 ≡ true
  unfolding install
  install_succeeds slot time d g h =
      let d1 = (files.set_modified_time d (path p inprogress) time).1 in
      let dated = healthy.dates d (path p inprogress) time (λ e. cc (h, e)) in
      let seen = file-set_modified_time laws p d inprogress inprogress time in
      simp dated (
        healthy.renames d1 (path p inprogress) (path p slot)
          (λ e. ground (arith, seen, h, e, dated)))

  pub file-remove_if_exists_self :
      (d : Disk w) (s : Slot) (erased : Bool)
      → slot_eq s s ≡ true
      → file files p (remove_if_exists w (path p s) erased d).1 s ≡ none
  unfolding remove_if_exists
  file-remove_if_exists_self d s erased h = elim (Option-cases (files.look d (path p s))) [
    | inl missing ↦ rw (missing, remove_if_exists) missing
    | inr (g, there) ↦
        let removed = healthy.removes d (path p s) (λ e. cc (there, e)) in
        rw (there, remove_if_exists) (ground (arith, file-remove laws p d s s, removed, h))
  ]

  -- After a refusal.
  pub refused-Holds :
      (d : Disk w) (g : FileData)
      → file files p d inprogress ≡ some g
      → file files p d reserve ≡ none
      → Holds w p (view w p d) (files.remove d (path p inprogress)).1
  refused-Holds d g there fresh =
      let removed = healthy.removes d (path p inprogress) (λ e. cc (there, e)) in
      let seen = file-remove laws p d inprogress in
      record {
        live_file = ground (arith, seen current);
        erased_file = ground (arith, seen deleted);
        settled = ground (arith, seen inprogress, removed);
        unreserved = ground (arith, seen reserve);
      }
