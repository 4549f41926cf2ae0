-- ===== src/Storage/SimpleFileStore/Kept.antt =====
-- src/lib/storage/SimpleFileStore.cpp: onWriteComplete on a disk on which any call may fail.
use turbopump.Prelude.{
  ℕ, ◌≡◌, refl, sym, ◌∙◌, ◌⊎◌, inl, inr, Bool, true, false, none, some, arith, Bool-cases,
  Option-cases,
}
use turbopump.Common.VectorClock.{is_deleted}
use turbopump.Storage.Files.{FileData, Laws}
use turbopump.Storage.WriteStream.{World, Md, Disk}
use turbopump.Storage.SimpleFileStore.{
  FilePaths, Slot, current, inprogress, deleted, reserve, path, remove_if_exists, time_from_version,
  test_if_version_greater,
}
use turbopump.Storage.SimpleFileStore.Complete.{install, on_delete_complete, on_write_complete}
use turbopump.Storage.SimpleFileStore.Slots.{
  slot_eq, file, file-remove, file-rename, file-set_modified_time,
}

-- Where the file goes that is completed: the version that it is of is deleted or not.
abbrev pub destination : Bool → Slot
destination true = deleted
destination false = current

module _ (w : World) (p : FilePaths) where
  open w use {files}

  -- The in-progress file has become the file at `slot`, or it is the only one that has changed.
  abbrev pub Installed : Slot → ℕ → Disk w → Bool → Disk w → Type 0
  Installed slot time d true d' =
      (g : FileData) × (file files p d inprogress ≡ some g)
      × (file files p d' slot ≡ some (record g { modified = time }))
      × (file files p d' inprogress ≡ none)
      × ((x : Slot)
          → slot_eq slot x ≡ false
          → slot_eq inprogress x ≡ false
          → file files p d' x ≡ file files p d x)
  Installed slot time d false d' =
      (x : Slot) → slot_eq inprogress x ≡ false → file files p d' x ≡ file files p d x

  -- A file that is left aside: the call that was to put it back has failed, and after it only the
  -- file in progress has been removed.
  abbrev pub Aside : Disk w → FileData → Type 0
  Aside d' g =
      (file files p d' reserve ≡ some g)
      × ((d : Disk w) × ((files.rename d (path p reserve) (path p current)).0 ≡ false)
          × (d'
              ≡ (files.remove (files.rename d (path p reserve) (path p current)).1
                  (path p inprogress)).1))

  abbrev pub Completed : Slot → ℕ → Disk w → Bool → Disk w → Type 0
  Completed slot time d true d' =
      (g : FileData) × (file files p d inprogress ≡ some g)
      × (file files p d' slot ≡ some (record g { modified = time }))
      × (file files p d' inprogress ≡ none)
  Completed slot time d false d' =
      (g : FileData)
      → file files p d current ≡ some g
      → (file files p d' current ≡ some g) ⊎ Aside d' g

module _ (w : World) (laws : Laws w.files) (p : FilePaths) where
  open w use {files}

  pub install-Installed :
      (slot : Slot) (time : ℕ) (d : Disk w)
      → slot_eq inprogress slot ≡ false
      → Installed w p slot time d (install w p slot time d).0 (install w p slot time d).1
  unfolding install
  install-Installed slot time d h =
      let at_time = file-set_modified_time laws p d inprogress in
      elim (Bool-cases (files.set_modified_time d (path p inprogress) time).0) [
        | inr failed ↦ simp failed (λ x hx. ground (arith, at_time x time))
        | inl ok ↦
            let dt = (files.set_modified_time d (path p inprogress) time).1 in
            let moving = file-rename laws p dt inprogress slot in
            elim (Bool-cases (files.rename dt (path p inprogress) (path p slot)).0) [
              | inr failed ↦ simp (ok, failed) (λ x hx. ground (arith, at_time x time, moving x h))
              | inl moved ↦ elim (Option-cases (file files p d inprogress)) [
                | inl missing ↦ absurd (
                    ground (
                      arith,
                      at_time inprogress time,
                      laws.rename_missing dt (path p inprogress) (path p slot),
                    ))
                | inr (g, there) ↦
                    simp (ok, moved)
                      (
                        g,
                        there,
                        ground (arith, at_time inprogress time, moving slot h, there),
                        ground (arith, at_time inprogress time, moving inprogress h),
                        λ x hs hx. ground (arith, at_time x time, moving x h),
                      )
              ]
            ]
      ]

  pub file-remove_if_exists_ne :
      (d : Disk w) (s x : Slot) (erased : Bool)
      → slot_eq s x ≡ false
      → file files p (remove_if_exists w (path p s) erased d).1 x ≡ file files p d x
  unfolding remove_if_exists
  file-remove_if_exists_ne d s x erased h = elim (Option-cases (files.look d (path p s))) [
    | inl missing ↦ rw (missing, remove_if_exists) refl
    | inr (g, there) ↦ rw (there, remove_if_exists) (ground (arith, file-remove laws p d s x))
  ]

  removed-Completed :
      (slot : Slot) (time : ℕ) (d d' : Disk w)
      → file files p d' current ≡ file files p d current
      → Completed w p slot time d false (files.remove d' (path p inprogress)).1
  removed-Completed slot time d d' same g there =
      inl (ground (arith, file-remove laws p d' inprogress current))

  on_delete_complete-Completed :
      (md : Md w) (d : Disk w)
      → let r = on_delete_complete w p md d in
        Completed w p deleted (time_from_version w md.version) d r.0 r.2
  unfolding on_delete_complete
  on_delete_complete-Completed md d =
      let time = time_from_version w md.version in
      let d1 = (remove_if_exists w (path p deleted) true d).1 in
      let same = file-remove_if_exists_ne d deleted in
      let seen = install-Installed deleted time d1 refl in
      elim (Bool-cases (test_if_version_greater w md.version (path p current) d)) [
        | inr old ↦ simp old (removed-Completed deleted time d d refl)
        | inl newer ↦ elim (Bool-cases (install w p deleted time d1).0) [
          | inr failed ↦
              let kept : Installed w p deleted time d1 false (install w p deleted time d1).1 =
                simp failed at seen in
              simp (newer, failed)
                (removed-Completed deleted time d (install w p deleted time d1).1
                  (kept current refl ∙ same current true refl))
          | inl ok ↦
              let d2 = (install w p deleted time d1).1 in
              let (g, there, moved, left, rest) : Installed w p deleted time d1 true d2 =
                simp ok at seen in
              let last = file-remove_if_exists_ne d2 current in
              simp (newer, ok)
                (
                  g,
                  sym (same inprogress true refl) ∙ there,
                  last deleted false refl ∙ moved,
                  last inprogress false refl ∙ left,
                )
        ]
      ]

  -- A file at `current` that has been put aside is put back, or stays aside.
  restored-Completed :
      (time : ℕ) (d d2 : Disk w)
      → file files p d reserve ≡ none
      → let d1 = (files.rename d (path p current) (path p reserve)).1 in
        Installed w p current time d1 false d2
        → Completed w p current time d false
            (files.remove
              (files.rename d2 (path p reserve) (path p current)).1
              (path p inprogress)).1
  restored-Completed time d d2 fresh kept g there =
      let d3 = (files.rename d2 (path p reserve) (path p current)).1 in
      let d4 = (files.remove d3 (path p inprogress)).1 in
      let either : (file files p d4 current ≡ some g)
          ⊎ (file files p d4 reserve ≡ some g)
            × ((files.rename d2 (path p reserve) (path p current)).0 ≡ false) =
        ground (
          arith,
          there,
          file-rename laws p d current reserve current refl,
          file-rename laws p d current reserve reserve refl,
          kept current refl,
          kept reserve refl,
          laws.rename_missing d2 (path p reserve) (path p current),
          file-rename laws p d2 reserve current current refl,
          file-rename laws p d2 reserve current reserve refl,
          file-remove laws p d3 inprogress current,
          file-remove laws p d3 inprogress reserve,
        ) in
      elim either [ inl back ↦ inl back | inr (left, failed) ↦ inr (left, (d2, failed, refl)) ]

  -- Any call on a file may fail. If onWriteComplete returns true, what was written is the file of
  -- the key, or its deleted file for a deletion, with the time of the version, and no file is in
  -- progress. If it returns false, an older file of the key is still there, in its place, or
  -- aside under the reserved name if the call that was to put it back has failed, provided that
  -- nothing stood under that name before.
  pub on_write_complete-Completed :
      (md : Md w) (d : Disk w)
      → file files p d reserve ≡ none
      → let r = on_write_complete w p md d in
        Completed w p
          (destination (is_deleted w.clocks md.version))
          (time_from_version w md.version)
          d
          r.0
          r.2
  unfolding on_write_complete
  on_write_complete-Completed md d fresh =
      let time = time_from_version w md.version in
      let d1 = (files.rename d (path p current) (path p reserve)).1 in
      let aside = file-rename laws p d current reserve in
      let seen = install-Installed current time d1 refl in
      elim (Bool-cases (is_deleted w.clocks md.version)) [
        | inl erased ↦ simp erased (on_delete_complete-Completed md d)
        | inr live ↦ elim (Bool-cases (test_if_version_greater w md.version (path p deleted) d)) [
          | inr old ↦ simp (live, old) (removed-Completed current time d d refl)
          | inl newer ↦ elim (Bool-cases (install w p current time d1).0) [
            | inr failed ↦
                let kept : Installed w p current time d1 false (install w p current time d1).1 =
                  simp failed at seen in
                simp (live, newer, failed)
                  (restored-Completed time d (install w p current time d1).1 fresh kept)
            | inl ok ↦
                let d2 = (install w p current time d1).1 in
                let (g, there, moved, left, rest) : Installed w p current time d1 true d2 =
                  simp ok at seen in
                let d3 = (remove_if_exists w (path p reserve) false d2).1 in
                let first = file-remove_if_exists_ne d2 reserve in
                let last = file-remove_if_exists_ne d3 deleted in
                simp (live, newer, ok)
                  (
                    g,
                    ground (arith, aside inprogress refl, there),
                    last current true refl ∙ first current false refl ∙ moved,
                    last inprogress true refl ∙ first inprogress false refl ∙ left,
                  )
          ]
        ]
      ]
