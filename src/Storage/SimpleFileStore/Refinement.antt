-- ===== src/Storage/SimpleFileStore/Refinement.antt =====
-- src/lib/storage/SimpleFileStore.cpp: completed writes refine the register of a key.
use turbopump.Prelude.{
  ◌≡◌, refl, sym, ◌∙◌, subst, inl, inr, true, false, List, [], ◌∷◌, none, some, if◌then◌else◌,
  arith, Bool-cases,
}
use turbopump.Common.VectorClock.{is_deleted}
use turbopump.Storage.Files.{FileData, Laws, IsHealthy}
use turbopump.Storage.WriteStream.{World, Md, Disk}
use turbopump.Storage.SimpleFileStore.{
  FilePaths, Slot, current, inprogress, deleted, reserve, path, remove_if_exists, time_from_version,
  test_if_version_greater,
}
use turbopump.Storage.SimpleFileStore.Complete.{install, on_delete_complete, on_write_complete}
use turbopump.Storage.SimpleFileStore.Slots.{slot_eq, file, file-rename}
use turbopump.Storage.SimpleFileStore.Kept.{Installed, install-Installed, file-remove_if_exists_ne}
use turbopump.Storage.SimpleFileStore.Register.{
  Register, Completion, allows, value_of, complete, replay, install_succeeds,
  file-remove_if_exists_self, view, completion, Holds, test_if_version_greater-eq, refused-Holds,
}

complete_delete :
    (c : Completion) (r : Register)
    → c.deletes ≡ true
    → complete c r ≡ (if allows r.live c then record { live = none; erased = value_of c } else r)
unfolding complete
complete_delete c r h = simp h refl

complete_write :
    (c : Completion) (r : Register)
    → c.deletes ≡ false
    → complete c r ≡ (if allows r.erased c then record { live = value_of c; erased = none } else r)
unfolding complete
complete_write c r h = simp h refl

module _ (w : World) (laws : Laws w.files) (healthy : IsHealthy w.files) (p : FilePaths) where
  open w use {files}

  on_delete_complete-Holds :
      (md : Md w) (d : Disk w) (g : FileData)
      → is_deleted w.clocks md.version ≡ true
      → file files p d inprogress ≡ some g
      → file files p d reserve ≡ none
      → Holds w p (complete (completion w p md g) (view w p d)) (on_delete_complete w p md d).2
  unfolding on_delete_complete
  on_delete_complete-Holds md d g erased there fresh =
      let c = completion w p md g in
      let time = time_from_version w md.version in
      let tested = test_if_version_greater-eq w p md g d current in
      let spec = complete_delete c (view w p d) erased in
      let d1 = (remove_if_exists w (path p deleted) true d).1 in
      let same = file-remove_if_exists_ne w laws p d deleted in
      let ok =
        install_succeeds w laws healthy p deleted time d1 g (same inprogress true refl ∙ there) in
      let seen = install-Installed w laws p deleted time d1 refl in
      let d2 = (install w p deleted time d1).1 in
      let last = file-remove_if_exists_ne w laws p d2 current in
      elim (Bool-cases (test_if_version_greater w md.version (path p current) d)) [
        | inr old ↦
            let blocked : allows (file files p d current) c ≡ false = sym tested ∙ old in
            rw spec (simp (old, blocked) (refused-Holds w laws healthy p d g there fresh))
        | inl newer ↦
            let allowed : allows (file files p d current) c ≡ true = sym tested ∙ newer in
            let (g', there', moved, left, rest) : Installed w p deleted time d1 true d2 =
              simp ok at seen in
            let same_file : some g' ≡ some g = sym there' ∙ (same inprogress true refl ∙ there) in
            rw spec (
              simp (newer, ok, allowed)
                record {
                  live_file = file-remove_if_exists_self w laws healthy p d2 current false refl;
                  erased_file = last deleted false refl ∙ (moved ∙ cc (same_file));
                  settled = last inprogress false refl ∙ left;
                  unreserved =
                      last reserve false refl
                      ∙ (rest reserve refl refl ∙ (same reserve true refl ∙ fresh));
                })
      ]

  -- The files of a key after what was at `current` has been put aside.
  aside_files :
      (d : Disk w)
      → file files p d reserve ≡ none
      → let d1 = (files.rename d (path p current) (path p reserve)).1 in
        (file files p d1 inprogress ≡ file files p d inprogress)
        × (file files p d1 deleted ≡ file files p d deleted)
  aside_files d fresh = (
    ground (arith, file-rename laws p d current reserve inprogress refl),
    ground (arith, file-rename laws p d current reserve deleted refl),
  )

  on_write_complete-Holds :
      (md : Md w) (d : Disk w) (g : FileData)
      → file files p d inprogress ≡ some g
      → file files p d reserve ≡ none
      → Holds w p (complete (completion w p md g) (view w p d)) (on_write_complete w p md d).2
  unfolding on_write_complete
  on_write_complete-Holds md d g there fresh =
      let c = completion w p md g in
      let time = time_from_version w md.version in
      let tested = test_if_version_greater-eq w p md g d deleted in
      let d1 = (files.rename d (path p current) (path p reserve)).1 in
      let (same, same_deleted) = aside_files d fresh in
      let ok = install_succeeds w laws healthy p current time d1 g (same ∙ there) in
      let seen = install-Installed w laws p current time d1 refl in
      let d2 = (install w p current time d1).1 in
      let d3 = (remove_if_exists w (path p reserve) false d2).1 in
      let first = file-remove_if_exists_ne w laws p d2 reserve in
      let last = file-remove_if_exists_ne w laws p d3 deleted in
      let removed = file-remove_if_exists_self w laws healthy p in
      elim (Bool-cases (is_deleted w.clocks md.version)) [
        | inl erased ↦
            let same : on_write_complete w p md d ≡ on_delete_complete w p md d =
              simp erased refl in
            subst (λ r. Holds w p (complete c (view w p d)) r.2) (sym same)
              (on_delete_complete-Holds md d g erased there fresh)
        | inr live ↦
            let spec = complete_write c (view w p d) live in
            elim (Bool-cases (test_if_version_greater w md.version (path p deleted) d)) [
              | inr old ↦
                  let blocked : allows (file files p d deleted) c ≡ false = sym tested ∙ old in
                  let refused : complete c (view w p d) ≡ view w p d = spec ∙ rw blocked refl in
                  rw refused (simp (live, old) (refused-Holds w laws healthy p d g there fresh))
              | inl newer ↦
                  let allowed : allows (file files p d deleted) c ≡ true = sym tested ∙ newer in
                  let (g', there', moved, left, rest) : Installed w p current time d1 true d2 =
                    simp ok at seen in
                  let same_file : some g' ≡ some g = sym there' ∙ (same ∙ there) in
                  let stored : complete c (view w p d)
                      ≡ record { live = value_of c; erased = none } =
                    spec ∙ rw allowed refl in
                  rw stored (
                    simp (live, newer, ok)
                      record {
                        live_file =
                            last current true refl
                            ∙ (first current false refl ∙ (moved ∙ cc (same_file)));
                        erased_file = removed d3 deleted true refl;
                        settled = last inprogress true refl ∙ (first inprogress false refl ∙ left);
                        unreserved = last reserve true refl ∙ removed d2 reserve false refl;
                      })
            ]
      ]

  -- Writes that end one after another: before each, its bytes are put in the in-progress file and
  -- nothing else of the key changes.
  pub data Runs : Disk w → List Completion → Disk w → Type 0 where
    stop : (d : Disk w) → Runs d [] d
    next :
        (md : Md w) (g : FileData) (d d1 : Disk w) {cs : List Completion} {d2 : Disk w}
        → file files p d1 inprogress ≡ some g
        → ((x : Slot) → slot_eq inprogress x ≡ false → file files p d1 x ≡ file files p d x)
        → Runs (on_write_complete w p md d1).2 cs d2
        → Runs d (completion w p md g ∷ cs) d2

  -- On a disk on which no call fails, a key is a register: however writes and deletions follow one
  -- another, the files of the key end as the register that takes the same completions in turn. A
  -- write gives way to a deletion that is not older, a deletion to a write that is younger, and
  -- else what is there is replaced.
  pub Runs-replay :
      (r : Register) {d d2 : Disk w} {cs : List Completion}
      → Runs d cs d2
      → Holds w p r d
      → Holds w p (replay cs r) d2
  unfolding replay
  Runs-replay r (stop d) h = h
  Runs-replay r (next md g d d1 there kept rest) h =
      let fresh = kept reserve refl ∙ h.unreserved in
      let same : view w p d1 ≡ r =
        rw (kept current refl ∙ h.live_file, kept deleted refl ∙ h.erased_file) refl in
      Runs-replay (complete (completion w p md g) r) rest (
        subst (λ q. Holds w p (complete (completion w p md g) q) (on_write_complete w p md d1).2)
          same (on_write_complete-Holds md d1 g there fresh))
