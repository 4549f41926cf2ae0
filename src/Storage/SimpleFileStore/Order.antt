-- ===== src/Storage/SimpleFileStore/Order.antt =====
-- src/lib/storage/SimpleFileStore.cpp: a write and a deletion that end in either order.
use turbopump.Prelude.{◌≡◌, subst, true, false, [], ◌∷◌, none, ltb, if◌then◌else◌, arith}
use turbopump.Storage.Files.{Laws, IsHealthy}
use turbopump.Storage.WriteStream.{World, Disk}
use turbopump.Storage.SimpleFileStore.{FilePaths}
use turbopump.Storage.SimpleFileStore.Register.{
  Register, Completion, allows, value_of, complete, replay, Holds,
}
use turbopump.Storage.SimpleFileStore.Refinement.{Runs, Runs-replay}

-- The younger of a write and a deletion, and the deletion if they are of the same second.
abbrev pub younger : Completion → Completion → Register
younger c e =
    if ltb e.time c.time
    then record { live = value_of c; erased = none }
    else record { live = none; erased = value_of e }

module _ (r : Register) (c e : Completion) (write : c.deletes ≡ false) (delete : e.deletes ≡ true)
    (live : r.erased ≡ none) (older : allows r.live e ≡ true) where
  replay_write_first : replay (c ∷ e ∷ []) r ≡ younger c e
  unfolding replay complete
  replay_write_first = ground (arith)

  replay_delete_first : replay (e ∷ c ∷ []) r ≡ younger c e
  unfolding replay complete
  replay_delete_first = ground (arith)

  -- A write and a deletion of a key that has no deletion, and no version younger than this one:
  -- on a disk on which no call fails, whichever ends first, the key has the younger of the two in
  -- the end, and the deletion if they are of the same second.
  pub Runs-younger :
      (w : World) (laws : Laws w.files) (healthy : IsHealthy w.files) (p : FilePaths)
      {d d1 d2 : Disk w}
      → Holds w p r d
      → Runs w laws healthy p d (c ∷ e ∷ []) d1
      → Runs w laws healthy p d (e ∷ c ∷ []) d2
      → Holds w p (younger c e) d1 × Holds w p (younger c e) d2
  Runs-younger w laws healthy p {d1 = d1} {d2 = d2} h write_first delete_first = (
    subst (λ q. Holds w p q d1) replay_write_first (Runs-replay w laws healthy p r write_first h),
    subst (λ q. Holds w p q d2) replay_delete_first (Runs-replay w laws healthy p r delete_first h),
  )
