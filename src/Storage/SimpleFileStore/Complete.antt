-- ===== src/Storage/SimpleFileStore/Complete.antt =====
-- src/lib/storage/SimpleFileStore.cpp: onWriteComplete and onDeleteComplete.
use turbopump.Prelude.{ℕ, Bool, true, false, not, if◌then◌else◌}
use turbopump.Common.VectorClock.{is_deleted}
use turbopump.Storage.WriteStream.{World, Md, Disk, xor_digest, WriteStream, commit}
use turbopump.Storage.SimpleFileStore.{
  FilePaths, current, inprogress, deleted, reserve, Slot, path, remove_if_exists, time_from_version,
  test_if_version_greater,
}

module _ (w : World) where
  open w use {clocks, files}

  -- The in-progress file at its time and under its name. Whether both calls succeeded.
  unfoldable pub install : FilePaths → Slot → ℕ → Disk w → Bool × Disk w
  install p slot time d =
      let timed = files.set_modified_time d (path p inprogress) time in
      if timed.0 then files.rename timed.1 (path p inprogress) (path p slot) else timed

  unfoldable pub on_delete_complete : FilePaths → Md w → Disk w → Bool × Md w × Disk w
  on_delete_complete p md d =
      let gone = remove_if_exists w (path p deleted) true d in
      let moved = install p deleted (time_from_version w md.version) gone.1 in
      let dropped = remove_if_exists w (path p current) false moved.1 in
      if not (test_if_version_greater w md.version (path p current) d)
      then (false, md, (files.remove d (path p inprogress)).1)
      else if moved.0
      then (true, xor_digest w (xor_digest w md dropped.0) gone.0, dropped.1)
      else (false, md, (files.remove moved.1 (path p inprogress)).1)

  unfoldable pub on_write_complete : FilePaths → Md w → Disk w → Bool × Md w × Disk w
  on_write_complete p md d =
      let aside = (files.rename d (path p current) (path p reserve)).1 in
      let moved = install p current (time_from_version w md.version) aside in
      let back = (files.rename moved.1 (path p reserve) (path p current)).1 in
      let old = remove_if_exists w (path p reserve) false moved.1 in
      let gone = remove_if_exists w (path p deleted) true old.1 in
      if is_deleted clocks md.version
      then on_delete_complete p md d
      else if not (test_if_version_greater w md.version (path p deleted) d)
      then (false, md, (files.remove d (path p inprogress)).1)
      else if moved.0
      then (true, xor_digest w (xor_digest w md old.0) gone.0, gone.1)
      else (false, md, (files.remove back (path p inprogress)).1)

  -- The end of a stream of `write`.
  unfoldable pub commit_write : FilePaths → WriteStream w → Bool → Disk w → WriteStream w × Disk w
  commit_write p s close d = commit w (on_write_complete p) s close d
