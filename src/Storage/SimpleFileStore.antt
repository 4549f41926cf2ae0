-- ===== src/Storage/SimpleFileStore.antt =====
-- src/lib/storage/SimpleFileStore.cpp: one version of a key on disk, with the files that a write
-- passes through. An operation is one step: no other writes between its calls.
pub mod Complete
pub mod Enumerate
pub mod Slots
pub mod Kept
pub mod Register
pub mod Refinement
pub mod Order
use Prim.Native.Nat.{bit_xor}
use turbopump.Prelude.{
  ℕ, ◌+◌, Bool, true, false, not, ◌&&◌, ◌||◌, Bytes, List, [], ◌∷◌, ◌++◌, Option, none, some, zero,
  suc, codes, length, take, drop, ltb, leb, ◌==◌, str_eq, is_some, is_empty, if◌then◌else◌,
}
use turbopump.Common.VectorClock.{Clock, is_equal, is_less, mark_deleted, is_deleted, is_expired}
use turbopump.Storage.Files.{FileData}
use turbopump.Storage.WriteStream.{
  World, Md, Disk, fresh_md, xor_digest, digest, size_of, WriteStream,
}

-- The directory, with its slash, and the name in it.
pub record FilePaths : Type 0 where
  pub homedir : Bytes
  pub name : Bytes

-- The files of a key.
pub data Slot : Type 0 where
  current inprogress deleted reserve : Slot

unfoldable pub path : FilePaths → Slot → Bytes
path p current = p.homedir ++ p.name
path p inprogress = p.homedir ++ (codes "." ++ (p.name ++ codes "~"))
path p deleted = p.homedir ++ (codes ".deleted." ++ p.name)
path p reserve = p.homedir ++ (codes "." ++ (p.name ++ codes "~~"))

-- EXPIRY_TIMEOUT_SECONDS and MEMBERSHIP_FILE_PREFIX
abbrev pub expiry_timeout : ℕ
expiry_timeout = 604800

abbrev pub membership_prefix : Bytes
membership_prefix = codes ".membership/"

abbrev pub has_prefix : Bytes → Bytes → Bool
has_prefix prefix b = str_eq (take (length prefix) b) prefix

module _ (w : World) where
  open w use {clocks, text, files, paths}

  abbrev pub Version : Type 0
  Version = clocks.Version

  modified_of : Option FileData → ℕ
  modified_of none = 0
  modified_of (some g) = g.modified

  -- The version of a file by its time. `erased` says that it is a deleted one.
  unfoldable pub lookup_version : Option FileData → Bool → Version
  unfolding modified_of
  lookup_version g erased =
      let version = clocks.increment clocks.empty (codes "sec") (modified_of g) in
      if erased then mark_deleted clocks version (modified_of g) else version

  -- The digest of what is removed, and the disk.
  unfoldable pub remove_if_exists : Bytes → Bool → Disk w → ℕ × Disk w
  remove_if_exists p erased d = elim (files.look d p) [
    | none ↦ (0, d)
    | some g ↦ (
      digest w (text.to_string (lookup_version (some g) erased)) (size_of (some g)),
      (files.remove d p).1,
    )
  ]

  front_time : List Clock → ℕ
  front_time [] = 0
  front_time (c ∷ cs) = c.time

  unfoldable pub time_from_version : Version → ℕ
  unfolding front_time
  time_from_version version = front_time (clocks.clocks version)

  unfoldable pub test_if_version_greater : Version → Bytes → Disk w → Bool
  test_if_version_greater version p d = elim (files.look d p) [
    | none ↦ true
    | some g ↦
        ltb g.modified (time_from_version version)
        || time_from_version version == g.modified && is_deleted clocks version
  ]

  -- `home` is _homedir.
  unfoldable pub filepath : Bytes → Bytes → FilePaths
  filepath home name = record {
    homedir = paths.append home (paths.parent_path name) ++ codes "/";
    name = paths.filename name;
  }

  version_at : Slot → Bool → FilePaths → Disk w → List Bytes
  version_at slot erased p d = elim (files.look d (path p slot)) [
    | none ↦ []
    | some g ↦ text.to_string (lookup_version (some g) erased) ∷ []
  ]

  unfoldable pub versions : FilePaths → Bool → Disk w → List Bytes
  unfolding version_at
  versions p in_progress d =
      version_at current false p d
      ++ (version_at deleted true p d
          ++ (if in_progress then version_at inprogress false p d else []))

  unfoldable pub merge_all : Version → List Bytes → Version
  merge_all version [] = version
  merge_all version (v ∷ vs) = merge_all (clocks.merge version (text.from_string v)) vs

  unfoldable pub merged_version : FilePaths → Bool → Disk w → Version
  merged_version p in_progress d = merge_all clocks.empty (versions p in_progress d)

  unfoldable pub exists : FilePaths → Bytes → Disk w → Bool
  exists p version d =
      let c = clocks.compare (text.from_string version) (merged_version p true d) in
      is_equal c || is_less c

  -- `now` is the time in seconds. none is the stream of the constructor with no argument.
  unfoldable pub write : FilePaths → Bytes → ℕ → Disk w → Option (WriteStream w) × Disk w
  write p version now d =
      let given = text.from_string version in
      let v =
        if is_empty (clocks.clocks given)
        then clocks.increment given (codes "sec") now
        else given in
      let current_time = time_from_version (merged_version p true d) in
      let prospective = time_from_version v in
      let opened =
        files.open_writer d (paths.parent_path (path p inprogress)) (path p inprogress) in
      if ltb prospective current_time
        || (prospective == current_time && not (is_deleted clocks v)
            || is_expired clocks v expiry_timeout now)
      then (none, d)
      else (
        some (record { filename = path p inprogress; good = opened.0; md = fresh_md w v }),
        opened.1,
      )

  -- The file and the metadata of the stream, or none for the stream that is not good. `name` is
  -- the name as it is given.
  unfoldable pub read : FilePaths → Bytes → Bytes → Disk w → Option (Bytes × Md w)
  read p name version d =
      let merged = merged_version p true d in
      let given = text.from_string version in
      let v = if is_empty version then merged else given in
      let copies = if has_prefix membership_prefix name then 0 else 3 in
      let stream : Bytes × Md w = (
        path p (if is_deleted clocks v then deleted else current),
        record (fresh_md w v) { total_copies = copies },
      ) in
      if not (is_empty version) && not (is_equal (clocks.compare given merged))
      then none
      else some stream

  -- The stream that `read` opens is left out if its file cannot be opened.
  unfoldable pub read_all : FilePaths → Bytes → Disk w → List (Bytes × Md w)
  read_all p name d = elim (read p name [] d) [
    | none ↦ []
    | some (filename, md) ↦ if is_some (files.look d filename) then (filename, md) ∷ [] else []
  ]

  -- fromString leaves the clock empty where it fails, which is not deleted.
  unfoldable pub store_is_expired : Bytes → ℕ → Bool
  store_is_expired version now = is_expired clocks (text.from_string version) expiry_timeout now

  -- The loop of `remove` over the directories: it ends at one that cannot be removed.
  unfoldable pub remove_parents : ℕ → Bytes → Disk w → Disk w
  remove_parents zero dir d = d
  remove_parents (suc fuel) dir d =
      let removed = files.remove d dir in
      let rest = remove_parents fuel (paths.parent_path dir) removed.1 in
      if removed.0 then rest else removed.1

  -- `|` makes all three calls. Their order is not fixed; this is the one they are written in.
  unfoldable pub remove : FilePaths → Disk w → Bool × Disk w
  remove p d =
      let (r1, d1) = files.remove d (path p inprogress) in
      let (r2, d2) = files.remove d1 (path p deleted) in
      let (r3, d3) = files.remove d2 (path p current) in
      (
        r1 || (r2 || r3),
        remove_parents (length (path p current)) (paths.parent_path (path p current)) d3,
      )
