-- ===== src/Storage/FileStore.antt =====
-- src/lib/storage/FileStore.cpp: a directory for each key, with a file for each version. An
-- operation is one step.
pub mod Purged
pub mod Enumerate
use Prim.Native.Nat.{bit_xor}
use turbopump.Prelude.{
  has_byte, ℕ, ◌+◌, ◌%◌, Bool, true, false, not, ◌&&◌, ◌||◌, Bytes, List, [], ◌∷◌, ◌++◌, Option,
  none, some, codes, length, take, drop, ◌-◌, ◌==◌, str_eq, is_some, is_empty, if◌then◌else◌, map,
  leb,
}
use turbopump.Common.VectorClock.{is_less, is_greater, is_expired}
use turbopump.Deskew.Names
use turbopump.Storage.Files.{Files, FileData}
use turbopump.Storage.WriteStream.{World, Md, Disk, fresh_md, digest, size_of, WriteStream}
use turbopump.Storage.SimpleFileStore.{expiry_timeout}

-- Directories, and the attribute "user.md" of a file.
pub record Directories (f : Files) : Type 0 where
  -- the loop over readdir
  pub list : f.Disk → Bytes → List Bytes
  pub remove_all : f.Disk → Bytes → f.Disk
  pub attribute : f.Disk → Bytes → Bytes
  pub set_attribute : f.Disk → Bytes → Bytes → f.Disk

unfoldable pub last_is : ℕ → Bytes → Bool
last_is c [] = false
last_is c (x ∷ xs) = let rest = last_is c xs in if is_empty xs then x == c else rest

-- The loop of `versions`.
unfoldable pub versions_of : Bool → List Bytes → List Bytes
versions_of in_progress [] = []
versions_of in_progress (ver ∷ rest) =
    let others = versions_of in_progress rest in
    if not (has_byte b',' ver)
    then others
    else if last_is b'~' ver
    then (if in_progress then take (length ver - 1) ver ∷ others else others)
    else ver ∷ others

abbrev pub dirpath : Bytes → Bytes → Bytes
dirpath home name = home ++ (codes "/" ++ name)

abbrev pub filepath : Bytes → Bytes → Bytes → Bytes
filepath home name version = dirpath home name ++ (codes "/" ++ version)

module _ (w : World) (dirs : Directories w.files) where
  open w use {clocks, text, files}

  -- The attribute of a file: none if there is none to read. `str[1]` behind the end is 0.
  unfoldable pub md_from_string : Md w → Bytes → Option (Md w)
  md_from_string md [] = none
  md_from_string md (c ∷ rest) =
      some
        (record md { total_copies = c; supercede = elim rest [ [] ↦ false | s ∷ _ ↦ s == b'1' ] })

  unfoldable pub md_to_string : Md w → Bytes
  md_to_string md = (md.total_copies % 256) ∷ (if md.supercede then codes "1" else codes "0")

  unfoldable pub versions : Bytes → Bytes → Bool → Disk w → List Bytes
  unfolding versions_of
  versions home name in_progress d = versions_of in_progress (dirs.list d (dirpath home name))

  unfoldable pub merge_all : clocks.Version → List Bytes → clocks.Version
  merge_all version [] = version
  merge_all version (v ∷ vs) = merge_all (clocks.merge version (text.from_string v)) vs

  unfoldable pub merged_version : Bytes → Bytes → Bool → Disk w → clocks.Version
  merged_version home name in_progress d = merge_all clocks.empty (versions home name in_progress d)

  unfoldable pub exists : Bytes → Bytes → Bytes → Disk w → Bool
  exists home name version d = Names.has version (versions home name true d)

  -- none is the stream of the constructor with no argument. `self` is MyMemberId.
  unfoldable pub write :
      Bytes
      → Bytes
      → Bytes
      → ℕ
      → (self : Bytes) (now : ℕ) → Disk w
      → Option (WriteStream w) × Disk w
  write home name version copies self now d =
      let given = text.from_string version in
      let unversioned = is_empty (clocks.clocks given) in
      let v =
        if unversioned
        then clocks.increment (merged_version home name true d) self now
        else given in
      let md = record (fresh_md w v) { total_copies = copies } in
      let tempname = filepath home name (text.to_string v) ++ codes "~" in
      let opened = files.open_writer d (dirpath home name) tempname in
      let marked =
        if opened.0 then dirs.set_attribute opened.1 tempname (md_to_string md) else opened.1 in
      if not unversioned && (exists home name version d || is_expired clocks v expiry_timeout now)
      then (none, d)
      else (some (record { filename = tempname; good = opened.0; md = md }), marked)

  -- The file that the reader has opened, if any.
  pub record ReadStream : Type 0 where
    pub filename : Option Bytes
    pub md : Md w

  unfoldable pub read : Bytes → Bytes → Bytes → Bool → Disk w → ReadStream
  read home name version in_progress d =
      let given = text.from_string version in
      let v =
        if is_empty (clocks.clocks given) then merged_version home name in_progress d else given in
      let filename = filepath home name (text.to_string v) in
      let tempname = filename ++ codes "~" in
      let opened =
        if in_progress && is_some (files.look d tempname)
        then some tempname
        else if is_some (files.look d filename)
        then some filename
        else none in
      elim opened [
        | none ↦ record { filename = none; md = fresh_md w v }
        | some f ↦ record {
          filename = some f;
          md = elim (md_from_string (fresh_md w v) (dirs.attribute d f)) [
            | none ↦ fresh_md w v
            | some md ↦ md
          ];
        }
      ]

  unfoldable pub read_all : Bytes → Bytes → Disk w → List ReadStream
  read_all home name d =
      map (λ version. read home name version false d) (versions home name false d)

  -- fromString leaves the clock empty where it fails, which is not deleted.
  unfoldable pub store_is_expired : Bytes → ℕ → Bool
  store_is_expired version now = is_expired clocks (text.from_string version) expiry_timeout now

  unfoldable pub remove : Bytes → Bytes → Disk w → Bool × Disk w
  remove home name d =
      let d' = dirs.remove_all d (dirpath home name) in (is_empty (versions home name true d'), d')

  -- The names that are to be deleted.
  unfoldable pub obsolete : clocks.Version → List Bytes → List Bytes → List Bytes
  obsolete master [] to_delete = to_delete
  obsolete master (v ∷ vs) to_delete =
      let version = text.from_string v in
      let res = clocks.compare version master in
      obsolete master vs (
        if is_less res
        then Names.add (text.to_string version) to_delete
        else if is_greater res
        then Names.add (text.to_string master) to_delete
        else to_delete)

  unfoldable pub delete_all : Bytes → Bytes → List Bytes → Md w → Disk w → Md w × Disk w
  delete_all home name [] master d = (master, d)
  delete_all home name (vstr ∷ rest) master d =
      let p = filepath home name vstr in
      delete_all home name rest
        (record master {
          digest = bit_xor master.digest (digest w vstr (size_of (files.look d p)));
        })
        (files.remove d p).1

  unfoldable pub purge_obsolete : Bytes → Bytes → Md w → Disk w → Bool × Md w × Disk w
  purge_obsolete home name master d =
      let all = versions home name false d in
      let purged = delete_all home name (obsolete master.version all []) master d in
      (true, purged.0, purged.1)

  unfoldable pub on_write_complete : Bytes → Bytes → Md w → Disk w → Bool × Md w × Disk w
  on_write_complete home name md d =
      let filename = filepath home name (text.to_string md.version) in
      let renamed = files.rename d (filename ++ codes "~") filename in
      if renamed.0 then purge_obsolete home name md renamed.1 else (false, md, renamed.1)
