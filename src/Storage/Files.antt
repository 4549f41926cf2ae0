-- ===== src/Storage/Files.antt =====
-- What the stores of src/lib/storage use of the files of the library beside the program
-- (file/File.h) and of boost::filesystem::path.
use turbopump.Prelude.{
  ℕ, ◌≡◌, ◌≢◌, Bool, true, false, Bytes, Option, none, some, str_eq, if◌then◌else◌,
}

pub record FileData : Type 0 where
  pub modified : ℕ
  pub content : Bytes

abbrev pub modify : ℕ → Option FileData → Option FileData
modify time none = none
modify time (some g) = some (record g { modified = time })

-- Each call that changes the disk returns whether it succeeded.
pub record Files : Type 1 where
  pub Disk : Type 0
  -- the regular file at a path
  pub look : Disk → Bytes → Option FileData
  pub remove : Disk → Bytes → Bool × Disk
  pub rename : Disk → Bytes → Bytes → Bool × Disk
  pub set_modified_time : Disk → Bytes → ℕ → Bool × Disk
  -- create_directories of a directory, then `open` of a file with O_CREAT
  pub open_writer : Disk → Bytes → Bytes → Bool × Disk

-- What the calls do to regular files. A call that fails changes nothing, and any may fail.
pub record Laws (f : Files) : Type 0 where
  pub look-remove :
      (d : f.Disk) (p x : Bytes)
      → f.look (f.remove d p).1 x
        ≡ (if (f.remove d p).0 then (if str_eq p x then none else f.look d x) else f.look d x)
  pub look-rename :
      (d : f.Disk) (p q x : Bytes)
      → str_eq p q ≡ false
      → f.look (f.rename d p q).1 x ≡ (
          if (f.rename d p q).0
          then (if str_eq q x then f.look d p else if str_eq p x then none else f.look d x)
          else f.look d x)
  pub look-set_modified_time :
      (d : f.Disk) (p x : Bytes) (time : ℕ)
      → f.look (f.set_modified_time d p time).1 x ≡ (
          if (f.set_modified_time d p time).0
          then (if str_eq p x then modify time (f.look d p) else f.look d x)
          else f.look d x)
  -- No file is made out of none, nor given a time. No directory stands at the paths of the stores.
  pub rename_missing : (d : f.Disk) (p q : Bytes) → f.look d p ≡ none → (f.rename d p q).0 ≡ false

-- A disk on which calls on files that are there succeed.
pub record IsHealthy (f : Files) : Type 0 where
  pub removes : (d : f.Disk) (p : Bytes) → f.look d p ≢ none → (f.remove d p).0 ≡ true
  pub renames : (d : f.Disk) (p q : Bytes) → f.look d p ≢ none → (f.rename d p q).0 ≡ true
  pub dates :
      (d : f.Disk) (p : Bytes) (time : ℕ)
      → f.look d p ≢ none
      → (f.set_modified_time d p time).0 ≡ true

-- boost::filesystem::path, on texts.
pub record Paths : Type 0 where
  pub append : Bytes → Bytes → Bytes
  pub parent_path : Bytes → Bytes
  pub filename : Bytes → Bytes
