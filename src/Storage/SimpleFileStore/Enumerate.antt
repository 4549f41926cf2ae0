-- ===== src/Storage/SimpleFileStore/Enumerate.antt =====
-- src/lib/storage/SimpleFileStore.cpp: enumerate, over the paths of the directory in the order of
-- the iterator, each with whether it is a directory. The result is the calls of the callback.
use Prim.Native.Nat.{bit_xor}
use turbopump.Prelude.{
  ℕ, ◌+◌, Bool, false, Bytes, List, [], ◌∷◌, ◌++◌, codes, length, drop, leb, ◌==◌, ◌||◌, is_empty,
  if◌then◌else◌,
}
use turbopump.Storage.WriteStream.{World, Md, Disk, fresh_md, digest, size_of}
use turbopump.Storage.SimpleFileStore.{has_prefix, membership_prefix, lookup_version}

unfoldable pub ends_in : ℕ → Bytes → Bool
ends_in c [] = false
ends_in c (x ∷ xs) = if is_empty xs then x == c else ends_in c xs

-- `find` is not npos.
unfoldable pub contains : Bytes → Bytes → Bool
contains part [] = is_empty part
contains part (x ∷ xs) = has_prefix part (x ∷ xs) || contains part xs

module _ (w : World) where
  open w use {text, files, paths, str}

  pub record Report : Type 0 where
    pub name : Bytes
    pub md : Md w
    pub summary : Bytes

  short_name : Bytes → Bytes → Bytes
  short_name home filename =
      if contains home filename then drop (length home + 1) filename else paths.filename filename

  -- The call for one file.
  unfoldable pub report : Bytes → Bytes → Disk w → Report
  unfolding short_name
  report home filename d =
      let long = short_name home filename in
      let erased = has_prefix (codes ".deleted.") long in
      let name = if erased then drop 9 long else long in
      let g = files.look d filename in
      let version = lookup_version w g erased in
      let version_string = text.to_string version in
      record {
        name = name;
        md = record (fresh_md w version) {
          total_copies = if has_prefix membership_prefix name then 0 else 3;
          digest = bit_xor 0 (digest w version_string (size_of g));
        };
        summary = str (size_of g) ++ (codes ":" ++ version_string);
      }

  -- `i` calls have been made.
  unfoldable pub enumerate : Bytes → ℕ → ℕ → List (Bytes × Bool) → Disk w → List Report
  enumerate home limit i [] d = []
  enumerate home limit i ((filename, directory) ∷ rest) d =
      let skipped = enumerate home limit i rest d in
      let counted = enumerate home limit (i + 1) rest d in
      if directory
      then skipped
      else if ends_in b'~' filename
      then skipped
      else report home filename d ∷ (if leb limit (i + 1) then [] else counted)
