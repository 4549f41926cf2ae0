-- ===== src/Storage/FileStore/Enumerate.antt =====
-- src/lib/storage/FileStore.cpp: enumerate, over the paths of the directory in the order of the
-- iterator. For a directory its files are given, by their names. The result is the calls of the
-- callback.
use Prim.Native.Nat.{bit_xor}
use turbopump.Prelude.{
  ℕ, ◌+◌, Bytes, List, [], ◌∷◌, ◌++◌, Option, none, some, codes, length, drop, leb, is_some,
  is_empty, map, if◌then◌else◌,
}
use turbopump.Deskew.Names
use turbopump.Storage.WriteStream.{World, Md, Disk, fresh_md, digest, size_of}
use turbopump.Storage.FileStore.{Directories, md_from_string}
use turbopump.Storage.SimpleFileStore.Enumerate.{contains, Report}

-- A set of texts in their order.
abbrev pub Texts : Type 0
Texts = List (Bytes × Unit {0})

-- `join` is turbo::str::join.
module _ (w : World) (dirs : Directories w.files) (join : List Bytes → Bytes) where
  open w use {clocks, files, paths, str}

  -- The loop over the files of a directory.
  unfoldable pub collect : Bytes → List Bytes → Md w → Texts → Disk w → Md w × Texts
  collect pa [] md report d = (md, report)
  collect pa (vstr ∷ rest) md report d =
      let vpath = paths.append pa vstr in
      let g = files.look d vpath in
      let read : Md w = elim (md_from_string w dirs md (dirs.attribute d vpath)) [
        | none ↦ md
        | some md' ↦ md'
      ] in
      let md1 = if is_empty report then (if is_some g then read else md) else md in
      let md2 = record md1 { digest = bit_xor md1.digest (digest w vstr (size_of g)) } in
      collect pa rest md2 (Names.put (str (size_of g) ++ (codes ":" ++ vstr)) tt report) d

  unfoldable pub report_of : Bytes → Bytes → Md w × Texts → Report w
  report_of home pa (md, report) = record {
    name = if contains home pa then drop (length home + 1) pa else paths.filename pa;
    md = md;
    summary = join (map (λ p. p.0) report);
  }

  -- `i` calls have been made. none is a path that is no directory.
  unfoldable pub enumerate :
      Bytes → ℕ → ℕ → List (Bytes × Option (List Bytes)) → Disk w → List (Report w)
  enumerate home limit i [] d = []
  enumerate home limit i ((pa, none) ∷ rest) d = enumerate home limit i rest d
  enumerate home limit i ((pa, some names) ∷ rest) d =
      let seen = collect pa names (fresh_md w clocks.empty) [] d in
      let skipped = enumerate home limit i rest d in
      let counted = enumerate home limit (i + 1) rest d in
      if is_empty seen.1
      then skipped
      else report_of home pa seen ∷ (if leb limit (i + 1) then [] else counted)
