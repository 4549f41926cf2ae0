-- ===== src/Storage/WriteStream.antt =====
-- src/lib/storage/writestream.h over a FileWriter. `write` is a call of the file's own.
use Prim.Native.Nat.{bit_xor}
use turbopump.Prelude.{ℕ, Bool, true, Bytes, ◌++◌, Option, none, some, length, if◌then◌else◌}
use turbopump.Common.VectorClock.{Clocks, VersionText, KeyMetadata}
use turbopump.Storage.Files.{FileData, Files, Paths}

-- What the stores on disk are built on: `hash` is Hash(...).integer(), `str` is turbo::str::str.
pub record World : Type 1 where
  pub clocks : Clocks
  pub text : VersionText clocks
  pub files : Files
  pub paths : Paths
  pub hash : Bytes → ℕ
  pub str : ℕ → Bytes

abbrev pub Md : World → Type 0
Md w = KeyMetadata w.clocks

abbrev pub Disk : World → Type 0
Disk w = w.files.Disk

-- A KeyMetadata of its constructor: DEFAULT_MIRRORS copies, which supercede others.
abbrev pub fresh_md : (w : World) → w.clocks.Version → Md w
fresh_md w version = record { version = version; total_copies = 3; supercede = true; digest = 0 }

unfoldable pub digest : World → Bytes → ℕ → ℕ
digest w version size = w.hash (version ++ w.str size)

abbrev pub size_of : Option FileData → ℕ
size_of none = 0
size_of (some g) = length g.content

-- A stream on a file that could be opened, and otherwise the stream that is not good.
pub record WriteStream (w : World) : Type 0 where
  pub filename : Bytes
  pub good : Bool
  pub md : Md w

abbrev pub xor_digest : (w : World) → Md w → ℕ → Md w
xor_digest w md n = record md { digest = bit_xor md.digest n }

module _ (w : World) (on_close : Md w → Disk w → Bool × Md w × Disk w) where
  -- What the callback returns is dropped.
  unfoldable pub do_commit : WriteStream w → Bool → Disk w → WriteStream w × Disk w
  do_commit s close d =
      let md = record s.md {
        digest = digest w (w.text.to_string s.md.version) (size_of (w.files.look d s.filename));
      } in
      if close
      then (let closed = on_close md d in (record s { md = closed.1 }, closed.2))
      else (record s { md = md }, d)

  -- `flush` and `close` of a FileWriter return true.
  unfoldable pub commit : WriteStream w → Bool → Disk w → WriteStream w × Disk w
  unfolding do_commit
  commit s close d = do_commit s close d
