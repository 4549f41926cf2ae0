-- ===== src/Storage/Streams.antt =====
-- What commands use of src/lib/storage/writestream.h, src/lib/storage/readstream.h and of the
-- `write` of src/lib/storage/IStore.h.
use turbopump.Prelude.{ℕ, ◌≡◌, Bool, Bytes, ◌++◌, Option, some}

pub record Streams : Type 1 where
  pub Writer : Type 0
  pub Reader : Type 0
  -- the stream of the constructor with no argument
  pub unopened : Writer
  pub good : Writer → Bool
  pub position : Writer → ℕ
  pub write : Writer → Bytes → Writer
  -- no reader stands for one that is not good
  pub commit : Writer → Bool → Option Reader × Writer
  pub version : Reader → Bytes
  pub digest : Reader → ℕ
  -- IStore::write: name, version, copies and offset
  pub open_write : Bytes → Bytes → ℕ → ℕ → Writer

-- Streams on which no call fails, with what has been written to them.
pub record IsReliable (k : Streams) : Type 0 where
  pub written : k.Writer → Bytes
  pub written-write : (w : k.Writer) (b : Bytes) → written (k.write w b) ≡ written w ++ b
  pub written-commit : (w : k.Writer) (close : Bool) → written (k.commit w close).1 ≡ written w
  pub commits : (w : k.Writer) (close : Bool) → (r : k.Reader) × ((k.commit w close).0 ≡ some r)
