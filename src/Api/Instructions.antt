-- ===== src/Api/Instructions.antt =====
-- src/lib/api/Write.h and src/lib/api/WriteInstructions.h.
use turbopump.Prelude.{ℕ, Bool, false, Bytes, [], Option, none}

-- `mirror` and `copies` are of type `short`, and hold counts. A connection is known by the address
-- that its pointer holds.
pub record Instructions : Type 0 where
  pub name : Bytes
  pub version : Bytes
  pub mirror : ℕ
  pub copies : ℕ
  pub offset : ℕ
  pub source : Bytes
  pub outstream : Option ℕ
  pub is_complete : Bool
  pub digest : ℕ

abbrev pub default_mirrors : ℕ
default_mirrors = 3

-- The constructor with no argument.
abbrev pub fresh : Instructions
fresh = record {
  name = [];
  version = [];
  mirror = 0;
  copies = default_mirrors;
  offset = 0;
  source = [];
  outstream = none;
  is_complete = false;
  digest = 0;
}

-- The constructor with four.
abbrev pub of_key : Bytes → Bytes → ℕ → ℕ → Instructions
of_key name version mirror copies = record fresh {
  name = name;
  version = version;
  mirror = mirror;
  copies = copies;
}
