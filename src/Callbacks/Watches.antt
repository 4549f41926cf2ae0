-- ===== src/Callbacks/Watches.antt =====
-- src/lib/callbacks/Watches.cpp.
use turbopump.Prelude.{
  ℕ, Bool, true, false, not, ◌&&◌, Bytes, List, [], ◌∷◌, str_eq, is_empty, if◌then◌else◌, ◌==◌,
}

-- An entry of `_watches`. A callback is known by a number.
pub record Watch : Type 0 where
  pub name : Bytes
  pub id : Bytes
  pub callback : ℕ

abbrev pub is_key : Bytes → Bytes → Watch → Bool
is_key name id w = str_eq w.name name && str_eq w.id id

-- _watches[key] = onNotify
unfoldable pub watch : List Watch → Bytes → Bytes → ℕ → List Watch
watch [] name id callback = record { name = name; id = id; callback = callback } ∷ []
watch (w ∷ ws) name id callback =
    let rest = watch ws name id callback in
    if is_key name id w then record w { callback = callback } ∷ ws else w ∷ rest

-- Whether an entry was erased, and the entries left.
unfoldable pub unwatch : List Watch → Bytes → Bytes → Bool × List Watch
unwatch [] name id = (false, [])
unwatch (w ∷ ws) name id =
    let (found, rest) = unwatch ws name id in
    if is_key name id w then (true, ws) else (found, w ∷ rest)

-- The entries whose key lies in the bucket of a name. A key is hashed by its name alone.
unfoldable pub bucket_of : (Bytes → ℕ) → Bytes → List Watch → List Watch
bucket_of bucket name [] = []
bucket_of bucket name (w ∷ ws) =
    let rest = bucket_of bucket name ws in if bucket w.name == bucket name then w ∷ rest else rest

-- The callbacks of the entries with the name.
unfoldable pub callbacks_of : Bytes → List Watch → List ℕ
callbacks_of name [] = []
callbacks_of name (w ∷ ws) =
    let rest = callbacks_of name ws in if str_eq w.name name then w.callback ∷ rest else rest

-- What `notify` returns, and the callbacks that it runs.
unfoldable pub notify : (Bytes → ℕ) → List Watch → Bytes → Bool × List ℕ
notify bucket ws name =
    let held = bucket_of bucket name ws in (not (is_empty held), callbacks_of name held)
