-- ===== src/Api/StoreCommands.antt =====
-- The commands of users that read, copy, list, wait and report: src/lib/api/ReadCommand.cpp,
-- CopyCommand.cpp, ListKeysCommand.cpp, WaitCommand.cpp and StatusCommand.cpp in the same folder. A
-- command with no stream to write to returns false before all else, where it says so.
use turbopump.Prelude.{
  ℕ, zero, suc, ◌+◌, Bool, true, false, not, ◌&&◌, Bytes, List, [], ◌∷◌, ◌++◌, Option, none, some,
  codes, length, ltb, is_empty, if◌then◌else◌,
}
use turbopump.Common.ClockText.{split_at}
use turbopump.Api.Instructions.{Instructions, of_key}
use turbopump.Storage.SimpleFileStore.{has_prefix, membership_prefix}
use turbopump.Storage.FileReader.{FileReader, stream}
use turbopump.Wire.Socket.{ℤ, pos, negsuc}
use turbopump.PeerClient.ConnectionWriteStream.{Writer, Stream}
use turbopump.Callbacks.Watches.{Watch, watch, unwatch}

-- setStatus: what it returns, and the status.
abbrev pub set_status : ℕ → Bool × ℕ
set_status code = (ltb code 400, code)

is_positive : ℤ → Bool
is_positive (pos n) = ltb 0 n
is_positive (negsuc n) = false

module _ (w : Writer) where
  -- The loop of ReadCommand. Each round that goes on reads a byte at least.
  unfoldable pub read_loop : ℕ → FileReader → Stream w → Stream w
  unfolding is_positive
  read_loop zero reader sink = sink
  read_loop (suc fuel) reader sink =
      let streamed = stream w reader sink in
      let rest = read_loop fuel streamed.1 streamed.2 in
      if is_positive streamed.0 then rest else streamed.2

  -- `reader` is what the store gives for the name and the version.
  unfoldable pub read : Option FileReader → Stream w → (Bool × ℕ) × Stream w
  read none sink = (set_status 404, sink)
  read (some reader) sink = (set_status 200, read_loop (length reader.content + 1) reader sink)

-- `path` is that of the file to be copied, and the last argument what the copy of it gives. The
-- call of the callback is the last part of the result. A run that is right sets no status.
unfoldable pub copy :
    {R : Type 0}
    → (path : Bytes) → Instructions
    → Option R
    → (Bool × Option ℕ) × Option (Instructions × R)
copy {R} path params copied =
    if is_empty path
    then ((false, some 400), none)
    else elim copied as (λ _. (Bool × Option ℕ) × Option (Instructions × R)) [
      | none ↦ ((false, some 500), none)
      | some reader ↦
          let instructions =
            record (of_key params.name params.version params.mirror params.copies) {
              is_complete = true;
            } in
          ((true, none), some (instructions, reader))
    ]

-- Whether the version at the front of a report is one to be listed.
unfoldable pub is_live_report : Bytes → Bool
is_live_report report = elim (split_at b':' report) [
  | none ↦ false
  | some (size, version) ↦ elim (split_at b',' version) [
    | none ↦ false
    | some (count, clocks) ↦ not (has_prefix (codes "delete.") clocks)
  ]
]

-- print_key: what it writes.
unfoldable pub print_key : (all deleted : Bool) → Bytes → Bytes → Bytes
print_key all deleted name report =
    let line = codes "\"" ++ (name ++ (codes "\":\"" ++ (report ++ codes "\",\n"))) in
    if not all && has_prefix membership_prefix name
    then []
    else if not deleted && not (is_live_report report)
    then []
    else line

print_keys : (all deleted : Bool) → List (Bytes × Bytes) → Bytes
print_keys all deleted [] = []
print_keys all deleted ((name, report) ∷ rest) =
    print_key all deleted name report ++ print_keys all deleted rest

-- The keys are those that the store enumerates.
unfoldable pub list_keys : (all deleted : Bool) → List (Bytes × Bytes) → Bytes
unfolding print_keys
list_keys all deleted keys = codes "{\n" ++ (print_keys all deleted keys ++ codes "}")

-- What is written, the result and the status of tryRead.
unfoldable pub try_read : Bytes → (found : Bool) → Bytes × Bool × ℕ
try_read name found = if found then (name, true, 200) else ([], false, 404)

-- `first` and `second` are whether the store has the key before and after the wait, which
-- `signalled` says was not cancelled. The watch is taken away at the end.
unfoldable pub wait :
    Bytes
    → (id : Bytes) → (callback : ℕ) → (first second signalled : Bool) → List Watch
    → (Bytes × Bool × ℕ) × List Watch
wait name id callback first second signalled watches =
    let tried = try_read name first in
    let waited : Bytes × Bool × ℕ = if signalled then try_read name second else ([], false, 0) in
    (if tried.1 then tried else waited, (unwatch (watch watches name id callback) name id).1)

unfoldable pub status : (report : Bytes → Bytes) → Bytes → Bytes
status report view = report view
