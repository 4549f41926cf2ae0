-- ===== src/Tests/SimpleFileStore.antt =====
-- A key on a disk that is a function of paths: src/lib/storage/SimpleFileStore.cpp.
use turbopump.Prelude.{
  ℕ, ◌≡◌, ◌≢◌, refl, true, false, Bytes, List, [], ◌∷◌, ◌++◌, Option, none, some, codes, str_eq,
  str_eq_refl, is_some, ltb, length, ◌==◌, if◌then◌else◌, arith,
}
use turbopump.Common.VectorClock.{Clock, equal, less_than, greater_than, Clocks, is_deleted}
use turbopump.Storage.Files.{FileData, Files, Laws, IsHealthy, modify}
use turbopump.Storage.WriteStream.{World, Md}
use turbopump.Storage.SimpleFileStore.{
  FilePaths, current, inprogress, deleted, path, time_from_version, test_if_version_greater,
  remove_if_exists,
}
use turbopump.Storage.SimpleFileStore.Complete.{install, on_write_complete}
use turbopump.Storage.SimpleFileStore.Slots.{str_eq-path}
use turbopump.Storage.SimpleFileStore.Kept.{Completed, destination, on_write_complete-Completed}
use turbopump.Storage.SimpleFileStore.Register.{Register, Completion, replay, completion, Holds}
use turbopump.Storage.SimpleFileStore.Refinement.{Runs, stop, next, Runs-replay}
use turbopump.Storage.SimpleFileStore.Order.{younger, Runs-younger}

abbrev pub Tree : Type 0
Tree = Bytes → Option FileData

abbrev pub without : Tree → Bytes → Tree
without d p x = if str_eq p x then none else d x

abbrev pub with : Tree → Bytes → Option FileData → Tree
with d p g x = if str_eq p x then g else d x

-- Calls fail on files that are not there.
abbrev pub tree : Files
tree = record {
  Disk = Tree;
  look = λ d p. d p;
  remove = λ d p. if is_some (d p) then (true, without d p) else (false, d);
  rename = λ d p q. if is_some (d p) then (true, with (without d p) q (d p)) else (false, d);
  set_modified_time =
      λ d p time. if is_some (d p) then (true, with d p (modify time (d p))) else (false, d);
  open_writer = λ d dir p.
      (true, if is_some (d p) then d else with d p (some (record { modified = 0; content = [] })));
}

is_some_ne : {g : Option FileData} → g ≢ none → is_some g ≡ true
is_some_ne {g = none} h = absurd (h refl)
is_some_ne {g = some g} h = refl

pub tree-Laws : Laws tree
tree-Laws = record {
  look-remove = λ d p x. ground arith;
  look-rename = λ d p q x apart. ground arith;
  look-set_modified_time = λ d p x time. ground arith;
  rename_missing = λ d p q h. ground arith;
}

pub tree-IsHealthy : IsHealthy tree
tree-IsHealthy = record {
  removes = λ d p h. rw (is_some_ne h);
  renames = λ d p q h. rw (is_some_ne h);
  dates = λ d p time h. rw (is_some_ne h);
}

abbrev pub front : List Clock → ℕ
front [] = 0
front (c ∷ cs) = c.time

-- Versions that are lists of clocks, compared by their first time.
abbrev pub seconds : Clocks
seconds = record {
  Version = List Clock;
  empty = [];
  clocks = λ v. v;
  increment = λ v key time. record { key = key; time = time; count = 1 } ∷ v;
  compare = λ v w.
      if front v == front w
      then equal
      else if ltb (front v) (front w)
      then less_than
      else greater_than;
  merge = λ v w. if ltb (front v) (front w) then w else v;
}

abbrev pub here : World
here = record {
  clocks = seconds;
  text = record { to_string = λ v. codes "1"; from_string = λ b. [] };
  files = tree;
  paths = record { append = λ a b. a ++ b; parent_path = λ p. []; filename = λ p. p };
  hash = λ b. length b;
  str = λ n. n ∷ [];
}

abbrev key : FilePaths
key = record { homedir = codes "/"; name = codes "k" }

abbrev pub file_of : ℕ → Bytes → FileData
file_of time b = record { modified = time; content = b }

abbrev old_and_new : Tree
old_and_new =
    with (with (λ x. none) (path key current) (some (file_of 3 (codes "old"))))
      (path key inprogress) (some (file_of 9 (codes "new")))

abbrev at_second : ℕ → Md here
at_second time = record {
  version = record { key = codes "sec"; time = time; count = 1 } ∷ [];
  total_copies = 3;
  supercede = true;
  digest = 0;
}

abbrev erased_at : ℕ → Md here
erased_at time = record {
  version = record { key = codes "delete"; time = time; count = 1 } ∷ [];
  total_copies = 3;
  supercede = true;
  digest = 0;
}

on_write_complete-Completed_example :
    Completed here key
      (destination false)
      5
      old_and_new
      (on_write_complete here key (at_second 5) old_and_new).0
      (on_write_complete here key (at_second 5) old_and_new).2
unfolding path is_deleted str_eq time_from_version
on_write_complete-Completed_example =
    on_write_complete-Completed here tree-Laws key (at_second 5) old_and_new refl

-- The new file at its time, in place of the old one.
replaced :
    (on_write_complete here key (at_second 5) old_and_new).2 (path key current)
    ≡ some (file_of 5 (codes "new"))
unfolding path is_deleted str_eq time_from_version on_write_complete test_if_version_greater install
    remove_if_exists
replaced = refl

abbrev holding : Register → Tree
holding r = with (with (λ x. none) (path key current) r.live) (path key deleted) r.erased

abbrev writing : Tree → Bytes → Tree
writing d b = with d (path key inprogress) (some (file_of 0 b))

abbrev old : Register
old = record { live = some (file_of 3 (codes "old")); erased = none }

old-Holds : Holds here key old (holding old)
unfolding path str_eq
old-Holds = record { live_file = refl; erased_file = refl; settled = refl; unreserved = refl }

-- One write of `b`, and then the others.
abbrev first_write : Md here → Tree → Bytes → Tree
first_write md d b = (on_write_complete here key md (writing d b)).2

run_write :
    (md : Md here) (b : Bytes) (d : Tree) {cs : List Completion} {d2 : Tree}
    → Runs here tree-Laws tree-IsHealthy key (first_write md d b) cs d2
    → Runs here tree-Laws tree-IsHealthy key d (completion here key md (file_of 0 b) ∷ cs) d2
run_write md b d rest =
    next md (file_of 0 b) d (writing d b) (rw (str_eq_refl (path key inprogress)))
      (λ x h. rw (str_eq-path key inprogress x, h)) rest

Runs-replay_example :
    Holds here key
      (replay (record { deletes = true; time = 7; bytes = codes "" } ∷ []) old)
      (first_write (erased_at 7) (holding old) (codes ""))
unfolding is_deleted str_eq time_from_version
Runs-replay_example =
    Runs-replay here tree-Laws tree-IsHealthy key old
      (run_write (erased_at 7) (codes "") (holding old)
        (stop (first_write (erased_at 7) (holding old) (codes ""))))
      old-Holds

abbrev written : Completion
written = record { deletes = false; time = 5; bytes = codes "new" }

abbrev erased : Completion
erased = record { deletes = true; time = 7; bytes = codes "" }

abbrev write_first : Tree
write_first =
    first_write (erased_at 7) (first_write (at_second 5) (holding old) (codes "new")) (codes "")

abbrev delete_first : Tree
delete_first =
    first_write (at_second 5) (first_write (erased_at 7) (holding old) (codes "")) (codes "new")

Runs-younger_example :
    Holds here key (younger written erased) write_first
    × Holds here key (younger written erased) delete_first
unfolding is_deleted str_eq time_from_version
Runs-younger_example =
    Runs-younger old written erased refl refl refl refl here tree-Laws tree-IsHealthy key old-Holds
      (run_write (at_second 5) (codes "new") (holding old) (
        run_write (erased_at 7) (codes "") (first_write (at_second 5) (holding old) (codes "new"))
          (stop write_first)))
      (run_write (erased_at 7) (codes "") (holding old) (
        run_write (at_second 5) (codes "new") (first_write (erased_at 7) (holding old) (codes ""))
          (stop delete_first)))
