-- ===== src/Tests/FileStore.antt =====
-- A key with a version that is written over another: src/lib/storage/FileStore.cpp.
use turbopump.Prelude.{
  has_byte, ◌-◌, ◌≡◌, refl, true, Bytes, [], ◌∷◌, ◌++◌, none, some, codes, str_eq, length,
  replicate,
}
use turbopump.Storage.WriteStream.{World, Md}
use turbopump.Storage.FileStore.{
  Directories, filepath, versions, versions_of, last_is, on_write_complete,
}
use turbopump.Storage.FileStore.Purged.{on_write_complete-purged}
use turbopump.Deskew.Names
use turbopump.Tests.Storage.{counters}
use turbopump.Tests.SimpleFileStore.{Tree, tree, tree-Laws, tree-IsHealthy, with, file_of}

-- A version is a comma with as many letters as it counts.
abbrev counted : World
counted = record {
  clocks = counters;
  text = record { to_string = λ v. b',' ∷ replicate v b'a'; from_string = λ b. length b - 1 };
  files = tree;
  paths = record { append = λ a b. a ++ b; parent_path = λ p. []; filename = λ p. p };
  hash = λ b. length b;
  str = λ n. n ∷ [];
}

abbrev two_names : Directories tree
two_names = record {
  list = λ d dir. codes "." ∷ codes ",a" ∷ codes ",aa" ∷ [];
  remove_all = λ d dir p. none;
  attribute = λ d p. codes "31";
  set_attribute = λ d p b. d;
}

abbrev at_path : Bytes → Bytes
at_path v = filepath (codes "h") (codes "k") v

abbrev one_written : Tree
one_written =
    with (with (λ x. none) (at_path (codes ",a")) (some (file_of 0 (codes "old"))))
      (at_path (codes ",aa~")) (some (file_of 0 (codes "new")))

abbrev second : Md counted
second = record { version = 2; total_copies = 3; supercede = true; digest = 0 }

on_write_complete-purged_example :
    (on_write_complete counted two_names (codes "h") (codes "k") second one_written).2
      (at_path (codes ",a"))
    ≡ none
unfolding versions versions_of has_byte last_is Names.has str_eq
on_write_complete-purged_example =
    on_write_complete-purged counted two_names (codes "h") (codes "k") tree-Laws tree-IsHealthy
      second one_written refl (refl, (refl, tt)) (codes ",a") refl
