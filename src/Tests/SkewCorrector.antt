-- ===== src/Tests/SkewCorrector.antt =====
-- A store of names: src/lib/deskew/SkewCorrector.cpp.
use turbopump.Prelude.{
  inl, inr, ◌≡◌, refl, true, Bytes, List, [], ◌∷◌, some, codes, str_eq, if◌then◌else◌,
}
use turbopump.Membership.Peer.{Peer}
use turbopump.Hashing.LocateKeys.{key_is_mine}
use turbopump.Api.NodeCommands.{ack_write}
use turbopump.Api.NodeCommands.Acknowledged.{ack_write-versions}
use turbopump.Tests.Hashing.{fixed, one_node, node_a}
use turbopump.Deskew.SkewCorrector.{Store, World, push_files}
use turbopump.Deskew.SkewCorrector.Kept.{Laws, push_files-versions}

-- A version has expired if it is empty.
abbrev version_table : Store
version_table = record {
  State = Bytes → List Bytes;
  Reader = Bytes;
  mirrors = λ r. 3;
  read = λ s name version. some name;
  versions = λ s name. s name;
  is_expired = λ v. str_eq v [];
  remove = λ s name. (true, λ other. if str_eq name other then [] else s other);
}

version_table-Laws : Laws version_table
version_table-Laws = record {
  covers = λ name other. str_eq name other;
  versions-remove = λ s name other apart. rw apart refl;
}

-- The file "a" has expired and the others have not.
abbrev one_stale : Bytes → List Bytes
one_stale name = if str_eq name (codes "a") then [] ∷ [] else codes "v" ∷ []

abbrev peer_b : Peer
peer_b = record { uid = codes "b"; ips = [] }

abbrev before : World version_table
before = record { store = one_stale; effects = [] }

push_files-versions_example :
    version_table.versions
      (push_files version_table true peer_b [] before (codes "a" ∷ codes "c" ∷ [])).store
      (codes "c")
    ≡ codes "v" ∷ []
unfolding str_eq version_table-Laws
push_files-versions_example =
    push_files-versions version_table-Laws true peer_b [] before (codes "a" ∷ codes "c" ∷ [])
      (codes "c") (inr refl, (inl refl, tt)) refl

ack_write-versions_example :
    version_table.versions
      (ack_write version_table
        (λ r. 5)
        (key_is_mine fixed (λ b. b) one_node (some node_a))
        true
        before
        (codes "c")
        (codes "v")
        5).1.store
      (codes "a")
    ≡ [] ∷ []
unfolding str_eq version_table-Laws
ack_write-versions_example =
    ack_write-versions version_table-Laws (λ r. 5) fixed (λ b. b) one_node (some node_a) true before
      (codes "c") (codes "v") 5 (codes "a") (inl refl)
