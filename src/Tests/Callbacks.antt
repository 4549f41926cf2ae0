-- ===== src/Tests/Callbacks.antt =====
-- Nodes that pass a write on, and watches: src/lib/callbacks/MirrorToPeer.cpp and
-- src/lib/callbacks/Watches.cpp.
use turbopump.Prelude.{str_eq}
use turbopump.Callbacks.MirrorToPeer.{choose_located, next_location, accept}
use turbopump.Prelude.{
  ℕ, ◌+◌, ◌≤◌, refl, Bytes, List, [], ◌∷◌, some, codes, length, take, length-take, arith,
}
use turbopump.Membership.Peer.{Peer}
use turbopump.Api.Instructions.{Instructions, fresh}
use turbopump.Callbacks.MirrorToPeer.{Node, choose_mirror}
use turbopump.Callbacks.MirrorToPeer.Chain.{Chosen, choose_mirror-Chosen, chain_bounded}
use turbopump.Callbacks.Watches.{Watch}

abbrev peer : Bytes → Peer
peer uid = record { uid = uid; ips = [] }

-- Every key lies at the nodes a, b and c, in this order.
abbrev node : Bytes → Node
node uid = record {
  locations = λ name limit. take limit (codes "a" ∷ codes "b" ∷ codes "c" ∷ []);
  self = some (peer uid);
  lookup = λ loc. some (peer loc);
}

abbrev first_write : Instructions
first_write = record fresh { name = codes "k" }

-- Node a writes, and passes the write on to b.
abbrev second_write : Instructions
second_write = record first_write { source = codes "a"; mirror = 2 }

choose_mirror-Chosen_example : Chosen (node (codes "a")) first_write (peer (codes "b")) second_write
unfolding choose_mirror choose_located next_location accept str_eq
choose_mirror-Chosen_example =
    choose_mirror-Chosen (node (codes "a")) first_write (peer (codes "b")) second_write refl

bounded : (name : Bytes) (limit : ℕ) → length ((node (codes "a")).locations name limit) ≤ limit
bounded name limit = ground (arith, length-take limit (codes "a" ∷ codes "b" ∷ codes "c" ∷ []))

abbrev third_write : Instructions
third_write = record second_write { mirror = 3 }

chain_bounded_example :
    first_write.mirror + length (node (codes "a") ∷ node (codes "b") ∷ []) ≤ first_write.copies
unfolding choose_mirror choose_located next_location accept str_eq
chain_bounded_example =
    chain_bounded (node (codes "a") ∷ node (codes "b") ∷ []) first_write third_write
      (bounded, (bounded, tt)) (omega arith) refl

abbrev two_watches : List Watch
two_watches =
    record { name = codes "k"; id = codes "v"; callback = 1 }
    ∷ record { name = codes "j"; id = codes "v"; callback = 2 }
    ∷ []
