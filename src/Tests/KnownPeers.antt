-- ===== src/Tests/KnownPeers.antt =====
-- A node and two peers on one host: src/lib/membership/KnownPeers.cpp.
use turbopump.Prelude.{
  ℕ, ◌≡◌, refl, true, Bytes, List, [], ◌∷◌, none, some, codes, str_eq, str_eq→eq, str_eq_refl,
  arith,
}
use turbopump.Deskew.Names
use turbopump.Deskew.Names.{find-put, find-erase}
use turbopump.Membership.Peer.{Peer}
use turbopump.Membership.KnownPeers.{
  Addresses, AddressLaws, RoutingTable, TableLaws, State, update, remove, place, deref, peer_at,
  remove_ips, add_ips, find_ip, put_ip, lookup, lookup_addr,
}
use turbopump.Membership.KnownPeers.History.{Reach, start, updated}
use turbopump.Membership.KnownPeers.Known.{Answers, lookup-update, lookup-remove}

-- A host is the first letter of a text.
abbrev letters : Addresses
letters = record {
  Address = Bytes;
  parse = λ b. some b;
  ip_only = λ b. elim b [ [] ↦ [] | x ∷ xs ↦ x ∷ [] ];
  same = str_eq;
}

letters-AddressLaws : AddressLaws letters
letters-AddressLaws = record { same_refl = str_eq_refl; same→eq = str_eq→eq }

abbrev by_name : RoutingTable
by_name = record {
  Table = List (Bytes × ℕ);
  find = λ m uid. Names.find uid m;
  insert = λ m uid r. Names.put uid r m;
  erase = λ m uid. (true, Names.erase uid m);
  set_origin = λ m uid. m;
  random = λ m. none;
  members = λ m. [];
}

by_name-TableLaws : TableLaws by_name
by_name-TableLaws = record {
  find-insert = λ m uid r h. ground (arith, find-put uid uid r m, str_eq_refl uid);
  find-insert_ne = λ m uid other r h. ground (arith, find-put other uid r m, h);
  find-erase = λ m uid. ground (arith, find-erase uid uid m, str_eq_refl uid);
  find-erase_ne = λ m uid other h. ground (arith, find-erase other uid m, h);
}

abbrev me : Peer
me = record { uid = codes "me"; ips = [] }

abbrev alone : State letters by_name
alone = record { self = some me; members = []; peers = []; ips = []; my_id = codes "me" }

abbrev with_a : State letters by_name
with_a = (update letters by_name (codes "a") (codes "h:1" ∷ []) alone).1

abbrev with_both : State letters by_name
with_both = (update letters by_name (codes "b") (codes "h:2" ∷ []) with_a).1

reach_a : Reach letters by_name with_a
unfolding Names.find
reach_a = updated alone me (codes "a") (codes "h:1" ∷ []) refl (start alone (λ uid. refl))

lookup-update_example :
    Answers letters by_name
      (codes "a")
      (codes "h:1" ∷ [])
      (some (record { uid = codes "a"; ips = codes "h:1" ∷ [] }))
      with_a
unfolding Names.find str_eq
lookup-update_example =
    lookup-update letters by_name letters-AddressLaws by_name-TableLaws alone me (codes "a")
      (codes "h:1" ∷ []) (start alone (λ uid. refl)) refl refl

lookup-remove_example :
    Answers letters by_name
      (codes "a")
      (codes "h:1" ∷ [])
      none
      (remove letters by_name (codes "a") with_a).1
unfolding Names.find Names.put str_eq update place lookup deref peer_at
lookup-remove_example =
    lookup-remove letters by_name letters-AddressLaws by_name-TableLaws with_a (codes "a")
      (record { uid = codes "a"; ips = codes "h:1" ∷ [] }) reach_a refl

-- An address without a port is found while its host has a peer, and no more when another peer of
-- the host has been removed.
host_forgotten :
    (lookup_addr letters by_name (codes "h") with_both
      ≡ some (record { uid = codes "b"; ips = codes "h:2" ∷ [] }))
    × (lookup_addr letters by_name (codes "h") (remove letters by_name (codes "a") with_both).1
        ≡ none)
unfolding Names.find Names.put Names.erase str_eq update place lookup_addr deref peer_at remove
    remove_ips add_ips find_ip put_ip Names.str_lt
host_forgotten = (refl, refl)
