-- ===== src/Tests/PeerCommands.antt =====
-- A key that is deleted and a peer that is added, in a store in memory:
-- src/lib/api/DeleteCommand.cpp, src/lib/api/AddPeerCommand.cpp and
-- src/lib/callbacks/ModifyPeer.cpp.
use turbopump.Prelude.{◌≡◌, refl, true, Bytes, List, [], ◌∷◌, codes, str_eq, ◌==◌, if◌then◌else◌}
use turbopump.Api.WriteCommand.Open.{Ended}
use turbopump.Common.VectorClock.{
  Clock, conflict, Clocks, FrontLaw, VersionText, mark_deleted, is_deleted,
}
use turbopump.Common.VectorClock
use turbopump.Api.PeerCommands.{delete_request, add_peer_request, remove_peer_request, delete_key}
use turbopump.Api.PeerCommands.Stored.{run_request, delete_key-Ended, run-requests}
use turbopump.Callbacks.ModifyPeer.{World}
use turbopump.Callbacks.ModifyPeer
use turbopump.Tests.Api.{memory, memory-IsReliable, ignore}

-- Versions as lists of clocks, the last incremented in front.
abbrev lists : Clocks
lists = record {
  Version = List Clock;
  empty = [];
  clocks = λ v. v;
  increment = λ v key time. record { key = key; time = time; count = 0 } ∷ v;
  compare = λ v w. conflict;
  merge = λ v w. v;
}

lists-FrontLaw : FrontLaw lists
lists-FrontLaw = record { clocks-increment = λ v key time. (0, v, refl) }

-- A text that tells the mark of a deletion from the key "b", and the times.
write_clocks : List Clock → Bytes
write_clocks [] = []
write_clocks (c ∷ cs) =
    (if str_eq c.key VectorClock.delete_key then 1 else 0) ∷ c.time ∷ write_clocks cs

read_clocks : Bytes → List Clock
read_clocks (mark ∷ time ∷ rest) =
    record { key = if mark == 1 then VectorClock.delete_key else codes "b"; time = time; count = 0 }
    ∷ read_clocks rest
read_clocks b = []

abbrev marks : VersionText lists
marks = record { to_string = write_clocks; from_string = read_clocks }

delete_key-Ended_example :
    ((delete_request lists marks (codes "k") (0 ∷ 5 ∷ []) 7).name ≡ codes "k")
    × (is_deleted lists
          (read_clocks (delete_request lists marks (codes "k") (0 ∷ 5 ∷ []) 7).version)
        ≡ true)
    × Ended memory-IsReliable ignore
        (λ i x. refl)
        []
        []
        (delete_key lists marks memory ignore (codes "k") (0 ∷ 5 ∷ []) 7)
unfolding memory-IsReliable write_clocks read_clocks mark_deleted str_eq
delete_key-Ended_example =
    delete_key-Ended memory-IsReliable ignore (λ i x. refl) lists-FrontLaw marks (codes "k")
      (0 ∷ 5 ∷ []) 7 refl refl refl

-- A membership of names.
abbrev names : World (List Bytes)
names = record {
  update = λ s uid ips. (true, uid ∷ s);
  remove = λ s uid. (true, []);
  save = λ s. (true, s);
  insert_node = λ s node peer. s;
  erase_node = λ s node. s;
  split_section = λ s uid. s;
  cannibalize_section = λ s uid. s;
}

run-requests_example :
    (run_request lists marks names []
        (add_peer_request lists marks (codes "b") 7)
        (codes "10.0.0.1")
      ≡ ModifyPeer.update_peer names [] (codes "b") (codes "10.0.0.1"))
    × (run_request lists marks names []
          (remove_peer_request lists marks (codes "b") 7 8)
          (codes "10.0.0.1")
        ≡ ModifyPeer.remove_peer names [] (codes "b"))
unfolding write_clocks read_clocks mark_deleted str_eq
run-requests_example =
    run-requests names [] lists-FrontLaw marks (codes "b") (codes "10.0.0.1") 7 8 refl refl refl
