-- ===== src/Tests/PeerClient.antt =====
-- A file of five bytes over a connection that takes two at a time:
-- src/lib/peer_client/WriteSupervisor.cpp.
use turbopump.Prelude.{
  List, ◌⊎◌, ℕ, ◌-◌, min, true, false, Bytes, [], ◌∷◌, ◌++◌, some, codes, length, take,
}
use turbopump.Wire.Socket.{pos}
use turbopump.Api.Instructions.{Instructions, fresh}
use turbopump.PeerClient.ConnectionWriteStream.{Writer, Stream, new}
use turbopump.PeerClient.PartialTransfers.{run}
use turbopump.PeerClient.PartialTransfers.Queue.{Drained, Paused}
use turbopump.PeerClient.PartialTransfers.Resumes.{call_resume, run_resumes}
use turbopump.PeerClient.WriteSupervisor.Taking.{file}

-- The bytes that have been taken, and the room that is left.
record Meter : Type 0 where
  taken : Bytes
  room : ℕ

abbrev metered : Writer
metered = record {
  State = Meter;
  capacity = λ s. 4;
  send = λ s b. (pos (length b), s);
  try_send = λ s b. (
    pos (min s.room (length b)),
    record {
      taken = s.taken ++ take (min s.room (length b)) b;
      room = s.room - min s.room (length b);
    },
  );
  flush = λ s blocking. (true, s);
}

abbrev five_bytes : Bytes
five_bytes = 1 ∷ 2 ∷ 3 ∷ 4 ∷ 5 ∷ []

abbrev whole_file : Instructions
whole_file = record fresh { name = codes "k"; is_complete = true }

abbrev fresh_conns : ℕ → Stream metered
fresh_conns place = new metered (record { taken = []; room = 2 }) false

-- Two transfers, of which one waits for more room.
abbrev two_transfers : List (ℕ × Instructions)
two_transfers = (0, whole_file) ∷ (1, record whole_file { offset = 3 }) ∷ []

run_resumes_example :
    Drained (call_resume metered (λ name version. some (file five_bytes))) two_transfers [] (
      run
        (call_resume metered (λ name version. some (file five_bytes)))
        2
        (record { queue = two_transfers; state = fresh_conns; log = [] }))
    ⊎ Paused (call_resume metered (λ name version. some (file five_bytes))) two_transfers [] (
        run
          (call_resume metered (λ name version. some (file five_bytes)))
          2
          (record { queue = two_transfers; state = fresh_conns; log = [] }))
run_resumes_example =
    run_resumes metered (λ name version. some (file five_bytes)) two_transfers [] fresh_conns
