-- ===== src/Tests/PeerServer.antt =====
-- A peer's packets on two channels, and the steps of its runner:
-- src/lib/peer_server/PeerCommandRunner.cpp.
use turbopump.Prelude.{
  ℕ, true, ◌+◌, ◌≤◌, ◌≡◌, refl, false, Bytes, List, [], ◌∷◌, ◌++◌, none, some, arith,
}
use turbopump.Wire.Frames.{Frame, wire, payload}
use turbopump.Wire.BufferedWriter.{flush}
use turbopump.PeerServer.CommandRunner.Written.{Messages, write_all, bytes_on, written-run}
use turbopump.Tests.Wire.{recorder, recorder-IsReliable, small_writer}
use turbopump.PeerServer.CommandRunner.{Center, Runner, parse_and_run}
use turbopump.PeerServer.CommandRunner.Dispatch.{deliver_all, parse_and_run-wire}
use turbopump.PeerServer.CommandRunner.Isolation.{Agree, frames_of, parse_and_run-Agree}
use turbopump.PeerServer.Scheduling.{
  Item, of, State, init, Reach, enqueue, add_set, work, drain, clear, check_done, here, next,
}
use turbopump.PeerServer.Scheduling.Invariant.{Reach-exclusive, Reach-complete}

-- Commands that collect what they are run on, and never finish.
abbrev collector : Center Bytes
collector = record {
  command = λ cid b. some (cid ∷ b);
  set_peer = λ c. c;
  run = λ c b. c ++ b;
  finished = λ c. false;
}

abbrev idle_runner : Runner Bytes
idle_runner = record { commands = λ v. none; log = [] }

-- On channel 1 a header that starts command 4 and then data, on channel 2 data alone.
abbrev mixed_frames : List Frame
mixed_frames =
    record { channel = 1; packet = 0 ∷ 1 ∷ 4 ∷ [] }
    ∷ record { channel = 2; packet = 8 ∷ [] }
    ∷ record { channel = 1; packet = 9 ∷ [] }
    ∷ []

parse_and_run-wire_example :
    parse_and_run collector idle_runner (wire mixed_frames)
    ≡ deliver_all collector idle_runner mixed_frames
parse_and_run-wire_example = parse_and_run-wire collector idle_runner mixed_frames (omega arith)

parse_and_run-Agree_example :
    Agree 1
      (parse_and_run collector idle_runner (wire mixed_frames))
      (parse_and_run collector idle_runner (wire (frames_of 1 mixed_frames)))
parse_and_run-Agree_example = parse_and_run-Agree collector 1 idle_runner mixed_frames (omega arith)

abbrev one_item : Item
one_item = record { producer = 7; buffer = 3 ∷ [] }

abbrev one_enqueued : List Item
one_enqueued = one_item ∷ []

-- One buffer is added and run.
abbrev one_done : State
one_done = record init { enqueued = one_enqueued; dequeued = one_enqueued }

one_buffer : Reach init one_done
one_buffer =
    next
      (next
        (next
          (next (next (next here (enqueue one_item refl)) (add_set 0 refl refl refl))
            (work 0 [] one_item [] refl refl refl refl))
          (drain 0 refl refl))
        (clear 0 refl refl))
      (check_done 0 refl refl)

Reach-exclusive_example :
    (one_done.working + one_done.drained ≤ 1)
    × ((p : ℕ) → of p one_done.dequeued ++ of p one_done.queue ≡ of p one_done.enqueued)
Reach-exclusive_example = Reach-exclusive one_buffer

Reach-complete_example :
    (one_done.queue ≡ []) × ((p : ℕ) → of p one_done.dequeued ≡ of p one_done.enqueued)
unfolding one_buffer
Reach-complete_example =
    Reach-complete one_buffer ((((((tt, tt), tt), tt), tt), tt), refl) refl refl refl refl refl

-- Three messages on two channels, over a writer for packets of seven bytes.
abbrev three_messages : Messages
three_messages = (1, 0 ∷ 1 ∷ 4 ∷ []) ∷ (2, 8 ∷ []) ∷ (1, 9 ∷ 9 ∷ 9 ∷ 9 ∷ 9 ∷ []) ∷ []

written-run_example :
    (fs : List Frame) × (parse_and_run collector idle_runner
        (flush recorder true
          (write_all recorder-IsReliable false small_writer three_messages)).1.sock
      ≡ deliver_all collector idle_runner fs)
    × ((v : ℕ) → payload (frames_of v fs) ≡ bytes_on v three_messages)
unfolding recorder-IsReliable
written-run_example =
    written-run recorder-IsReliable collector idle_runner false small_writer three_messages refl
      (omega arith) (omega arith)
      (omega arith, omega arith, (omega arith, omega arith, (omega arith, omega arith, tt)))
