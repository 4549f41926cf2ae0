-- ===== src/PeerServer/CommandRunner.antt =====
-- src/lib/peer_server/PeerCommandRunner.cpp, parseAndRun: a packet from a peer is cut into frames,
-- and each goes to the command of its channel.
pub mod Dispatch
pub mod Isolation
pub mod Written
use turbopump.Prelude.{
  ℕ, zero, suc, Bool, true, false, Bytes, List, [], ◌∷◌, Option, none, some, ltb, ◌==◌, length,
  if◌then◌else◌,
}
use turbopump.Wire.DataBuffer
use turbopump.Wire.DataBuffer.{DataBuffer}
use turbopump.Wire.PacketParser.{get_next}

-- IPeerCommandCenter::command and the virtual methods of Turbopump::Command, over the state C of
-- a command. What a command does depends on its own state and buffer alone: what commands share,
-- the store above all, is not seen here; `log` below keeps the calls.
pub record Center (C : Type 0) : Type 0 where
  pub command : ℕ → Bytes → Option C
  pub set_peer : C → C
  pub run : C → Bytes → C
  pub finished : C → Bool

-- One call of Command::run.
pub record Call (C : Type 0) : Type 0 where
  pub channel : ℕ
  pub command : C
  pub buff : Bytes

-- `_commands`, and the calls made so far, the last one first.
pub record Runner (C : Type 0) : Type 0 where
  pub commands : ℕ → Option C
  pub log : List (Call C)

abbrev pub update {ℓ} : {A : Type ℓ} → (ℕ → Option A) → ℕ → A → ℕ → Option A
update m k a j = if k == j then some a else m j

module _ {C : Type 0} (center : Center C) where
  -- The command that the map holds for a channel, unless it has finished.
  unfoldable pub live : Option C → Option C
  live none = none
  live (some c) = if center.finished c then none else some c

  abbrev record_call : Runner C → ℕ → C → Bytes → List (Call C)
  record_call s virtid c buff = record { channel = virtid; command = c; buff = buff } ∷ s.log

  -- command->run on a command that the map holds.
  unfoldable pub run_held : Runner C → ℕ → C → Bytes → Runner C
  run_held s virtid c buff = record {
    commands = update s.commands virtid (center.run c buff);
    log = record_call s virtid c buff;
  }

  -- A new command goes into the map, unless it has finished before it ran.
  unfoldable pub run_new : Runner C → ℕ → C → Bytes → Runner C
  unfolding run_held
  run_new s virtid c buff =
      if center.finished c
      then record s { log = record_call s virtid c buff }
      else run_held s virtid c buff

  unfoldable pub start : Runner C → ℕ → DataBuffer → Runner C
  unfolding run_new
  start s virtid buff =
      let n = get_next buff 0 buff in
      let made = center.command n.virtid n.next.bytes in
      if n.found
      then elim made [ none ↦ s | some c ↦ run_new s virtid (center.set_peer c) n.rest.bytes ]
      else s

  -- The body of the loop, for a frame that has been found.
  unfoldable pub deliver : Runner C → ℕ → DataBuffer → Runner C
  unfolding live start
  deliver s virtid buff = elim (live (s.commands virtid)) [
    | none ↦ start s virtid buff
    | some c ↦ run_held s virtid c buff.bytes
  ]

  -- The loop. Each round takes at least three bytes off `unparsed`.
  unfoldable pub parse_loop : ℕ → Runner C → DataBuffer → DataBuffer → Runner C
  parse_loop zero s unparsed buff = s
  parse_loop (suc fuel) s unparsed buff =
      let n = get_next unparsed 0 buff in
      let again = parse_loop fuel (deliver s n.virtid n.next) n.rest n.next in
      let s' = if n.found then again else s in if ltb 0 (DataBuffer.size unparsed) then s' else s

  unfoldable pub parse_and_run : Runner C → Bytes → Runner C
  parse_and_run s buffer = parse_loop (length buffer) s (record { bytes = buffer }) DataBuffer.null
