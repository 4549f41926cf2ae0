-- ===== src/PeerClient/WriteSupervisor.antt =====
-- src/lib/peer_client/WriteSupervisor.cpp: a file is streamed to a peer, in the foreground until
-- the connection is full, and from there on by transfers that the writer's readiness resumes.
pub mod Taking
pub mod Copied
pub mod Sent
pub mod Uploaded
pub mod Buffered
use turbopump.Prelude.{
  ℕ, zero, suc, ◌+◌, ◌-◌, ◌%◌, ◌^◌, Bool, true, false, not, ◌&&◌, Bytes, [], Option, none, some,
  length, ltb, if◌then◌else◌,
}
use turbopump.Wire.Socket.{ℤ, pos, negsuc}
use turbopump.Api.Instructions.{Instructions}
use turbopump.PeerClient.ConnectionWriteStream.{Writer, Stream, new, write, flush, set_background}
use turbopump.Membership.Peer.{Peer, address, next_action_id}
use turbopump.Wire.MessagePacker.{pack}
use turbopump.Storage.FileReader.{FileReader, size, set_position, stream}

module _ (w : Writer) where
  -- What `store` leaves: its result, the transfer that it adds, and the connection.
  pub record Outcome : Type 0 where
    pub done : Bool
    pub transfer : Option Instructions
    pub conn : Stream w

  -- The loop of `store`. Each round reads at least a byte. `bytes_writ` is an int, kept as its 32
  -- bits; on the machines of the program it wraps around.
  unfoldable pub stream_all : ℕ → ℕ → FileReader → Stream w → ℕ × Stream w
  stream_all zero bytes_writ r conn = (bytes_writ, conn)
  stream_all (suc fuel) bytes_writ r conn =
      let (wrote, r', conn') = stream w r conn in
      elim wrote as (λ _. ℕ × Stream w) [
        | negsuc n ↦ (bytes_writ, conn')
        | pos n ↦
            let later = stream_all fuel ((bytes_writ + n) % 2 ^ 32) r' conn' in
            if ltb 0 n then later else (bytes_writ, conn')
      ]

  -- The 64 bits of an int that is added to an unsigned long long.
  abbrev pub widen : ℕ → ℕ
  widen bits = if ltb bits (2 ^ 31) then bits else 2 ^ 64 - 2 ^ 32 + bits

  -- The end of `store`.
  unfoldable pub finish : Instructions → ℕ × Stream w → Outcome
  finish i (bytes_writ, conn) =
      let rewrite = record i {
        is_complete = true;
        offset = (i.offset + widen bytes_writ) % 2 ^ 64;
      } in
      let ended = (flush w (write w conn []).1).1 in
      if conn.full
      then record { done = false; transfer = some rewrite; conn = set_background w conn true }
      else record { done = true; transfer = none; conn = if i.is_complete then ended else conn }

  unfoldable pub store : Stream w → Instructions → FileReader → Bool → Outcome
  store conn i contents background =
      let moved : Bool × FileReader =
        if ltb 0 i.offset then set_position contents i.offset else (true, contents) in
      let streamed = finish i (stream_all (suc (size contents)) 0 moved.1 conn) in
      let stopped : Outcome = record { done = false; transfer = none; conn = conn } in
      if conn.background && not background then stopped else if moved.0 then streamed else stopped

  -- resume, with what the store reads for the key and version. The connection is `outstream`.
  unfoldable pub resume : (Bytes → Bytes → Option FileReader) → Stream w → Instructions → Outcome
  resume read conn i = elim (read i.name i.version) [
    | none ↦ record { done = true; transfer = none; conn = conn }
    | some reader ↦ store conn i reader true
  ]

-- What is used of socket_address and of ISocketServer and ISocketWriter of the library beside the
-- program.
pub record Server (w : Writer) : Type 1 where
  pub Address : Type 0
  pub from_string : Bytes → Option Address
  pub get_writer : Address → Option w.State
  pub set_muxid : w.State → ℕ → w.State

unfoldable pub writer_of : {w : Writer} → Server w → Peer → Option w.State
writer_of server peer = elim (server.from_string (address peer)) [
  | none ↦ none
  | some addr ↦ server.get_writer addr
]

-- `serialize` is msgpack's, of the request that the instructions are.
unfoldable pub req_header : (Instructions → Bytes) → Instructions → Bytes
req_header serialize i = pack 100 (serialize i)

module _ {w : Writer} (server : Server w) (serialize : Instructions → Bytes) where
  -- WriteSupervisor::open, with the action id of the peer before and after it.
  unfoldable pub open_conn : Peer → ℕ → Instructions → Bool → Option (Stream w) × ℕ
  open_conn peer action_id i blocking =
      elim (writer_of server peer) as (λ _. Option (Stream w) × ℕ) [
        | none ↦ (none, action_id)
        | some writer ↦
            let muxid = next_action_id action_id in
            let conn = new w (server.set_muxid writer muxid) blocking in
            (some (write w conn (req_header serialize i)).1, muxid)
      ]

  -- `store` to a peer: none if there is no connection, where it returns false.
  unfoldable pub store_to : Peer → ℕ → Instructions → FileReader → Option (Outcome w) × ℕ
  store_to peer action_id i contents =
      let (opened, action_id') = open_conn peer action_id i true in
      let stored : Option (Outcome w) = elim opened [
        | none ↦ none
        | some conn ↦ some (store w conn i contents false)
      ] in
      (stored, action_id')
