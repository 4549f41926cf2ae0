-- ===== src/PeerClient/WriteSupervisor/Uploaded.antt =====
-- src/lib/peer_client/WriteSupervisor.cpp and src/lib/api/WriteCommand.cpp: a file that one node
-- stores to another, and the command that takes it there.
use turbopump.Prelude.{
  ◌^◌, ◌<◌, ◌≡◌, refl, Bool, List, subst, true, false, Bytes, [], some, ℕ, drop, is_empty, length,
  arith,
}
use turbopump.Api.Instructions.{Instructions, fresh}
use turbopump.Storage.Streams.{Streams, IsReliable}
use turbopump.Api.WriteCommand.{Cmd, new, run}
use turbopump.Api.WriteCommand.Open.{Ended}
use turbopump.Api.WriteCommand.Upload.{feed, run-upload}
use turbopump.Membership.Peer.{Peer, next_action_id}
use turbopump.PeerClient.ConnectionWriteStream.{Writer}
use turbopump.PeerClient.WriteSupervisor.{Server, req_header, writer_of, store_to}
use turbopump.PeerClient.WriteSupervisor.Taking.{file}
use turbopump.PeerClient.WriteSupervisor.Taking.{IsTaking}
use turbopump.PeerClient.WriteSupervisor.Sent.{Delivered, store_to-Delivered}

-- What msgpack reads of a request that it has written: the members that SERIALIZE names.
unfoldable pub received : Instructions → Instructions
received i = record fresh {
  name = i.name;
  version = i.version;
  mirror = i.mirror;
  copies = i.copies;
  offset = i.offset;
  source = i.source;
}

-- The call of the command with the last of the messages behind the request.
abbrev pub upload :
    (streams : Streams) (on_commit : Instructions → streams.Reader → Instructions)
    → Instructions
    → List Bytes
    → Bool × Cmd streams on_commit
upload streams on_commit i packets =
    run streams on_commit
      (feed streams on_commit (run streams on_commit (new streams on_commit i) []).1 packets) []

module _ {w : Writer} {server : Server w} (k : IsTaking server) {streams : Streams}
    (r : IsReliable streams) (on_commit : Instructions → streams.Reader → Instructions)
    (keeps : (i : Instructions) (x : streams.Reader)
      → (on_commit i x).is_complete ≡ i.is_complete) where
  -- A file that is complete, stored to another node from an offset on, over a connection that
  -- blocks. If the peer has a connection that is ready, whose `send` then takes all that it is
  -- given, the offset fits into 63 bits and the request is shorter than 2^31 bytes, `store` returns
  -- true, and it has called `send`, on the channel of the peer's next action id, with the request,
  -- with the file from the offset on in packets of 64 KiB at most, and last with no bytes. A write
  -- command of that request, on streams that do not fail and open for the key, which has a name,
  -- that is run with no bytes for the request and then with what these calls were given, ends with
  -- status 200; its stream has got the file from the offset on, behind what it held, and has been
  -- committed as complete exactly once. That the connection carries each of the calls to the other
  -- node, the last one too, is not said here.
  pub store_to-Uploaded :
      (serialize : Instructions → Bytes) (peer : Peer) (id : ℕ) (i : Instructions) (content : Bytes)
      (writer : w.State)
      → writer_of server peer ≡ some writer
      → k.ready writer
      → length (req_header serialize i) < 2 ^ 31
      → i.offset < 2 ^ 63
      → is_empty i.name ≡ false
      → i.is_complete ≡ true
      → streams.good (streams.open_write i.name i.version i.copies i.offset) ≡ true
      → (d : Delivered k
          (drop i.offset content)
          (req_header serialize i)
          true
          (next_action_id id)
          writer
          (store_to server serialize peer id i (file content)))
        × Ended r on_commit keeps
            (r.written (streams.open_write i.name i.version i.copies i.offset))
            (drop i.offset content)
            (upload streams on_commit (received i) d.packets)
  unfolding received
  store_to-Uploaded serialize peer id i content writer known ready short seekable named complete
        opens =
      let d : Delivered k (drop i.offset content) (req_header serialize i) true (next_action_id id)
          writer (store_to server serialize peer id i (file content)) =
        subst
          (λ c.
            Delivered k (drop i.offset content) (req_header serialize i) c (next_action_id id)
              writer (store_to server serialize peer id i (file content)))
          complete
          (store_to-Delivered k serialize peer id i content writer known ready short seekable) in
      let ended =
        run-upload r on_commit keeps (received i) [] d.packets named refl opens (omega arith)
          d.chunks in
      (
        d,
        subst
            (λ all.
              Ended r on_commit keeps
                (r.written (streams.open_write i.name i.version i.copies i.offset)) all
                (upload streams on_commit (received i) d.packets))
            d.whole ended,
      )
