-- ===== src/Tests/Uploads.antt =====
-- A file of five bytes, stored to a peer over a connection that takes four at a time:
-- src/lib/peer_client/WriteSupervisor.cpp and src/lib/api/WriteCommand.cpp.
use turbopump.Prelude.{refl, true, Bytes, [], ◌∷◌, Option, some, codes, arith}
use turbopump.Api.Instructions.{Instructions, fresh}
use turbopump.Wire.MessagePacker.{pack}
use turbopump.Membership.Peer.{Peer, next_action_id}
use turbopump.Api.WriteCommand.Open.{Ended}
use turbopump.PeerClient.WriteSupervisor.{Server, req_header, writer_of, store_to}
use turbopump.PeerClient.WriteSupervisor.Taking.{file}
use turbopump.PeerClient.WriteSupervisor.Sent.{Delivered}
use turbopump.PeerClient.WriteSupervisor.Buffered.{Line, buffered, server_of, buffered-IsTaking}
use turbopump.Tests.Wire.{recorder, recorder-IsReliable, small_writer}
use turbopump.PeerClient.WriteSupervisor.Uploaded.{received, upload, store_to-Uploaded}
use turbopump.Tests.Api.{memory, memory-IsReliable, ignore}

-- The program's own writer, for packets of seven bytes.
abbrev idle : Line recorder
idle = record { writer = small_writer; channel = 0; calls = [] }

abbrev connect : Bytes → Option (Line recorder)
connect addr = some idle

abbrev line_server : Server (buffered recorder)
line_server = server_of recorder connect

abbrev remote : Peer
remote = record { uid = codes "b"; ips = codes "127.0.0.1:1" ∷ [] }

abbrev put_file : Instructions
put_file = record fresh { name = codes "k"; is_complete = true }

abbrev content : Bytes
content = 1 ∷ 2 ∷ 3 ∷ 4 ∷ 5 ∷ []

store_to-Uploaded_example :
    (d : Delivered
      (buffered-IsTaking recorder-IsReliable connect)
      content
      (req_header (λ i. i.name) put_file)
      true
      (next_action_id 255)
      idle
      (store_to line_server (λ i. i.name) remote 255 put_file (file content)))
    × Ended memory-IsReliable ignore
        (λ i x. refl)
        []
        content
        (upload memory ignore (received put_file) d.packets)
unfolding memory-IsReliable writer_of buffered-IsTaking req_header pack
store_to-Uploaded_example =
    store_to-Uploaded (buffered-IsTaking recorder-IsReliable connect) memory-IsReliable ignore
      (λ i x. refl) (λ i. i.name) remote 255 put_file content idle refl (omega arith, omega arith)
      (omega arith) (omega arith) refl refl refl
