-- ===== src/PeerClient/MessageSender.antt =====
-- src/lib/peer_client/MessageSender.cpp: requests to other nodes. `serialize` is msgpack's, and
-- stands for the bytes of a request.
pub mod Received
use turbopump.Prelude.{
  ℕ, Bool, true, false, Bytes, List, [], ◌∷◌, ◌++◌, Option, none, some, codes, if◌then◌else◌,
}
use turbopump.Common.MerklePoint.{MerklePoint, to_string}
use turbopump.Membership.Peer.{Peer, address}
use turbopump.Wire.MessagePacker.{pack}
use turbopump.Deskew.Synchronizer.{TreeId}

-- Turbopump::Sync, KeyRequest, OfferWrite, DemandWrite and AckWrite.
pub data Request : Type 0 where
  sync : TreeId → Request
  key_request : TreeId → ℕ → ℕ → Request
  offer_write : Bytes → Bytes → Bytes → Request
  demand_write : Bytes → Bytes → Bytes → Request
  ack_write : Bytes → Bytes → ℕ → Request

-- The _ID of each.
abbrev pub id_of : Request → ℕ
id_of (sync tree) = 102
id_of (key_request tree first last) = 103
id_of (offer_write name version source) = 105
id_of (demand_write name version source) = 106
id_of (ack_write name version size) = 101

-- What is sent to the writer of an address.
pub record Sent : Type 0 where
  pub target : Bytes
  pub message : Bytes
  pub blocking : Bool

-- The text of some points: none at all is not sent, since `front` wants one.
abbrev pub with_rest : Bytes → Option Bytes → Bytes
with_rest text none = text
with_rest text (some rest) = text ++ (codes "|" ++ rest)

unfoldable pub points_text : List MerklePoint → Option Bytes
points_text [] = none
points_text (p ∷ ps) = some (with_rest (to_string p) (points_text ps))

-- `has_writer` is whether the address can be read and the server gives a writer for it.
module _ (serialize : Request → Bytes) (has_writer : Bytes → Bool) where
  unfoldable pub req_header : Request → Bytes
  req_header request = pack (id_of request) (serialize request)

  -- none if it returns false.
  unfoldable pub send_message : Peer → Bytes → Bool → Option Sent
  send_message peer message blocking =
      if has_writer (address peer)
      then some (record { target = address peer; message = message; blocking = blocking })
      else none

  unfoldable pub digest_ping : Peer → TreeId → MerklePoint → Option Sent
  digest_ping peer tree point = send_message peer (req_header (sync tree) ++ to_string point) false

  unfoldable pub digest_ping_points : Peer → TreeId → List MerklePoint → Option Sent
  digest_ping_points peer tree points = elim (points_text points) [
    | none ↦ none
    | some text ↦ send_message peer (req_header (sync tree) ++ text) false
  ]

  unfoldable pub request_key_range : Peer → TreeId → ℕ → ℕ → Option Sent
  request_key_range peer tree first last =
      send_message peer (req_header (key_request tree first last)) false

  unfoldable pub request_key : Peer → TreeId → ℕ → Option Sent
  request_key peer tree key = send_message peer (req_header (key_request tree key key)) false

  unfoldable pub send_offer : Peer → Bytes → Bytes → Bytes → Option Sent
  send_offer peer filename version source =
      send_message peer (req_header (offer_write filename version source)) false

  unfoldable pub send_demand : Peer → Bytes → Bytes → Bytes → Option Sent
  send_demand peer filename version source =
      send_message peer (req_header (demand_write filename version source)) false

  unfoldable pub acknowledge_write : Peer → Bytes → Bytes → ℕ → Option Sent
  acknowledge_write peer filename version size =
      send_message peer (req_header (ack_write filename version size)) true
