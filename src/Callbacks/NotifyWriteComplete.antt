-- ===== src/Callbacks/NotifyWriteComplete.antt =====
-- src/lib/callbacks/NotifyWriteComplete.cpp.
use turbopump.Prelude.{ℕ, ◌&&◌, not, Bytes, Option, none, some, leb, is_empty, if◌then◌else◌}
use turbopump.Membership.Peer.{Peer}
use turbopump.Api.Instructions.{Instructions}

-- A call of acknowledgeWrite.
pub record Ack : Type 0 where
  pub target : Peer
  pub name : Bytes
  pub version : Bytes
  pub size : ℕ

unfoldable pub ack_to : Instructions → ℕ → Option Peer → Option Ack
ack_to params size none = none
ack_to params size (some source) =
    some (record { target = source; name = params.name; version = params.version; size = size })

-- The acknowledgement that is sent, if one is.
unfoldable pub run : (Bytes → Option Peer) → Instructions → ℕ → Option Ack
run lookup params size =
    if leb params.copies params.mirror && not (is_empty params.source)
    then ack_to params size (lookup params.source)
    else none
