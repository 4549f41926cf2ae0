-- ===== src/PeerServer/CommandCenter.antt =====
-- src/lib/peer_server/ConcurrentCommandCenter.cpp and src/lib/peer_server/PeerPacketHandler.cpp: the
-- runner of each peer, and the packets that reach it. An operation is one step.
use turbopump.Prelude.{Bool, Bytes, List, [], ◌∷◌, Option, none, some, is_empty, if◌then◌else◌}
use turbopump.Deskew.Names
use turbopump.Membership.Peer.{Peer}

-- PeerCommandRunner, over the state R of one: what addWork returns, and the runner after it.
pub record Runners (R : Type 0) : Type 0 where
  pub new : Peer → R
  pub add_work : R → Bytes → Bool × R
  pub shutdown : R → R

module _ {R : Type 0} (k : Runners R) where
  -- `_runners`, and the uids of the runners that have been given to the executor, the last first.
  pub record Center : Type 0 where
    pub runners : List (Bytes × R)
    pub executed : List Bytes

  unfoldable pub get_runner : Peer → Center → R
  get_runner peer c = elim (Names.find peer.uid c.runners) [
    | none ↦ k.new peer
    | some runner ↦ runner
  ]

  unfoldable pub run : Peer → Bytes → Center → Center
  run peer buffer c =
      let (start, runner) = k.add_work (get_runner peer c) buffer in
      record {
        runners = Names.put peer.uid runner c.runners;
        executed = if start then peer.uid ∷ c.executed else c.executed;
      }

  unfoldable pub dismiss : Peer → Center → Center
  dismiss peer c = record c { runners = Names.erase peer.uid c.runners }

  shutdown_all : List (Bytes × R) → List R
  shutdown_all [] = []
  shutdown_all ((uid, runner) ∷ rest) = k.shutdown runner ∷ shutdown_all rest

  -- The runners that have been shut down, which others may hold, and the center.
  unfoldable pub shutdown : Center → List R × Center
  unfolding shutdown_all
  shutdown c = (shutdown_all c.runners, record c { runners = [] })

  -- onPacket: `peer` is what the membership knows at the address of the writer, and none is a NULL
  -- buffer.
  unfoldable pub on_packet : (peer : Option Peer) → Option Bytes → Center → Center
  on_packet none buff c = c
  on_packet (some peer) none c = dismiss peer c
  on_packet (some peer) (some buff) c = if is_empty buff then c else run peer buff c
