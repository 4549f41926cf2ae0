-- ===== src/Api/PeerCommands.antt =====
-- src/lib/api/DeleteCommand.cpp, src/lib/api/AddPeerCommand.cpp and
-- src/lib/api/RemovePeerCommand.cpp: commands that make a write of their own.
pub mod Stored
use turbopump.Prelude.{ℕ, Bool, true, false, Bytes, [], ◌++◌, ltb, if◌then◌else◌}
use turbopump.Common.VectorClock.{Clocks, VersionText, mark_deleted}
use turbopump.Api.Instructions.{Instructions, fresh}
use turbopump.Storage.Streams.{Streams}
use turbopump.Api.WriteCommand.{Cmd, new, run}
use turbopump.Callbacks.ModifyPeer.{membership_prefix}

module _ (c : Clocks) (t : VersionText c) where
  -- The Turbopump::Write of each command.
  unfoldable pub delete_request : Bytes → Bytes → ℕ → Instructions
  delete_request name version now = record fresh {
    name = name;
    version = t.to_string (mark_deleted c (t.from_string version) now);
  }

  unfoldable pub add_peer_request : Bytes → ℕ → Instructions
  add_peer_request uid now = record fresh {
    name = membership_prefix ++ uid;
    version = t.to_string (c.increment c.empty uid now);
    copies = 0;
  }

  unfoldable pub remove_peer_request : Bytes → ℕ → ℕ → Instructions
  remove_peer_request uid now later = record fresh {
    name = membership_prefix ++ uid;
    version = t.to_string (mark_deleted c (c.increment c.empty uid now) later);
    copies = 0;
  }

  -- Api::command makes the write command; each run is given with the command behind it.
  module _ (k : Streams) (on_commit : Instructions → k.Reader → Instructions) where
    unfoldable pub delete_key : Bytes → Bytes → ℕ → Bool × Cmd k on_commit
    delete_key name version now =
        let (ok, cmd) = run k on_commit (new k on_commit (delete_request name version now)) [] in
        if ok then run k on_commit cmd [] else (false, cmd)

    -- setStatus(cmd->status())
    abbrev pub pass_status : Cmd k on_commit → Bool × Cmd k on_commit
    pass_status cmd = (ltb cmd.status 400, cmd)

    unfoldable pub add_peer : Bytes → Bytes → ℕ → Bool × Cmd k on_commit
    add_peer uid ip now =
        let (ok, cmd) = run k on_commit (new k on_commit (add_peer_request uid now)) ip in
        if ok then pass_status (run k on_commit cmd []).1 else pass_status cmd

    unfoldable pub remove_peer : Bytes → ℕ → ℕ → Bool × Cmd k on_commit
    remove_peer uid now later =
        let (ok, cmd) = run k on_commit (new k on_commit (remove_peer_request uid now later)) [] in
        if ok then pass_status (run k on_commit cmd []).1 else pass_status cmd
