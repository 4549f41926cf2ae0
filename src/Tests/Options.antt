-- ===== src/Tests/Options.antt =====
-- Runs of src/lib/callbacks/ComputedOptions.cpp, src/lib/api/Api.cpp, src/lib/api/ListKeysCommand.cpp
-- and src/lib/peer_server/MultiplexedSocketPool.h.
use turbopump.Prelude.{ℕ, ◌≡◌, refl, true, false, [], ◌∷◌, none, some, codes, length, str_eq, ◌==◌}
use turbopump.Callbacks.ComputedOptions.{
  digest_add, clone_chain, notify_write_complete, notify_watches, membership, Options,
  on_local_write, on_mirror_write,
}
use turbopump.Api.Dispatch.{Kind, command_of_name}
use turbopump.Api.Dispatch
use turbopump.Api.StoreCommands.{print_key, is_live_report}
use turbopump.Common.ClockText.{split_at}
use turbopump.Wire.Socket.{pos, Socket}
use turbopump.PeerServer.SocketPool.{Pool, insert}

abbrev all_copies : Options
all_copies = record { partition_keys = false; write_chaining = true; active_sync = true }

-- A node that keeps all keys passes local writes on, and mirrored ones no further.
cloned :
    (on_local_write all_copies ≡ digest_add ∷ clone_chain true ∷ notify_watches ∷ membership ∷ [])
    × (on_mirror_write all_copies
        ≡ digest_add ∷ notify_write_complete ∷ notify_watches ∷ membership ∷ [])
unfolding on_local_write on_mirror_write
cloned = (refl, refl)

ring_view : command_of_name (codes "ring") ≡ some (Dispatch.status (codes "ring"))
unfolding command_of_name str_eq Dispatch.command_of_id
ring_view = refl

unknown_name : command_of_name (codes "sync") ≡ none
unfolding command_of_name str_eq
unknown_name = refl

deleted_key_hidden : print_key false false (codes "k") (codes "5:1,delete.AAA") ≡ []
unfolding print_key is_live_report split_at str_eq
deleted_key_hidden = refl

live_key_shown :
    print_key false false (codes "k") (codes "5:1,a.AAA") ≡ codes "\"k\":\"5:1,a.AAA\",\n"
unfolding print_key is_live_report split_at str_eq
live_key_shown = refl

-- A socket that is the number of its address.
abbrev numbered : Socket
numbered = record {
  State = ℕ;
  send = λ s b. (pos (length b), s);
  try_send = λ s b. (pos (length b), s);
}

abbrev place_after : ℕ → Pool numbered (λ x y. x == y) (λ s. s) (λ s. pos s) (λ s. s) 128 → ℕ
place_after s pool =
    (insert numbered (λ x y. x == y) (λ s. s) (λ s. pos s) (λ s. s) 128 s pool).1.place

abbrev no_sockets : Pool numbered (λ x y. x == y) (λ s. s) (λ s. pos s) (λ s. s) 128
no_sockets = record { connections = []; writers = [] }

abbrev one_socket : Pool numbered (λ x y. x == y) (λ s. s) (λ s. pos s) (λ s. s) 128
one_socket = (insert numbered (λ x y. x == y) (λ s. s) (λ s. pos s) (λ s. s) 128 7 no_sockets).2

-- A second channel to an address shares the writer, and another address has its own.
shared : (place_after 7 one_socket ≡ 0) × (place_after 8 one_socket ≡ 1)
unfolding insert
shared = (refl, refl)
