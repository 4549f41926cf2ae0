-- ===== src/Tests/Wire.antt =====
-- Messages and buffers of a few bytes: src/lib/peer_client/MessagePacker.cpp,
-- src/lib/peer_server/PacketParser.cpp and src/lib/peer_server/BufferedConnectionWriter.h.
use turbopump.Prelude.{◌≡◌, refl, true, false, Bytes, [], ◌∷◌, ◌++◌, length, arith, inl}
use turbopump.Wire.DataBuffer
use turbopump.Wire.DataBuffer.{DataBuffer, skip}
use turbopump.Wire.MessagePacker.{pack}
use turbopump.Wire.PacketParser.{get_next}
use turbopump.Wire.RoundTrip.{get_next-pack}
use turbopump.Wire.Socket.{pos, Socket, IsReliable}
use turbopump.Wire.BufferedWriter.{W, init, write, flush, write_loop, push_bytes}
use turbopump.Wire.BufferedWriter.Delivery.{Delivered, stream, write-Delivered, write-empty_lost}
use turbopump.Wire.BufferedWriter.Truncation.{flush-unsent}

get_next-pack_example :
    get_next (record { bytes = pack 7 (1 ∷ 2 ∷ []) ++ 9 ∷ [] }) 0 DataBuffer.null ≡ record {
      found = true;
      virtid = 7;
      next = record { bytes = 1 ∷ 2 ∷ [] };
      rest = record { bytes = 9 ∷ [] };
    }
get_next-pack_example = get_next-pack 7 (1 ∷ 2 ∷ []) (9 ∷ []) 0 DataBuffer.null (omega arith)

pack_runs : pack 7 (1 ∷ 2 ∷ []) ≡ 0 ∷ 3 ∷ 7 ∷ 1 ∷ 2 ∷ []
unfolding pack
pack_runs = refl

-- A socket that keeps what it is given.
abbrev pub recorder : Socket
recorder = record {
  State = Bytes;
  send = λ s b. (pos (length b), s ++ b);
  try_send = λ s b. (pos (length b), s ++ b);
}

unfoldable pub recorder-IsReliable : IsReliable recorder
recorder-IsReliable = record {
  sent = λ s. s;
  send_result = λ s b. refl;
  send_sent = λ s b. refl;
  try_send_result = λ s b. refl;
  try_send_sent = λ s b. refl;
}

-- A writer for packets of seven bytes.
abbrev pub small_writer : W recorder
small_writer = init [] 7

write-Delivered_example :
    (w' : W recorder) × (write recorder true small_writer 5 (1 ∷ 2 ∷ 3 ∷ 4 ∷ 5 ∷ []) ≡ (5, w'))
    × Delivered recorder-IsReliable small_writer 5 (1 ∷ 2 ∷ 3 ∷ 4 ∷ 5 ∷ []) w'
write-Delivered_example =
    write-Delivered recorder-IsReliable true small_writer 5 (1 ∷ 2 ∷ 3 ∷ 4 ∷ 5 ∷ []) (omega arith)
      (omega arith) (omega arith) (inl (omega arith))

-- One byte in a frame fills that writer to its capacity.
abbrev full_writer : W recorder
full_writer = record small_writer { buffer = 0 ∷ 2 ∷ 5 ∷ 1 ∷ [] }

full_writer_runs : (write recorder true small_writer 5 (1 ∷ [])).1 ≡ full_writer
unfolding write write_loop push_bytes pack
full_writer_runs = refl

write-empty_lost_example :
    (w' : W recorder) × (write recorder true full_writer 5 [] ≡ (0, w'))
    × (w'.buffer ≡ [])
    × (stream recorder-IsReliable w' ≡ stream recorder-IsReliable full_writer)
write-empty_lost_example =
    write-empty_lost recorder-IsReliable true full_writer 5 (omega arith) (omega arith) refl

-- A socket that takes six bytes at a time, and a writer with two frames of four.
abbrev narrow : Socket
narrow = record { State = Bytes; send = λ s b. (pos 6, s); try_send = λ s b. (pos 6, s) }

abbrev two_frames : W narrow
two_frames = record { buffer = 0 ∷ 2 ∷ 5 ∷ 1 ∷ 0 ∷ 2 ∷ 6 ∷ 2 ∷ []; capacity = 9; sock = [] }

flush-unsent_example : (flush narrow false two_frames).1.buffer ≡ pack 6 (2 ∷ [])
unfolding pack
flush-unsent_example =
    flush-unsent narrow two_frames
      (record { channel = 5; packet = 1 ∷ [] } ∷ record { channel = 6; packet = 2 ∷ [] } ∷ []) 6
      refl (omega arith) (omega arith) refl
