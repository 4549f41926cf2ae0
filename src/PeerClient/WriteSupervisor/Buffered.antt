-- ===== src/PeerClient/WriteSupervisor/Buffered.antt =====
-- src/lib/peer_server/BufferedConnectionWriter.h and
-- src/lib/peer_server/MultiplexedSocketWriter.cpp as the writer of WriteSupervisor, over a socket
-- that takes all that it is given: its `send` takes all that it is given.
use turbopump.Prelude.{
  ℕ, ◌^◌, ◌<◌, ◌≡◌, refl, ◌∙◌, ap, Bool, true, false, Bytes, [], ◌∷◌, ◌++◌, length, Option, some,
  arith, inl,
}
use turbopump.Wire.Socket.{Socket, IsReliable, ℤ, pos}
use turbopump.Wire.BufferedWriter
use turbopump.Wire.BufferedWriter.{W, push_bytes, flush_internal, write_loop}
use turbopump.Wire.BufferedWriter.Delivery.{write-Delivered}
use turbopump.PeerServer.CommandRunner.Written.{Messages}
use turbopump.PeerClient.ConnectionWriteStream.{Writer}
use turbopump.PeerClient.WriteSupervisor.{Server}
use turbopump.PeerClient.WriteSupervisor.Taking.{IsTaking}

module _ (k : Socket) where
  -- A writer shared by the channels of a connection, the channel that is set, and the calls of `send`.
  pub record Line : Type 0 where
    pub writer : W k
    pub channel : ℕ
    pub calls : Messages

  abbrev pub put : Bool → Line → Bytes → ℤ × Line
  put blocking s b =
      let (n, writer) = BufferedWriter.write k blocking s.writer s.channel b in
      (
        pos n,
        record { writer = writer; channel = s.channel; calls = s.calls ++ (s.channel, b) ∷ [] },
      )

  abbrev pub buffered : Writer
  buffered = record {
    State = Line;
    capacity = λ s. s.writer.capacity;
    send = put true;
    try_send = put false;
    flush = λ s blocking.
        let (ok, writer) = BufferedWriter.flush k blocking s.writer in
        (ok, record s { writer = writer });
  }

  -- `connection` is the line to an address.
  abbrev pub server_of : (Bytes → Option Line) → Server buffered
  server_of connection = record {
    Address = Bytes;
    from_string = λ text. some text;
    get_writer = connection;
    set_muxid = λ s id. record s { channel = id };
  }

  write_empty-capacity :
      (w : W k) (v : ℕ) → (BufferedWriter.write k true w v []).1.capacity ≡ w.capacity
  unfolding BufferedWriter.write write_loop flush_internal push_bytes
  write_empty-capacity w v = ground arith

module _ {k : Socket} (r : IsReliable k) where
  pub send-all :
      (w : W k) (v : ℕ) (b : Bytes)
      → (0 < w.capacity) × (w.capacity < 65535)
      → length b < 2 ^ 31
      → (BufferedWriter.write k true w v b).0 ≡ length b
  send-all w v [] (positive, few) short = unfold BufferedWriter.write in omega arith
  send-all w v (x ∷ b) (positive, few) short =
      let (w', e, d) = write-Delivered r true w v (x ∷ b) positive few short (inl (omega arith)) in
      ap (λ (p : ℕ × W k). p.0) e

  pub send-capacity :
      (w : W k) (v : ℕ) (b : Bytes)
      → (0 < w.capacity) × (w.capacity < 65535)
      → length b < 2 ^ 31
      → (BufferedWriter.write k true w v b).1.capacity ≡ w.capacity
  send-capacity w v [] h short = write_empty-capacity k w v
  send-capacity w v (x ∷ b) (positive, few) short =
      let (w', e, d) = write-Delivered r true w v (x ∷ b) positive few short (inl (omega arith)) in
      ap (λ (p : ℕ × W k). p.1.capacity) e ∙ d.same_capacity

  -- The program's own writer is one that takes all that it is given, at any size of its packets
  -- from 4 to 65537 bytes.
  unfoldable pub buffered-IsTaking :
      (connection : Bytes → Option (Line k)) → IsTaking (server_of k connection)
  buffered-IsTaking connection = record {
    calls = λ s. s.calls;
    muxid = λ s. s.channel;
    ready = λ s. (0 < s.writer.capacity) × (s.writer.capacity < 65535);
    capacity = λ s h. h.0;
    capacity-bound = λ s h. omega arith;
    send_result = λ s b h short. ap pos (send-all s.writer s.channel b h short);
    send-ready = λ s b h short. rw (send-capacity s.writer s.channel b h short) h;
    set-ready = λ s id h. h;
    send-calls = λ s b. refl;
    send-muxid = λ s b. refl;
    flush-calls = λ s blocking. refl;
    flush-muxid = λ s blocking. refl;
    set-muxid = λ s id. refl;
    set-calls = λ s id. refl;
  }
