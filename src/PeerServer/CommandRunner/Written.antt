-- ===== src/PeerServer/CommandRunner/Written.antt =====
-- src/lib/peer_server/BufferedConnectionWriter.h and src/lib/peer_server/PeerCommandRunner.cpp:
-- what one node writes and another runs.
use turbopump.Prelude.{
  ℕ, ◌+◌, ◌^◌, ◌<◌, ◌≡◌, refl, ap, sym, ◌∙◌, subst, Bool, true, Bytes, List, [], ◌∷◌, ◌++◌,
  append_assoc, append-nil, length, ◌==◌, if◌then◌else◌, arith, Bool-cases, inl, inr,
}
use turbopump.Wire.Frames.{Frame, payload, FitIn, FitIn-mono, wire, wire-append}
use turbopump.Wire.Socket.{Socket, IsReliable}
use turbopump.Wire.BufferedWriter.{W, write, flush, flush_internal}
use turbopump.Wire.BufferedWriter.Delivery.{Delivered, stream, on, write-Delivered}
use turbopump.PeerServer.CommandRunner.{Center, Runner, parse_and_run}
use turbopump.PeerServer.CommandRunner.Isolation.{frames_of}
use turbopump.PeerServer.CommandRunner.Dispatch.{deliver_all, parse_and_run-wire}

-- Buffers, each with the channel that it is written on.
abbrev pub Messages : Type 0
Messages = List (ℕ × Bytes)

abbrev pub AreSome : Messages → Type 0
AreSome [] = Unit {0}
AreSome ((v, b) ∷ ms) = (0 < length b) × (length b < 2 ^ 31) × AreSome ms

-- The bytes for one channel.
abbrev pub bytes_on : ℕ → Messages → Bytes
bytes_on v [] = []
bytes_on v ((u, b) ∷ ms) = let rest = bytes_on v ms in if u == v then b ++ rest else rest

frames_of-append :
    (v : ℕ) (fs gs : List Frame) → frames_of v (fs ++ gs) ≡ frames_of v fs ++ frames_of v gs
frames_of-append v [] gs = refl
frames_of-append v (f ∷ fs) gs = ground (arith, frames_of-append v fs gs)

payload-append : (fs gs : List Frame) → payload (fs ++ gs) ≡ payload fs ++ payload gs
payload-append [] gs = refl
payload-append (f ∷ fs) gs =
    ap (λ b. f.packet ++ b) (payload-append fs gs)
    ∙ sym (append_assoc f.packet (payload fs) (payload gs))

FitIn-append : (n : ℕ) (fs gs : List Frame) → FitIn n fs → FitIn n gs → FitIn n (fs ++ gs)
FitIn-append n [] gs h h' = h'
FitIn-append n (f ∷ fs) gs h h' = (h.0, FitIn-append n fs gs h.1 h')

frames_of-on :
    (v u : ℕ) (cs : List Bytes)
    → payload (frames_of v (on u cs)) ≡ (if u == v then payload (on u cs) else [])
frames_of-on v u [] = ground arith
frames_of-on v u (c ∷ cs) =
    let later = frames_of-on v u cs in
    elim (Bool-cases (u == v)) [
      | inl same ↦
          let whole : (if u == v then payload (on u cs) else []) ≡ payload (on u cs) =
            rw same refl in
          rw same (ap (λ b. c ++ b) (later ∙ whole))
      | inr other ↦
          let none_left : (if u == v then payload (on u cs) else []) ≡ [] = rw other refl in
          rw other (later ∙ none_left)
    ]

module _ {k : Socket} (r : IsReliable k) where
  abbrev pub write_all : Bool → W k → Messages → W k
  write_all blocking w [] = w
  write_all blocking w ((v, b) ∷ ms) = write_all blocking (write k blocking w v b).1 ms

  -- `w'` has put the messages behind the stream of `w`.
  pub record Written (w : W k) (ms : Messages) (w' : W k) : Type 0 where
    pub frames : List Frame
    pub out : stream r w' ≡ stream r w ++ wire frames
    pub fit : FitIn (w.capacity + 1) frames
    pub contents : (v : ℕ) → payload (frames_of v frames) ≡ bytes_on v ms

  Written-cons :
      (w w1 w' : W k) (v : ℕ) (b : Bytes) (ms : Messages)
      → Delivered r w v b w1
      → Written w1 ms w'
      → Written w ((v, b) ∷ ms) w'
  Written-cons w w1 w' v b ms d rest = record {
    frames = on v d.chunks ++ rest.frames;
    out =
        rest.out
        ∙ ap (λ xs. xs ++ wire rest.frames) d.out
        ∙ append_assoc (stream r w) (wire (on v d.chunks)) (wire rest.frames)
        ∙ ap (λ xs. stream r w ++ xs) (sym (wire-append (on v d.chunks) rest.frames));
    fit =
        FitIn-append (w.capacity + 1) (on v d.chunks) rest.frames d.fit
          (subst (λ n. FitIn (n + 1) rest.frames) d.same_capacity rest.fit);
    contents = λ u. contents_on u;
  }
    where
      contents_on :
          (u : ℕ) → payload (frames_of u (on v d.chunks ++ rest.frames)) ≡ bytes_on u ((v, b) ∷ ms)
      contents_on u =
          let split =
            ap payload (frames_of-append u (on v d.chunks) rest.frames)
            ∙ payload-append (frames_of u (on v d.chunks)) (frames_of u rest.frames)
            ∙ ap (λ xs. xs ++ payload (frames_of u rest.frames)) (frames_of-on u v d.chunks)
            ∙ ap (λ xs. (if v == u then payload (on v d.chunks) else []) ++ xs) (rest.contents u) in
          elim (Bool-cases (v == u)) [
            | inl same ↦
                let e : ((if v == u then payload (on v d.chunks) else []) ++ bytes_on u ms)
                    ≡ b ++ bytes_on u ms =
                  rw (same, d.joined) refl in
                let e' : bytes_on u ((v, b) ∷ ms) ≡ b ++ bytes_on u ms = rw same refl in
                split ∙ e ∙ sym e'
            | inr other ↦
                let e : ((if v == u then payload (on v d.chunks) else []) ++ bytes_on u ms)
                    ≡ bytes_on u ms =
                  rw other refl in
                let e' : bytes_on u ((v, b) ∷ ms) ≡ bytes_on u ms = rw other refl in
                split ∙ e ∙ sym e'
          ]

  write_all-Written :
      (blocking : Bool) (w : W k) (ms : Messages)
      → 0 < w.capacity
      → w.capacity < 65535
      → AreSome ms
      → Written w ms (write_all blocking w ms)
  write_all-Written blocking w [] h0 hc h = record {
    frames = [];
    out = sym (append-nil _);
    fit = tt;
    contents = λ v. refl;
  }
  write_all-Written blocking w ((v, b) ∷ ms) h0 hc h =
      let (w1, wrote, d) = write-Delivered r blocking w v b h0 hc h.1 (inl h.0) in
      let e = d.same_capacity in
      let rest =
        write_all-Written blocking w1 ms (omega (arith, e, h0)) (omega (arith, e, hc)) h.2 in
      rw wrote (Written-cons w w1 (write_all blocking w1 ms) v b ms d rest)

  -- Two nodes with a socket between them that takes all that it is given: one writes any messages,
  -- none empty and none of 2^31 bytes or more, on any channels, with a writer that has sent nothing
  -- yet and holds nothing, and then flushes it and waits; the other runs what the socket got, in
  -- one buffer. What is run is a sequence of frames, each once and in order, in which the packets
  -- of a channel join to the messages on that channel, in their order. The capacity is at least 1
  -- and below 65535.
  pub written-run :
      {C : Type 0} (center : Center C) (s : Runner C) (blocking : Bool) (w : W k) (ms : Messages)
      → stream r w ≡ []
      → 0 < w.capacity
      → w.capacity < 65535
      → AreSome ms
      → (fs : List Frame) × (parse_and_run center s
            (r.sent (flush k true (write_all blocking w ms)).1.sock)
          ≡ deliver_all center s fs)
        × ((v : ℕ) → payload (frames_of v fs) ≡ bytes_on v ms)
  unfolding flush flush_internal
  written-run center s blocking w ms start h0 hc h =
      let d = write_all-Written blocking w ms h0 hc h in
      let w' = write_all blocking w ms in
      let sent : r.sent (k.send w'.sock w'.buffer).1 ≡ wire d.frames =
        r.send_sent w'.sock w'.buffer ∙ d.out ∙ ap (λ xs. xs ++ wire d.frames) start in
      (
        d.frames,
        ap (parse_and_run center s) sent
            ∙ parse_and_run-wire center s d.frames
                (FitIn-mono (w.capacity + 1) 65535 d.frames (omega arith) d.fit),
        d.contents,
      )
