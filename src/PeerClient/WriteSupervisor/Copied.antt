-- ===== src/PeerClient/WriteSupervisor/Copied.antt =====
-- src/lib/peer_client/WriteSupervisor.cpp: the loop of `store`, over a connection that blocks.
use turbopump.Prelude.{
  ℕ, zero, suc, ◌+◌, ◌-◌, ◌%◌, ◌^◌, ◌<◌, ◌≡◌, refl, sym, ◌∙◌, ap, true, Bytes, List, [], ◌∷◌, ◌++◌,
  append_assoc, append-nil, length, take, drop, ltb, ◌==◌, drop-drop, take-append-drop, take-take,
  take_all, length-take, length-drop, arith, Bool-cases, inl, inr,
}
use turbopump.Api.WriteCommand.Upload.{AreChunks, concat}
use turbopump.PeerClient.ConnectionWriteStream.{Writer, Stream, max_packet_length}
use turbopump.Storage.FileReader.{FileReader}
use turbopump.PeerClient.WriteSupervisor.{stream_all, Server}
use turbopump.PeerClient.WriteSupervisor.Taking.{
  IsTaking, on_channel, on_channel-append, chunk, given, stream-end, stream-given,
}

module _ {w : Writer} {server : Server w} (k : IsTaking server) where
  -- What a connection has got since `s`.
  pub record IsSent (packets : List Bytes) (s t : Stream w) : Type 0 where
    pub calls : k.calls t.writer ≡ k.calls s.writer ++ on_channel (k.muxid s.writer) packets
    pub muxid : k.muxid t.writer ≡ k.muxid s.writer
    pub blocking : t.blocking ≡ s.blocking
    pub full : t.full ≡ s.full

  pub none-IsSent : (s : Stream w) → IsSent [] s s
  none-IsSent s = record {
    calls = sym (append-nil (k.calls s.writer));
    muxid = refl;
    blocking = refl;
    full = refl;
  }

  pub given-IsSent : (s : Stream w) (b : Bytes) → IsSent (b ∷ []) s (given s b)
  given-IsSent s b = record {
    calls = k.send-calls s.writer b;
    muxid = k.send-muxid s.writer b;
    blocking = refl;
    full = refl;
  }

  pub trans-IsSent :
      (bs cs : List Bytes) (s t u : Stream w)
      → IsSent bs s t
      → IsSent cs t u
      → IsSent (bs ++ cs) s u
  trans-IsSent bs cs s t u st tu = record {
    calls =
        tu.calls
        ∙ ap (λ v. k.calls t.writer ++ on_channel v cs) st.muxid
        ∙ ap (λ ms. ms ++ on_channel (k.muxid s.writer) cs) st.calls
        ∙ append_assoc (k.calls s.writer) _ _
        ∙ ap (λ ms. k.calls s.writer ++ ms) (sym (on_channel-append (k.muxid s.writer) bs cs));
    muxid = tu.muxid ∙ st.muxid;
    blocking = tu.blocking ∙ st.blocking;
    full = tu.full ∙ st.full;
  }

  -- The loop of `store` has sent the rest of a file.
  pub record Copied (rest : Bytes) (s t : Stream w) : Type 0 where
    pub packets : List Bytes
    pub chunks : AreChunks packets
    pub whole : concat packets ≡ rest
    pub sent : IsSent packets s t
    pub ready : k.ready t.writer

  length-zero : (b : Bytes) → length b ≡ 0 → b ≡ []
  length-zero [] h = refl
  length-zero (x ∷ b) h = absurd (omega (arith, h))

  -- A chunk and what is behind it.
  chunk-whole : (n : ℕ) (rest : Bytes) → take n rest ++ drop (length (take n rest)) rest ≡ rest
  chunk-whole n rest =
      let m = length (take n rest) in
      let front : take n rest ≡ take m rest =
        sym (take_all (take n rest)) ∙ take-take m n rest (omega arith) in
      ap (λ b. b ++ drop m rest) front ∙ take-append-drop m rest

  pub stream_all-Copied :
      (fuel count : ℕ) (r : FileReader) (s : Stream w)
      → k.ready s.writer
      → s.blocking ≡ true
      → length (drop r.position r.content) < fuel
      → Copied (drop r.position r.content) s (stream_all w fuel count r s).1
  unfolding stream_all
  stream_all-Copied zero count r s ready blocks enough = absurd (omega (arith, enough))
  stream_all-Copied (suc fuel) count r s ready blocks enough =
      let rest = drop r.position r.content in
      let b = chunk r s in
      let size = length-take (max_packet_length w s) rest in
      let cap = k.capacity s.writer ready in
      let bound = k.capacity-bound s.writer ready in
      elim (Bool-cases (length b == 0)) [
        | inl none_left ↦
            let nothing : length b ≡ 0 = ground (arith, none_left) in
            let step = stream-end k r s b refl nothing in
            rw (step, step, stream_all)
              (record {
                packets = [];
                chunks = tt;
                whole = sym (length-zero rest (omega (arith, size, cap, nothing)));
                sent = none-IsSent s;
                ready = ready;
              })
        | inr some_left ↦
            let more : 0 < length b = ground (arith, some_left) in
            let short : length b < 2 ^ 31 = omega (arith, size, bound) in
            let step = stream-given k r s b refl more ready short blocks in
            let going : ltb 0 (length b) ≡ true = ground (arith, more) in
            let next = record r { position = r.position + length b } in
            let shorter = length-drop (length b) rest in
            let behind = drop-drop r.position (length b) r.content in
            let shorter' : length (drop (r.position + length b) r.content)
                ≡ length rest - length b =
              ap (λ xs. length xs) (sym behind) ∙ shorter in
            let later =
              stream_all-Copied fuel ((count + length b) % 2 ^ 32) next (given s b)
                (k.send-ready s.writer b ready short) blocks
                (omega (arith, enough, more, shorter, shorter')) in
            rw (step, step, going, stream_all)
              (record {
                packets = b ∷ later.packets;
                chunks = (more, omega (arith, size, bound), later.chunks);
                whole =
                    ap (λ xs. b ++ xs) (later.whole ∙ sym behind)
                    ∙ chunk-whole (max_packet_length w s) rest;
                sent =
                    trans-IsSent (b ∷ []) later.packets s (given s b) _ (given-IsSent s b)
                      later.sent;
                ready = later.ready;
              })
      ]
