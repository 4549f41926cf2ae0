-- ===== src/PeerClient/WriteSupervisor/Sent.antt =====
-- src/lib/peer_client/WriteSupervisor.cpp: a file that is stored to a peer over a connection that
-- blocks.
use turbopump.Prelude.{
  ℕ, suc, ◌^◌, ◌<◌, ◌≡◌, refl, sym, ◌∙◌, ap, Bool, true, false, not, ◌&&◌, Bytes, List, [], ◌∷◌,
  ◌++◌, append-nil, Option, some, length, drop, length-drop, arith, Bool-cases, inl, inr,
}
use turbopump.Api.Instructions.{Instructions}
use turbopump.Membership.Peer.{Peer, next_action_id}
use turbopump.Api.WriteCommand.Upload.{AreChunks, concat}
use turbopump.PeerClient.ConnectionWriteStream.{Writer, Stream, new, flush}
use turbopump.Storage.FileReader.{FileReader}
use turbopump.PeerClient.WriteSupervisor.{
  Outcome, stream_all, finish, store, Server, req_header, writer_of, open_conn, store_to,
}
use turbopump.PeerClient.WriteSupervisor.Taking.{
  file, stored, IsTaking, on_channel, given, write-given,
}
use turbopump.PeerClient.WriteSupervisor.Copied.{
  IsSent, none-IsSent, given-IsSent, trans-IsSent, stream_all-Copied,
}

module _ {w : Writer} {server : Server w} (k : IsTaking server) where
  flush-IsSent : (s : Stream w) → IsSent k [] s (flush w s).1
  unfolding flush
  flush-IsSent s = record {
    calls = k.flush-calls s.writer s.blocking ∙ sym (append-nil (k.calls s.writer));
    muxid = k.flush-muxid s.writer s.blocking;
    blocking = refl;
    full = refl;
  }

  -- The mark of the end, behind a file that is complete.
  abbrev pub end_of : Bool → List Bytes
  end_of true = [] ∷ []
  end_of false = []

  finish-IsSent :
      (i : Instructions) (bytes : ℕ) (s : Stream w)
      → k.ready s.writer
      → s.blocking ≡ true
      → s.full ≡ false
      → ((finish w i (bytes, s)).done ≡ true)
        × IsSent k (end_of i.is_complete) s (finish w i (bytes, s)).conn
  finish-IsSent i bytes s ready blocks unfilled = elim (Bool-cases i.is_complete) [
    | inl complete ↦
        let step = write-given k s [] ready (omega arith) blocks in
        let ended : IsSent k ([] ∷ []) s (flush w (given s [])).1 =
          trans-IsSent k ([] ∷ []) [] s (given s []) _ (given-IsSent k s [])
            (flush-IsSent (given s [])) in
        unfold finish in simp (unfilled, complete) (rw step (refl, ended))
    | inr incomplete ↦ unfold finish in simp (unfilled, incomplete) (refl, none-IsSent k s)
  ]

  -- What a store to a peer leaves. On the channel of the peer's next action id, its connection has
  -- got the request, the packets, which make up `rest`, and the mark of the end of a file that is
  -- complete.
  pub record Delivered (rest : Bytes) (header : Bytes) (complete : Bool) (muxid : ℕ)
      (before : w.State) (result : Option (Outcome w) × ℕ) : Type 0 where
    pub out : Outcome w
    pub opened : result ≡ (some out, muxid)
    pub done : out.done ≡ true
    pub packets : List Bytes
    pub chunks : AreChunks packets
    pub whole : concat packets ≡ rest
    pub calls :
        k.calls out.conn.writer
        ≡ k.calls before ++ on_channel muxid (header ∷ (packets ++ end_of complete))

  store-IsSent :
      (i : Instructions) (content : Bytes) (s : Stream w)
      → k.ready s.writer
      → s.blocking ≡ true
      → s.full ≡ false
      → s.background ≡ false
      → i.offset < 2 ^ 63
      → ((store w s i (file content) false).done ≡ true)
        × (c : (packets : List Bytes) × AreChunks packets
            × (concat packets ≡ drop i.offset content))
        × IsSent k (c.0 ++ end_of i.is_complete) s (store w s i (file content) false).conn
  store-IsSent i content s ready blocks unfilled front seekable =
      let r : FileReader = record { content = content; position = i.offset } in
      let shorter = length-drop i.offset content in
      let c =
        stream_all-Copied k (suc (length content)) 0 r s ready blocks (omega (arith, shorter)) in
      let looped = stream_all w (suc (length content)) 0 r s in
      let (done, ended) =
        finish-IsSent i looped.0 looped.1 c.ready (c.sent.blocking ∙ blocks)
          (c.sent.full ∙ unfilled) in
      let here : (s.background && not false) ≡ false = rw front refl in
      rw (stored i content false s here seekable)
        (done, (c.packets, c.chunks, c.whole), trans-IsSent k c.packets _ s looped.1 _ c.sent ended)

  pub store_to-Delivered :
      (serialize : Instructions → Bytes) (peer : Peer) (id : ℕ) (i : Instructions) (content : Bytes)
      (writer : w.State)
      → writer_of server peer ≡ some writer
      → k.ready writer
      → length (req_header serialize i) < 2 ^ 31
      → i.offset < 2 ^ 63
      → Delivered
          (drop i.offset content)
          (req_header serialize i)
          i.is_complete
          (next_action_id id)
          writer
          (store_to server serialize peer id i (file content))
  store_to-Delivered serialize peer id i content writer known ready short seekable =
      let muxid = next_action_id id in
      let header = req_header serialize i in
      let conn = new w (server.set_muxid writer muxid) true in
      let s = given conn header in
      let set = k.set-ready writer muxid ready in
      let opened : open_conn server serialize peer id i true ≡ (some s, muxid) =
        unfold open_conn in rw (known, write-given k conn header set short refl, open_conn) refl in
      let (done, (packets, chunks, whole), sent) =
        store-IsSent i content s (k.send-ready conn.writer header set short) refl refl refl
          seekable in
      let first = trans-IsSent k (header ∷ []) _ conn s _ (given-IsSent k conn header) sent in
      record {
        out = store w s i (file content) false;
        opened = unfold store_to in rw opened refl;
        done = done;
        packets = packets;
        chunks = chunks;
        whole = whole;
        calls =
            first.calls
            ∙ ap
                (λ ms.
                  ms
                  ++ on_channel (k.muxid conn.writer) (header ∷ (packets ++ end_of i.is_complete)))
                (k.set-calls writer muxid)
            ∙ ap (λ v. k.calls writer ++ on_channel v (header ∷ (packets ++ end_of i.is_complete)))
                (k.set-muxid writer muxid);
      }
