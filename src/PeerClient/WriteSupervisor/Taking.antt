-- ===== src/PeerClient/WriteSupervisor/Taking.antt =====
-- src/lib/peer_client/WriteSupervisor.cpp: a writer that takes all that its `send` is given.
use turbopump.Prelude.{
  ℕ, suc, ◌+◌, ◌^◌, ◌<◌, ◌≤◌, ◌≡◌, refl, ap, Bool, true, false, not, ◌&&◌, Bytes, List, [], ◌∷◌,
  ◌++◌, length, take, drop, ltb, arith, Bool-cases, inl, inr,
}
use turbopump.Wire.Socket.{pos}
use turbopump.Api.Instructions.{Instructions}
use turbopump.PeerServer.CommandRunner.Written.{Messages}
use turbopump.PeerClient.ConnectionWriteStream.{Writer, Stream, max_packet_length, write}
use turbopump.Storage.FileReader.{FileReader, set_position, stream}
use turbopump.PeerClient.WriteSupervisor.{stream_all, finish, store, Server}

abbrev pub file : Bytes → FileReader
file content = record { content = content; position = 0 }

module _ {w : Writer} where
  -- `store` behind the seek.
  pub stored :
      (i : Instructions) (content : Bytes) (background : Bool) (s : Stream w)
      → (s.background && not background) ≡ false
      → i.offset < 2 ^ 63
      → store w s i (file content) background
        ≡ finish w i (
            stream_all w
              (suc (length content))
              0
              (record { content = content; position = i.offset })
              s)
  stored i content background s here small =
      let fits : ltb i.offset (2 ^ 63) ≡ true = ground (arith, small) in
      elim (Bool-cases (ltb 0 i.offset)) [
        | inl behind ↦ unfold store set_position in simp (here, behind, fits) refl
        | inr front ↦
            let e : i.offset ≡ 0 = ground (arith, front) in unfold store in rw (here, front, e) refl
      ]

-- A writer that is ready has a `send` that takes all that it is given: it returns the length. `calls` is what `send` has
-- been called with so far, each with the channel that was set. What the writer makes of the calls,
-- the frames that it cuts them into and an end that it may lose, is the matter of BufferedWriter.
pub record IsTaking {w : Writer} (server : Server w) : Type 1 where
  pub calls : w.State → Messages
  pub muxid : w.State → ℕ
  pub ready : w.State → Type 0
  pub capacity : (s : w.State) → ready s → 0 < w.capacity s
  pub capacity-bound : (s : w.State) → ready s → w.capacity s ≤ 65536
  pub send_result :
      (s : w.State) (b : Bytes) → ready s → length b < 2 ^ 31 → (w.send s b).0 ≡ pos (length b)
  pub send-ready : (s : w.State) (b : Bytes) → ready s → length b < 2 ^ 31 → ready (w.send s b).1
  pub set-ready : (s : w.State) (id : ℕ) → ready s → ready (server.set_muxid s id)
  pub send-calls : (s : w.State) (b : Bytes) → calls (w.send s b).1 ≡ calls s ++ (muxid s, b) ∷ []
  pub send-muxid : (s : w.State) (b : Bytes) → muxid (w.send s b).1 ≡ muxid s
  pub flush-calls : (s : w.State) (blocking : Bool) → calls (w.flush s blocking).1 ≡ calls s
  pub flush-muxid : (s : w.State) (blocking : Bool) → muxid (w.flush s blocking).1 ≡ muxid s
  pub set-muxid : (s : w.State) (id : ℕ) → muxid (server.set_muxid s id) ≡ id
  pub set-calls : (s : w.State) (id : ℕ) → calls (server.set_muxid s id) ≡ calls s

abbrev pub on_channel : ℕ → List Bytes → Messages
on_channel v [] = []
on_channel v (b ∷ bs) = (v, b) ∷ on_channel v bs

pub on_channel-append :
    (v : ℕ) (bs cs : List Bytes) → on_channel v (bs ++ cs) ≡ on_channel v bs ++ on_channel v cs
on_channel-append v [] cs = refl
on_channel-append v (b ∷ bs) cs = ap (λ ms. (v, b) ∷ ms) (on_channel-append v bs cs)

module _ {w : Writer} where
  abbrev pub chunk : FileReader → Stream w → Bytes
  chunk r s = take (max_packet_length w s) (drop r.position r.content)

  abbrev pub given : Stream w → Bytes → Stream w
  given s b = record s { writer = (w.send s.writer b).1 }

module _ {w : Writer} {server : Server w} (k : IsTaking server) where
  pub write-given :
      (s : Stream w) (b : Bytes)
      → k.ready s.writer
      → length b < 2 ^ 31
      → s.blocking ≡ true
      → write w s b ≡ (pos (length b), given s b)
  write-given s b ready short blocks =
      unfold write in simp (blocks, k.send_result s.writer b ready short) refl

  pub stream-end :
      (r : FileReader) (s : Stream w) (b : Bytes)
      → chunk r s ≡ b
      → length b ≡ 0
      → stream w r s ≡ (pos 0, r, s)
  stream-end r s [] e h = unfold stream in rw (e, stream) refl
  stream-end r s (x ∷ xs) e h = absurd (omega (arith, h))

  pub stream-given :
      (r : FileReader) (s : Stream w) (b : Bytes)
      → chunk r s ≡ b
      → 0 < length b
      → k.ready s.writer
      → length b < 2 ^ 31
      → s.blocking ≡ true
      → stream w r s ≡ (pos (length b), record r { position = r.position + length b }, given s b)
  stream-given r s [] e h ready short blocks = absurd (omega (arith, h))
  stream-given r s (x ∷ xs) e h ready short blocks =
      unfold stream in rw (e, e, write-given s (x ∷ xs) ready short blocks, stream) refl
