-- ===== src/PeerClient/PartialTransfers/Resumes.antt =====
-- src/lib/peer_client/PartialTransfers.cpp on the transfers that
-- src/lib/peer_client/WriteSupervisor.cpp adds.
use turbopump.Prelude.{
  ℕ, suc, ◌≡◌, refl, sym, ◌∙◌, ap, Bool, true, false, not, ◌&&◌, Bytes, List, [], ◌∷◌, Option, none,
  some, length, ◌==◌, ltb, if◌then◌else◌, arith, Bool-cases, Option-cases, inl, inr, ◌⊎◌,
}
use turbopump.Api.Instructions.{Instructions}
use turbopump.Storage.FileReader.{FileReader, size, set_position}
use turbopump.PeerClient.ConnectionWriteStream.{Writer, Stream}
use turbopump.PeerClient.WriteSupervisor.{Outcome, stream_all, finish, store, resume}
use turbopump.PeerClient.PartialTransfers.{Called, run}
use turbopump.PeerClient.PartialTransfers.Queue.{Drained, Paused, run-Drained}

module _ (w : Writer) (read : Bytes → Bytes → Option FileReader) where
  abbrev pub added_of : ℕ → Option Instructions → List (ℕ × Instructions)
  added_of place none = []
  added_of place (some i) = (place, i) ∷ []

  -- A transfer that WriteSupervisor::store adds is a call of its resume, with its own `outstream`,
  -- which is not NULL: it stands beside the instructions, as its place among the streams.
  abbrev pub Transfer : Type 0
  Transfer = ℕ × Instructions

  abbrev pub call_resume : Transfer → (ℕ → Stream w) → Called Transfer (ℕ → Stream w)
  call_resume (place, i) conns =
      let out = resume w read (conns place) i in
      record {
        done = out.done;
        added = added_of place out.transfer;
        state = λ j. if place == j then out.conn else conns j;
      }

  finish_adds :
      (i : Instructions) (p : ℕ × Stream w)
      → (finish w i p).done ≡ true
      → (finish w i p).transfer ≡ none
  finish_adds i (bytes, conn) h = elim (Bool-cases conn.full) [
    | inl full ↦
        let undone : (finish w i (bytes, conn)).done ≡ false = unfold finish in simp full refl in
        cc (h, undone)
    | inr open_still ↦ unfold finish in simp open_still refl
  ]

  store_adds :
      (conn : Stream w) (i : Instructions) (r : FileReader) (background : Bool)
      → (store w conn i r background).done ≡ true
      → (store w conn i r background).transfer ≡ none
  store_adds conn i r background h = elim (Bool-cases (conn.background && not background)) [
    | inl handed_over ↦
        let undone : (store w conn i r background).done ≡ false =
          unfold store in simp handed_over refl in
        cc (h, undone)
    | inr here ↦
        let moved : Bool × FileReader =
          if ltb 0 i.offset then set_position r i.offset else (true, r) in
        let p = stream_all w (suc (size r)) 0 moved.1 conn in
        elim (Bool-cases moved.0) [
          | inl seeks ↦
              let step : store w conn i r background ≡ finish w i p =
                unfold store in simp (here, seeks) refl in
              ap (λ (o : Outcome w). o.transfer) step
              ∙ finish_adds i p (sym (ap (λ (o : Outcome w). o.done) step) ∙ h)
          | inr refused ↦
              let undone : (store w conn i r background).done ≡ false =
                unfold store in simp (here, refused) refl in
              cc (h, undone)
        ]
  ]

  call_resume-adds :
      (f : Transfer) (conns : ℕ → Stream w)
      → (call_resume f conns).done ≡ true
      → (call_resume f conns).added ≡ []
  call_resume-adds (place, i) conns h = elim (Option-cases (read i.name i.version)) [
    | inl missing ↦ unfold resume in rw (missing, resume) refl
    | inr (r, found) ↦
        let step : resume w read (conns place) i ≡ store w (conns place) i r true =
          unfold resume in rw (found, resume) refl in
        let none_added =
          store_adds (conns place) i r true (sym (ap (λ (o : Outcome w). o.done) step) ∙ h) in
        ap (λ (o : Outcome w). added_of place o.transfer) step ∙ ap (added_of place) none_added
  ]

  -- When a connection has room again, the transfers that WriteSupervisor has left for it run in
  -- their order: either all are done, each called once and none added, or they stop at the first
  -- that is not done, behind which the others keep their order, ahead of what it has added. As
  -- many calls as there are transfers are enough, whatever the connection takes.
  pub run_resumes :
      (queue log : List Transfer) (conns : ℕ → Stream w)
      → Drained call_resume queue log
          (run call_resume (length queue) (record { queue = queue; state = conns; log = log }))
        ⊎ Paused call_resume queue log
            (run call_resume (length queue) (record { queue = queue; state = conns; log = log }))
  run_resumes queue log conns =
      run-Drained call_resume call_resume-adds (length queue) queue log conns (omega arith)
