-- ===== src/PeerClient/PartialTransfers/Queue.antt =====
-- src/lib/peer_client/PartialTransfers.cpp: transfers run in their order, and none is lost.
use turbopump.Prelude.{
  ℕ, zero, suc, ◌≤◌, ◌≡◌, refl, sym, ◌∙◌, ap, Bool, true, false, List, [], ◌∷◌, ◌++◌, append_assoc,
  append-nil, length, arith, Bool-cases, inl, inr, ◌⊎◌,
}
use turbopump.PeerClient.PartialTransfers.{Called, Transfers, run}

module _ {F S : Type 0} (call : F → S → Called F S) where
  -- The run has called the whole queue and is done.
  abbrev pub Drained : List F → List F → Bool × Transfers F S → Type 0
  Drained queue log result =
      (result.0 ≡ true) × (result.1.queue ≡ []) × (result.1.log ≡ log ++ queue)

  -- A call of the transfer at `paused` was not done: it and those before it have been called, those
  -- behind it wait, and behind them what it has added.
  pub record Paused (queue log : List F) (result : Bool × Transfers F S) : Type 0 where
    pub before : List F
    pub paused : F
    pub behind : List F
    pub state : S
    pub whole : queue ≡ before ++ paused ∷ behind
    pub returned : result.0 ≡ false
    pub called : result.1.log ≡ log ++ (before ++ paused ∷ [])
    pub undone : (call paused state).done ≡ false
    pub left : result.1.queue ≡ behind ++ (call paused state).added

  prepend :
      (f : F) (rest log : List F) (result : Bool × Transfers F S)
      → Drained rest (log ++ f ∷ []) result ⊎ Paused rest (log ++ f ∷ []) result
      → Drained (f ∷ rest) log result ⊎ Paused (f ∷ rest) log result
  prepend f rest log result (inl (done, empty, called)) =
      inl (done, empty, called ∙ append_assoc log (f ∷ []) rest)
  prepend f rest log result (inr p) = inr (record {
    before = f ∷ p.before;
    paused = p.paused;
    behind = p.behind;
    state = p.state;
    whole = ap (λ xs. f ∷ xs) p.whole;
    returned = p.returned;
    called = p.called ∙ append_assoc log (f ∷ []) (p.before ++ p.paused ∷ []);
    undone = p.undone;
    left = p.left;
  })

  -- A run of the waiting transfers, with fuel for them all, where a transfer that is done adds none:
  -- it calls them in their order, and either calls them all and is done, or stops at the first
  -- that is not done. Then those behind it still wait in their order, and behind them what it has
  -- added.
  pub run-Drained :
      ((f : F) (s : S) → (call f s).done ≡ true → (call f s).added ≡ [])
      → (fuel : ℕ) (queue log : List F) (s : S) → length queue ≤ fuel
      → Drained queue log (run call fuel (record { queue = queue; state = s; log = log }))
        ⊎ Paused queue log (run call fuel (record { queue = queue; state = s; log = log }))
  unfolding run
  run-Drained adds_none zero [] log s enough = inl (refl, refl, sym (append-nil log))
  run-Drained adds_none zero (f ∷ rest) log s enough = absurd (omega arith)
  run-Drained adds_none (suc fuel) [] log s enough = inl (refl, refl, sym (append-nil log))
  run-Drained adds_none (suc fuel) (f ∷ rest) log s enough =
      let later = run-Drained adds_none fuel rest (log ++ f ∷ []) (call f s).state (omega arith) in
      elim (Bool-cases (call f s).done) [
        | inl done ↦ rw (done, adds_none f s done, append-nil rest) (prepend f rest log _ later)
        | inr undone ↦ rw undone (
            inr (record {
              before = [];
              paused = f;
              behind = rest;
              state = s;
              whole = refl;
              returned = refl;
              called = refl;
              undone = undone;
              left = refl;
            }))
      ]
