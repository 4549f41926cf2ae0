-- ===== src/PeerClient/PartialTransfers.antt =====
-- src/lib/peer_client/PartialTransfers.cpp: the transfers that wait for one connection. Each is
-- known by what it is called with. The server, which is told to wait for the writer when one is
-- added, is left out.
pub mod Queue
pub mod Resumes
use turbopump.Prelude.{
  ℕ, zero, suc, Bool, true, false, List, [], ◌∷◌, ◌++◌, is_empty, if◌then◌else◌,
}

-- What a call of a transfer returns, the transfers that it adds, and the state behind it.
pub record Called (F S : Type 0) : Type 0 where
  pub done : Bool
  pub added : List F
  pub state : S

-- `log` keeps the transfers that have been called, the first one first.
pub record Transfers (F S : Type 0) : Type 0 where
  pub queue : List F
  pub state : S
  pub log : List F

module _ {F S : Type 0} where
  unfoldable pub add : Transfers F S → F → Transfers F S
  add t f = record t { queue = t.queue ++ f ∷ [] }

  abbrev pub empty : Transfers F S → Bool
  empty t = is_empty t.queue

  abbrev pub after_call : Transfers F S → F → List F → Called F S → Transfers F S
  after_call t f rest c = record { queue = rest ++ c.added; state = c.state; log = t.log ++ f ∷ [] }

  -- The calls until one is not done or none is left. The result is whether the server is done with
  -- the connection. The fuel bounds the calls.
  unfoldable pub run : (call : F → S → Called F S) → ℕ → Transfers F S → Bool × Transfers F S
  run call zero t = (empty t, t)
  run call (suc fuel) t = elim t.queue as (λ _. Bool × Transfers F S) [
    | [] ↦ (true, t)
    | f ∷ rest ↦
        let c = call f t.state in
        let later = run call fuel (after_call t f rest c) in
        if c.done then later else (false, after_call t f rest c)
  ]
