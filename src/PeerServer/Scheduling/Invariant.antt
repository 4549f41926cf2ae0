-- ===== src/PeerServer/Scheduling/Invariant.antt =====
-- src/lib/peer_server/PeerCommandRunner.cpp: one thread at a time runs a peer's commands, on the
-- buffers of each producer in their order.
use turbopump.Prelude.{
  ℕ, ◌+◌, ◌≤◌, ◌≡◌, refl, sym, ◌∙◌, ap, true, false, List, [], ◌∷◌, ◌++◌, append_assoc, append-nil,
  ◌==◌, arith, ◌⊎◌, ◌<◌, ◌≢◌, subst, Bool-cases, inl, inr, Bytes,
}
use turbopump.PeerServer.Scheduling.{
  Item, of, State, init, Step, Reach, enqueue, add_set, add_leave, work, drain, clear, check_more,
  check_done, retry_set, retry_leave, discard, here, next,
}

of-append : (p : ℕ) (xs ys : List Item) → of p (xs ++ ys) ≡ of p xs ++ of p ys
of-append p [] ys = refl
of-append p (x ∷ xs) ys = ground (arith, of-append p xs ys)

-- The first buffer of its producer goes from the queue behind those that have left it.
of-moved :
    (p : ℕ) (gone before : List Item) (x : Item) (behind : List Item)
    → of x.producer before ≡ []
    → (of p gone ++ of p (x ∷ [])) ++ of p (before ++ behind)
      ≡ of p gone ++ of p (before ++ x ∷ behind)
of-moved p gone before x behind first =
    rw (of-append p before behind, of-append p before (x ∷ behind))
      (elim (Bool-cases (x.producer == p)) [
        | inr other ↦
            rw other (
              ap (λ (bs : List Bytes). bs ++ (of p before ++ of p behind)) (append-nil (of p gone)))
        | inl same ↦
            let none_before : of p before ≡ [] = ground (arith, same, first) in
            rw (same, none_before) (append_assoc (of p gone) (x.buffer ∷ []) (of p behind))
      ])

-- The flag says whether a thread is inside, and nothing is lost from the queue.
pub record Inv (s : State) : Type 0 where
  pub held : s.running ≡ true → s.working + s.drained ≡ 1
  pub free : s.running ≡ false → s.working + s.drained ≡ 0
  pub order : (p : ℕ) → of p s.dequeued ++ of p s.queue ≡ of p s.enqueued

init-Inv : Inv init
init-Inv = record { held = λ e. cc; free = λ e. refl; order = λ p. refl }

enqueue-Inv :
    {s t : State} (x : Item)
    → t ≡ record s {
      queue = s.queue ++ x ∷ [];
      enqueued = s.enqueued ++ x ∷ [];
      adding = s.adding + 1;
    }
    → Inv s
    → Inv t
enqueue-Inv {s} x e v = subst Inv (sym e) (record {
  held = v.held;
  free = v.free;
  order = λ p.
      ap (λ bs. of p s.dequeued ++ bs) (of-append p s.queue (x ∷ []))
      ∙ sym (append_assoc (of p s.dequeued) (of p s.queue) (of p (x ∷ [])))
      ∙ ap (λ bs. bs ++ of p (x ∷ [])) (v.order p)
      ∙ sym (of-append p s.enqueued (x ∷ []));
})

-- What doWork and shutdown do to the queue.
dequeue-Inv :
    {s t : State} (before : List Item) (x : Item) (behind : List Item)
    → s.queue ≡ before ++ x ∷ behind
    → of x.producer before ≡ []
    → t ≡ record s { queue = before ++ behind; dequeued = s.dequeued ++ x ∷ [] }
    → Inv s
    → Inv t
dequeue-Inv {s} before x behind q first e v = subst Inv (sym e) (record {
  held = v.held;
  free = v.free;
  order = λ p.
      ap (λ bs. bs ++ of p (before ++ behind)) (of-append p s.dequeued (x ∷ []))
      ∙ of-moved p s.dequeued before x behind first
      ∙ ap (λ xs. of p s.dequeued ++ of p xs) (sym q)
      ∙ v.order p;
})

Step-Inv : {s t : State} → Step s t → Inv s → Inv t
Step-Inv (enqueue x e) v = enqueue-Inv x e v
Step-Inv (add_set n a r e) v = ground arith
Step-Inv (add_leave n a r e) v = ground arith
Step-Inv (work n before x behind w q first e) v = dequeue-Inv before x behind q first e v
Step-Inv (drain n w e) v = ground arith
Step-Inv (clear n d e) v = ground arith
Step-Inv (check_more n c e) v = ground arith
Step-Inv (check_done n c e) v = ground arith
Step-Inv (retry_set n a r e) v = ground arith
Step-Inv (retry_leave n a r e) v = ground arith
Step-Inv (discard before x behind q first e) v = dequeue-Inv before x behind q first e v

Reach-Inv : {s t : State} → Inv s → Reach s t → Inv t
Reach-Inv v here = v
Reach-Inv v (next r st) = Step-Inv st (Reach-Inv v r)

-- Whatever the threads do and whatever the queue's estimate of its size, at most one at a time is
-- in doWork or about to clear the flag. For each thread that enqueues, the buffers of it that have
-- left the queue, to be run or to be thrown away by shutdown, and behind them those that wait in
-- it, are all that it has enqueued, in its order and each once.
pub Reach-exclusive :
    {s : State}
    → Reach init s
    → (s.working + s.drained ≤ 1) × ((p : ℕ) → of p s.dequeued ++ of p s.queue ≡ of p s.enqueued)
Reach-exclusive r = let v = Reach-Inv init-Inv r in (ground (arith, v.held, v.free), v.order)

-- An estimate of 0, on which run returns, is right: nothing was in the queue.
abbrev pub IsRight : {s t : State} → Step s t → Type 0
IsRight {s} (check_done n c e) = s.queue ≡ []
IsRight st = Unit {0}

abbrev pub AreRight : {s t : State} → Reach s t → Type 0
AreRight here = Unit {0}
AreRight (next r st) = AreRight r × IsRight st

-- Who has left anything in the queue is on the way.
abbrev Attended : State → Type 0
Attended s = (s.queue ≡ []) ⊎ ((s.running ≡ true) ⊎ (0 < s.adding + s.checking + s.retrying))

filled : (before : List Item) (x : Item) (behind : List Item) → before ++ x ∷ behind ≢ []
filled [] x behind e = cc
filled (y ∷ before) x behind e = cc

Step-Attended : {s t : State} → (st : Step s t) → IsRight st → Inv s → Attended s → Attended t
Step-Attended (enqueue x e) right v a = ground arith
Step-Attended (add_set n h r e) right v a = ground arith
Step-Attended (add_leave n h r e) right v a = ground arith
Step-Attended (work n before x behind w q first e) right v a =
    ground (arith, v.held, v.free, filled before x behind)
Step-Attended (drain n w e) right v a = ground arith
Step-Attended (clear n d e) right v a = ground arith
Step-Attended (check_more n c e) right v a = ground arith
Step-Attended (check_done n c e) right v a = ground arith
Step-Attended (retry_set n h r e) right v a = ground arith
Step-Attended (retry_leave n h r e) right v a = ground arith
Step-Attended (discard before x behind q first e) right v a = ground (arith, filled before x behind)

Reach-Attended : {s : State} → (r : Reach init s) → AreRight r → Attended s
Reach-Attended here right = inl refl
Reach-Attended (next r st) (right, last) =
    Step-Attended st last (Reach-Inv init-Inv r) (Reach-Attended r right)

-- No buffer is left behind, as far as the estimates of size_approx allow it: if no run returned on
-- an estimate of 0 while something was in the queue, then once every thread has come to rest, in
-- addWork and in run, the queue is empty, and all that each thread has enqueued has left it, run or
-- thrown away by shutdown, in its order.
pub Reach-complete :
    {s : State} (r : Reach init s)
    → AreRight r
    → s.adding ≡ 0
    → s.working ≡ 0
    → s.drained ≡ 0
    → s.checking ≡ 0
    → s.retrying ≡ 0
    → (s.queue ≡ []) × ((p : ℕ) → of p s.dequeued ≡ of p s.enqueued)
Reach-complete {s} r right a w d c t =
    let v = Reach-Inv init-Inv r in
    let e : s.queue ≡ [] = ground (arith, v.held, v.free, Reach-Attended r right) in
    (
      e,
      λ p.
          sym (append-nil (of p s.dequeued))
          ∙ ap (λ xs. of p s.dequeued ++ of p xs) (sym e)
          ∙ v.order p,
    )
