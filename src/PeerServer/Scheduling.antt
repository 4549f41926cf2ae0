-- ===== src/PeerServer/Scheduling.antt =====
-- src/lib/peer_server/PeerCommandRunner.cpp, addWork, run, doWork and shutdown, and
-- src/lib/peer_server/ConcurrentCommandCenter.cpp, run: any number of threads over one runner.
-- Each constructor of `Step` is one atomic action of the queue or of the flag. The queue is
-- moodycamel::ConcurrentQueue, of which only what it documents is taken: it keeps the order of each
-- producer and no order among them, `try_dequeue` may find nothing while others are at work, and
-- `size_approx` is an estimate, which is left open. The executor runs each task once.
pub mod Invariant
use turbopump.Prelude.{
  ℕ, suc, ◌+◌, ◌≡◌, Bool, true, false, Bytes, List, [], ◌∷◌, ◌++◌, ◌==◌, if◌then◌else◌,
}

-- A buffer and the thread that has enqueued it.
pub record Item : Type 0 where
  pub producer : ℕ
  pub buffer : Bytes

-- The buffers of one producer.
abbrev pub of : ℕ → List Item → List Bytes
of p [] = []
of p (x ∷ xs) = let rest = of p xs in if x.producer == p then x.buffer ∷ rest else rest

-- Where the threads stand, as counts.
pub record State : Type 0 where
  -- _buffers, the oldest first, and _running
  pub queue : List Item
  pub running : Bool
  -- in addWork, between enqueue and test_and_set
  pub adding : ℕ
  -- in run, given to the executor or in doWork
  pub working : ℕ
  -- in run, behind doWork and before clear
  pub drained : ℕ
  -- in run, behind clear and before size_approx
  pub checking : ℕ
  -- in run, behind size_approx > 0 and before test_and_set
  pub retrying : ℕ
  -- what has been enqueued so far, and what has been dequeued, to be run by doWork or to be thrown
  -- away by shutdown, the oldest first
  pub enqueued : List Item
  pub dequeued : List Item

abbrev pub init : State
init = record {
  queue = [];
  running = false;
  adding = 0;
  working = 0;
  drained = 0;
  checking = 0;
  retrying = 0;
  enqueued = [];
  dequeued = [];
}

pub data Step (s t : State) : Type 0 where
  -- addWork: enqueue
  enqueue :
      (x : Item)
      → t ≡ record s {
        queue = s.queue ++ x ∷ [];
        enqueued = s.enqueued ++ x ∷ [];
        adding = s.adding + 1;
      }
      → Step s t
  -- addWork: test_and_set returns false, and the command center hands `run` to the executor
  add_set :
      (n : ℕ)
      → s.adding ≡ suc n
      → s.running ≡ false
      → t ≡ record s { adding = n; running = true; working = s.working + 1 }
      → Step s t
  -- addWork: test_and_set returns true
  add_leave : (n : ℕ) → s.adding ≡ suc n → s.running ≡ true → t ≡ record s { adding = n } → Step s t
  -- doWork: try_dequeue finds a buffer, the first of some producer, and it is parsed and run
  work :
      (n : ℕ) (before : List Item) (x : Item) (behind : List Item)
      → s.working ≡ suc n
      → s.queue ≡ before ++ x ∷ behind
      → of x.producer before ≡ []
      → t ≡ record s { queue = before ++ behind; dequeued = s.dequeued ++ x ∷ [] }
      → Step s t
  -- doWork: try_dequeue finds nothing
  drain :
      (n : ℕ) → s.working ≡ suc n → t ≡ record s { working = n; drained = s.drained + 1 } → Step s t
  -- run: _running.clear()
  clear :
      (n : ℕ)
      → s.drained ≡ suc n
      → t ≡ record s { drained = n; running = false; checking = s.checking + 1 }
      → Step s t
  -- run: size_approx() > 0
  check_more :
      (n : ℕ)
      → s.checking ≡ suc n
      → t ≡ record s { checking = n; retrying = s.retrying + 1 }
      → Step s t
  -- run: size_approx() == 0, and run returns
  check_done : (n : ℕ) → s.checking ≡ suc n → t ≡ record s { checking = n } → Step s t
  -- run: test_and_set returns false, and the loop goes on
  retry_set :
      (n : ℕ)
      → s.retrying ≡ suc n
      → s.running ≡ false
      → t ≡ record s { retrying = n; running = true; working = s.working + 1 }
      → Step s t
  -- run: test_and_set returns true, and run returns
  retry_leave :
      (n : ℕ) → s.retrying ≡ suc n → s.running ≡ true → t ≡ record s { retrying = n } → Step s t
  -- shutdown: try_dequeue finds a buffer, which is thrown away
  discard :
      (before : List Item) (x : Item) (behind : List Item)
      → s.queue ≡ before ++ x ∷ behind
      → of x.producer before ≡ []
      → t ≡ record s { queue = before ++ behind; dequeued = s.dequeued ++ x ∷ [] }
      → Step s t

pub data Reach (s : State) : State → Type 0 where
  here : Reach s s
  next : {t u : State} → Reach s t → Step t u → Reach s u
