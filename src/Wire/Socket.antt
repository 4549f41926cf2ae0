-- ===== src/Wire/Socket.antt =====
-- The sockets of the library beside the program. `BufferedConnectionWriter` is a template over them.
use turbopump.Prelude.{ℕ, ◌≡◌, zero, suc, Bool, true, false, Bytes, ◌++◌, length}

-- The result of a call that returns an `int`: a byte count, or minus (n + 1).
pub data ℤ : Type 0 where
  pos : ℕ → ℤ
  negsuc : ℕ → ℤ

-- An `int` where a `bool` is expected.
abbrev pub to_bool : ℤ → Bool
to_bool (pos zero) = false
to_bool (pos (suc n)) = true
to_bool (negsuc n) = true

pub record Socket : Type 1 where
  pub State : Type 0
  pub send : State → Bytes → ℤ × State
  pub try_send : State → Bytes → ℤ × State

-- A socket on which nothing fails: whatever it is given goes out, and it says so.
pub record IsReliable (k : Socket) : Type 0 where
  pub sent : k.State → Bytes
  pub send_result : (s : k.State) (b : Bytes) → (k.send s b).0 ≡ pos (length b)
  pub send_sent : (s : k.State) (b : Bytes) → sent (k.send s b).1 ≡ sent s ++ b
  pub try_send_result : (s : k.State) (b : Bytes) → (k.try_send s b).0 ≡ pos (length b)
  pub try_send_sent : (s : k.State) (b : Bytes) → sent (k.try_send s b).1 ≡ sent s ++ b
