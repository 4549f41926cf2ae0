-- ===== src/UserServer/UserPacketHandler.antt =====
-- src/lib/user_server/UserPacketHandler.cpp: the connection of a user. `feed` is the context's, and
-- the reads are those of the stream, up to the first that gives nothing.
use turbopump.Prelude.{ℕ, Bool, Bytes, List, [], ◌∷◌, Option, none, some, is_empty, if◌then◌else◌}

-- The loop of `run` over what is read.
unfoldable pub run : {C : Type 0} → (feed : C → Bytes → Bool × C) → C → List Bytes → C
run feed context [] = context
run feed context (chunk ∷ rest) =
    let fed = feed context chunk in
    let later = run feed fed.1 rest in
    if is_empty chunk then context else if fed.0 then later else fed.1

-- What is done to the stream, the last first.
pub data Action : Type 0 where
  set_status : ℕ → Action
  write : Bytes → Action
  reset : Action

unfoldable pub send_response : ℕ → List Action → List Action
send_response status done = reset ∷ write [] ∷ set_status status ∷ done

-- `api` is Api::command, and `set_writer` gives the command the stream.
unfoldable pub command :
    {K P : Type 0} → (api : Bytes → P → Option K) → (set_writer : K → K) → Bytes → P → Option K
command api set_writer cmd params = elim (api cmd params) [
  | none ↦ none
  | some c ↦ some (set_writer c)
]
