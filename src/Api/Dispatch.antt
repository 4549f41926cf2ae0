-- ===== src/Api/Dispatch.antt =====
-- src/lib/api/Api.cpp: which command a request is for. `unpack` is msgpack's reading of a request
-- for a command, which fails by an exception, and `load` the reading of parameters.
use turbopump.Prelude.{
  ℕ, Bytes, List, [], ◌∷◌, Option, none, some, codes, str_eq, ◌==◌, if◌then◌else◌,
}

-- The commands, as their constructors are called: `write` with the callback of local writes and
-- `mirror_write` with that of mirrored ones, `status` with its view.
pub data Kind : Type 0 where
  add_peer copy delete drop list_keys read remove_peer : Kind
  status : Bytes → Kind
  wait write mirror_write : Kind
  ack_write demand_write key_request offer_write sync : Kind

-- The table `_commands`.
unfoldable pub commands : List (Bytes × ℕ)
commands =
    (codes "add-peer", 6)
    ∷ (codes "copy", 10)
    ∷ (codes "delete", 5)
    ∷ (codes "drop", 4)
    ∷ (codes "list-keys", 3)
    ∷ (codes "read", 2)
    ∷ (codes "remove-peer", 7)
    ∷ (codes "status", 107)
    ∷ (codes "membership", 108)
    ∷ (codes "ring", 109)
    ∷ (codes "wait", 8)
    ∷ (codes "write", 0)
    ∷ []

table : List (ℕ × Kind)
table =
    (6, add_peer)
    ∷ (10, copy)
    ∷ (5, delete)
    ∷ (4, drop)
    ∷ (3, list_keys)
    ∷ (2, read)
    ∷ (7, remove_peer)
    ∷ (107, status [])
    ∷ (108, status (codes "membership"))
    ∷ (109, status (codes "ring"))
    ∷ (8, wait)
    ∷ (0, write)
    ∷ (100, mirror_write)
    ∷ (101, ack_write)
    ∷ (106, demand_write)
    ∷ (103, key_request)
    ∷ (105, offer_write)
    ∷ (102, sync)
    ∷ []

select : ℕ → List (ℕ × Kind) → Option Kind
select id [] = none
select id ((j, kind) ∷ rest) = let later = select id rest in if j == id then some kind else later

-- command_impl on an id
unfoldable pub command_of_id : ℕ → Option Kind
unfolding table select
command_of_id id = select id table

find_id : Bytes → List (Bytes × ℕ) → Option ℕ
find_id name [] = none
find_id name ((j, id) ∷ rest) =
    let later = find_id name rest in if str_eq j name then some id else later

-- command_impl on a name
unfoldable pub command_of_name : Bytes → Option Kind
unfolding find_id commands
command_of_name name = elim (find_id name commands) [ none ↦ none | some id ↦ command_of_id id ]

module _ {R : Type 0} where
  -- A command with its request.
  unfoldable pub command : (unpack : Kind → Bytes → Option R) → ℕ → Bytes → Option (Kind × R)
  command unpack id buff = elim (command_of_id id) [
    | none ↦ none
    | some kind ↦ elim (unpack kind buff) [ none ↦ none | some request ↦ some (kind, request) ]
  ]

  unfoldable pub named_command :
      {P : Type 0} → (load : Kind → P → R) → Bytes → P → Option (Kind × R)
  named_command load name params = elim (command_of_name name) [
    | none ↦ none
    | some kind ↦ some (kind, load kind params)
  ]
