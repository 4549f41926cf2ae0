-- ===== src/Membership/Peer.antt =====
-- src/lib/membership/Peer.cpp.
use turbopump.Prelude.{
  ℕ, ◌+◌, ◌%◌, ◌<◌, ◌≢◌, Bytes, List, [], ◌∷◌, ◌++◌, Option, none, some, codes, str_eq, is_empty,
  ◌==◌, if◌then◌else◌, arith,
}

pub record Peer : Type 0 where
  pub uid : Bytes
  pub ips : List Bytes

-- Peer::address
abbrev pub address : Peer → Bytes
address p = elim p.ips [ [] ↦ [] | ip ∷ rest ↦ ip ]

-- nextActionId on the atomic `unsigned char`: what it returns, which is also what it leaves.
unfoldable pub next_action_id : ℕ → ℕ
next_action_id id = let res = (id + 1) % 256 in if res == 0 then (res + 1) % 256 else res

-- An action id is a byte other than 0, and never the one before it.
next_action_id_bounds :
    (id : ℕ)
    → id < 256
    → (0 < next_action_id id) × (next_action_id id < 256) × (next_action_id id ≢ id)
unfolding next_action_id
next_action_id_bounds id h = (ground arith, ground arith, ground arith)

-- turbo::str::split and turbo::str::join of the library beside the program.
pub record Text : Type 0 where
  pub split : Bytes → ℕ → List Bytes
  pub join : List Bytes → ℕ → Bytes

module _ (text : Text) where
  unfoldable pub to_string : Peer → Bytes
  to_string p =
      let iplist = text.join p.ips b'|' in
      p.uid ++ (codes " " ++ (if is_empty iplist then codes "none" else iplist))

  -- fromString on a peer: none for false.
  unfoldable pub from_string : Peer → Bytes → Option Peer
  from_string p serial = elim (text.split serial b' ') [
    | uid ∷ ips ∷ rest ↦ some (record {
      uid = uid;
      ips = if str_eq ips (codes "none") then p.ips else text.split ips b'|';
    })
    | _ ↦ none
  ]
