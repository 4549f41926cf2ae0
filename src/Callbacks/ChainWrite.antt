-- ===== src/Callbacks/ChainWrite.antt =====
-- src/lib/callbacks/ChainWrite.h, for either strategy.
use turbopump.Prelude.{ℕ, Bool, false, Option, none, some}
use turbopump.Membership.Peer.{Peer}
use turbopump.Api.Instructions.{Instructions}

-- ISuperviseWrites: `open` gives the connection's pointer, and `store` what it returns.
pub record Supervisor : Type 0 where
  pub open_conn : Peer → Instructions → Option ℕ
  pub store : ℕ → Instructions → Bool

-- The end of `run`, on a connection.
unfoldable pub store_on : Supervisor → Instructions → Option ℕ → Bool × Instructions
store_on writer params none = (false, record params { outstream = none })
store_on writer params (some conn) =
    let p = record params { outstream = some conn } in (writer.store conn p, p)

unfoldable pub open_to : Supervisor → Option Peer × Instructions → Bool × Instructions
open_to writer (none, params) = (false, params)
open_to writer (some peer, params) = store_on writer params (writer.open_conn peer params)

-- ChainWrite::run: its result, and the parameters that it leaves. `choose` is the strategy.
unfoldable pub run :
    Supervisor → (Instructions → Option Peer × Instructions) → Instructions → Bool × Instructions
run writer choose params = elim params.outstream [
  | none ↦ open_to writer (choose params)
  | some conn ↦ store_on writer params (some conn)
]
