-- ===== src/Api/NodeCommands.antt =====
-- The commands that nodes send each other, and the one that drops a key:
-- src/lib/api/AckWriteCommand.cpp, OfferWriteCommand.cpp, DemandWriteCommand.cpp,
-- KeyRequestCommand.cpp, SyncCommand.cpp and DropCommand.cpp in the same folder.
pub mod Acknowledged
use turbopump.Prelude.{
  ℕ, suc, ◌+◌, Bool, true, false, Bytes, List, [], ◌∷◌, Option, none, some, leb, is_empty, ◌==◌,
  if◌then◌else◌,
}
use turbopump.Membership.Peer.{Peer}
use turbopump.Api.Instructions.{Instructions}
use turbopump.Deskew.SkewCorrector.{Store, World, drop_key, push_files, send_key}

module _ (k : Store) where
  -- `size` is readstream::size, and `key_is_mine` the locator's.
  unfoldable pub ack_write :
      (size : k.Reader → ℕ) (key_is_mine : Bytes → ℕ → Bool) (on_drop : Bool)
      → World k
      → Bytes
      → Bytes
      → ℕ
      → Bool × World k
  ack_write size key_is_mine on_drop w name version acked =
      elim (k.read w.store name version) as (λ _. Bool × World k) [
        | none ↦ (false, w)
        | some reader ↦
            if size reader == acked
            then (
              true,
              (if key_is_mine name (k.mirrors reader) then w else (drop_key k on_drop w name).1),
            )
            else (false, w)
      ]

  -- A status of 0 stands for a command that has set none.
  unfoldable pub drop_command : Bool → World k → Bytes → ℕ × World k
  drop_command on_drop w name =
      let (ok, w') = drop_key k on_drop w name in
      elim (k.read w.store name []) as (λ _. ℕ × World k) [
        | none ↦ (404, w)
        | some reader ↦ ((if ok then 200 else 500), w')
      ]

  unfoldable pub demand_write :
      (Instructions → Bool) → World k → Peer → Bytes → Bytes → Bytes → Bool × World k
  demand_write store_ok w peer name version source =
      if is_empty name
      then (false, w)
      else (true, (send_key k store_ok w peer name version source).1)

  -- The files are those that the tree of the request enumerates.
  unfoldable pub key_request : Bool → World k → Peer → List Bytes → Bool × World k
  key_request on_drop w peer files = (true, push_files k on_drop peer [] w files)

-- A demand that an offer is answered with: IMessageSender::demandWrite.
pub record Demand : Type 0 where
  pub peer : Peer
  pub name : Bytes
  pub version : Bytes
  pub source : Bytes

-- `exists` is IStore::exists.
unfoldable pub offer_write :
    (exists : Bytes → Bytes → Bool) → Peer → Bytes → Bytes → Bytes → Bool × Option Demand
offer_write exists peer name version source =
    if exists name version
    then (false, none)
    else (true, some (record { peer = peer; name = name; version = version; source = source }))

-- The comparisons that a sync asks for, with whether each is a response, up to the first point that
-- cannot be read.
unfoldable pub sync_points :
    {P : Type 0} → (Bytes → Option P) → ℕ → List Bytes → Bool × List (P × Bool)
sync_points from_string i [] = (true, [])
sync_points {P} from_string i (text ∷ rest) =
    let (ok, later) = sync_points from_string (suc i) rest in
    elim (from_string text) as (λ _. Bool × List (P × Bool)) [
      | none ↦ (false, [])
      | some point ↦ (ok, (point, leb 2 i) ∷ later)
    ]

-- `split` is turbo::str::split at the bars.
unfoldable pub sync :
    {P : Type 0} → (Bytes → List Bytes) → (Bytes → Option P) → Bytes → Bool × List (P × Bool)
sync split from_string buff =
    if is_empty buff then (false, []) else sync_points from_string 0 (split buff)
