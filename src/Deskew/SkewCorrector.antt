-- ===== src/Deskew/SkewCorrector.antt =====
-- src/lib/deskew/SkewCorrector.cpp: what is offered to a peer, and what is dropped.
pub mod Kept
use turbopump.Prelude.{
  ℕ, Bool, true, false, Bytes, List, [], ◌∷◌, Option, none, some, if◌then◌else◌,
}
use turbopump.Membership.Peer.{Peer}
use turbopump.Api.Instructions.{Instructions, fresh}

-- IStore, as the corrector uses it. A reader is known by its `mirrors`; `versions` includes those in
-- progress.
pub record Store : Type 1 where
  pub State : Type 0
  pub Reader : Type 0
  pub mirrors : Reader → ℕ
  pub read : State → Bytes → Bytes → Option Reader
  pub versions : State → Bytes → List Bytes
  pub is_expired : Bytes → Bool
  pub remove : State → Bytes → Bool × State

-- What the corrector makes others do: IMessageSender::offerWrite, the callback
-- when_drop_finishes, and ISuperviseWrites::store.
pub data Effect (R : Type 0) : Type 0 where
  offer_write : Peer → Bytes → Bytes → Bytes → Effect R
  dropped : Bytes → ℕ → Effect R
  sent : Peer → Instructions → R → Effect R

module _ (k : Store) where
  -- The effects so far, the last first.
  pub record World : Type 0 where
    pub store : k.State
    pub effects : List (Effect k.Reader)

  abbrev tell : World → Effect k.Reader → World
  tell w e = record w { effects = e ∷ w.effects }

  -- dropKey, with whether the option has a callback.
  unfoldable pub drop_key : Bool → World → Bytes → Bool × World
  drop_key on_drop w name =
      let (removed, store) = k.remove w.store name in
      let w' = record w { store = store } in
      elim (k.read w.store name []) as (λ _. Bool × World) [
        | none ↦ (false, w)
        | some reader ↦
            if removed
            then (true, (if on_drop then tell w' (dropped name (k.mirrors reader)) else w'))
            else (false, w')
      ]

  unfoldable pub offer_versions : Peer → Bytes → Bytes → World → List Bytes → World
  offer_versions peer file source w [] = w
  offer_versions peer file source w (v ∷ vs) =
      offer_versions peer file source (tell w (offer_write peer file v source)) vs

  -- Whether the only version of a file has expired.
  abbrev pub is_stale : List Bytes → Bool
  is_stale [] = false
  is_stale (v ∷ []) = k.is_expired v
  is_stale (v ∷ v' ∷ vs) = false

  unfoldable pub push_file : Bool → Peer → Bytes → World → Bytes → World
  push_file on_drop peer source w file =
      let versions = k.versions w.store file in
      let kept = offer_versions peer file source w versions in
      if is_stale versions then (drop_key on_drop w file).1 else kept

  -- pushKeyRange, on the files that the tree enumerates.
  unfoldable pub push_files : Bool → Peer → Bytes → World → List Bytes → World
  push_files on_drop peer source w [] = w
  push_files on_drop peer source w (file ∷ files) =
      push_files on_drop peer source (push_file on_drop peer source w file) files

  abbrev pub send_instructions : Bytes → Bytes → Bytes → ℕ → Instructions
  send_instructions name version source copies = record fresh {
    name = name;
    copies = copies;
    mirror = copies;
    version = version;
    source = source;
    is_complete = true;
  }

  -- sendKey, with what ISuperviseWrites::store returns.
  unfoldable pub send_key :
      (Instructions → Bool) → World → Peer → Bytes → Bytes → Bytes → Bool × World
  send_key store_ok w peer name version source =
      elim (k.read w.store name version) as (λ _. Bool × World) [
        | none ↦ (false, w)
        | some reader ↦
            let i = send_instructions name version source (k.mirrors reader) in
            (store_ok i, tell w (sent peer i reader))
      ]
