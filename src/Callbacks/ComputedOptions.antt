-- ===== src/Callbacks/ComputedOptions.antt =====
-- src/lib/callbacks/ComputedOptions.cpp: the callbacks that a set of options gives. The chain of
-- functions is that of the library beside the program: it calls them in the order they were added.
use Prim.Native.Nat.{bit_xor}
use turbopump.Prelude.{ℕ, Bool, true, false, ◌&&◌, Bytes, List, [], ◌∷◌, ◌++◌, if◌then◌else◌}
use turbopump.Api.Instructions.{Instructions}

-- The callbacks of a write. A write chain is told whether to block.
pub data OnWrite : Type 0 where
  digest_add : OnWrite
  partition_chain clone_chain : Bool → OnWrite
  notify_write_complete notify_watches membership : OnWrite

pub data OnDrop : Type 0 where
  digest_del : OnDrop

-- Turbopump::Options, as far as callbacks depend on them.
pub record Options : Type 0 where
  pub partition_keys : Bool
  pub write_chaining : Bool
  pub active_sync : Bool

pub record Chains : Type 0 where
  pub when_local_write_finishes : List OnWrite
  pub when_mirror_write_finishes : List OnWrite
  pub when_drop_finishes : List OnDrop

abbrev only_if {ℓ} : {A : Type ℓ} → Bool → A → List A
only_if test x = if test then x ∷ [] else []

unfoldable pub on_local_write : Options → List OnWrite
on_local_write o =
    only_if o.active_sync digest_add
    ++ (only_if o.write_chaining
          (if o.partition_keys then partition_chain true else clone_chain true)
        ++ notify_watches ∷ membership ∷ [])

unfoldable pub on_mirror_write : Options → List OnWrite
on_mirror_write o =
    only_if o.active_sync digest_add
    ++ (only_if (o.write_chaining && o.partition_keys) (partition_chain false)
        ++ notify_write_complete ∷ notify_watches ∷ membership ∷ [])

-- `given` is what the options hold before, and `build_callbacks` the last word of the options.
unfoldable pub computed_options : (build_callbacks : Chains → Chains) → Chains → Options → Chains
computed_options build_callbacks given o = build_callbacks record {
  when_local_write_finishes = given.when_local_write_finishes ++ on_local_write o;
  when_mirror_write_finishes = given.when_mirror_write_finishes ++ on_mirror_write o;
  when_drop_finishes = given.when_drop_finishes ++ only_if o.active_sync digest_del;
}

-- What the callbacks work on. A chain may change the instructions that later callbacks see.
pub record Parts (S R : Type 0) : Type 0 where
  pub digest_of : R → ℕ
  pub tabulate : S → Bytes → ℕ → ℕ → S
  pub untabulate : S → Bytes → ℕ → S
  pub chain_partition : Bool → S → Instructions → R → Instructions × S
  pub chain_clone : Bool → S → Instructions → R → Instructions × S
  pub notify_complete : S → Instructions → R → S
  pub notify : S → Bytes → S
  pub modify_peer : S → Instructions → R → S

module _ {S R : Type 0} (k : Parts S R) where
  unfoldable pub run_callback : OnWrite → Instructions → R → S → Instructions × S
  run_callback digest_add params contents s = (
    params,
    k.tabulate s params.name (bit_xor params.digest (k.digest_of contents)) params.copies,
  )
  run_callback (partition_chain blocking) params contents s =
      k.chain_partition blocking s params contents
  run_callback (clone_chain blocking) params contents s = k.chain_clone blocking s params contents
  run_callback notify_write_complete params contents s =
      (params, k.notify_complete s params contents)
  run_callback notify_watches params contents s = (params, k.notify s params.name)
  run_callback membership params contents s = (params, k.modify_peer s params contents)

  unfoldable pub run_chain : List OnWrite → Instructions → R → S → Instructions × S
  run_chain [] params contents s = (params, s)
  run_chain (f ∷ fs) params contents s =
      let done = run_callback f params contents s in run_chain fs done.0 contents done.1

  unfoldable pub run_on_drop : OnDrop → Bytes → ℕ → S → S
  run_on_drop digest_del name copies s = k.untabulate s name copies
