-- ===== src/Callbacks/ModifyPeer.antt =====
-- src/lib/callbacks/ModifyPeer.cpp.
use turbopump.Prelude.{
  Bool, true, false, Bytes, List, [], ◌∷◌, Option, none, some, codes, ◌==◌, if◌then◌else◌,
}

abbrev pub membership_prefix : Bytes
membership_prefix = codes ".membership/"

-- The rest of a name that starts with a prefix.
unfoldable pub strip_prefix : Bytes → Bytes → Option Bytes
strip_prefix [] name = some name
strip_prefix (x ∷ xs) [] = none
strip_prefix (x ∷ xs) (y ∷ ys) = let rest = strip_prefix xs ys in if x == y then rest else none

-- The membership, the ring and the index of the node, in one state. `update` and `remove` return
-- what the methods return; `save` may fail.
pub record World (S : Type 0) : Type 0 where
  pub update : S → Bytes → List Bytes → Bool × S
  pub remove : S → Bytes → Bool × S
  pub save : S → Bool × S
  pub insert_node : S → Bytes → Bytes → S
  pub erase_node : S → Bytes → S
  pub split_section : S → Bytes → S
  pub cannibalize_section : S → Bytes → S

module _ {S : Type 0} (w : World S) where
  unfoldable pub update_peer : S → Bytes → Bytes → Bool × S
  update_peer s uid ip =
      let (is_new, s1) = w.update s uid (ip ∷ []) in
      let (saved, s2) = w.save s1 in
      let joined : Bool × S = (true, w.split_section (w.insert_node s2 uid uid) uid) in
      let kept : Bool × S = (true, s2) in
      if saved then (if is_new then joined else kept) else (false, s2)

  unfoldable pub remove_peer : S → Bytes → Bool × S
  remove_peer s uid =
      let (removed, s1) = w.remove s uid in
      let (saved, s2) = w.save s1 in
      let left : Bool × S = (true, w.cannibalize_section (w.erase_node s2 uid) uid) in
      if removed then (if saved then left else (false, s2)) else (false, s1)

  -- `run`, on the name of the key that was written, whether its version is deleted, and the
  -- contents.
  unfoldable pub run : S → Bytes → Bool → Bytes → Bool × S
  run s name deleted contents = elim (strip_prefix membership_prefix name) [
    | none ↦ (false, s)
    | some uid ↦ (if deleted then remove_peer s uid else update_peer s uid contents)
  ]
