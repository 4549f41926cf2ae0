-- ===== src/Api/NodeCommands/Acknowledged.antt =====
-- src/lib/api/AckWriteCommand.cpp with src/lib/deskew/SkewCorrector.cpp and
-- src/lib/hashing/LocateKeys.cpp: what an acknowledgement may drop.
use turbopump.Prelude.{
  ℕ, ◌≡◌, refl, Bool, true, false, Bytes, Option, some, ◌==◌, Bool-cases, Option-cases, inl, inr,
  ◌⊎◌,
}
use turbopump.Membership.Peer.{Peer}
use turbopump.Hashing.Ring.{CircularMap}
use turbopump.Hashing.LocateKeys.{key_is_mine}
use turbopump.Deskew.SkewCorrector.{Store, World}
use turbopump.Deskew.SkewCorrector.Kept.{Laws, drop_key-versions}
use turbopump.Api.NodeCommands.{ack_write}

-- An acknowledgement drops at most what the removal of the key that it names covers, and that only
-- if the key is not this node's: a key that is not covered keeps all its versions, and so does
-- every key if the locator counts this node among those of the named key, for the copies of the
-- reader of the acknowledged version. It is assumed that removing a key leaves those that it does
-- not cover.
pub ack_write-versions :
    {k : Store} (laws : Laws k) (size : k.Reader → ℕ) (c : CircularMap) (hash : Bytes → Bytes)
    (ring : c.Map) (self : Option Peer) (on_drop : Bool) (w : World k) (name version : Bytes)
    (acked : ℕ) (x : Bytes)
    → (laws.covers name x ≡ false)
      ⊎ ((reader : k.Reader)
          → k.read w.store name version ≡ some reader
          → key_is_mine c hash ring self name (k.mirrors reader) ≡ true)
    → k.versions
        (ack_write k size (key_is_mine c hash ring self) on_drop w name version acked).1.store
        x
      ≡ k.versions w.store x
ack_write-versions {k} laws size c hash ring self on_drop w name version acked x h =
    elim (Option-cases (k.read w.store name version)) [
      | inl e ↦ unfold ack_write in rw (e, ack_write) refl
      | inr (reader, e) ↦ elim (Bool-cases (size reader == acked)) [
        | inr part ↦ unfold ack_write in rw (e, part, ack_write) refl
        | inl whole ↦ elim (Bool-cases (key_is_mine c hash ring self name (k.mirrors reader))) [
          | inl mine ↦ unfold ack_write in rw (e, whole, mine, ack_write) refl
          | inr other ↦ elim h [
            | inl apart ↦
                let same = drop_key-versions laws on_drop w name x apart in
                unfold ack_write in rw (e, whole, other, ack_write) same
            | inr mine ↦ let clash = mine reader e in cc (other, clash)
          ]
        ]
      ]
    ]
