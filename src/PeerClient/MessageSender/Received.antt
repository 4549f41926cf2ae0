-- ===== src/PeerClient/MessageSender/Received.antt =====
-- src/lib/peer_client/MessageSender.cpp and src/lib/api/SyncCommand.cpp: points that are sent to a
-- node are those that it compares.
use turbopump.Prelude.{
  ℕ, zero, suc, ◌+◌, ◌/◌, ◌^◌, ◌<◌, ◌≡◌, refl, ap, ◌∙◌, Bool, true, false, Bytes, List, [], ◌∷◌,
  ◌++◌, some, codes, ltb, leb, is_empty, has_byte, has_byte-append, arith, Bool-cases, inl, inr,
  map,
}
use turbopump.Common.MerklePoint.{MerklePoint, digits, decimal, to_string, from_string}
use turbopump.Common.MerklePoint.RoundTrip.{from_string-to_string}
use turbopump.PeerClient.MessageSender.{points_text, with_rest}
use turbopump.Api.NodeCommands.{sync, sync_points}

-- turbo::str::split at the bars, of the library beside the program.
pub record SplitLaws (split : Bytes → List Bytes) : Type 0 where
  pub split_one : (a : Bytes) → has_byte b'|' a ≡ false → is_empty a ≡ false → split a ≡ a ∷ []
  pub split_more :
      (a b : Bytes)
      → has_byte b'|' a ≡ false
      → is_empty a ≡ false
      → split (a ++ (codes "|" ++ b)) ≡ a ∷ split b

no_bar-digits : (fuel n : ℕ) → has_byte b'|' (digits fuel n) ≡ false
unfolding digits has_byte
no_bar-digits zero n = refl
no_bar-digits (suc fuel) n = elim (Bool-cases (ltb n 10)) [
  | inl small ↦ rw small (ground (arith, small))
  | inr large ↦ rw (large, has_byte-append, no_bar-digits fuel (n / 10)) (ground arith)
]

no_bar-to_string : (p : MerklePoint) → has_byte b'|' (to_string p) ≡ false
unfolding to_string decimal has_byte
no_bar-to_string p = simp (has_byte-append, no_bar-digits) refl

is_empty_behind : (a : Bytes) (x : ℕ) (b : Bytes) → is_empty (a ++ x ∷ b) ≡ false
is_empty_behind [] x b = refl
is_empty_behind (y ∷ a) x b = refl

to_string_full : (p : MerklePoint) → is_empty (to_string p) ≡ false
unfolding to_string decimal
to_string_full p =
    is_empty_behind (digits (p.key + 1) p.key) 32
      (decimal p.keybits ++ (codes " " ++ decimal p.hash))

-- The numbers of a point are within their types.
abbrev pub IsPoint : ℕ → MerklePoint → Type 0
IsPoint bits p = (p.key < 2 ^ 64) × (p.keybits < bits) × (p.hash < 2 ^ 64)

abbrev pub ArePoints : ℕ → List MerklePoint → Type 0
ArePoints bits [] = Unit {0}
ArePoints bits (p ∷ ps) = IsPoint bits p × ArePoints bits ps

-- Points from the i-th on, each with whether it is the third or a later one.
abbrev pub numbered : ℕ → List MerklePoint → List (MerklePoint × Bool)
numbered i [] = []
numbered i (p ∷ ps) = (p, leb 2 i) ∷ numbered (suc i) ps

module _ (split : Bytes → List Bytes) (laws : SplitLaws split) where
  split-points_text :
      (p : MerklePoint) (ps : List MerklePoint)
      → (text : Bytes) × (points_text (p ∷ ps) ≡ some text)
        × (is_empty text ≡ false)
        × (split text ≡ map to_string (p ∷ ps))
  unfolding points_text
  split-points_text p [] = (
    to_string p,
    refl,
    to_string_full p,
    laws.split_one (to_string p) (no_bar-to_string p) (to_string_full p),
  )
  split-points_text p (q ∷ qs) =
      let (text, e, full, parts) = split-points_text q qs in
      (
        to_string p ++ (codes "|" ++ text),
        ap (λ rest. some (with_rest (to_string p) rest)) e,
        is_empty_behind (to_string p) b'|' text,
        laws.split_more (to_string p) text (no_bar-to_string p) (to_string_full p) ∙ rw parts refl,
      )

  sync_points-to_string :
      (bits i : ℕ) (ps : List MerklePoint)
      → ArePoints bits ps
      → sync_points (from_string bits) i (map to_string ps) ≡ (true, numbered i ps)
  unfolding sync_points
  sync_points-to_string bits i [] h = refl
  sync_points-to_string bits i (p ∷ ps) (fine, h) =
      rw
        (
          from_string-to_string bits p fine.0 fine.1 fine.2,
          sync_points,
          sync_points-to_string bits (suc i) ps h,
        )
        refl

  -- What MessageSender::digestPing writes for one point or more, SyncCommand reads as those points,
  -- in their order, and takes the third and later ones for a response.
  pub sync-points_text :
      (bits : ℕ) (p : MerklePoint) (ps : List MerklePoint)
      → ArePoints bits (p ∷ ps)
      → (text : Bytes) × (points_text (p ∷ ps) ≡ some text)
        × (sync split (from_string bits) text ≡ (true, numbered 0 (p ∷ ps)))
  unfolding sync
  sync-points_text bits p ps h =
      let (text, e, full, parts) = split-points_text p ps in
      (text, e, rw (full, parts) (sync_points-to_string bits 0 (p ∷ ps) h))
