-- ===== src/Deskew/SkewCorrector/Kept.antt =====
-- src/lib/deskew/SkewCorrector.cpp: what a push leaves in the store, and what it offers.
use turbopump.Prelude.{
  ◌≡◌, refl, sym, ◌∙◌, ap, Bool, true, false, Bytes, List, [], ◌∷◌, str_eq, str_eq→eq, Bool-cases,
  Option-cases, inl, inr, ◌⊎◌,
}
use turbopump.Membership.Peer.{Peer}
use turbopump.Deskew.SkewCorrector.{
  Store, offer_write, World, drop_key, offer_versions, is_stale, push_file, push_files,
}

-- Removing a file leaves the versions of those that it does not cover. What a removal covers is the
-- store's: FileStore::remove takes the directory of the name with all in it, and so the keys below.
pub record Laws (k : Store) : Type 0 where
  pub covers : Bytes → Bytes → Bool
  pub versions-remove :
      (s : k.State) (name other : Bytes)
      → covers name other ≡ false
      → k.versions (k.remove s name).1 other ≡ k.versions s other

module _ {k : Store} (laws : Laws k) (on_drop : Bool) where
  pub drop_key-versions :
      (w : World k) (name other : Bytes)
      → laws.covers name other ≡ false
      → k.versions (drop_key k on_drop w name).1.store other ≡ k.versions w.store other
  drop_key-versions w name other apart = elim (Option-cases (k.read w.store name [])) [
    | inl e ↦ unfold drop_key in rw (e, drop_key) refl
    | inr (r, e) ↦
        let same = laws.versions-remove w.store name other apart in
        elim (Bool-cases (k.remove w.store name).0) [
          | inl gone ↦ elim (Bool-cases on_drop) [
            | inl told ↦ unfold drop_key in rw (e, gone, told, drop_key) same
            | inr silent ↦ unfold drop_key in rw (e, gone, silent, drop_key) same
          ]
          | inr held ↦ unfold drop_key in rw (e, held, drop_key) same
        ]
  ]

module _ {k : Store} (laws : Laws k) (on_drop : Bool) (peer : Peer) (source : Bytes) where
  offer_versions-store :
      (file : Bytes) (w : World k) (vs : List Bytes)
      → (offer_versions k peer file source w vs).store ≡ w.store
  unfolding offer_versions
  offer_versions-store file w [] = refl
  offer_versions-store file w (v ∷ vs) =
      offer_versions-store file (record w { effects = offer_write peer file v source ∷ w.effects })
        vs

  push_file-versions :
      (w : World k) (file x : Bytes)
      → (str_eq file x ≡ true) ⊎ (laws.covers file x ≡ false)
      → is_stale k (k.versions w.store x) ≡ false
      → k.versions (push_file k on_drop peer source w file).store x ≡ k.versions w.store x
  push_file-versions w file x other live =
      elim (Bool-cases (is_stale k (k.versions w.store file))) [
        | inr kept ↦
            unfold push_file in
            rw kept
              (ap (λ s. k.versions s x) (offer_versions-store file w (k.versions w.store file)))
        | inl stale ↦ elim other [
          | inl same ↦
              let clash : is_stale k (k.versions w.store x) ≡ true =
                ap (λ y. is_stale k (k.versions w.store y)) (sym (str_eq→eq file x same)) ∙ stale in
              cc (live, clash)
          | inr apart ↦ unfold push_file in rw stale (drop_key-versions laws on_drop w file x apart)
        ]
      ]

  -- No other file of the list covers `x`.
  abbrev pub Uncovered : Bytes → List Bytes → Type 0
  Uncovered x [] = Unit {0}
  Uncovered x (file ∷ files) =
      ((str_eq file x ≡ true) ⊎ (laws.covers file x ≡ false)) × Uncovered x files

  -- Pushing files to a peer takes no version of a file worth keeping from the store, unless the
  -- removal of another of them covers it: a file that has not exactly one version, or whose version
  -- has not expired, keeps all its versions if no other file that is pushed covers it, even if it
  -- is pushed itself. It is assumed that removing a file leaves those that it does not cover.
  pub push_files-versions :
      (w : World k) (files : List Bytes) (x : Bytes)
      → Uncovered x files
      → is_stale k (k.versions w.store x) ≡ false
      → k.versions (push_files k on_drop peer source w files).store x ≡ k.versions w.store x
  unfolding push_files
  push_files-versions w [] x others live = refl
  push_files-versions w (file ∷ files) x (other, others) live =
      let same = push_file-versions w file x other live in
      push_files-versions (push_file k on_drop peer source w file) files x others
        (ap (is_stale k) same ∙ live)
      ∙ same
