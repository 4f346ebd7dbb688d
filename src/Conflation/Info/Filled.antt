-- ===== src/Conflation/Info/Filled.antt =====
-- complete_state_bundle_info.go and delta_state_bundle_info.go: which pointers of a slot are set.
use multicluster_global_hub.Base.{ℕ, ◌≡◌, Bool, true, Option, none, some, ok, ◌≢◌, arith, is_some}
use multicluster_global_hub.Conflation.Bundles.{BundleApi}
use multicluster_global_hub.Conflation.Heap.{Heap}
use multicluster_global_hub.Conflation.Info.{
  BundleInfo, complete, delta, get_bundle, update_info, get_metadata, mark_info, fail_info,
}

-- A slot with a bundle has metadata; a delta slot with metadata has a head of its line and a last
-- received transport metadata.
abbrev pub IsFilled : {B : Type 0} → BundleInfo B → Type 0
IsFilled (complete i) = is_some i.bundle ≡ true → is_some i.metadata ≡ true
IsFilled (delta i) =
    (is_some i.bundle ≡ true → is_some i.metadata ≡ true)
    × (is_some i.metadata ≡ true → is_some i.line_head ≡ true)
    × (is_some i.metadata ≡ true → is_some i.last_received ≡ true)

abbrev pub HasMetadata : {B : Type 0} → BundleInfo B → Type 0
HasMetadata (complete i) = is_some i.metadata ≡ true
HasMetadata (delta i) = is_some i.metadata ≡ true

module _ {B : Type 0} ⦃api : BundleApi B⦄ where
  pub update_info-IsFilled :
      (b : B) (t : ℕ) (overwrite : Bool) (i : BundleInfo B) (h : Heap) {i' : BundleInfo B}
      {h' : Heap}
      → IsFilled i
      → update_info b t overwrite i h ≡ ok (i', h')
      → IsFilled i' × HasMetadata i'
  unfolding update_info
  update_info-IsFilled b t overwrite (complete i) h f e = ground arith
  update_info-IsFilled b t overwrite (delta i) h f e = ground arith

  pub get_metadata-IsFilled :
      (i : BundleInfo B) (h : Heap) {m : Option ℕ} {i' : BundleInfo B} {h' : Heap}
      → IsFilled i
      → get_metadata i h ≡ some (m, i', h')
      → IsFilled i' × (is_some (get_bundle i) ≡ true → HasMetadata i')
  unfolding get_metadata get_bundle
  get_metadata-IsFilled (complete i) h f e = ground arith
  get_metadata-IsFilled (delta i) h f e = ground arith

  pub mark_info-IsFilled :
      (m : ℕ) (i : BundleInfo B) (h : Heap) {i' : BundleInfo B} {h' : Heap}
      → IsFilled i
      → mark_info m i h ≡ some (i', h')
      → IsFilled i' × (HasMetadata i → HasMetadata i')
  unfolding mark_info
  mark_info-IsFilled m (complete i) h f e = ground arith
  mark_info-IsFilled m (delta i) h f e = ground arith

  pub fail_info-IsFilled :
      (m : ℕ) (i : BundleInfo B) (h : Heap) {i' : BundleInfo B} {h' : Heap}
      → IsFilled i
      → fail_info m i h ≡ some (i', h')
      → IsFilled i' × (HasMetadata i → HasMetadata i')
  unfolding fail_info
  fail_info-IsFilled m (complete i) h f e = ground arith
  fail_info-IsFilled m (delta i) h f e = ground arith

  -- On such a slot no step dereferences nil.
  pub get_metadata-some :
      (i : BundleInfo B) (h : Heap)
      → IsFilled i
      → is_some (get_bundle i) ≡ true
      → get_metadata i h ≢ none
  unfolding get_metadata get_bundle
  get_metadata-some (complete i) h f b e = cc
  get_metadata-some (delta i) h f b e = ground arith

  pub mark_info-some :
      (m : ℕ) (i : BundleInfo B) (h : Heap)
      → HasMetadata i
      → is_some (h.cell m).transport ≡ true
      → mark_info m i h ≢ none
  unfolding mark_info
  mark_info-some m (complete i) h f b e = ground arith
  mark_info-some m (delta i) h f b e = ground arith

  pub fail_info-some :
      (m : ℕ) (i : BundleInfo B) (h : Heap) → IsFilled i → HasMetadata i → fail_info m i h ≢ none
  unfolding fail_info
  fail_info-some m (complete i) h f b e = cc
  fail_info-some m (delta i) h f b e = ground arith
