-- ===== src/Conflation/Info/Recovery.antt =====
-- delta_state_bundle_info.go: what becomes of a delta pack whose processing fails.
use multicluster_global_hub.Base.{
  ℕ, ◌<◌, ◌≡◌, true, false, none, some, ok, arith, inl, inr, Option-cases,
}
use multicluster_global_hub.Version.{BundleVersion, newer_than}
use multicluster_global_hub.Conflation.Bundles.{BundleApi}
use multicluster_global_hub.Conflation.Heap.{Heap}
use multicluster_global_hub.Conflation.Info.{
  DeltaInfo, delta, get_transport_metadata_to_commit, delta_get_metadata, delta_update,
  handle_failure,
}

module _ {B : Type 0} ⦃api : BundleApi B⦄ where
  -- If no bundle arrives between the dispatch of a delta pack and the report of its failure, and
  -- the head of the line is not newer than the pack, then the slot holds the pack again, and the
  -- transport metadata to commit is what it was before the dispatch.
  pub handle_failure-get_metadata :
      (i i' i'' : DeltaInfo B) (h h' h'' : Heap) (m : ℕ) (head : BundleVersion)
      → i.line_head ≡ some head
      → newer_than head (some (h.cell m).bundle_version) ≡ false
      → delta_get_metadata i h ≡ some (some m, i', h')
      → handle_failure m i' h' ≡ some (i'', h'')
      → (i''.bundle ≡ i.bundle)
        × (get_transport_metadata_to_commit (delta i'') h''
            ≡ get_transport_metadata_to_commit (delta i) h)
  unfolding delta_get_metadata handle_failure get_transport_metadata_to_commit
  handle_failure-get_metadata i i' i'' h h' h'' m head l o d f = ground arith

  -- If a newer delta bundle arrives while a pack is in process and the processing then fails, the
  -- pack is dropped: the slot holds the new bundle, which inherited nothing, the saved pack is
  -- gone, and the transport metadata to commit is the new bundle's. This is so whatever the base
  -- versions of the two are, also if both belong to one line of deltas.
  pub handle_failure_drops :
      (b : B) (t m : ℕ) (i i₁ i₂ i₃ : DeltaInfo B) (h h₁ h₂ h₃ : Heap)
      → m < h.next
      → delta_get_metadata i h ≡ some (some m, i₁, h₁)
      → newer_than (api.version b) (some (h.cell m).bundle_version) ≡ true
      → delta_update b t false i₁ h₁ ≡ ok (i₂, h₂)
      → handle_failure m i₂ h₂ ≡ some (i₃, h₃)
      → (i₃.bundle ≡ api.inherit_events b none)
        × (i₃.last_dispatched.bundle ≡ none)
        × (get_transport_metadata_to_commit (delta i₃) h₃ ≡ some t)
  unfolding delta_get_metadata delta_update handle_failure get_transport_metadata_to_commit
  handle_failure_drops b t m i i₁ i₂ i₃ h h₁ h₂ h₃ lt d n u f =
      elim (Option-cases (api.inherit_events b none)) [
        | inl e ↦ ground (arith, e)
        | inr (c, e) ↦ ground (arith, e, api.inherit_version b none c e)
      ]
