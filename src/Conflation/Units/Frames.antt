-- ===== src/Conflation/Units/Frames.antt =====
-- conflation_unit.go and conflation_element.go: what an arriving bundle does not touch.
use multicluster_global_hub.Base.{ℕ, ◌<◌, ◌≡◌, true, false, some, arith, inl, inr, get_elem?, ok}
use multicluster_global_hub.Conflation.Bundles.{BundleApi}
use multicluster_global_hub.Conflation.Heap.{Heap}
use multicluster_global_hub.Conflation.Info.{BundleInfo, complete, delta, update_info}
use multicluster_global_hub.Conflation.Units.{
  ConflationElement, ConflationUnit, Shared, insert_bundle, priority_of,
}
use multicluster_global_hub.Conflation.Units.Cases.{
  insert_bundle_cases, add_to_ready_queue-SameElements,
}

module _ {B : Type 0} ⦃api : BundleApi B⦄ where
  update_info_frame :
      (b : B) (t m : ℕ) (i : BundleInfo B) (h : Heap) {i' : BundleInfo B} {h' : Heap}
      → m < h.next
      → update_info b t false i h ≡ ok (i', h')
      → h'.cell m ≡ h.cell m
  unfolding update_info
  update_info_frame b t m (complete i) h lt e = ground arith
  update_info_frame b t m (delta i) h lt e = ground arith

  -- A bundle that arrives while one of its type is in process leaves every metadata object that
  -- exists as it is, among them the one that the worker will report.
  pub insert_bundle_frame :
      (b : B) (t m : ℕ) (u : ConflationUnit B) (s : Shared) (e : ConflationElement B)
      (u' : ConflationUnit B) (s' : Shared)
      → get_elem? u.priority_queue (priority_of u (api.bundle_type b)) ≡ some e
      → e.in_process ≡ true
      → m < s.heap.next
      → insert_bundle b t u s ≡ some (u', s')
      → s'.heap.cell m ≡ s.heap.cell m
  insert_bundle_frame b t m u s e u' s' g busy lt h = elim (insert_bundle_cases b t u s h) [
    | inl (_, f, _) ↦ rw f
    | inr c ↦
        let k = add_to_ready_queue-SameElements _ _ c.added in
        let same : c.element ≡ e = ground (arith, g, c.found) in
        let stored : update_info b t false c.element.info s.heap ≡ ok (c.info, c.heap) =
          ground (arith, same, busy, c.updated) in
        ground (arith, k.objects, update_info_frame b t m c.element.info s.heap lt stored)
  ]
