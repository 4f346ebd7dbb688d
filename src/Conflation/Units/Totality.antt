-- ===== src/Conflation/Units/Totality.antt =====
-- conflation_unit.go: the operations of a unit return.
use multicluster_global_hub.Base.{
  ℕ, ◌≡◌, refl, Bool, true, false, Option, none, some, arith, ◌≢◌, is_some, get_elem?,
  some_of_ne_none,
}
use multicluster_global_hub.Conflation.Bundles.{BundleApi}
use multicluster_global_hub.Conflation.Heap.{Heap}
use multicluster_global_hub.Conflation.Info.{BundleInfo}
use multicluster_global_hub.Conflation.Info.Filled.{
  IsFilled, HasMetadata, get_metadata-some, mark_info-some, fail_info-some,
}
use multicluster_global_hub.Conflation.Units.{
  ConflationElement, ConflationUnit, Shared, next_priority, get_next, take_bundle, priority_of,
  add_to_ready_queue, report_result, put_element,
}
use multicluster_global_hub.Conflation.Units.Cases.{reported, settle_info}
use multicluster_global_hub.Conflation.Units.Selection.{next_priority-first, is_ready-IsReady}
use multicluster_global_hub.Conflation.Units.Termination.{
  next_priority-some, add_to_ready_queue-some, put_element-IsLayered,
}
use multicluster_global_hub.Conflation.Units.Soundness.{
  IsSound, get_next-IsSound, report_result-IsSound,
}

module _ {B : Type 0} ⦃api : BundleApi B⦄ where
  take_bundle-ne-none :
      (p : ℕ) (u : ConflationUnit B) (s : Shared)
      → IsSound u
      → next_priority u ≡ some (some p)
      → take_bundle p u s ≢ none
  unfolding take_bundle
  take_bundle-ne-none p u s v n h =
      let ((e, g, k), _) = next_priority-first u p n in
      let (b, ready) = is_ready-IsReady u e k in
      ground (
        arith,
        g,
        h,
        get_metadata-some e.info s.heap (v.elements p e g).0 (ground (arith, ready.held)),
      )

  get_next_step :
      (r : Option ℕ) (u : ConflationUnit B) (s : Shared)
      → IsSound u
      → next_priority u ≡ some r
      → get_next u s ≢ none
  unfolding get_next
  get_next_step none u s v n h = ground (arith, n, h)
  get_next_step (some p) u s v n h = take_bundle-ne-none p u s v n (ground (arith, n, h))

  get_next-ne-none : (u : ConflationUnit B) (s : Shared) → IsSound u → get_next u s ≢ none
  get_next-ne-none u s v = let (r, n) = next_priority-some u v.layered in get_next_step r u s v n

  -- `GetNext` returns on a sound unit, and the unit stays sound.
  pub get_next-total :
      (u : ConflationUnit B) (s : Shared)
      → IsSound u
      → (u' : ConflationUnit B) × (s' : Shared) × (r : Option (Option B × Option ℕ × ℕ)) × (get_next
            u s
          ≡ some (u', s', r))
        × IsSound u'
  get_next-total u s v =
      let ((u', s', r), e) = some_of_ne_none _ (get_next-ne-none u s v) in
      (u', s', r, e, get_next-IsSound u s v e)

  settle_info-some :
      (m : ℕ) (failed : Bool) (i : BundleInfo B) (h : Heap)
      → IsFilled i
      → HasMetadata i
      → is_some (h.cell m).transport ≡ true
      → settle_info m failed i h ≢ none
  settle_info-some m true i h f k t = fail_info-some m i h f k
  settle_info-some m false i h f k t = mark_info-some m i h k t

  report_step :
      (m : ℕ) (failed : Bool) (u : ConflationUnit B) (s : Shared) (e : ConflationElement B)
      (i : BundleInfo B) (h : Heap)
      → get_elem? u.priority_queue (priority_of u (s.heap.cell m).bundle_type) ≡ some e
      → settle_info m failed e.info s.heap ≡ some (i, h)
      → add_to_ready_queue
          (put_element u
            (priority_of u (s.heap.cell m).bundle_type)
            (reported (s.heap.cell m).bundle_version failed e i))
          (record s { heap = h })
        ≢ none
      → report_result m failed u s ≢ none
  unfolding report_result
  report_step m true u s e i h g k on z = ground (arith, g, k, on, z)
  report_step m false u s e i h g k on z = ground (arith, g, k, on, z)

  -- A report returns on a sound unit if the bundle it is about is in process and its metadata has
  -- transport metadata; the unit stays sound.
  pub report_result-total :
      (m : ℕ) (failed : Bool) (u : ConflationUnit B) (s : Shared) (e : ConflationElement B)
      → IsSound u
      → get_elem? u.priority_queue (priority_of u (s.heap.cell m).bundle_type) ≡ some e
      → e.in_process ≡ true
      → is_some (s.heap.cell m).transport ≡ true
      → (u' : ConflationUnit B) × (s' : Shared) × (report_result m failed u s ≡ some (u', s'))
        × IsSound u'
  report_result-total m failed u s e v g busy t =
      let (filled, full) = v.elements _ e g in
      let ((i, h'), k) =
        some_of_ne_none _ (settle_info-some m failed e.info s.heap filled (full busy) t) in
      let next = reported (s.heap.cell m).bundle_version failed e i in
      let on =
        add_to_ready_queue-some (put_element u (priority_of u (s.heap.cell m).bundle_type) next)
          (record s { heap = h' }) (put_element-IsLayered u _ e next v.layered g refl) in
      let ((u', s'), r) = some_of_ne_none _ (report_step m failed u s e i h' g k on) in
      (u', s', r, report_result-IsSound m failed u s v r)
