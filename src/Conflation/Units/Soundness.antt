-- ===== src/Conflation/Units/Soundness.antt =====
-- conflation_unit.go: the shape of a unit on which its operations do not panic, and that they keep
-- it.
use multicluster_global_hub.Base.{
  ℕ, ◌≡◌, refl, Bool, true, false, not, Option, some, inl, inr, arith, get_elem?, subst, sym,
  get_elem?-set_cases,
}
use multicluster_global_hub.Conflation.Bundles.{BundleApi}
use multicluster_global_hub.Conflation.Heap.{Heap}
use multicluster_global_hub.Conflation.Info.{BundleInfo}
use multicluster_global_hub.Conflation.Info.Filled.{
  IsFilled, HasMetadata, update_info-IsFilled, get_metadata-IsFilled, mark_info-IsFilled,
  fail_info-IsFilled,
}
use multicluster_global_hub.Conflation.Units.{
  ConflationElement, ConflationUnit, Shared, get_next, priority_of, add_to_ready_queue,
  insert_bundle, report_result, put_element,
}
use multicluster_global_hub.Conflation.Units.Cases.{
  insert_bundle_cases, add_to_ready_queue_cases, report_result_cases, get_next_cases, taken,
  settle_info,
}
use multicluster_global_hub.Conflation.Units.Selection.{next_priority-first, is_ready-IsReady}
use multicluster_global_hub.Conflation.Units.Termination.{IsLayered, put_element-IsLayered}

module _ {B : Type 0} where
  abbrev pub IsSoundElement : ConflationElement B → Type 0
  IsSoundElement e = IsFilled e.info × (e.in_process ≡ true → HasMetadata e.info)

  pub record IsSound (u : ConflationUnit B) : Type 0 where
    pub layered : IsLayered u
    pub elements :
        (p : ℕ) (e : ConflationElement B) → get_elem? u.priority_queue p ≡ some e → IsSoundElement e

module _ {B : Type 0} ⦃api : BundleApi B⦄ where
  put_element-IsSound :
      (u : ConflationUnit B) (p : ℕ) (e e' : ConflationElement B)
      → IsSound u
      → get_elem? u.priority_queue p ≡ some e
      → e'.dependency ≡ e.dependency
      → IsSoundElement e'
      → IsSound (put_element u p e')
  unfolding put_element
  put_element-IsSound u p e e' v g same k = record {
    layered = put_element-IsLayered u p e e' v.layered g same;
    elements = λ q x f. elim (get_elem?-set_cases u.priority_queue p q f) [
      | inl (_, new) ↦ subst IsSoundElement (sym new) k
      | inr old ↦ v.elements q x old
    ];
  }

  flag-IsSound :
      (u : ConflationUnit B) (queued : Bool)
      → IsSound u
      → IsSound (record u { in_ready_queue = queued })
  unfolding priority_of
  flag-IsSound u queued v = record {
    layered = record {
      in_range = λ type. v.layered.in_range type;
      descends = λ p e d g eq. v.layered.descends p e d g eq;
    };
    elements = v.elements;
  }

  add_to_ready_queue-IsSound :
      (u : ConflationUnit B) (s : Shared) {u' : ConflationUnit B} {s' : Shared}
      → IsSound u
      → add_to_ready_queue u s ≡ some (u', s')
      → IsSound u'
  add_to_ready_queue-IsSound u s v h = elim (add_to_ready_queue_cases u s h) [
    | inl (e, _) ↦ subst IsSound (sym e) v
    | inr c ↦ subst IsSound (sym c.unit) (flag-IsSound u true v)
  ]

  pub insert_bundle-IsSound :
      (b : B) (t : ℕ) (u : ConflationUnit B) (s : Shared) {u' : ConflationUnit B} {s' : Shared}
      → IsSound u
      → insert_bundle b t u s ≡ some (u', s')
      → IsSound u'
  insert_bundle-IsSound b t u s v h = elim (insert_bundle_cases b t u s h) [
    | inl (e, _, _) ↦ subst IsSound (sym e) v
    | inr c ↦
        let (filled, full) =
          update_info-IsFilled b t (not c.element.in_process) c.element.info s.heap
            (v.elements _ c.element c.found).0 c.updated in
        add_to_ready_queue-IsSound _ _
          (put_element-IsSound u _ c.element _ v c.found refl (filled, λ _. full)) c.added
  ]

  pub get_next-IsSound :
      (u : ConflationUnit B) (s : Shared) {u' : ConflationUnit B} {s' : Shared}
      {r : Option (Option B × Option ℕ × ℕ)}
      → IsSound u
      → get_next u s ≡ some (u', s', r)
      → IsSound u'
  unfolding put_element
  get_next-IsSound u s v h = elim (get_next_cases u s h) [
    | inl (e, _, _, _) ↦ subst IsSound (sym e) v
    | inr c ↦
        let ((e, g, k), _) = next_priority-first u c.priority c.chosen in
        let (b, ready) = is_ready-IsReady u e k in
        let (filled, full) =
          get_metadata-IsFilled c.element.info s.heap (v.elements _ c.element c.found).0
            c.metadata in
        subst IsSound (sym c.unit) (
          flag-IsSound (put_element u c.priority (taken c.element c.info)) false (
            put_element-IsSound u c.priority c.element (taken c.element c.info) v c.found refl
              (filled, λ _. full (ground (arith, ready.held, c.found, g)))))
  ]

  settle_info-IsFilled :
      (m : ℕ) (failed : Bool) (i : BundleInfo B) (h : Heap) {i' : BundleInfo B} {h' : Heap}
      → IsFilled i
      → settle_info m failed i h ≡ some (i', h')
      → IsFilled i'
  settle_info-IsFilled m true i h f e = (fail_info-IsFilled m i h f e).0
  settle_info-IsFilled m false i h f e = (mark_info-IsFilled m i h f e).0

  pub report_result-IsSound :
      (m : ℕ) (failed : Bool) (u : ConflationUnit B) (s : Shared) {u' : ConflationUnit B}
      {s' : Shared}
      → IsSound u
      → report_result m failed u s ≡ some (u', s')
      → IsSound u'
  report_result-IsSound m failed u s v h =
      let c = report_result_cases m failed u s h in
      add_to_ready_queue-IsSound _ _
        (put_element-IsSound u _ c.element _ v c.found refl (
          settle_info-IsFilled m failed c.element.info s.heap (v.elements _ c.element c.found).0
              c.settled,
          λ e. cc,
        ))
        c.added
