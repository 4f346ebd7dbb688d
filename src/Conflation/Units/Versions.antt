-- ===== src/Conflation/Units/Versions.antt =====
-- conflation_unit.go: versions decide what a unit keeps.
use multicluster_global_hub.Base.{
  ℕ, ◌≡◌, refl, Bool, true, false, not, Option, some, ◌⊎◌, inl, inr, arith, get_elem?, set,
  Option-cases, ok, err, get_elem?-set_cases, get_elem?-set_self, lt-length,
}
use multicluster_global_hub.Version.{BundleVersion, newer_than, newer_than_irrefl}
use multicluster_global_hub.Conflation.Bundles.{BundleApi}
use multicluster_global_hub.Conflation.Heap.{Heap}
use multicluster_global_hub.Conflation.Info.{
  BundleInfo, complete, delta, UpdateError, get_bundle, update_info,
}
use multicluster_global_hub.Conflation.Units.{
  ConflationElement, ConflationUnit, Shared, is_news, insert_bundle, report_result, get_next,
  put_element, priority_of,
}
use multicluster_global_hub.Conflation.Units.Cases.{
  insert_bundle_cases, report_result_cases, get_next_cases, taken, version_after,
  add_to_ready_queue-SameElements,
}

abbrev pub IsNotOlder : BundleVersion → BundleVersion → Type 0
IsNotOlder v w = (v ≡ w) ⊎ (newer_than v (some w) ≡ true)

version_after-IsNotOlder :
    (failed : Bool) (v last : BundleVersion) → IsNotOlder (version_after failed v last) last
version_after-IsNotOlder true v last = inl refl
version_after-IsNotOlder false v last = ground arith

module _ {B : Type 0} ⦃api : BundleApi B⦄ where
  update_info-version :
      (b : B) (t : ℕ) (overwrite : Bool) (i : BundleInfo B) (h : Heap) {i' : BundleInfo B}
      {h' : Heap}
      → update_info b t overwrite i h ≡ ok (i', h')
      → (c : B) × (get_bundle i' ≡ some c) × (api.version c ≡ api.version b)
  unfolding update_info get_bundle
  update_info-version b t overwrite (complete i) h e = (b, ground arith, refl)
  update_info-version b t overwrite (delta i) h e =
      elim (Option-cases (api.inherit_events b i.bundle)) [
        | inl n ↦ ground (arith, n)
        | inr (c, k) ↦ (c, ground (arith, k), api.inherit_version b i.bundle c k)
      ]

  update_info_err :
      (b : B) (t t' : ℕ) (overwrite : Bool) (i : BundleInfo B) (h : Heap) (x : UpdateError)
      → update_info b t overwrite i h ≡ err x
      → update_info b t' overwrite i h ≡ err x
  unfolding update_info
  update_info_err b t t' overwrite (complete i) h x e = cc
  update_info_err b t t' overwrite (delta i) h x e = ground arith

  insert_bundle_ignored :
      (b : B) (t : ℕ) (u : ConflationUnit B) (s : Shared) (e : ConflationElement B)
      → get_elem? u.priority_queue (priority_of u (api.bundle_type b)) ≡ some e
      → (is_news b e ≡ false)
        ⊎ ((x : UpdateError) × (update_info b t (not e.in_process) e.info s.heap ≡ err x))
      → insert_bundle b t u s ≡ some (u, s)
  unfolding insert_bundle
  insert_bundle_ignored b t u s e g (inl old) = ground arith
  insert_bundle_ignored b t u s e g (inr (x, f)) = ground arith

  is_news-held :
      (b c : B) (e : ConflationElement B)
      → get_bundle e.info ≡ some c
      → api.version c ≡ api.version b
      → is_news b e ≡ false
  unfolding is_news
  is_news-held b c e h same = ground (arith, newer_than_irrefl (api.version b))

  ignored_again :
      (b : B) (t t' : ℕ) (e : ConflationElement B) (h : Heap)
      → (is_news b e ≡ false)
        ⊎ ((x : UpdateError) × (update_info b t (not e.in_process) e.info h ≡ err x))
      → (is_news b e ≡ false)
        ⊎ ((x : UpdateError) × (update_info b t' (not e.in_process) e.info h ≡ err x))
  ignored_again b t t' e h (inl old) = inl old
  ignored_again b t t' e h (inr (x, f)) =
      inr (x, update_info_err b t t' (not e.in_process) e.info h x f)

  -- A bundle that is delivered twice changes a unit once: after a first `insert` a second one of
  -- the same bundle, with any transport metadata, leaves the unit and what it shares as they are.
  pub insert_bundle-insert_bundle :
      (b : B) (t t' : ℕ) (u : ConflationUnit B) (s : Shared) {u' : ConflationUnit B} {s' : Shared}
      → insert_bundle b t u s ≡ some (u', s')
      → insert_bundle b t' u' s' ≡ some (u', s')
  unfolding put_element priority_of
  insert_bundle-insert_bundle b t t' u s {u'} {s'} h = elim (insert_bundle_cases b t u s h) [
    | inl (e, f, g) ↦
        rw (e, f)
          (insert_bundle_ignored b t' u s g.element g.found
            (ignored_again b t t' g.element s.heap g.reason))
    | inr c ↦
        let (d, held, same) =
          update_info-version b t (not c.element.in_process) c.element.info s.heap c.updated in
        let e' = record c.element { info = c.info } in
        let p = priority_of u (api.bundle_type b) in
        let k = add_to_ready_queue-SameElements (put_element u p e') _ c.added in
        insert_bundle_ignored b t' u' s' e'
          (rw (k.elements, k.types)
            (get_elem?-set_self u.priority_queue p e' (lt-length u.priority_queue p c.found)))
          (inl (is_news-held b d e' held same))
  ]

  abbrev Advances : ConflationUnit B → ConflationUnit B → Type 0
  Advances u u' =
      (p : ℕ) (e e' : ConflationElement B)
      → get_elem? u.priority_queue p ≡ some e
      → get_elem? u'.priority_queue p ≡ some e'
      → IsNotOlder e'.last_processed e.last_processed

  put_element-Advances :
      (u u' : ConflationUnit B) (p : ℕ) (e e' : ConflationElement B)
      → get_elem? u.priority_queue p ≡ some e
      → u'.priority_queue ≡ set u.priority_queue p e'
      → IsNotOlder e'.last_processed e.last_processed
      → Advances u u'
  put_element-Advances u u' p e e' g same n q x x' f f' =
      elim (get_elem?-set_cases u.priority_queue p q (rw same at f')) [
        | inl (at, new) ↦ ground (arith, at, new, f, g, n)
        | inr old ↦ inl (ground (arith, old, f))
      ]

  -- What may happen to a unit: a bundle arrives, the dispatcher asks for one, a worker reports.
  pub data UnitStep (u : ConflationUnit B) (s : Shared) (u' : ConflationUnit B) (s' : Shared)
      : Type 0 where
    inserts : (b : B) (t : ℕ) → insert_bundle b t u s ≡ some (u', s') → UnitStep u s u' s'
    takes :
        (r : Option (Option B × Option ℕ × ℕ))
        → get_next u s ≡ some (u', s', r)
        → UnitStep u s u' s'
    reports :
        (m : ℕ) (failed : Bool) → report_result m failed u s ≡ some (u', s') → UnitStep u s u' s'

  Advances-refl : (u u' : ConflationUnit B) → u'.priority_queue ≡ u.priority_queue → Advances u u'
  Advances-refl u u' same p e e' g g' = inl (ground (arith, same, g, g'))

  -- No step of a unit takes the last processed version of a bundle type back: each element's
  -- version afterwards is the one before or a newer one.
  pub UnitStep-Advances :
      (u : ConflationUnit B) (s : Shared) (u' : ConflationUnit B) (s' : Shared)
      → UnitStep u s u' s'
      → Advances u u'
  unfolding put_element
  UnitStep-Advances u s u' s' (inserts b t h) = elim (insert_bundle_cases b t u s h) [
    | inl (e, _, _) ↦ Advances-refl u u' (ground (arith, e))
    | inr c ↦
        put_element-Advances u u' _ c.element _ c.found
          (add_to_ready_queue-SameElements _ _ c.added).elements (inl refl)
  ]
  UnitStep-Advances u s u' s' (takes r h) = elim (get_next_cases u s h) [
    | inl (e, _, _, _) ↦ Advances-refl u u' (ground (arith, e))
    | inr c ↦
        put_element-Advances u u' c.priority c.element (taken c.element c.info) c.found
          (ground (arith, c.unit)) (inl refl)
  ]
  UnitStep-Advances u s u' s' (reports m failed h) =
      let c = report_result_cases m failed u s h in
      put_element-Advances u u' _ c.element _ c.found
        (add_to_ready_queue-SameElements _ _ c.added).elements
        (version_after-IsNotOlder failed (s.heap.cell m).bundle_version c.element.last_processed)
