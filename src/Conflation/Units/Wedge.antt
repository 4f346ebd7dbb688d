-- ===== src/Conflation/Units/Wedge.antt =====
-- conflation_unit.go: a queued unit whose only ready bundle is replaced by one that is not ready.
use multicluster_global_hub.Base.{
  ◌>>=◌, ℕ, ◌≡◌, true, Option, none, some, List, [], ◌∷◌, arith, inl, inr, ◌∙◌,
}
use multicluster_global_hub.Conflation.Bundles.{BundleApi}
use multicluster_global_hub.Conflation.Units.{
  ConflationUnit, Shared, next_priority, get_next, insert_bundle, put_element,
}
use multicluster_global_hub.Conflation.Units.Cases.{
  insert_bundle_cases, add_to_ready_queue_cases, >>=-eq-some,
}
use multicluster_global_hub.Conflation.Units.Exclusive.{occurrences}

module _ {B : Type 0} ⦃api : BundleApi B⦄ where
  -- Bundles that arrive one after the other.
  unfoldable pub insert_all :
      List (B × ℕ) → ConflationUnit B → Shared → Option (ConflationUnit B × Shared)
  insert_all [] u s = some (u, s)
  insert_all ((b, t) ∷ arrivals) u s = insert_bundle b t u s >>= λ r. insert_all arrivals r.0 r.1

  insert_bundle_queued :
      (b : B) (t : ℕ) (u : ConflationUnit B) (s : Shared) {u' : ConflationUnit B} {s' : Shared}
      → u.in_ready_queue ≡ true
      → insert_bundle b t u s ≡ some (u', s')
      → (u'.in_ready_queue ≡ true) × (s'.ready_queue ≡ s.ready_queue)
  unfolding put_element
  insert_bundle_queued b t u s q h = elim (insert_bundle_cases b t u s h) [
    | inl (e, f, _) ↦ ground (arith, e, f, q)
    | inr c ↦ elim (add_to_ready_queue_cases _ _ c.added) [
      | inl (e, f) ↦ ground (arith, e, f, q)
      | inr k ↦ ground (arith, k.off, q)
    ]
  ]

  insert_all_queued :
      (arrivals : List (B × ℕ)) (u : ConflationUnit B) (s : Shared) {u' : ConflationUnit B}
      {s' : Shared}
      → u.in_ready_queue ≡ true
      → insert_all arrivals u s ≡ some (u', s')
      → (u'.in_ready_queue ≡ true) × (s'.ready_queue ≡ s.ready_queue)
  unfolding insert_all
  insert_all_queued [] u s q h = ground (arith, q)
  insert_all_queued ((b, t) ∷ arrivals) u s q h =
      let (r, k, l) = >>=-eq-some (insert_bundle b t u s) _ h in
      let (q', same) = insert_bundle_queued b t u s q k in
      let (q'', same') = insert_all_queued arrivals r.0 r.1 q' l in (q'', same' ∙ same)

  -- The dispatcher took a unit from the queue (it no longer stands there) and finds no bundle of
  -- it ready. Then `GetNext` fails and changes nothing, the flag stays set, and whatever bundles
  -- arrive afterwards, the unit is not queued again.
  pub get_next_wedges :
      (arrivals : List (B × ℕ)) (u : ConflationUnit B) (s : Shared) (u' : ConflationUnit B)
      (s' : Shared)
      → u.in_ready_queue ≡ true
      → occurrences u.name s.ready_queue ≡ 0
      → next_priority u ≡ some none
      → insert_all arrivals u s ≡ some (u', s')
      → (get_next u s ≡ some (u, s, none))
        × (u'.in_ready_queue ≡ true)
        × (occurrences u.name s'.ready_queue ≡ 0)
  unfolding get_next
  get_next_wedges arrivals u s u' s' q off n h =
      let (q', same) = insert_all_queued arrivals u s q h in (ground (arith, n), q', rw same off)
