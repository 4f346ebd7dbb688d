-- ===== src/Conflation/Manager/Steps.antt =====
-- The interleavings of arriving bundles, the dispatcher and the workers, over all leaf hubs.
use multicluster_global_hub.Base.{
  ℕ, ◌+◌, ◌≡◌, refl, String, Bool, Option, none, some, List, [], ◌∷◌, inl, inr, arith, subst,
  string_key, ◌==◌, ==_iff, Bool-cases, Option-cases, ◌≢◌, ◌∙◌, ap, of_some,
}
use multicluster_global_hub.Base.Maps.{lookup, lookup-insert}
use multicluster_global_hub.Conflation.Bundles.{BundleApi}
use multicluster_global_hub.Conflation.Units.{ConflationUnit, Shared, new_unit}
use multicluster_global_hub.Conflation.Units.Cases.{>>=-eq-some}
use multicluster_global_hub.Conflation.Manager.{
  ConflationManager, get_unit, put_unit, dequeue, manager_insert, dispatch, report, get_next,
  insert_bundle, report_result, take_front,
}
use multicluster_global_hub.Conflation.Units.Exclusive.{
  flag, IsExclusive, LeavesOthers, insert_bundle-LeavesOthers, report_result-LeavesOthers,
  get_next-LeavesOthers, occurrences, new_unit_idle, insert_bundle-IsExclusive,
  report_result-IsExclusive, get_next-IsExclusive,
}

-- How often the dispatcher holds a unit.
abbrev holds : String → Option String → ℕ
holds n none = 0
holds n (some x) = flag (x == n)

module _ {B : Type 0} where
  -- Every unit is filed under its name and in order, and only units are queued or held.
  pub record IsOrderly (w : ConflationManager B) : Type 0 where
    pub unit :
        (hub : String) (u : ConflationUnit B)
        → lookup hub w.units ≡ some u
        → (u.name ≡ hub) × IsExclusive (holds hub w.held) u w.shared
    pub absent :
        (hub : String)
        → lookup hub w.units ≡ none
        → occurrences hub w.shared.ready_queue + holds hub w.held ≡ 0

  -- What the interleaving may do next: a bundle arrives, the dispatcher takes a unit from the
  -- queue, it asks the unit for a bundle, or a worker reports.
  pub data ManagerStep ⦃api : BundleApi B⦄ (w w' : ConflationManager B) : Type 0 where
    inserts : (b : B) (t : ℕ) → manager_insert b t w ≡ some w' → ManagerStep w w'
    dequeues : w.held ≡ none → dequeue w ≡ some w' → ManagerStep w w'
    dispatches :
        (r : Option (Option B × Option ℕ × ℕ)) → dispatch w ≡ some (w', r) → ManagerStep w w'
    reports :
        (hub : String) (m : ℕ) (failed : Bool) → report hub m failed w ≡ some w' → ManagerStep w w'

module _ {B : Type 0} ⦃api : BundleApi B⦄ where
  -- A step of the unit of a leaf hub, seen by the whole: others keep their places.
  step_unit-IsOrderly :
      (w : ConflationManager B) (hub : String) (u u' : ConflationUnit B) (s' : Shared)
      (held : Option String)
      → IsOrderly w
      → u.name ≡ hub
      → LeavesOthers u w.shared u' s'
      → ((k : String) → k ≢ hub → holds k held ≡ holds k w.held)
      → IsExclusive (holds hub held) u' s'
      → IsOrderly (record (put_unit hub u' s' w) { held = held })
  unfolding put_unit
  step_unit-IsOrderly w hub u u' s' held v name others away x = record {
    unit = λ k y f. elim (Bool-cases (hub == k)) [
      | inl e ↦
          let at : hub ≡ k = (==_iff hub k).0 e in
          let new : y ≡ u' = ground (arith, e, f, lookup-insert hub k u' w.units) in
          rw new (others.0 ∙ name ∙ at, subst (λ n. IsExclusive (holds n held) u' s') at x)
      | inr e ↦
          let off : k ≢ hub = λ c. ground (arith, e, ==_iff hub k, c) in
          let old : lookup k w.units ≡ some y =
            ground (arith, e, f, lookup-insert hub k u' w.units) in
          let (named, z) = v.unit k y old in
          let same = others.1 k (λ c. off (c ∙ name)) in
          (
            named,
            record { once = ground (arith, named, same, away k off, z.once); apart = z.apart },
          )
    ];
    absent = λ k f. elim (Bool-cases (hub == k)) [
      | inl e ↦ ground (arith, e, f, lookup-insert hub k u' w.units)
      | inr e ↦
          let off : k ≢ hub = λ c. ground (arith, e, ==_iff hub k, c) in
          let old : lookup k w.units ≡ none =
            ground (arith, e, f, lookup-insert hub k u' w.units) in
          let same = others.1 k (λ c. off (c ∙ name)) in
          omega (arith, v.absent k old, same, away k off)
    ];
  }

  new_unit-IsExclusive :
      (hub : String) (w : ConflationManager B) {u : ConflationUnit B}
      → IsOrderly w
      → lookup hub w.units ≡ none
      → new_unit hub w.registrations w.require_initial_checks ≡ some u
      → (u.name ≡ hub) × IsExclusive (holds hub w.held) u w.shared
  new_unit-IsExclusive hub w v n h =
      let (name, off, idle) = new_unit_idle hub w.registrations w.require_initial_checks h in
      (
        name,
        record { once = ground (arith, name, v.absent hub n); apart = ground (arith, off, idle) },
      )

  get_unit-IsExclusive :
      (hub : String) (w : ConflationManager B) {u : ConflationUnit B}
      → IsOrderly w
      → get_unit hub w ≡ some u
      → (u.name ≡ hub) × IsExclusive (holds hub w.held) u w.shared
  unfolding get_unit
  get_unit-IsExclusive hub w {u} v h = elim (Option-cases (lookup hub w.units)) [
    | inl n ↦ new_unit-IsExclusive hub w v n (ground (arith, n, h))
    | inr (y, f) ↦ v.unit hub u (ground (arith, f, h))
  ]

  manager_insert-IsOrderly :
      (b : B) (t : ℕ) (w : ConflationManager B) {w' : ConflationManager B}
      → IsOrderly w
      → manager_insert b t w ≡ some w'
      → IsOrderly w'
  unfolding manager_insert put_unit
  manager_insert-IsOrderly b t w v h =
      let hub = api.leaf_hub_name b in
      let (u, g, k) = >>=-eq-some (get_unit hub w) _ h in
      let (r, i, l) = >>=-eq-some (insert_bundle b t u w.shared) _ k in
      let (name, x) = get_unit-IsExclusive hub w v g in
      subst IsOrderly (of_some l) (
        step_unit-IsOrderly w hub u r.0 r.1 w.held v name
          (insert_bundle-LeavesOthers b t u w.shared i) (λ k _. refl)
          (insert_bundle-IsExclusive _ b t u w.shared x i))

  report-IsOrderly :
      (hub : String) (m : ℕ) (failed : Bool) (w : ConflationManager B) {w' : ConflationManager B}
      → IsOrderly w
      → report hub m failed w ≡ some w'
      → IsOrderly w'
  unfolding report put_unit
  report-IsOrderly hub m failed w v h =
      let (u, g, k) = >>=-eq-some (lookup hub w.units) _ h in
      let (r, i, l) = >>=-eq-some (report_result m failed u w.shared) _ k in
      let (name, x) = v.unit hub u g in
      subst IsOrderly (of_some l) (
        step_unit-IsOrderly w hub u r.0 r.1 w.held v name
          (report_result-LeavesOthers m failed u w.shared i) (λ k _. refl)
          (report_result-IsExclusive _ m failed u w.shared x i))

  dispatch-IsOrderly :
      (w : ConflationManager B) {w' : ConflationManager B} {r : Option (Option B × Option ℕ × ℕ)}
      → IsOrderly w
      → dispatch w ≡ some (w', r)
      → IsOrderly w'
  unfolding dispatch put_unit
  dispatch-IsOrderly w v h =
      let (hub, a, h') = >>=-eq-some w.held _ h in
      let (u, g, k) = >>=-eq-some (lookup hub w.units) _ h' in
      let (q, i, l) = >>=-eq-some (get_next u w.shared) _ k in
      let (name, x) = v.unit hub u g in
      let once : holds hub w.held ≡ 1 = ground (arith, a, ==_iff hub hub) in
      subst IsOrderly (ap (λ p. p.0) (of_some l)) (
        step_unit-IsOrderly w hub u q.0 q.1 none v name (get_next-LeavesOthers u w.shared i)
          (λ k ne. ground (arith, a, ==_iff hub k, ne))
          (get_next-IsExclusive u w.shared (subst (λ n. IsExclusive n u w.shared) once x) i))

  take_front-IsOrderly :
      (queue : List String) (w : ConflationManager B) {w' : ConflationManager B}
      → IsOrderly w
      → w.held ≡ none
      → w.shared.ready_queue ≡ queue
      → take_front queue w ≡ some w'
      → IsOrderly w'
  take_front-IsOrderly [] w v free q h = cc
  take_front-IsOrderly (first ∷ rest) w v free q h = subst IsOrderly (of_some h) (record {
    unit = λ hub u f.
        let (named, x) = v.unit hub u f in
        (
          named,
          record {
            once = ground (arith, named, free, q, x.once, ap (occurrences hub) q);
            apart = x.apart;
          },
        );
    absent = λ hub f. ground (arith, free, v.absent hub f, ap (occurrences hub) q);
  })

  -- Every step keeps every unit in order.
  ManagerStep-IsOrderly :
      (w w' : ConflationManager B) → ManagerStep w w' → IsOrderly w → IsOrderly w'
  unfolding dequeue
  ManagerStep-IsOrderly w w' (inserts b t h) v = manager_insert-IsOrderly b t w v h
  ManagerStep-IsOrderly w w' (dequeues free h) v =
      take_front-IsOrderly w.shared.ready_queue w v free refl h
  ManagerStep-IsOrderly w w' (dispatches r h) v = dispatch-IsOrderly w v h
  ManagerStep-IsOrderly w w' (reports hub m failed h) v = report-IsOrderly hub m failed w v h

  pub data Reaches (w : ConflationManager B) : ConflationManager B → Type 0 where
    here : Reaches w w
    next : {u v : ConflationManager B} → Reaches w u → ManagerStep u v → Reaches w v

  Reaches-IsOrderly : {w w' : ConflationManager B} → IsOrderly w → Reaches w w' → IsOrderly w'
  Reaches-IsOrderly v here = v
  Reaches-IsOrderly v (next {u = a} {v = b} r st) =
      ManagerStep-IsOrderly a b st (Reaches-IsOrderly v r)

  start-IsOrderly :
      (w : ConflationManager B)
      → w.units ≡ []
      → w.shared.ready_queue ≡ []
      → w.held ≡ none
      → IsOrderly w
  start-IsOrderly w none_yet empty free = record {
    unit = λ hub u f. ground (arith, none_yet, f);
    absent = λ hub f. ground (arith, empty, free);
  }

  -- However bundles arrive, the dispatcher takes units and workers report, from a manager with no
  -- units and an empty queue: each unit is filed under its name, stands at most once in the ready
  -- queue or with the dispatcher and then says so in its flag, and has at most one bundle in
  -- process and none while its flag is set; and nothing else is queued.
  pub Reaches-start-IsOrderly :
      (w w' : ConflationManager B)
      → w.units ≡ []
      → w.shared.ready_queue ≡ []
      → w.held ≡ none
      → Reaches w w'
      → IsOrderly w'
  Reaches-start-IsOrderly w w' none_yet empty free r =
      Reaches-IsOrderly (start-IsOrderly w none_yet empty free) r
