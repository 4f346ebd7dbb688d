-- ===== src/Conflation/Units/Termination.antt =====
-- conflation_unit.go: the walk along a chain of dependencies ends, and the operations of a unit
-- return without a panic.
use multicluster_global_hub.Base.{
  ℕ, zero, suc, ◌<◌, ◌≡◌, refl, Bool, true, false, Option, none, some, List, [], ◌∷◌, inl, inr,
  arith, ◌≢◌, some_of_ne_none, lt-length, length-set, length, get_elem?, Bool-cases, Option-cases,
  subst, get_elem?-some, String, get_elem?-set_cases,
}
use multicluster_global_hub.Conflation.Bundles.{BundleApi, Dependency}
use multicluster_global_hub.Conflation.Info.{get_bundle}
use multicluster_global_hub.Conflation.Units.{
  ConflationElement, ConflationUnit, Shared, scan, is_ready, next_priority, element_of,
  check_dependency, chain_in_process, priority_of, add_to_ready_queue, put_element,
}

module _ {B : Type 0} where
  -- Every bundle type has a slot, and a bundle depends only on types of a higher priority (a
  -- smaller number), as the registrations of the database syncers do.
  pub record IsLayered (u : ConflationUnit B) : Type 0 where
    pub in_range : (type : String) → priority_of u type < length u.priority_queue
    pub descends :
        (p : ℕ) (e : ConflationElement B) (d : Dependency)
        → get_elem? u.priority_queue p ≡ some e
        → e.dependency ≡ some d
        → priority_of u d.bundle_type < p

  element_of-some :
      (u : ConflationUnit B) (type : String)
      → IsLayered u
      → (e : ConflationElement B) × (element_of u type ≡ some e)
  unfolding element_of
  element_of-some u type l = get_elem?-some u.priority_queue (priority_of u type) (l.in_range type)

  -- The walk from priority `p` needs fuel `p + 1`.
  chain_in_process-some :
      (fuel p : ℕ) (u : ConflationUnit B) (e : ConflationElement B)
      → IsLayered u
      → get_elem? u.priority_queue p ≡ some e
      → p < fuel
      → (busy : Bool) × (chain_in_process fuel u e ≡ some busy)
  unfolding chain_in_process element_of
  chain_in_process-some zero p u e l g h = elim h [ ]
  chain_in_process-some (suc fuel) p u e l g h = elim (Bool-cases e.in_process) [
    | inl busy ↦ (true, rw busy)
    | inr idle ↦ elim (Option-cases e.dependency) [
      | inl n ↦ (false, ground (arith, idle, n))
      | inr (d, eq) ↦
          let (t, f) = element_of-some u d.bundle_type l in
          let below = l.descends p e d g eq in
          let (busy, k) =
            chain_in_process-some fuel (priority_of u d.bundle_type) u t l f (omega arith) in
          (busy, ground (arith, idle, eq, f, k))
    ]
  ]

module _ {B : Type 0} ⦃api : BundleApi B⦄ where
  check_dependency-some :
      (u : ConflationUnit B) (o : Option Dependency) (b : B)
      → IsLayered u
      → check_dependency u o b ≢ none
  unfolding check_dependency
  check_dependency-some u none b l e = cc
  check_dependency-some u (some d) b l e =
      let (t, f) = element_of-some u d.bundle_type l in ground (arith, f)

  is_ready-some :
      (u : ConflationUnit B) (p : ℕ) (e : ConflationElement B)
      → IsLayered u
      → get_elem? u.priority_queue p ≡ some e
      → is_ready u e ≢ none
  unfolding is_ready
  is_ready-some u p e l g h = elim (Option-cases (get_bundle e.info)) [
    | inl n ↦ ground (arith, n, h)
    | inr (b, held) ↦
        let (busy, k) =
          chain_in_process-some (suc (length u.priority_queue)) p u e l g
            (omega (arith, lt-length u.priority_queue p g)) in
        ground (arith, held, k, h, check_dependency-some u e.dependency b l)
  ]

  scan-some :
      (u : ConflationUnit B) (p : ℕ) (es : List (ConflationElement B))
      → ((q : ℕ) (e : ConflationElement B) → get_elem? es q ≡ some e → is_ready u e ≢ none)
      → scan u p es ≢ none
  unfolding scan
  scan-some u p [] all h = cc
  scan-some u p (e ∷ es) all h =
      ground (arith, all zero e refl, scan-some u (suc p) es (λ q e' g. all (suc q) e' g))

  -- The search for a ready bundle ends on a layered unit, with fuel that the number of elements
  -- bounds, and does not panic.
  pub next_priority-some :
      (u : ConflationUnit B) → IsLayered u → (r : Option ℕ) × (next_priority u ≡ some r)
  unfolding next_priority
  next_priority-some u l =
      some_of_ne_none _ (scan-some u 0 u.priority_queue (λ q e g. is_ready-some u q e l g))

  pub add_to_ready_queue-some :
      (u : ConflationUnit B) (s : Shared) → IsLayered u → add_to_ready_queue u s ≢ none
  unfolding add_to_ready_queue
  add_to_ready_queue-some u s l h = let (r, k) = next_priority-some u l in ground (arith, k)

  pub put_element-IsLayered :
      (u : ConflationUnit B) (p : ℕ) (e e' : ConflationElement B)
      → IsLayered u
      → get_elem? u.priority_queue p ≡ some e
      → e'.dependency ≡ e.dependency
      → IsLayered (put_element u p e')
  unfolding put_element priority_of
  put_element-IsLayered u p e e' l g same = record {
    in_range = λ type. omega (arith, l.in_range type, length-set u.priority_queue p e');
    descends = λ q x d f dep. elim (get_elem?-set_cases u.priority_queue p q f) [
      | inl (at, new) ↦
          subst (λ n. priority_of u d.bundle_type < n) at
            (l.descends p e d g (ground (arith, same, dep, new)))
      | inr old ↦ l.descends q x d old dep
    ];
  }
