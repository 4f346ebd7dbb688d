-- ===== src/Conflation/Units/Selection.antt =====
-- conflation_unit.go, getNextReadyBundlePriority: which bundle is handed out next.
use multicluster_global_hub.Base.{
  ℕ, zero, suc, ◌+◌, ◌<◌, ◌≡◌, refl, Bool, true, false, Option, none, some, List, [], ◌∷◌, ◌⊎◌, inl,
  inr, arith, if◌then◌else◌, length, get_elem?, Bool-cases, Option-cases, subst, lt-length,
  get_elem?-set_self,
}
use multicluster_global_hub.Version.{no_bundle_version, equals→eq}
use multicluster_global_hub.Conflation.Bundles.{BundleApi, Dependency}
use multicluster_global_hub.Conflation.Info.{get_bundle}
use multicluster_global_hub.Conflation.Units.{
  ConflationElement, ConflationUnit, Shared, scan, is_ready, next_priority, get_next, element_of,
  check_dependency, chain_in_process, matches,
}
use multicluster_global_hub.Conflation.Units.Cases.{get_next_cases, >>=-eq-some, taken}

module _ {B : Type 0} ⦃api : BundleApi B⦄ where
  -- A position of the queue from which the loop has passed over what is not ready.
  abbrev pub PassedOver : ConflationUnit B → List (ConflationElement B) → ℕ → Type 0
  PassedOver u es n =
      (q : ℕ) (e : ConflationElement B)
      → q < n
      → get_elem? es q ≡ some e
      → is_ready u e ≡ some false

  -- What the loop returns, over the elements that are left.
  abbrev Finds : ConflationUnit B → List (ConflationElement B) → ℕ → Option ℕ → Type 0
  Finds u es p none = PassedOver u es (length es)
  Finds u es p (some r) =
      (q : ℕ) × (r ≡ p + q)
      × ((e : ConflationElement B) × (get_elem? es q ≡ some e) × (is_ready u e ≡ some true))
      × PassedOver u es q

  PassedOver-cons :
      (u : ConflationUnit B) (e : ConflationElement B) (es : List (ConflationElement B)) (n : ℕ)
      → is_ready u e ≡ some false
      → PassedOver u es n
      → PassedOver u (e ∷ es) (suc n)
  PassedOver-cons u e es n h f zero e' l g = ground (arith, h)
  PassedOver-cons u e es n h f (suc q) e' l g = f q e' (omega arith) g

  Finds-cons :
      (u : ConflationUnit B) (e : ConflationElement B) (es : List (ConflationElement B)) (p : ℕ)
      (r : Option ℕ)
      → is_ready u e ≡ some false
      → Finds u es (suc p) r
      → Finds u (e ∷ es) p r
  Finds-cons u e es p none h f = PassedOver-cons u e es (length es) h f
  Finds-cons u e es p (some r) h (q, eq, found, f) =
      (suc q, omega arith, found, PassedOver-cons u e es q h f)

  scan_step :
      (u : ConflationUnit B) (p : ℕ) (e : ConflationElement B) (es : List (ConflationElement B))
      (ready : Bool) (r : Option ℕ)
      → is_ready u e ≡ some ready
      → (if ready then some (some p) else scan u (suc p) es) ≡ some r
      → (scan u (suc p) es ≡ some r → Finds u es (suc p) r)
      → Finds u (e ∷ es) p r
  scan_step u p e es true none k l ih = cc
  scan_step u p e es true (some r) k l ih =
      (0, ground arith, (e, refl, k), λ q e' lt g. absurd (omega arith))
  scan_step u p e es false r k l ih = Finds-cons u e es p r k (ih l)

  scan-Finds :
      (u : ConflationUnit B) (p : ℕ) (es : List (ConflationElement B)) (r : Option ℕ)
      → scan u p es ≡ some r
      → Finds u es p r
  unfolding scan
  scan-Finds u p [] none h = λ q e l g. absurd (omega arith)
  scan-Finds u p [] (some r) h = cc
  scan-Finds u p (e ∷ es) r h =
      let (ready, k, l) = >>=-eq-some (is_ready u e) _ h in
      scan_step u p e es ready r k l (scan-Finds u (suc p) es r)

  -- `next_priority` names a ready element with none ready before it.
  pub next_priority-first :
      (u : ConflationUnit B) (p : ℕ)
      → next_priority u ≡ some (some p)
      → ((e : ConflationElement B) × (get_elem? u.priority_queue p ≡ some e)
          × (is_ready u e ≡ some true))
        × PassedOver u u.priority_queue p
  unfolding next_priority
  next_priority-first u p h =
      let (q, eq, found, f) = scan-Finds u 0 u.priority_queue (some p) h in
      let same : p ≡ q = omega arith in rw same (found, f)

  -- The unit reports that no bundle is ready only if none of its elements is.
  pub next_priority-none :
      (u : ConflationUnit B)
      → next_priority u ≡ some none
      → (p : ℕ) (e : ConflationElement B) → get_elem? u.priority_queue p ≡ some e
      → is_ready u e ≡ some false
  unfolding next_priority
  next_priority-none u h p e g =
      scan-Finds u 0 u.priority_queue none h p e (lt-length u.priority_queue p g) g

  -- What a ready bundle is: it is held, not in process, and if its type depends on another, then
  -- that one is not in process, the bundle says which version it wants, and the dependency's last
  -- processed version is that one (or at least that one), unless nothing was processed yet and the
  -- transport needs no initial check.
  pub record IsReady (u : ConflationUnit B) (e : ConflationElement B) (b : B) : Type 0 where
    pub held : get_bundle e.info ≡ some b
    pub idle : e.in_process ≡ false
    pub depends :
        (d : Dependency)
        → e.dependency ≡ some d
        → (target : ConflationElement B) × (element_of u d.bundle_type ≡ some target)
          × (target.in_process ≡ false)
          × (api.is_dependant b ≡ true)
          × ((matches d.dependency_type (api.dependency_version b) target.last_processed ≡ true)
              ⊎ ((u.require_initial_checks ≡ false) × (target.last_processed ≡ no_bundle_version)))

  chain_idle :
      (fuel : ℕ) (u : ConflationUnit B) (e : ConflationElement B)
      → chain_in_process fuel u e ≡ some false
      → e.in_process ≡ false
  unfolding chain_in_process
  chain_idle zero u e h = cc
  chain_idle (suc fuel) u e h = ground arith

  chain_target_idle :
      (fuel : ℕ) (u : ConflationUnit B) (e t : ConflationElement B) (d : Dependency)
      → chain_in_process fuel u e ≡ some false
      → e.dependency ≡ some d
      → element_of u d.bundle_type ≡ some t
      → t.in_process ≡ false
  unfolding chain_in_process
  chain_target_idle zero u e t d h k g = cc
  chain_target_idle (suc fuel) u e t d h k g = ground (arith, chain_idle fuel u t)

  check_dependency-true :
      (u : ConflationUnit B) (d : Dependency) (b : B)
      → check_dependency u (some d) b ≡ some true
      → (target : ConflationElement B) × (element_of u d.bundle_type ≡ some target)
        × (api.is_dependant b ≡ true)
        × ((matches d.dependency_type (api.dependency_version b) target.last_processed ≡ true)
            ⊎ ((u.require_initial_checks ≡ false) × (target.last_processed ≡ no_bundle_version)))
  unfolding check_dependency
  check_dependency-true u d b h = elim (Option-cases (element_of u d.bundle_type)) [
    | inl n ↦ ground (arith, n, h)
    | inr (target, g) ↦ (
      target,
      g,
      ground (arith, g, h),
      elim (Bool-cases
          (matches d.dependency_type (api.dependency_version b) target.last_processed)) [
            | inl m ↦ inl m
            | inr m ↦ inr (
              ground (arith, g, h, m),
              equals→eq target.last_processed no_bundle_version (ground (arith, g, h, m)),
            )
          ],
    )
  ]

  is_ready_parts :
      (u : ConflationUnit B) (e : ConflationElement B)
      → is_ready u e ≡ some true
      → (b : B) × (get_bundle e.info ≡ some b)
        × (chain_in_process (suc (length u.priority_queue)) u e ≡ some false)
        × (check_dependency u e.dependency b ≡ some true)
  unfolding is_ready
  is_ready_parts u e h = elim (Option-cases (get_bundle e.info)) [
    | inl n ↦ ground (arith, n, h)
    | inr (b, g) ↦ (b, g, ground (arith, g, h), ground (arith, g, h))
  ]

  pub is_ready-IsReady :
      (u : ConflationUnit B) (e : ConflationElement B)
      → is_ready u e ≡ some true
      → (b : B) × IsReady u e b
  is_ready-IsReady u e h =
      let (b, g, c, k) = is_ready_parts u e h in
      (
        b,
        record {
          held = g;
          idle = chain_idle _ u e c;
          depends = λ d eq.
              let (t, f, w, m) =
                check_dependency-true u d b
                  (subst (λ o. check_dependency u o b ≡ some true) eq k) in
              (t, f, chain_target_idle _ u e t d c eq f, w, m);
        },
      )

  -- `GetNext` hands out a bundle that is ready, of the first priority that has one, with the
  -- handler registered for it; afterwards the unit is off the queue and that bundle in process.
  pub get_next_first :
      (u : ConflationUnit B) (s : Shared) {u' : ConflationUnit B} {s' : Shared} {held : Option B}
      {m : Option ℕ} {handler : ℕ}
      → get_next u s ≡ some (u', s', some (held, m, handler))
      → (p : ℕ) × (e : ConflationElement B) × (b : B) × (get_elem? u.priority_queue p ≡ some e)
        × (held ≡ some b)
        × (handler ≡ e.handler)
        × IsReady u e b
        × PassedOver u u.priority_queue p
        × (u'.in_ready_queue ≡ false)
        × ((e' : ConflationElement B) × (get_elem? u'.priority_queue p ≡ some e')
            × (e'.in_process ≡ true))
  get_next_first u s h = elim (get_next_cases u s h) [
    | inl (_, _, n, _) ↦ ground arith
    | inr c ↦
        let ((e, g, k), before) = next_priority-first u c.priority c.chosen in
        let same : c.element ≡ e = ground (arith, c.found, g) in
        let (b, ready) = is_ready-IsReady u e k in
        let stored =
          get_elem?-set_self u.priority_queue c.priority (taken c.element c.info)
            (lt-length u.priority_queue c.priority g) in
        (
          c.priority,
          e,
          b,
          g,
          ground (arith, c.result, same, ready.held),
          ground (arith, c.result, same),
          ready,
          before,
          rw c.unit refl,
          (taken c.element c.info, rw c.unit stored, refl),
        )
  ]
