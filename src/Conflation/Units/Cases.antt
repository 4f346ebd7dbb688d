-- ===== src/Conflation/Units/Cases.antt =====
-- conflation_unit.go: what each operation of a unit does when it does not panic.
use multicluster_global_hub.Base.{
  ◌>>=◌, ℕ, ◌≡◌, refl, Bool, true, false, not, ◌||◌, Option, none, some, [], ◌∷◌, ◌++◌, ◌⊎◌, inl,
  inr, arith, ok, err, get_elem?, set, Bool-cases, Result-cases, string_key,
}
use multicluster_global_hub.Version.{BundleVersion}
use multicluster_global_hub.Conflation.Bundles.{BundleApi}
use multicluster_global_hub.Conflation.Heap.{Heap}
use multicluster_global_hub.Conflation.Info.{
  UpdateError, BundleInfo, get_bundle, update_info, get_metadata, mark_info, fail_info,
}
use multicluster_global_hub.Conflation.Units.{
  ConflationElement, ConflationUnit, Shared, is_in_process, put_element, next_priority,
  add_to_ready_queue, insert_bundle, get_next, take_bundle, report_result, priority_of, is_news,
  newest,
}

-- Inversion of a step that did not panic.
pub >>=-eq-some {ℓ κ} :
    {A : Type ℓ} {B : Type κ} (m : Option A) (f : A → Option B) {b : B}
    → (m >>= f) ≡ some b
    → (a : A) × (m ≡ some a) × (f a ≡ some b)
>>=-eq-some none f h = ground arith
>>=-eq-some (some a) f h = (a, refl, h)

Option-Option-cases {ℓ} :
    {A : Type ℓ} (o : Option (Option A))
    → (o ≡ none) ⊎ (o ≡ some none) ⊎ ((a : A) × (o ≡ some (some a)))
Option-Option-cases none = inl refl
Option-Option-cases (some none) = inr (inl refl)
Option-Option-cases (some (some a)) = inr (inr (a, refl))

abbrev pub version_after : Bool → BundleVersion → BundleVersion → BundleVersion
version_after true v last = last
version_after false v last = newest v last

module _ {B : Type 0} ⦃api : BundleApi B⦄ where
  -- The queue step changes nothing, or sets the flag and appends the name of a unit that is not
  -- queued, not in process and has a ready bundle.
  pub record Queued (u : ConflationUnit B) (s : Shared) (u' : ConflationUnit B) (s' : Shared)
      : Type 0 where
    pub priority : ℕ
    pub off : u.in_ready_queue ≡ false
    pub idle : is_in_process u ≡ false
    pub ready : next_priority u ≡ some (some priority)
    pub unit : u' ≡ record u { in_ready_queue = true }
    pub shared : s' ≡ record s { ready_queue = s.ready_queue ++ u.name ∷ [] }

  pub add_to_ready_queue_cases :
      (u : ConflationUnit B) (s : Shared) {u' : ConflationUnit B} {s' : Shared}
      → add_to_ready_queue u s ≡ some (u', s')
      → ((u' ≡ u) × (s' ≡ s)) ⊎ Queued u s u' s'
  unfolding add_to_ready_queue
  add_to_ready_queue_cases u s h = elim (Bool-cases (u.in_ready_queue || is_in_process u)) [
    | inl skip ↦ inl (ground (arith, skip, h), ground (arith, skip, h))
    | inr go ↦ elim (Option-Option-cases (next_priority u)) [
      | inl stuck ↦ ground (arith, go, stuck, h)
      | inr (inl n) ↦ inl (ground (arith, go, n, h), ground (arith, go, n, h))
      | inr (inr (p, n)) ↦ inr (record {
        priority = p;
        off = ground (arith, go);
        idle = ground (arith, go);
        ready = n;
        unit = ground (arith, go, n, h);
        shared = ground (arith, go, n, h);
      })
    ]
  ]

  pub record Inserted (b : B) (t : ℕ) (u : ConflationUnit B) (s : Shared) (u' : ConflationUnit B)
      (s' : Shared) : Type 0 where
    pub element : ConflationElement B
    pub info : BundleInfo B
    pub heap : Heap
    pub found : get_elem? u.priority_queue (priority_of u (api.bundle_type b)) ≡ some element
    pub news : is_news b element ≡ true
    pub updated : update_info b t (not element.in_process) element.info s.heap ≡ ok (info, heap)
    pub added :
        add_to_ready_queue
          (put_element u (priority_of u (api.bundle_type b)) (record element { info = info }))
          (record s { heap = heap })
        ≡ some (u', s')

  pub record SameElements (u : ConflationUnit B) (s : Shared) (u' : ConflationUnit B) (s' : Shared)
      : Type 0 where
    pub elements : u'.priority_queue ≡ u.priority_queue
    pub types : u'.type_to_priority ≡ u.type_to_priority
    pub name : u'.name ≡ u.name
    pub objects : s'.heap ≡ s.heap

  pub add_to_ready_queue-SameElements :
      (u : ConflationUnit B) (s : Shared) {u' : ConflationUnit B} {s' : Shared}
      → add_to_ready_queue u s ≡ some (u', s')
      → SameElements u s u' s'
  unfolding add_to_ready_queue
  add_to_ready_queue-SameElements u s h = ground arith

  -- Why `insert` left everything as it was: the bundle is old, or its slot refused it.
  pub record Ignored (b : B) (t : ℕ) (u : ConflationUnit B) (s : Shared) : Type 0 where
    pub element : ConflationElement B
    pub found : get_elem? u.priority_queue (priority_of u (api.bundle_type b)) ≡ some element
    pub reason :
        (is_news b element ≡ false)
        ⊎ ((x : UpdateError) × (update_info b t (not element.in_process) element.info s.heap
              ≡ err x))

  -- `insert` changes nothing, or stores a bundle that is news and then asks for the queue.
  pub insert_bundle_cases :
      (b : B) (t : ℕ) (u : ConflationUnit B) (s : Shared) {u' : ConflationUnit B} {s' : Shared}
      → insert_bundle b t u s ≡ some (u', s')
      → ((u' ≡ u) × (s' ≡ s) × Ignored b t u s) ⊎ Inserted b t u s u' s'
  unfolding insert_bundle
  insert_bundle_cases b t u s h =
      let (e, g, k) =
        >>=-eq-some (get_elem? u.priority_queue (priority_of u (api.bundle_type b))) _ h in
      elim (Bool-cases (is_news b e)) [
        | inr old ↦ inl (
          ground (arith, old, k),
          ground (arith, old, k),
          record { element = e; found = g; reason = inl old },
        )
        | inl n ↦ elim (Result-cases (update_info b t (not e.in_process) e.info s.heap)) [
          | inr (x, f) ↦ inl (
            ground (arith, n, f, k),
            ground (arith, n, f, k),
            record { element = e; found = g; reason = inr (x, f) },
          )
          | inl ((i, h'), f) ↦ inr (record {
            element = e;
            info = i;
            heap = h';
            found = g;
            news = n;
            updated = f;
            added = ground (arith, n, f, k);
          })
        ]
      ]

  -- What a report leaves in the element.
  abbrev pub reported :
      BundleVersion → Bool → ConflationElement B → BundleInfo B → ConflationElement B
  reported v failed e i = record e {
    info = i;
    in_process = false;
    last_processed = version_after failed v e.last_processed;
  }

  abbrev pub settle_info : ℕ → Bool → BundleInfo B → Heap → Option (BundleInfo B × Heap)
  settle_info m true i h = fail_info m i h
  settle_info m false i h = mark_info m i h

  pub record Reported (m : ℕ) (failed : Bool) (u : ConflationUnit B) (s : Shared)
      (u' : ConflationUnit B) (s' : Shared) : Type 0 where
    pub element : ConflationElement B
    pub info : BundleInfo B
    pub heap : Heap
    pub found :
        get_elem? u.priority_queue (priority_of u (s.heap.cell m).bundle_type) ≡ some element
    pub settled : settle_info m failed element.info s.heap ≡ some (info, heap)
    pub added :
        add_to_ready_queue
          (put_element u
            (priority_of u (s.heap.cell m).bundle_type)
            (reported (s.heap.cell m).bundle_version failed element info))
          (record s { heap = heap })
        ≡ some (u', s')

  pub report_result_cases :
      (m : ℕ) (failed : Bool) (u : ConflationUnit B) (s : Shared) {u' : ConflationUnit B}
      {s' : Shared}
      → report_result m failed u s ≡ some (u', s')
      → Reported m failed u s u' s'
  unfolding report_result
  report_result_cases m true u s h =
      let (e, g, k) =
        >>=-eq-some (get_elem? u.priority_queue (priority_of u (s.heap.cell m).bundle_type)) _ h in
      let (r, f, a) = >>=-eq-some (fail_info m e.info s.heap) _ k in
      record { element = e; info = r.0; heap = r.1; found = g; settled = f; added = a }
  report_result_cases m false u s h =
      let (e, g, k) =
        >>=-eq-some (get_elem? u.priority_queue (priority_of u (s.heap.cell m).bundle_type)) _ h in
      let (r, f, a) = >>=-eq-some (mark_info m e.info s.heap) _ k in
      record { element = e; info = r.0; heap = r.1; found = g; settled = f; added = a }

  abbrev pub taken : ConflationElement B → BundleInfo B → ConflationElement B
  taken e i = record e { info = i; in_process = true }

  pub record Taken (u : ConflationUnit B) (s : Shared) (u' : ConflationUnit B) (s' : Shared)
      (r : Option (Option B × Option ℕ × ℕ)) : Type 0 where
    pub priority : ℕ
    pub element : ConflationElement B
    pub pointer : Option ℕ
    pub info : BundleInfo B
    pub heap : Heap
    pub chosen : next_priority u ≡ some (some priority)
    pub found : get_elem? u.priority_queue priority ≡ some element
    pub metadata : get_metadata element.info s.heap ≡ some (pointer, info, heap)
    pub unit : u' ≡ record u {
      priority_queue = set u.priority_queue priority (taken element info);
      in_ready_queue = false;
    }
    pub shared : s' ≡ record s { heap = heap }
    pub result : r ≡ some (get_bundle element.info, pointer, element.handler)

  take_bundle_cases :
      (p : ℕ) (u : ConflationUnit B) (s : Shared) {u' : ConflationUnit B} {s' : Shared}
      {r : Option (Option B × Option ℕ × ℕ)}
      → next_priority u ≡ some (some p)
      → take_bundle p u s ≡ some (u', s', r)
      → Taken u s u' s' r
  unfolding take_bundle
  take_bundle_cases p u s n h =
      let (e, g, l) = >>=-eq-some (get_elem? u.priority_queue p) _ h in
      let (q, f, a) = >>=-eq-some (get_metadata e.info s.heap) _ l in
      record {
        priority = p;
        element = e;
        pointer = q.0;
        info = q.1;
        heap = q.2;
        chosen = n;
        found = g;
        metadata = f;
        unit = ground (arith, a);
        shared = ground (arith, a);
        result = ground (arith, a);
      }

  -- `GetNext` fails and changes nothing, for want of a ready bundle, or takes one.
  pub get_next_cases :
      (u : ConflationUnit B) (s : Shared) {u' : ConflationUnit B} {s' : Shared}
      {r : Option (Option B × Option ℕ × ℕ)}
      → get_next u s ≡ some (u', s', r)
      → ((u' ≡ u) × (s' ≡ s) × (r ≡ none) × (next_priority u ≡ some none)) ⊎ Taken u s u' s' r
  unfolding get_next
  get_next_cases u s h = elim (Option-Option-cases (next_priority u)) [
    | inl stuck ↦ ground (arith, stuck, h)
    | inr (inl n) ↦ inl (ground (arith, n, h), ground (arith, n, h), ground (arith, n, h), n)
    | inr (inr (p, n)) ↦ inr (take_bundle_cases p u s n (ground (arith, n, h)))
  ]
