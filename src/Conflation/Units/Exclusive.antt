-- ===== src/Conflation/Units/Exclusive.antt =====
-- conflation_unit.go: a unit stands in the ready queue at most once, and never while it is busy.
use multicluster_global_hub.Base.{
  ℕ, zero, suc, ◌+◌, ◌≤◌, ◌<◌, ◌≡◌, refl, String, Bool, true, false, Option, none, some, List, [],
  ◌∷◌, ◌++◌, ◌⊎◌, inl, inr, arith, length, get_elem?, set, any, ==_iff, string_key, ◌==◌, subst₂,
  subst, sym, ◌≢◌, All, replicate, of_some,
}
use multicluster_global_hub.Conflation.Bundles.{BundleApi}
use multicluster_global_hub.Conflation.Heap.{Heap}
use multicluster_global_hub.Conflation.Units.Cases.{
  insert_bundle_cases, report_result_cases, get_next_cases, taken, add_to_ready_queue_cases,
  >>=-eq-some,
}
use multicluster_global_hub.Conflation.Units.{
  ConflationElement, ConflationUnit, Shared, is_in_process, put_element, add_to_ready_queue,
  insert_bundle, get_next, report_result, all_filled, new_unit, fill_slots, ConflationRegistration,
  new_element,
}

abbrev pub flag : Bool → ℕ
flag true = 1
flag false = 0

-- How often a unit stands in the ready queue.
abbrev pub occurrences : String → List String → ℕ
occurrences n [] = 0
occurrences n (x ∷ xs) = flag (x == n) + occurrences n xs

occurrences-append :
    (n : String) (xs ys : List String)
    → occurrences n (xs ++ ys) ≡ occurrences n xs + occurrences n ys
occurrences-append n [] ys = omega arith
occurrences-append n (x ∷ xs) ys = omega (arith, occurrences-append n xs ys)

module _ {B : Type 0} where
  -- How many elements are in process.
  abbrev busy_count : List (ConflationElement B) → ℕ
  busy_count [] = 0
  busy_count (e ∷ es) = flag e.in_process + busy_count es

  -- A unit stands in the queue or with the dispatcher (which holds it `n` times) at most once, and
  -- only if its flag says so; neither while it is processed; and it has at most one bundle in
  -- process.
  pub record IsExclusive (n : ℕ) (u : ConflationUnit B) (s : Shared) : Type 0 where
    pub once : occurrences u.name s.ready_queue + n ≤ flag u.in_ready_queue
    pub apart : flag u.in_ready_queue + busy_count u.priority_queue ≤ 1

  -- The name of a unit stays, and other units' places in the queue too.
  abbrev pub LeavesOthers : ConflationUnit B → Shared → ConflationUnit B → Shared → Type 0
  LeavesOthers u s u' s' =
      (u'.name ≡ u.name)
      × ((n : String) → n ≢ u.name → occurrences n s'.ready_queue ≡ occurrences n s.ready_queue)

  busy_count-set :
      (es : List (ConflationElement B)) (p : ℕ) (e e' : ConflationElement B)
      → get_elem? es p ≡ some e
      → busy_count (set es p e') + flag e.in_process ≡ busy_count es + flag e'.in_process
  busy_count-set [] p e e' h = ground arith
  busy_count-set (x ∷ es) zero e e' h = ground arith
  busy_count-set (x ∷ es) (suc p) e e' h = ground (arith, busy_count-set es p e e')

  is_in_process_count :
      (u : ConflationUnit B)
      → ((is_in_process u ≡ false) × (busy_count u.priority_queue ≡ 0))
        ⊎ ((is_in_process u ≡ true) × (0 < busy_count u.priority_queue))
  unfolding is_in_process
  is_in_process_count u = go u.priority_queue
    where
      go :
          (es : List (ConflationElement B))
          → ((any (λ e. e.in_process) es ≡ false) × (busy_count es ≡ 0))
            ⊎ ((any (λ e. e.in_process) es ≡ true) × (0 < busy_count es))
      go [] = inl (refl, refl)
      go (e ∷ es) = ground (arith, go es)

module _ {B : Type 0} ⦃api : BundleApi B⦄ where
  add_to_ready_queue-IsExclusive :
      (n : ℕ) (u : ConflationUnit B) (s : Shared) {u' : ConflationUnit B} {s' : Shared}
      → IsExclusive n u s
      → add_to_ready_queue u s ≡ some (u', s')
      → IsExclusive n u' s'
  unfolding add_to_ready_queue
  add_to_ready_queue-IsExclusive n u s v h = ground (
    arith,
    is_in_process_count u,
    occurrences-append u.name s.ready_queue (u.name ∷ []),
    ==_iff u.name u.name,
  )

  put_element-IsExclusive :
      (n : ℕ) (u : ConflationUnit B) (s : Shared) (p : ℕ) (e e' : ConflationElement B) (h : Heap)
      → IsExclusive n u s
      → get_elem? u.priority_queue p ≡ some e
      → flag e'.in_process ≤ flag e.in_process
      → IsExclusive n (put_element u p e') (record s { heap = h })
  unfolding put_element
  put_element-IsExclusive n u s p e e' h v g f = record {
    once = v.once;
    apart = omega (arith, v.apart, busy_count-set u.priority_queue p e e' g);
  }

  pub insert_bundle-IsExclusive :
      (n : ℕ) (b : B) (t : ℕ) (u : ConflationUnit B) (s : Shared) {u' : ConflationUnit B}
      {s' : Shared}
      → IsExclusive n u s
      → insert_bundle b t u s ≡ some (u', s')
      → IsExclusive n u' s'
  insert_bundle-IsExclusive n b t u s v h = elim (insert_bundle_cases b t u s h) [
    | inl (e, f, _) ↦ subst₂ (IsExclusive n) (sym e) (sym f) v
    | inr c ↦
        add_to_ready_queue-IsExclusive n _ _
          (put_element-IsExclusive n u s _ c.element _ c.heap v c.found (omega arith)) c.added
  ]

  pub report_result-IsExclusive :
      (n m : ℕ) (failed : Bool) (u : ConflationUnit B) (s : Shared) {u' : ConflationUnit B}
      {s' : Shared}
      → IsExclusive n u s
      → report_result m failed u s ≡ some (u', s')
      → IsExclusive n u' s'
  report_result-IsExclusive n m failed u s v h =
      let c = report_result_cases m failed u s h in
      add_to_ready_queue-IsExclusive n _ _
        (put_element-IsExclusive n u s _ c.element _ c.heap v c.found (omega arith)) c.added

  -- The dispatcher holds the unit before it calls `GetNext`, and no more afterwards.
  pub get_next-IsExclusive :
      (u : ConflationUnit B) (s : Shared) {u' : ConflationUnit B} {s' : Shared}
      {r : Option (Option B × Option ℕ × ℕ)}
      → IsExclusive 1 u s
      → get_next u s ≡ some (u', s', r)
      → IsExclusive 0 u' s'
  get_next-IsExclusive u s v h = elim (get_next_cases u s h) [
    | inl (e, f, _, _) ↦
        subst₂ (IsExclusive 0) (sym e) (sym f)
          (record { once = omega (arith, v.once); apart = v.apart })
    | inr c ↦ subst₂ (IsExclusive 0) (sym c.unit) (sym c.shared) (record {
      once = ground (arith, v.once);
      apart = ground (
        arith,
        v.once,
        v.apart,
        busy_count-set u.priority_queue c.priority c.element (taken c.element c.info) c.found,
      );
    })
  ]

  add_to_ready_queue-LeavesOthers :
      (u : ConflationUnit B) (s : Shared) {u' : ConflationUnit B} {s' : Shared}
      → add_to_ready_queue u s ≡ some (u', s')
      → LeavesOthers u s u' s'
  add_to_ready_queue-LeavesOthers u s h = elim (add_to_ready_queue_cases u s h) [
    | inl (e, f) ↦ (ground (arith, e), λ n ne. ground (arith, f))
    | inr c ↦ (
      ground (arith, c.unit),
      λ n ne.
          ground
            (arith, c.shared, ==_iff u.name n, occurrences-append n s.ready_queue (u.name ∷ [])),
    )
  ]

  pub insert_bundle-LeavesOthers :
      (b : B) (t : ℕ) (u : ConflationUnit B) (s : Shared) {u' : ConflationUnit B} {s' : Shared}
      → insert_bundle b t u s ≡ some (u', s')
      → LeavesOthers u s u' s'
  unfolding put_element
  insert_bundle-LeavesOthers b t u s h = elim (insert_bundle_cases b t u s h) [
    | inl (e, f, _) ↦ (ground (arith, e), λ n ne. ground (arith, f))
    | inr c ↦ add_to_ready_queue-LeavesOthers _ _ c.added
  ]

  pub report_result-LeavesOthers :
      (m : ℕ) (failed : Bool) (u : ConflationUnit B) (s : Shared) {u' : ConflationUnit B}
      {s' : Shared}
      → report_result m failed u s ≡ some (u', s')
      → LeavesOthers u s u' s'
  unfolding put_element
  report_result-LeavesOthers m failed u s h =
      add_to_ready_queue-LeavesOthers _ _ (report_result_cases m failed u s h).added

  pub get_next-LeavesOthers :
      (u : ConflationUnit B) (s : Shared) {u' : ConflationUnit B} {s' : Shared}
      {r : Option (Option B × Option ℕ × ℕ)}
      → get_next u s ≡ some (u', s', r)
      → LeavesOthers u s u' s'
  get_next-LeavesOthers u s h = elim (get_next_cases u s h) [
    | inl (e, f, _, _) ↦ (ground (arith, e), λ n ne. ground (arith, f))
    | inr c ↦ (ground (arith, c.unit), λ n ne. ground (arith, c.shared))
  ]

module _ {B : Type 0} where
  abbrev IsIdleSlot : Option (ConflationElement B) → Type 0
  IsIdleSlot none = Unit
  IsIdleSlot (some e) = e.in_process ≡ false

  set-IsIdleSlot :
      (slots : List (Option (ConflationElement B))) (p : ℕ) (x : Option (ConflationElement B))
      → All IsIdleSlot slots
      → IsIdleSlot x
      → All IsIdleSlot (set slots p x)
  set-IsIdleSlot [] p x a i = tt
  set-IsIdleSlot (y ∷ slots) zero x a i = (i, a.1)
  set-IsIdleSlot (y ∷ slots) (suc p) x a i = (a.0, set-IsIdleSlot slots p x a.1 i)

  fill_slots-IsIdleSlot :
      (rs : List ConflationRegistration) (slots : List (Option (ConflationElement B)))
      {filled : List (Option (ConflationElement B))}
      → All IsIdleSlot slots
      → fill_slots rs slots ≡ some filled
      → All IsIdleSlot filled
  unfolding fill_slots
  fill_slots-IsIdleSlot [] slots a h = subst (All IsIdleSlot) (of_some h) a
  fill_slots-IsIdleSlot (r ∷ rs) slots a h =
      fill_slots-IsIdleSlot rs (set slots r.priority (some (new_element r)))
        (set-IsIdleSlot slots r.priority (some (new_element r)) a refl) (ground (arith, h))

  replicate-IsIdleSlot :
      (slot : Option (ConflationElement B)) (n : ℕ)
      → IsIdleSlot slot
      → All IsIdleSlot (replicate n slot)
  replicate-IsIdleSlot slot zero i = tt
  replicate-IsIdleSlot slot (suc n) i = (i, replicate-IsIdleSlot slot n i)

  all_filled-idle :
      (slots : List (Option (ConflationElement B))) {es : List (ConflationElement B)}
      → All IsIdleSlot slots
      → all_filled slots ≡ some es
      → busy_count es ≡ 0
  unfolding all_filled
  all_filled-idle [] a h = ground arith
  all_filled-idle (none ∷ slots) a h = ground arith
  all_filled-idle (some e ∷ slots) a h =
      let (rest, k, l) = >>=-eq-some (all_filled slots) _ h in
      ground (arith, l, a.0, all_filled-idle slots {es = rest} a.1 k)

  pub new_unit_idle :
      (name : String) (rs : List ConflationRegistration) (require : Bool) {u : ConflationUnit B}
      → new_unit name rs require ≡ some u
      → (u.name ≡ name) × (u.in_ready_queue ≡ false) × (busy_count u.priority_queue ≡ 0)
  unfolding new_unit
  new_unit_idle name rs require h =
      let (slots, f, k) = >>=-eq-some (fill_slots {B = B} rs (replicate (length rs) none)) _ h in
      let (es, g, l) = >>=-eq-some (all_filled slots) _ k in
      let idle =
        all_filled-idle slots {es = es}
          (fill_slots-IsIdleSlot rs (replicate (length rs) none)
            (replicate-IsIdleSlot none (length rs) tt) f)
          g in
      (ground (arith, l), ground (arith, l), ground (arith, l, idle))
