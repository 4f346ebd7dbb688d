-- ===== src/Conflation/Units.antt =====
-- conflation_element.go, conflation_registration.go and conflation_unit.go. A unit is named by its
-- leaf hub; the ready queue holds names, as the code holds pointers to units. A panic (nil or an
-- index out of range) and a dependency cycle, on which the code never returns, are `none`.
-- Statistics and logging are left out.
pub mod Cases
pub mod Scheduling
pub mod Exclusive
pub mod Selection
pub mod Termination
pub mod Soundness
pub mod Totality
pub mod Versions
pub mod Wedge
pub mod Frames
use multicluster_global_hub.Base.{
  ◌>>=◌, ℕ, zero, suc, String, Bool, true, false, not, ◌&&◌, ◌||◌, Option, none, some, List, [],
  ◌∷◌, ◌++◌, if◌then◌else◌, ok, err, length, get_elem?, set, any, replicate, ltb, string_key,
}
use multicluster_global_hub.Base.Maps.{lookup, insert}
use multicluster_global_hub.Version.{BundleVersion, newer_than, equals, no_bundle_version}
use multicluster_global_hub.Conflation.Bundles.{
  BundleApi, BundleSyncMode, Dependency, DependencyType, exact_match, at_least,
}
use multicluster_global_hub.Conflation.Heap.{Heap}
use multicluster_global_hub.Conflation.Info.{
  BundleInfo, new_bundle_info, get_bundle, update_info, get_metadata, mark_info, fail_info,
  get_transport_metadata_to_commit,
}

-- `handler` stands for the handler function, which the unit hands on.
pub record ConflationRegistration : Type 0 where
  pub priority : ℕ
  pub sync_mode : BundleSyncMode
  pub bundle_type : String
  pub handler : ℕ
  pub dependency : Option Dependency

pub record ConflationElement (B : Type 0) : Type 0 where
  pub info : BundleInfo B
  pub handler : ℕ
  pub dependency : Option Dependency
  pub in_process : Bool
  pub last_processed : BundleVersion

pub record ConflationUnit (B : Type 0) : Type 0 where
  pub name : String
  pub priority_queue : List (ConflationElement B)
  pub type_to_priority : List (String × ℕ)
  pub require_initial_checks : Bool
  pub in_ready_queue : Bool

-- What the units of one process share.
pub record Shared : Type 0 where
  pub heap : Heap
  pub ready_queue : List String

-- A missing type reads as priority 0, the zero value of a Go map.
abbrev or_zero : Option ℕ → ℕ
or_zero none = 0
or_zero (some n) = n

unfoldable pub priorities : List ConflationRegistration → List (String × ℕ) → List (String × ℕ)
priorities [] m = m
priorities (r ∷ rs) m = priorities rs (insert r.bundle_type r.priority m)

abbrev pub matches : DependencyType → BundleVersion → BundleVersion → Bool
matches exact_match wanted processed = equals wanted processed
matches at_least wanted processed = not (newer_than wanted (some processed))

abbrev pub newest : BundleVersion → BundleVersion → BundleVersion
newest v last = if newer_than v (some last) then v else last

module _ {B : Type 0} where
  unfoldable pub new_element : ConflationRegistration → ConflationElement B
  unfolding new_bundle_info
  new_element r = record {
    info = new_bundle_info r.sync_mode;
    handler = r.handler;
    dependency = r.dependency;
    in_process = false;
    last_processed = no_bundle_version;
  }

  -- The loop of `newConflationUnit`: an index out of range panics.
  unfoldable pub fill_slots :
      List ConflationRegistration
      → List (Option (ConflationElement B))
      → Option (List (Option (ConflationElement B)))
  unfolding new_element
  fill_slots [] slots = some slots
  fill_slots (r ∷ rs) slots =
      let rest = fill_slots rs (set slots r.priority (some (new_element r))) in
      if ltb r.priority (length slots) then rest else none

  -- A slot that no registration filled is a nil element: the first loop over the queue panics.
  unfoldable pub all_filled :
      List (Option (ConflationElement B)) → Option (List (ConflationElement B))
  all_filled [] = some []
  all_filled (none ∷ xs) = none
  all_filled (some e ∷ xs) = do rest ← all_filled xs; some (e ∷ rest)

  unfoldable pub new_unit : String → List ConflationRegistration → Bool → Option (ConflationUnit B)
  unfolding priorities
  new_unit name rs require = do
    slots ← fill_slots rs (replicate (length rs) none)
    elements ← all_filled slots
    some (record {
      name = name;
      priority_queue = elements;
      type_to_priority = priorities rs [];
      require_initial_checks = require;
      in_ready_queue = false;
    })

  unfoldable pub priority_of : ConflationUnit B → String → ℕ
  priority_of u type = or_zero (lookup type u.type_to_priority)

  -- The element of a bundle type, `priorityQueue[bundleTypeToPriority[type]]`.
  unfoldable pub element_of : ConflationUnit B → String → Option (ConflationElement B)
  unfolding priority_of
  element_of u type = get_elem? u.priority_queue (priority_of u type)

  unfoldable pub put_element : ConflationUnit B → ℕ → ConflationElement B → ConflationUnit B
  put_element u p e = record u { priority_queue = set u.priority_queue p e }

  unfoldable pub is_in_process : ConflationUnit B → Bool
  is_in_process u = any (λ e. e.in_process) u.priority_queue

  -- `isCurrentOrAnyDependencyInProcess`, with fuel for the chain
  unfoldable pub chain_in_process : ℕ → ConflationUnit B → ConflationElement B → Option Bool
  chain_in_process zero u e = none
  chain_in_process (suc fuel) u e = if e.in_process then some true else elim e.dependency [
    | none ↦ some false
    | some d ↦ element_of u d.bundle_type >>= λ next. chain_in_process fuel u next
  ]

  unfoldable pub metadata_to_commit : List (ConflationElement B) → Heap → List ℕ
  metadata_to_commit [] h = []
  metadata_to_commit (e ∷ es) h = elim (get_transport_metadata_to_commit e.info h) [
    | none ↦ metadata_to_commit es h
    | some t ↦ t ∷ metadata_to_commit es h
  ]

  -- `getBundlesMetadata`
  unfoldable pub get_bundles_metadata : ConflationUnit B → Shared → List ℕ
  unfolding metadata_to_commit
  get_bundles_metadata u s = metadata_to_commit u.priority_queue s.heap

module _ {B : Type 0} ⦃api : BundleApi B⦄ where
  open api use {bundle_type, version, is_dependant, dependency_version}

  -- `checkDependency` of an element that holds the bundle
  unfoldable pub check_dependency : ConflationUnit B → Option Dependency → B → Option Bool
  check_dependency u none b = some true
  check_dependency u (some d) b =
      if is_dependant b
      then (element_of u d.bundle_type >>= λ target.
          if not u.require_initial_checks && equals target.last_processed no_bundle_version
          then some true
          else some (matches d.dependency_type (dependency_version b) target.last_processed))
      else some false

  -- The condition of the loop in `getNextReadyBundlePriority`, and the bundle of the element. One
  -- more than the number of elements is fuel enough for a chain that visits no element twice.
  unfoldable pub is_ready : ConflationUnit B → ConflationElement B → Option Bool
  unfolding chain_in_process check_dependency
  is_ready u e = elim (get_bundle e.info) [
    | none ↦ some false
    | some b ↦ chain_in_process (suc (length u.priority_queue)) u e >>= λ busy.
        if busy then some false else check_dependency u e.dependency b
  ]

  unfoldable pub scan : ConflationUnit B → ℕ → List (ConflationElement B) → Option (Option ℕ)
  unfolding is_ready
  scan u p [] = some none
  scan u p (e ∷ es) =
      let rest = scan u (suc p) es in
      is_ready u e >>= λ ready. if ready then some (some p) else rest

  -- `getNextReadyBundlePriority`: the inner `none` is `invalidPriority`.
  unfoldable pub next_priority : ConflationUnit B → Option (Option ℕ)
  unfolding scan
  next_priority u = scan u 0 u.priority_queue

  -- `addCUToReadyQueueIfNeeded`
  unfoldable pub add_to_ready_queue : ConflationUnit B → Shared → Option (ConflationUnit B × Shared)
  unfolding next_priority is_in_process
  add_to_ready_queue u s =
      if u.in_ready_queue || is_in_process u
      then some (u, s)
      else next_priority u >>= λ next. elim next [
        | none ↦ some (u, s)
        | some p ↦ some (
          record u { in_ready_queue = true },
          record s { ready_queue = s.ready_queue ++ u.name ∷ [] },
        )
      ]

  -- The two early returns of `insert`.
  unfoldable pub is_news : B → ConflationElement B → Bool
  is_news b e = elim (get_bundle e.info) [
    | none ↦ newer_than (version b) (some e.last_processed)
    | some held ↦
        newer_than (version b) (some e.last_processed)
        && newer_than (version b) (some (version held))
  ]

  -- `insert` on the unit
  unfoldable pub insert_bundle :
      B → ℕ → ConflationUnit B → Shared → Option (ConflationUnit B × Shared)
  unfolding put_element
  insert_bundle b t u s =
      let p = priority_of u (bundle_type b) in
      get_elem? u.priority_queue p >>= λ e.
      if is_news b e
      then elim (update_info b t (not e.in_process) e.info s.heap) [
        | err x ↦ some (u, s)
        | ok (i, h) ↦
            add_to_ready_queue (put_element u p (record e { info = i })) (record s { heap = h })
      ]
      else some (u, s)

  -- The part of `GetNext` that takes the bundle of a priority.
  unfoldable pub take_bundle :
      ℕ
      → ConflationUnit B
      → Shared
      → Option (ConflationUnit B × Shared × Option (Option B × Option ℕ × ℕ))
  unfolding put_element
  take_bundle p u s = get_elem? u.priority_queue p >>= λ e. get_metadata e.info s.heap >>= λ r.
      some (
        record (put_element u p (record e { info = r.1; in_process = true })) {
          in_ready_queue = false;
        },
        record s { heap = r.2 },
        some (get_bundle e.info, r.0, e.handler),
      )

  -- `GetNext`: `none` beside the unchanged state is `errNoReadyBundle`; otherwise the bundle, the
  -- address of its metadata and its handler.
  unfoldable pub get_next :
      ConflationUnit B
      → Shared
      → Option (ConflationUnit B × Shared × Option (Option B × Option ℕ × ℕ))
  unfolding take_bundle
  get_next u s = next_priority u >>= λ next. elim next [
    | none ↦ some (u, s, none)
    | some p ↦ take_bundle p u s
  ]

  -- `ReportResult` for the metadata at an address; `failed` says that the handler's error is not
  -- nil.
  unfoldable pub report_result :
      ℕ → Bool → ConflationUnit B → Shared → Option (ConflationUnit B × Shared)
  unfolding put_element
  report_result m failed u s =
      let meta = s.heap.cell m in
      let p = priority_of u meta.bundle_type in
      get_elem? u.priority_queue p >>= λ e.
      if failed
      then (fail_info m e.info s.heap >>= λ r.
          add_to_ready_queue (put_element u p (record e { info = r.0; in_process = false }))
            (record s { heap = r.1 }))
      else (mark_info m e.info s.heap >>= λ r.
          add_to_ready_queue
            (put_element u p (record e {
              info = r.0;
              in_process = false;
              last_processed = newest meta.bundle_version e.last_processed;
            }))
            (record s { heap = r.1 }))
