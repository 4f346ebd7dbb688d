-- ===== src/Conflation/Info.antt =====
-- bundle_info.go, complete_state_bundle_info.go and delta_state_bundle_info.go: one slot of a
-- conflation unit. A call that dereferences nil is a panic, `none`. Bundles are values: the code
-- changes a bundle only before it hands it out.
pub mod Filled
pub mod Recovery
use multicluster_global_hub.Base.{
  ℕ, String, Bool, true, false, Option, none, some, if◌then◌else◌, Result, ok, err,
}
use multicluster_global_hub.Version.{BundleVersion, newer_than, equals}
use multicluster_global_hub.Conflation.Bundles.{
  BundleApi, BundleSyncMode, complete_state_mode, delta_state_mode,
}
use multicluster_global_hub.Conflation.Heap.{Heap, alloc, write, mark_as_processed}

pub record CompleteInfo (B : Type 0) : Type 0 where
  pub bundle : Option B
  pub metadata : Option ℕ

-- `recoverableDeltaStateBundleData`
pub record Recoverable (B : Type 0) : Type 0 where
  pub bundle : Option B
  pub lowest_pending : Option ℕ

pub record DeltaInfo (B : Type 0) : Type 0 where
  pub bundle : Option B
  pub metadata : Option ℕ
  pub last_dispatched : Recoverable B
  pub last_received : Option ℕ
  pub line_head : Option BundleVersion

pub data BundleInfo (B : Type 0) : Type 0 where
  complete : CompleteInfo B → BundleInfo B
  delta : DeltaInfo B → BundleInfo B

pub data UpdateError : Type 0 where
  wrong_bundle_type merge_failed : UpdateError

-- `createBundleInfoFuncMap`: `newCompleteStateBundleInfo` and `newDeltaStateBundleInfo`
unfoldable pub new_bundle_info : {B : Type 0} → BundleSyncMode → BundleInfo B
new_bundle_info complete_state_mode = complete (record { bundle = none; metadata = none })
new_bundle_info delta_state_mode = delta (record {
  bundle = none;
  metadata = none;
  last_dispatched = record { bundle = none; lowest_pending = none };
  last_received = none;
  line_head = none;
})

unfoldable pub get_bundle : {B : Type 0} → BundleInfo B → Option B
get_bundle (complete i) = i.bundle
get_bundle (delta i) = i.bundle

unfoldable pub get_info_metadata : {B : Type 0} → BundleInfo B → Option ℕ
get_info_metadata (complete i) = i.metadata
get_info_metadata (delta i) = i.metadata

abbrev transport_of : Option ℕ → Heap → Option ℕ
transport_of none h = none
transport_of (some m) h = (h.cell m).transport

-- `getTransportMetadataToCommit`, of both kinds
unfoldable pub get_transport_metadata_to_commit : {B : Type 0} → BundleInfo B → Heap → Option ℕ
get_transport_metadata_to_commit (complete i) h = transport_of i.metadata h
get_transport_metadata_to_commit (delta i) h = transport_of i.metadata h

-- The metadata part of the complete-state `update`: a new object, or the fields of the old one.
abbrev complete_metadata : Option ℕ → Bool → String → BundleVersion → ℕ → Heap → ℕ × Heap
complete_metadata (some m) true type v t h =
    (m, write m (record (h.cell m) { bundle_version = v; transport = some t }) h)
complete_metadata (some m) false type v t h =
    alloc (record { bundle_type = type; bundle_version = v; transport = some t }) h
complete_metadata none overwrite type v t h =
    alloc (record { bundle_type = type; bundle_version = v; transport = some t }) h

-- `updateMetadata` of the delta state: a new object keeps the transport metadata of the earliest.
abbrev delta_metadata : Option ℕ → Bool → String → BundleVersion → ℕ → Heap → ℕ × Heap
delta_metadata none overwrite type v t h =
    alloc (record { bundle_type = type; bundle_version = v; transport = some t }) h
delta_metadata (some m) true type v t h = (m, write m (record (h.cell m) { bundle_version = v }) h)
delta_metadata (some m) false type v t h =
    alloc (record { bundle_type = type; bundle_version = v; transport = (h.cell m).transport }) h

module _ {B : Type 0} ⦃api : BundleApi B⦄ where
  open api use {bundle_type, version, dependency_version, is_delta, inherit_events}

  unfoldable pub complete_update : B → ℕ → Bool → CompleteInfo B → Heap → CompleteInfo B × Heap
  complete_update b t overwrite i h =
      let (m, h') = complete_metadata i.metadata overwrite (bundle_type b) (version b) t h in
      (record { bundle = some b; metadata = some m }, h')

  -- `bundleStartsNewLine`
  abbrev starts_new_line : B → Option B → Bool
  starts_new_line b none = true
  starts_new_line b (some c) = newer_than (dependency_version b) (some (dependency_version c))

  -- The end of the delta `update`, after the bundle inherited the events that were held.
  unfoldable pub delta_store : Bool → B → ℕ → Bool → DeltaInfo B → Heap → DeltaInfo B × Heap
  delta_store new_line b t overwrite i h =
      let (m, h') = delta_metadata i.metadata overwrite (bundle_type b) (version b) t h in
      if new_line
      then (
        record i {
          bundle = some b;
          metadata = some m;
          last_received = some t;
          line_head = some (version b);
        },
        write m (record (h'.cell m) { transport = some t }) h',
      )
      else (record i { bundle = some b; metadata = some m; last_received = some t }, h')

  unfoldable pub delta_update :
      B → ℕ → Bool → DeltaInfo B → Heap → Result UpdateError (DeltaInfo B × Heap)
  unfolding delta_store
  delta_update b t overwrite i h =
      if is_delta b
      then elim (inherit_events b i.bundle) [
        | none ↦ err merge_failed
        | some c ↦ ok (delta_store (starts_new_line b i.bundle) c t overwrite i h)
      ]
      else err wrong_bundle_type

  -- `update`; an error leaves the slot and the heap as they were.
  unfoldable pub update_info :
      B → ℕ → Bool → BundleInfo B → Heap → Result UpdateError (BundleInfo B × Heap)
  unfolding complete_update delta_update
  update_info b t overwrite (complete i) h =
      let (i', h') = complete_update b t overwrite i h in ok (complete i', h')
  update_info b t overwrite (delta i) h = elim (delta_update b t overwrite i h) [
    | err e ↦ err e
    | ok (i', h') ↦ ok (delta i', h')
  ]

  -- `getMetadata` of the delta state: what is dispatched is saved, and a new pack begins.
  unfoldable pub delta_get_metadata : DeltaInfo B → Heap → Option (Option ℕ × DeltaInfo B × Heap)
  delta_get_metadata i h = elim i.metadata [
    | none ↦ none
    | some m ↦ some (
      some m,
      record i {
        last_dispatched = record { bundle = i.bundle; lowest_pending = (h.cell m).transport };
        bundle = none;
      },
      write m (record (h.cell m) { transport = i.last_received }) h,
    )
  ]

  unfoldable pub get_metadata : BundleInfo B → Heap → Option (Option ℕ × BundleInfo B × Heap)
  unfolding delta_get_metadata
  get_metadata (complete i) h = some (i.metadata, complete i, h)
  get_metadata (delta i) h = elim (delta_get_metadata i h) [
    | none ↦ none
    | some (m, i', h') ↦ some (m, delta i', h')
  ]

  -- The last line of `handleFailure`, on a slot whose bundle is restored.
  abbrev restore_transport : Option ℕ → DeltaInfo B → Heap → Option (DeltaInfo B × Heap)
  restore_transport lowest i h = elim i.metadata [
    | none ↦ none
    | some m ↦ some (i, write m (record (h.cell m) { transport = lowest }) h)
  ]

  abbrev released : DeltaInfo B → DeltaInfo B
  released i = record i { last_dispatched = record { bundle = none; lowest_pending = none } }

  unfoldable pub handle_failure : ℕ → DeltaInfo B → Heap → Option (DeltaInfo B × Heap)
  handle_failure failed i h = elim i.line_head [
    | none ↦ none
    | some head ↦
        if newer_than head (some (h.cell failed).bundle_version)
        then some (released i, h)
        else elim i.bundle [
          | none ↦
              restore_transport i.last_dispatched.lowest_pending
                (record (released i) { bundle = i.last_dispatched.bundle }) h
          | some b ↦ elim (inherit_events b i.last_dispatched.bundle) [
            | none ↦ some (released i, h)
            | some c ↦
                restore_transport i.last_dispatched.lowest_pending
                  (record (released i) { bundle = some c }) h
          ]
        ]
  ]

  -- `markAsProcessed` of the complete state
  unfoldable pub complete_mark : ℕ → CompleteInfo B → Heap → Option (CompleteInfo B × Heap)
  complete_mark m i h = elim (h.cell m).transport [
    | none ↦ none
    | some t ↦ elim i.metadata [
      | none ↦ none
      | some held ↦
          if equals (h.cell m).bundle_version (h.cell held).bundle_version
          then some (record i { bundle = none }, mark_as_processed t h)
          else some (i, mark_as_processed t h)
    ]
  ]

  unfoldable pub delta_mark : ℕ → DeltaInfo B → Heap → Option (DeltaInfo B × Heap)
  delta_mark m i h = elim (h.cell m).transport [
    | none ↦ none
    | some t ↦ some (released i, mark_as_processed t h)
  ]

  unfoldable pub mark_info : ℕ → BundleInfo B → Heap → Option (BundleInfo B × Heap)
  unfolding complete_mark delta_mark
  mark_info m (complete i) h = elim (complete_mark m i h) [
    | none ↦ none
    | some (i', h') ↦ some (complete i', h')
  ]
  mark_info m (delta i) h = elim (delta_mark m i h) [
    | none ↦ none
    | some (i', h') ↦ some (delta i', h')
  ]

  -- A failure report: only the delta state is a `deltaBundleInfo`.
  unfoldable pub fail_info : ℕ → BundleInfo B → Heap → Option (BundleInfo B × Heap)
  unfolding handle_failure
  fail_info m (complete i) h = some (complete i, h)
  fail_info m (delta i) h = elim (handle_failure m i h) [
    | none ↦ none
    | some (i', h') ↦ some (delta i', h')
  ]
