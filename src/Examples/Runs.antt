-- ===== src/Examples/Runs.antt =====
-- Runs of conflation_unit.go: a bundle of clusters per policy steps.1, is handed out and is
-- reported; a bundle that depends on it replaces one that does not.
use multicluster_global_hub.Base.{
  ◌>>=◌, ℕ, ◌≡◌, refl, true, false, Option, none, some, [], ◌∷◌, arith, string_key, nat_key, ◌<◌,
  get_elem?, is_some,
}
use multicluster_global_hub.Compliance.Bundles.{
  bundle_type_of, leaf_hub_of, version_of, dependency_version_of, is_dependant_bundle,
  is_delta_bundle, inherit_delta, inherit_events_of, Bundle,
}
use multicluster_global_hub.Conflation.Info.{
  update_info, complete_update, delta_update, delta_store, get_bundle, get_metadata,
  delta_get_metadata, fail_info, handle_failure, mark_info, complete_mark, delta_mark,
}
use multicluster_global_hub.Conflation.Units.{
  put_element, priority_of, element_of, is_in_process, chain_in_process, check_dependency, is_ready,
  scan, next_priority, add_to_ready_queue, is_news, insert_bundle, take_bundle, get_next,
  report_result, ConflationUnit, ConflationElement, Shared, new_element,
}
use multicluster_global_hub.Version.{newer_than, equals}
use multicluster_global_hub.Examples.Data.{
  api, unit_at, value, cpp_bundle, v, complete_bundle, nothing_queued, cpp,
}
use multicluster_global_hub.Conflation.Bundles.{complete_state_mode}
use multicluster_global_hub.Conflation.Units.Versions.{
  reports, UnitStep-Advances, insert_bundle-insert_bundle, IsNotOlder,
}
use multicluster_global_hub.Conflation.Units.Totality.{get_next-total, report_result-total}
use multicluster_global_hub.Conflation.Units.Termination.{next_priority-some}
use multicluster_global_hub.Conflation.Units.Frames.{insert_bundle_frame}
use multicluster_global_hub.Conflation.Units.Wedge.{insert_all, get_next_wedges}
use multicluster_global_hub.Conflation.Units.Selection.{IsReady, PassedOver, get_next_first}
use multicluster_global_hub.Examples.Units.{unit_at-IsSound}
use multicluster_global_hub.Conflation.Units.Soundness.{
  IsSound, insert_bundle-IsSound, get_next-IsSound,
}
use multicluster_global_hub.Conflation.Units.Exclusive.{occurrences}

abbrev State : Type 0
State = ConflationUnit Bundle × Shared

abbrev fresh : State
fresh = (unit_at (v 1 1) (v 1 1) (v 1 1), nothing_queued)

-- A bundle steps.1.
abbrev arrived : State
arrived = value (insert_bundle (cpp_bundle 2) 100 fresh.0 fresh.1) fresh

-- The dispatcher asks the unit for a bundle.
abbrev taken : State × Option (Option Bundle × Option ℕ × ℕ)
taken = elim (get_next arrived.0 arrived.1) [ none ↦ (arrived, none) | some r ↦ ((r.0, r.1), r.2) ]

-- A worker reports the result.
abbrev reported : State
reported = value (report_result 0 false taken.0.0 taken.0.1) taken.0

abbrev busy : ConflationElement Bundle
busy = value (get_elem? taken.0.0.priority_queue 0) (
    new_element (record {
      priority = 0;
      sync_mode = complete_state_mode;
      bundle_type = cpp;
      handler = 10;
      dependency = none;
    }))

-- While it is in process, a newer bundle of its type steps.1.
abbrev overtaken : State
overtaken = value (insert_bundle (cpp_bundle 3) 101 taken.0.0 taken.0.1) taken.0

-- What the steps above do.
steps :
    (next_priority fresh.0 ≡ some none)
    × (insert_bundle (cpp_bundle 2) 100 fresh.0 fresh.1 ≡ some arrived)
    × (arrived.1.ready_queue ≡ "hub1" ∷ [])
    × (get_next arrived.0 arrived.1
        ≡ some (taken.0.0, taken.0.1, some (some (cpp_bundle 2), some 0, 10)))
    × (report_result 0 false taken.0.0 taken.0.1 ≡ some reported)
    × (insert_bundle (cpp_bundle 3) 101 taken.0.0 taken.0.1 ≡ some overtaken)
unfolding newer_than equals bundle_type_of leaf_hub_of version_of dependency_version_of
    is_dependant_bundle is_delta_bundle inherit_delta inherit_events_of update_info complete_update
    delta_update delta_store get_bundle get_metadata delta_get_metadata fail_info handle_failure
    mark_info complete_mark delta_mark put_element priority_of element_of is_in_process
    chain_in_process check_dependency is_ready scan next_priority add_to_ready_queue is_news
    insert_bundle take_bundle get_next report_result
steps = (refl, refl, refl, refl, refl, refl)

abbrev done : ConflationElement Bundle
done = value (get_elem? reported.0.priority_queue 0) busy

-- The bundle that is in process.
in_process :
    (get_elem? taken.0.0.priority_queue (priority_of taken.0.0 (taken.0.1.heap.cell 0).bundle_type)
      ≡ some busy)
    × (get_elem? taken.0.0.priority_queue (priority_of taken.0.0 (bundle_type_of (cpp_bundle 3)))
        ≡ some busy)
    × (busy.in_process ≡ true)
    × (is_some (taken.0.1.heap.cell 0).transport ≡ true)
    × (0 < taken.0.1.heap.next)
    × (get_elem? taken.0.0.priority_queue 0 ≡ some busy)
    × (get_elem? reported.0.priority_queue 0 ≡ some done)
unfolding newer_than equals bundle_type_of leaf_hub_of version_of dependency_version_of
    is_dependant_bundle is_delta_bundle inherit_delta inherit_events_of update_info complete_update
    delta_update delta_store get_bundle get_metadata delta_get_metadata fail_info handle_failure
    mark_info complete_mark delta_mark put_element priority_of element_of is_in_process
    chain_in_process check_dependency is_ready scan next_priority add_to_ready_queue is_news
    insert_bundle take_bundle get_next report_result
in_process = (refl, refl, refl, refl, omega arith, refl, refl)

get_next_first_example :
    (p : ℕ) × (e : ConflationElement Bundle) × (b : Bundle) × (get_elem? arrived.0.priority_queue p
      ≡ some e)
    × (some (cpp_bundle 2) ≡ some b)
    × (10 ≡ e.handler)
    × IsReady arrived.0 e b
    × PassedOver arrived.0 arrived.0.priority_queue p
    × (taken.0.0.in_ready_queue ≡ false)
    × ((e' : ConflationElement Bundle) × (get_elem? taken.0.0.priority_queue p ≡ some e')
        × (e'.in_process ≡ true))
get_next_first_example = get_next_first arrived.0 arrived.1 steps.3

arrived-IsSound : IsSound arrived.0
arrived-IsSound =
    insert_bundle-IsSound (cpp_bundle 2) 100 fresh.0 fresh.1
      (unit_at-IsSound (v 1 1) (v 1 1) (v 1 1)) steps.1

taken-IsSound : IsSound taken.0.0
taken-IsSound = get_next-IsSound arrived.0 arrived.1 arrived-IsSound steps.3

get_next-total_example :
    (u' : ConflationUnit Bundle) × (s' : Shared) × (r : Option (Option Bundle × Option ℕ × ℕ))
    × (get_next arrived.0 arrived.1 ≡ some (u', s', r))
    × IsSound u'
get_next-total_example = get_next-total arrived.0 arrived.1 arrived-IsSound

report_result-total_example :
    (u' : ConflationUnit Bundle) × (s' : Shared) × (report_result 0 true taken.0.0 taken.0.1
      ≡ some (u', s'))
    × IsSound u'
report_result-total_example =
    report_result-total 0 true taken.0.0 taken.0.1 busy taken-IsSound in_process.0 in_process.2
      in_process.3

UnitStep-Advances_example : IsNotOlder done.last_processed busy.last_processed
UnitStep-Advances_example =
    UnitStep-Advances taken.0.0 taken.0.1 reported.0 reported.1 (reports 0 false steps.4) 0 busy
      done in_process.5 in_process.6

insert_bundle-insert_bundle_example :
    insert_bundle (cpp_bundle 2) 107 arrived.0 arrived.1 ≡ some arrived
insert_bundle-insert_bundle_example =
    insert_bundle-insert_bundle (cpp_bundle 2) 100 107 fresh.0 fresh.1 steps.1

next_priority-some_example : (r : Option ℕ) × (next_priority arrived.0 ≡ some r)
next_priority-some_example = next_priority-some arrived.0 arrived-IsSound.layered

insert_bundle_frame_example : overtaken.1.heap.cell 0 ≡ taken.0.1.heap.cell 0
insert_bundle_frame_example =
    insert_bundle_frame (cpp_bundle 3) 101 0 taken.0.0 taken.0.1 busy overtaken.0 overtaken.1
      in_process.1 in_process.2 in_process.4 steps.5

-- A complete bundle that waits for nothing is replaced by one that waits for clusters per policy.
abbrev replaced : State
replaced =
    value
      (insert_bundle (complete_bundle 2 1) 100 fresh.0 fresh.1 >>= λ r.
        insert_bundle (complete_bundle 3 2) 101 r.0 r.1)
      fresh

abbrev dequeued : Shared
dequeued = record (replaced.1) { ready_queue = [] }

abbrev stuck : State
stuck = value (insert_all ((cpp_bundle 2, 102) ∷ []) replaced.0 dequeued) fresh

abbrev waiting : ConflationElement Bundle
waiting = value (get_elem? replaced.0.priority_queue 1) busy

wedge :
    (replaced.0.in_ready_queue ≡ true)
    × (replaced.1.ready_queue ≡ "hub1" ∷ [])
    × (next_priority replaced.0 ≡ some none)
    × (insert_all ((cpp_bundle 2, 102) ∷ []) replaced.0 dequeued ≡ some stuck)
    × (next_priority stuck.0 ≡ some (some 0))
    × (occurrences replaced.0.name dequeued.ready_queue ≡ 0)
    × (get_elem? replaced.0.priority_queue 1 ≡ some waiting)
unfolding newer_than equals bundle_type_of leaf_hub_of version_of dependency_version_of
    is_dependant_bundle is_delta_bundle inherit_delta inherit_events_of update_info complete_update
    delta_update delta_store get_bundle get_metadata delta_get_metadata fail_info handle_failure
    mark_info complete_mark delta_mark put_element priority_of element_of is_in_process
    chain_in_process check_dependency is_ready scan next_priority add_to_ready_queue is_news
    insert_bundle take_bundle get_next report_result insert_all
wedge = (refl, refl, refl, refl, refl, refl, refl)

get_next_wedges_example :
    (get_next replaced.0 dequeued ≡ some (replaced.0, dequeued, none))
    × (stuck.0.in_ready_queue ≡ true)
    × (occurrences replaced.0.name stuck.1.ready_queue ≡ 0)
get_next_wedges_example =
    get_next_wedges ((cpp_bundle 2, 102) ∷ []) replaced.0 dequeued stuck.0 stuck.1 wedge.0 wedge.5
      wedge.2 wedge.3
