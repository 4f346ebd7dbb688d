-- ===== src/Examples/Managers.antt =====
-- A run of conflation_manager.go and of the dispatcher: a bundle of a new leaf hub arrives and is
-- dispatched.
use multicluster_global_hub.Base.{
  ℕ, ◌≡◌, refl, true, false, Option, none, some, [], string_key, nat_key,
}
use multicluster_global_hub.Compliance.Bundles.{
  bundle_type_of, leaf_hub_of, version_of, dependency_version_of, is_dependant_bundle,
  is_delta_bundle, inherit_delta, inherit_events_of, Bundle,
}
use multicluster_global_hub.Conflation.Info.{
  update_info, complete_update, delta_update, delta_store, get_bundle, get_metadata,
  delta_get_metadata, fail_info, handle_failure, mark_info, complete_mark, delta_mark,
  new_bundle_info,
}
use multicluster_global_hub.Version.{no_bundle_version, newer_than, equals}
use multicluster_global_hub.Conflation.Units.{
  new_unit, new_element, fill_slots, all_filled, priorities, put_element, priority_of, element_of,
  is_in_process, chain_in_process, check_dependency, is_ready, scan, next_priority,
  add_to_ready_queue, is_news, insert_bundle, take_bundle, get_next, report_result,
}
use multicluster_global_hub.Conflation.Manager.{
  register, get_unit, put_unit, dequeue, manager_insert, dispatch, report, units_metadata,
  manager_metadata, ConflationManager,
}
use multicluster_global_hub.Examples.Data.{api, registrations, cpp_bundle, nothing_queued, value}
use multicluster_global_hub.Conflation.Manager.Steps.{
  here, next, inserts, dequeues, dispatches, reports, IsOrderly, Reaches-start-IsOrderly,
}

abbrev idle : ConflationManager Bundle
idle = record {
  units = [];
  registrations = registrations;
  require_initial_checks = true;
  shared = nothing_queued;
  held = none;
}

abbrev inserted : ConflationManager Bundle
inserted = value (manager_insert (cpp_bundle 2) 100 idle) idle

abbrev dequeued : ConflationManager Bundle
dequeued = value (dequeue inserted) idle

abbrev dispatched : ConflationManager Bundle × Option (Option Bundle × Option ℕ × ℕ)
dispatched = value (dispatch dequeued) (idle, none)

abbrev finished : ConflationManager Bundle
finished = value (report "hub1" 0 false dispatched.0) idle

steps :
    (manager_insert (cpp_bundle 2) 100 idle ≡ some inserted)
    × (dequeue inserted ≡ some dequeued)
    × (dispatch dequeued ≡ some dispatched)
    × (report "hub1" 0 false dispatched.0 ≡ some finished)
    × (dispatched.1 ≡ some (some (cpp_bundle 2), some 0, 10))
    × (inserted.held ≡ none)
unfolding newer_than equals bundle_type_of leaf_hub_of version_of dependency_version_of
    is_dependant_bundle is_delta_bundle inherit_delta inherit_events_of update_info complete_update
    delta_update delta_store get_bundle get_metadata delta_get_metadata fail_info handle_failure
    mark_info complete_mark delta_mark put_element priority_of element_of is_in_process
    chain_in_process check_dependency is_ready scan next_priority add_to_ready_queue is_news
    insert_bundle take_bundle get_next report_result register get_unit put_unit dequeue
    manager_insert dispatch report units_metadata manager_metadata new_unit new_element fill_slots
    all_filled priorities new_bundle_info no_bundle_version
steps = (refl, refl, refl, refl, refl, refl)

Reaches-start-IsOrderly_example : IsOrderly finished
Reaches-start-IsOrderly_example = Reaches-start-IsOrderly idle finished refl refl refl (
    next
      (next (next (next here (inserts (cpp_bundle 2) 100 steps.0)) (dequeues steps.5 steps.1))
        (dispatches dispatched.1 steps.2))
      (reports "hub1" 0 false steps.3))
