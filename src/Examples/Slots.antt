-- ===== src/Examples/Slots.antt =====
-- Runs of delta_state_bundle_info.go: a delta pack is dispatched and fails, alone or after a newer
-- bundle of its line arrived.
use multicluster_global_hub.Base.{
  ℕ, ◌≡◌, refl, true, false, Option, none, some, [], ◌∷◌, arith, string_key, nat_key, ok, err, ◌<◌,
}
use multicluster_global_hub.Compliance.Bundles.{
  bundle_type_of, leaf_hub_of, version_of, dependency_version_of, is_dependant_bundle,
  is_delta_bundle, inherit_delta, inherit_events_of, Bundle,
}
use multicluster_global_hub.Conflation.Info.{
  delta, update_info, complete_update, delta_update, delta_store, get_bundle, get_metadata,
  delta_get_metadata, fail_info, handle_failure, mark_info, complete_mark, delta_mark, DeltaInfo,
  get_transport_metadata_to_commit,
}
use multicluster_global_hub.Version.{newer_than, equals}
use multicluster_global_hub.Conflation.Units.{
  put_element, priority_of, element_of, is_in_process, chain_in_process, check_dependency, is_ready,
  scan, next_priority, add_to_ready_queue, is_news, insert_bundle, take_bundle, get_next,
  report_result,
}
use multicluster_global_hub.Examples.Data.{
  api, v, list_sets, delta_bundle, delta_status, value, policy,
}
use multicluster_global_hub.Conflation.Heap.{Heap}
use multicluster_global_hub.Conflation.Info.Recovery.{
  handle_failure-get_metadata, handle_failure_drops,
}

abbrev pack : DeltaInfo Bundle
pack = record {
  bundle = some (delta_bundle 2 1 (policy "p" ("a" ∷ []) [] [] ∷ []));
  metadata = some 0;
  last_dispatched = record { bundle = none; lowest_pending = none };
  last_received = some 100;
  line_head = some (v 1 2);
}

abbrev heap : Heap
heap = record {
  next = 1;
  cell = λ _. record { bundle_type = delta_status; bundle_version = v 1 2; transport = some 100 };
  processed = λ _. false;
}

abbrev dispatched : Option ℕ × DeltaInfo Bundle × Heap
dispatched = value (delta_get_metadata pack heap) (none, pack, heap)

abbrev restored : DeltaInfo Bundle × Heap
restored = value (handle_failure 0 dispatched.1 dispatched.2) (pack, heap)

-- A newer bundle of the same line, with one more policy.
abbrev next_bundle : Bundle
next_bundle = delta_bundle 3 1 (policy "q" ("b" ∷ []) [] [] ∷ [])

abbrev received : DeltaInfo Bundle × Heap
received = elim (delta_update next_bundle 101 false dispatched.1 dispatched.2) [
  | err x ↦ (pack, heap)
  | ok r ↦ r
]

abbrev dropped : DeltaInfo Bundle × Heap
dropped = value (handle_failure 0 received.0 received.1) (pack, heap)

slots :
    (delta_get_metadata pack heap ≡ some (some 0, dispatched.1, dispatched.2))
    × (handle_failure 0 dispatched.1 dispatched.2 ≡ some restored)
    × (newer_than (v 1 2) (some (v 1 2)) ≡ false)
    × (newer_than (version_of next_bundle) (some (v 1 2)) ≡ true)
    × (delta_update next_bundle 101 false dispatched.1 dispatched.2 ≡ ok received)
    × (handle_failure 0 received.0 received.1 ≡ some dropped)
    × (0 < heap.next)
unfolding newer_than equals bundle_type_of leaf_hub_of version_of dependency_version_of
    is_dependant_bundle is_delta_bundle inherit_delta inherit_events_of update_info complete_update
    delta_update delta_store get_bundle get_metadata delta_get_metadata fail_info handle_failure
    mark_info complete_mark delta_mark put_element priority_of element_of is_in_process
    chain_in_process check_dependency is_ready scan next_priority add_to_ready_queue is_news
    insert_bundle take_bundle get_next report_result
slots = (refl, refl, refl, refl, refl, refl, omega arith)

handle_failure-get_metadata_example :
    (restored.0.bundle ≡ pack.bundle)
    × (get_transport_metadata_to_commit (delta restored.0) restored.1
        ≡ get_transport_metadata_to_commit (delta pack) heap)
handle_failure-get_metadata_example =
    handle_failure-get_metadata pack dispatched.1 restored.0 heap dispatched.2 restored.1 0 (v 1 2)
      refl slots.2 slots.0 slots.1

handle_failure_drops_example :
    (dropped.0.bundle ≡ inherit_events_of list_sets next_bundle none)
    × (dropped.0.last_dispatched.bundle ≡ none)
    × (get_transport_metadata_to_commit (delta dropped.0) dropped.1 ≡ some 101)
handle_failure_drops_example =
    handle_failure_drops next_bundle 101 0 pack dispatched.1 received.0 dropped.0 heap dispatched.2
      received.1 dropped.1 slots.6 slots.0 slots.3 slots.4 slots.5
