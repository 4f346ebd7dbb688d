-- ===== src/Examples/Statuses.antt =====
-- Bundles of policy compliance, handled on a compliance table in memory.
use multicluster_global_hub.Base.{
  ◌<◌, ◌≡◌, refl, none, some, List, [], ◌∷◌, arith, if◌then◌else◌, ◌==◌, string_key, nat_key,
  length, replicate,
}
use multicluster_global_hub.StatusDb.{
  status_key, ComplianceStatus, Row, build_sets, get_all_clusters, get_clusters, sets_of,
  add_cluster, new_policy_cluster_sets,
}
use multicluster_global_hub.Examples.Tables.{OneHub}
use multicluster_global_hub.Compliance.{PolicyCompliance}
use multicluster_global_hub.StatusDb.Handlers.{
  CompleteCompliance, clusters_per_policy_calls, delta_compliance_calls, handle_delta_status,
  handle_cluster_per_policy, handle_specific,
}
use multicluster_global_hub.StatusDb.Postgres.{
  handle_clusters_per_policy_bundle, send_batch, send_calls, exec_all,
  handle_delta_compliance_bundle,
}
use multicluster_global_hub.StatusDb.Postgres.Sent.{RowEnds}
use multicluster_global_hub.StatusDb.Batches.Pending.{Asked, nothing_asked}
use multicluster_global_hub.Examples.Databases.{in_memory}
use multicluster_global_hub.StatusDb.Batches.Policies.{
  build_policies, apply_calls, apply_call, new_policies_builder, update_cluster_compliance,
  delete_cluster_status, update_policy_statement, update_cluster_statement,
  delete_cluster_statement,
}
use multicluster_global_hub.Examples.Data.{list_sets}
use multicluster_global_hub.StatusDb.Batches.{
  build, new_base_builder, insert_args_of, update_args_of, delete_args_of,
  generate_insert_statement, generate_delete_statement, generate_rows, rows_from,
  generate_args_list, args_from,
}
use multicluster_global_hub.StatusDb.Postgres.Delta.{handle_delta_compliance_bundle_refines}

abbrev table_of_three : OneHub
table_of_three = record {
  keys = ("p1", "c1") ∷ ("p1", "c2") ∷ ("p2", "c1") ∷ [];
  status_at = λ p c.
      if p == "p1"
      then if c == "c1" then some ComplianceStatus.compliant else some ComplianceStatus.unknown
      else some ComplianceStatus.non_compliant;
}

-- The cluster c2 of p1 changes, c3 is new, p2 is left out, p3 is new.
abbrev listing : List PolicyCompliance
listing =
    record {
      policy_id = "p1";
      compliant = "c1" ∷ [];
      non_compliant = "c2" ∷ "c3" ∷ [];
      unknown = [];
    }
    ∷ record { policy_id = "p3"; compliant = []; non_compliant = []; unknown = "c1" ∷ [] }
    ∷ []

abbrev complete_listing : List CompleteCompliance
complete_listing = record { policy_id = "p1"; non_compliant = "c1" ∷ []; unknown = [] } ∷ []

listing-few : length (delta_compliance_calls listing) < 13108
unfolding delta_compliance_calls handle_delta_status
listing-few = omega arith

-- The handler succeeds on this bundle.
handled :
    (handle_clusters_per_policy_bundle list_sets in_memory "hub1" listing table_of_three).1 ≡ none
unfolding handle_clusters_per_policy_bundle send_calls send_batch exec_all build_policies build
    apply_calls apply_call new_policies_builder new_base_builder insert_args_of update_args_of
    delete_args_of update_cluster_compliance delete_cluster_status clusters_per_policy_calls
    build_sets handle_cluster_per_policy handle_specific get_all_clusters get_clusters sets_of
    add_cluster new_policy_cluster_sets generate_insert_statement generate_delete_statement
    generate_rows rows_from generate_args_list args_from update_policy_statement
    update_cluster_statement delete_cluster_statement
handled = refl

handle_delta_compliance_bundle_refines_example :
    RowEnds in_memory "hub1" "p1" "c2" table_of_three
      (some ComplianceStatus.non_compliant)
      (handle_delta_compliance_bundle in_memory "hub1" listing table_of_three)
handle_delta_compliance_bundle_refines_example =
    handle_delta_compliance_bundle_refines list_sets in_memory "hub1" listing table_of_three
      (refl, (refl, tt)) (refl, (refl, tt)) listing-few "p1" "c2"

abbrev a_row : Row
a_row = record { policy = "p1"; cluster = "c1"; status = ComplianceStatus.unknown }

abbrev full : Asked
full = record nothing_asked { inserts = replicate 13107 a_row }
