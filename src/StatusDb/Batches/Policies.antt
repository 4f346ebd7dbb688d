-- ===== src/StatusDb/Batches/Policies.antt =====
-- policies_batch_builder.go: the builder of batches for the compliance table.
use multicluster_global_hub.Base.{
  ℕ, suc, ◌+◌, ◌-◌, ◌/◌, String, none, some, List, [], ◌∷◌, ◌++◌, map, leb, if◌then◌else◌,
  string_key, nat_key, length,
}
use multicluster_global_hub.Base.Maps.{lookup, insert}
use Prim.Native.String.{◌++◌ as concat}
use multicluster_global_hub.StatusDb.{ComplianceStatus, Row}
use multicluster_global_hub.StatusDb.Batches.{
  update_policies, BaseBuilder, generate_rows, generate_args_list, new_base_builder, max_columns,
  insert_args_of, build, Value, Table, Query, update_args_of, Statement, delete_args_of,
  queue_spread, queue_rest, delete_clusters, text, update_clusters, status,
}

-- The calls that a handler makes on `db.PoliciesBatchBuilder`, an interface.
pub data Call : Type 0 where
  insert_row : Row → Call
  update_policy : String → ComplianceStatus → Call
  update_cluster : Row → Call
  delete_policy : String → Call
  delete_cluster : String → String → Call

pub record PoliciesBuilder : Type 0 where
  pub base : BaseBuilder
  pub update_cluster_args : List Value
  pub update_cluster_rows_count : ℕ
  pub delete_cluster_args : List (String × List Value)

-- `generateUpdatePolicyComplianceStatement`
unfoldable pub update_policy_statement : Table → List Value → ℕ → Query
unfolding generate_rows
update_policy_statement table args count = update_policies table (
    generate_rows count (length args / count)
      ((1, "uuid") ∷ (3, concat table.schema ".compliance_type") ∷ []))

-- `generateUpdateClusterComplianceStatement`
unfoldable pub update_cluster_statement : PoliciesBuilder → Query
unfolding generate_rows
update_cluster_statement b =
    let table = b.base.table in
    update_clusters table (
      generate_rows b.update_cluster_rows_count
        (length b.update_cluster_args / b.update_cluster_rows_count)
        ((1, "uuid") ∷ (4, concat table.schema ".compliance_type") ∷ []))

-- `generateDeleteClusterComplianceStatement`
unfoldable pub delete_cluster_statement : Table → List Value → Query
unfolding generate_args_list
delete_cluster_statement table args =
    delete_clusters table (generate_args_list (length args - 2) 3 [])

unfoldable pub new_policies_builder : Table → String → PoliciesBuilder
unfolding new_base_builder update_policy_statement
new_policies_builder table hub = record {
  base = new_base_builder table ((1, "uuid") ∷ []) hub "id" (update_policy_statement table);
  update_cluster_args = [];
  update_cluster_rows_count = 0;
  delete_cluster_args = [];
}

-- `UpdateClusterCompliance`
unfoldable pub update_cluster_compliance : Row → PoliciesBuilder → PoliciesBuilder
unfolding update_cluster_statement
update_cluster_compliance r b =
    let full : PoliciesBuilder = record b {
      base = record b.base {
        update_items =
            b.base.update_items
            ++ record { query = update_cluster_statement b; arguments = b.update_cluster_args }
              ∷ [];
      };
      update_cluster_args = [];
      update_cluster_rows_count = 0;
    } in
    let c = if leb max_columns (length b.update_cluster_args + 4) then full else b in
    record c {
      update_cluster_args =
          c.update_cluster_args
          ++ text r.policy ∷ text r.cluster ∷ text c.base.leaf_hub_name ∷ status r.status ∷ [];
      update_cluster_rows_count = suc c.update_cluster_rows_count;
    }

-- `DeleteClusterStatus`
unfoldable pub delete_cluster_status : String → String → PoliciesBuilder → PoliciesBuilder
delete_cluster_status p c b =
    let args : List Value = elim (lookup p b.delete_cluster_args) [
      | none ↦ text p ∷ text b.base.leaf_hub_name ∷ []
      | some args ↦ args
    ] in
    record b { delete_cluster_args = insert p (args ++ text c ∷ []) b.delete_cluster_args }

-- `Insert`, `UpdatePolicyCompliance` and `DeletePolicy` use the base builder.
unfoldable pub apply_call : Call → PoliciesBuilder → PoliciesBuilder
unfolding insert_args_of update_args_of delete_args_of update_cluster_compliance
    delete_cluster_status
apply_call (insert_row r) b = record b {
  base =
      insert_args_of
        (text r.policy
          ∷ text r.cluster
          ∷ text b.base.leaf_hub_name
          ∷ text "none"
          ∷ status r.status
          ∷ [])
        b.base;
}
apply_call (update_policy p s) b = record b {
  base = update_args_of (text p ∷ text b.base.leaf_hub_name ∷ status s ∷ []) b.base;
}
apply_call (update_cluster r) b = update_cluster_compliance r b
apply_call (delete_policy p) b = record b { base = delete_args_of (text p ∷ []) b.base }
apply_call (delete_cluster p c) b = delete_cluster_status p c b

unfoldable pub apply_calls : List Call → PoliciesBuilder → PoliciesBuilder
unfolding apply_call
apply_calls [] b = b
apply_calls (c ∷ cs) b = apply_calls cs (apply_call c b)

-- `Build`
unfoldable pub build_policies : PoliciesBuilder → List Statement
unfolding build update_cluster_statement delete_cluster_statement
build_policies b =
    build b.base
    ++ map (λ e. queue_spread (delete_cluster_statement b.base.table e.1) e.1) b.delete_cluster_args
    ++ queue_rest b.update_cluster_rows_count (update_cluster_statement b) b.update_cluster_args
