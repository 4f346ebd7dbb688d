-- ===== src/StatusDb/Handlers.antt =====
-- manager/pkg/statussyncer/transport2db/syncer/dbsyncer/policies_db_syncer.go: the calls that the
-- handlers make on the batch builder. The objects of a bundle have the type that its handler asks
-- for, so none is passed over.
pub mod Specific
pub mod ClustersPerPolicy
pub mod Marks
pub mod Bundles
pub mod Complete
use multicluster_global_hub.Base.{
  ℕ, zero, suc, ◌+◌, ◌-◌, ◌*◌, ◌/◌, ◌%◌, ◌≤◌, ◌<◌, String, ◌≡◌, refl, sym, ap, subst, ap₂, ◌∙◌, ◌≢◌,
  ◌↔◌, ◌⊎◌, inl, inr, Bool, true, false, not, ◌&&◌, ◌||◌, Option, none, some, List, [], ◌∷◌, ◌++◌,
  map, arith, ltb, leb, eqb, if◌then◌else◌, ◌==◌, Key, ==_iff, string_key, nat_key, Bool-cases,
  Option-cases, Result, ok, err, Result-cases, ◌>>=◌, is_some, length, get_elem?, any, All,
  length-append, of_some, of_is_some, eqb_iff,
}
use multicluster_global_hub.Base.Maps.{lookup, insert, erase, lookup-insert, lookup-erase}
use multicluster_global_hub.StatusDb.{
  ComplianceStatus, Row, PolicyClusterSets, get_clusters, get_all_clusters, sets_of,
}
use multicluster_global_hub.StatusDb.Batches.Policies.{
  Call, insert_row, update_policy, update_cluster, delete_policy, delete_cluster,
}
use multicluster_global_hub.Compliance.{SetApi, PolicyCompliance}

-- `PolicyCompleteComplianceStatus`
pub record CompleteCompliance : Type 0 where
  pub policy_id : String
  pub non_compliant : List String
  pub unknown : List String

module _ (sets : SetApi) where
  open sets use {StringSet, contains, items, remove, union}

  abbrev Sets : Type 0
  Sets = PolicyClusterSets sets

  -- `handleClustersPerPolicyWithSpecificCompliance`, which returns what is left of the clusters.
  unfoldable pub handle_specific :
      String → ComplianceStatus → List String → (all typed : StringSet) → List Call × StringSet
  handle_specific p s [] all typed = ([], all)
  handle_specific p s (c ∷ cs) all typed =
      let row : Row = record { policy = p; cluster = c; status = s } in
      let known = contains all c in
      let (calls, left) = handle_specific p s cs (if known then remove c all else all) typed in
      let call = if known then update_cluster row else insert_row row in
      (if known && contains typed c then calls else call ∷ calls, left)

  -- `handleClusterPerPolicy`
  unfoldable pub handle_cluster_per_policy : PolicyCompliance → Sets → List Call
  unfolding handle_specific get_clusters get_all_clusters
  handle_cluster_per_policy o db =
      let typed = get_clusters sets db in
      let p = o.policy_id in
      let (a, all₁) =
        handle_specific p ComplianceStatus.compliant o.compliant (get_all_clusters sets db)
          (typed ComplianceStatus.compliant) in
      let (b, all₂) =
        handle_specific p ComplianceStatus.non_compliant o.non_compliant all₁
          (typed ComplianceStatus.non_compliant) in
      let (c, all₃) =
        handle_specific p ComplianceStatus.unknown o.unknown all₂
          (typed ComplianceStatus.unknown) in
      a ++ b ++ c ++ map (delete_cluster p) (items all₃)

  -- The loop over the objects, then the one over what is left of the rows from the database.
  unfoldable pub clusters_per_policy_calls :
      List PolicyCompliance → List (String × Sets) → List Call
  unfolding handle_cluster_per_policy sets_of
  clusters_per_policy_calls [] left = map (λ e. delete_policy e.0) left
  clusters_per_policy_calls (o ∷ os) left =
      handle_cluster_per_policy o (sets_of sets o.policy_id left)
      ++ clusters_per_policy_calls os (erase o.policy_id left)

  -- The two loops of `handlePolicyCompleteComplianceStatus` over the clusters of the bundle.
  unfoldable pub mark_status :
      String → ComplianceStatus → List String → (left typed : StringSet) → List Call × StringSet
  mark_status p s [] left typed = ([], left)
  mark_status p s (c ∷ cs) left typed =
      let (calls, rest) = mark_status p s cs (remove c left) typed in
      let row : Row = record { policy = p; cluster = c; status = s } in
      (if contains typed c then calls else update_cluster row ∷ calls, rest)

  unfoldable pub handle_complete_status : CompleteCompliance → Sets → List Call
  unfolding mark_status get_clusters
  handle_complete_status o db =
      let p = o.policy_id in
      let non_compliant_set = get_clusters sets db ComplianceStatus.non_compliant in
      let unknown_set = get_clusters sets db ComplianceStatus.unknown in
      let (a, left₁) =
        mark_status p ComplianceStatus.non_compliant o.non_compliant
          (union non_compliant_set unknown_set) non_compliant_set in
      let (b, left₂) = mark_status p ComplianceStatus.unknown o.unknown left₁ unknown_set in
      a
      ++ b
      ++ map
          (λ c.
            update_cluster
              (record { policy = p; cluster = c; status = ComplianceStatus.compliant }))
          (items left₂)

  unfoldable pub complete_compliance_calls :
      List CompleteCompliance → List (String × Sets) → List Call
  unfolding handle_complete_status sets_of
  complete_compliance_calls [] left = map (λ e. update_policy e.0 ComplianceStatus.compliant) left
  complete_compliance_calls (o ∷ os) left =
      handle_complete_status o (sets_of sets o.policy_id left)
      ++ complete_compliance_calls os (erase o.policy_id left)

-- `handleDeltaPolicyComplianceStatus`
abbrev pub update_all : String → ComplianceStatus → List String → List Call
update_all p s cs = map (λ c. update_cluster (record { policy = p; cluster = c; status = s })) cs

unfoldable pub handle_delta_status : PolicyCompliance → List Call
handle_delta_status o =
    update_all o.policy_id ComplianceStatus.compliant o.compliant
    ++ update_all o.policy_id ComplianceStatus.non_compliant o.non_compliant
    ++ update_all o.policy_id ComplianceStatus.unknown o.unknown

unfoldable pub delta_compliance_calls : List PolicyCompliance → List Call
unfolding handle_delta_status
delta_compliance_calls [] = []
delta_compliance_calls (o ∷ os) = handle_delta_status o ++ delta_compliance_calls os
