-- ===== src/StatusDb/Handlers/ClustersPerPolicy.antt =====
-- policies_db_syncer.go: what the calls of `handleClusterPerPolicy` are, row by row.
use multicluster_global_hub.Base.{
  String, ◌≡◌, refl, not, ◌&&◌, Option, none, List, [], ◌∷◌, ◌++◌, map, arith, ◌==◌, string_key,
  nat_key, is_some,
}
use multicluster_global_hub.StatusDb.{
  status_key, ComplianceStatus, Row, has_row, PolicyClusterSets, get_all_clusters, get_clusters,
}
use multicluster_global_hub.Compliance.{PolicyCompliance, SetApi, member}
use multicluster_global_hub.StatusDb.Batches.Calls.{
  pick, as_insert, as_update, drops, pick-append, as_drop,
}
use multicluster_global_hub.StatusDb.Handlers.{handle_specific, handle_cluster_per_policy}
use multicluster_global_hub.StatusDb.Batches.Policies.{
  Call, insert_row, delete_cluster, update_cluster,
}
use multicluster_global_hub.StatusDb.Handlers.Specific.{
  is_status, any_status, ListsOnce, status_in, handle_specific_others, once_lem, any_of_four,
  handle_specific_left, handle_specific_inserts, handle_specific_updates,
}

module _ (sets : SetApi) where
  open sets use {StringSet, contains, items, remove}

  -- The sets that were read agree with what the table holds for a policy and a cluster.
  abbrev pub Reads : PolicyClusterSets sets → String → Option ComplianceStatus → Type 0
  Reads db c held = (s : ComplianceStatus) → contains (get_clusters sets db s) c ≡ is_status held s

  contains-get_all_clusters :
      (db : PolicyClusterSets sets) (c : String) (held : Option ComplianceStatus)
      → Reads db c held
      → contains (get_all_clusters sets db) c ≡ is_some held
  unfolding get_all_clusters get_clusters
  contains-get_all_clusters db c held h =
      let u = sets.contains-union c db.non_compliant_set db.unknown_set in
      let rest = sets.union db.non_compliant_set db.unknown_set in
      ground (
        arith,
        u,
        sets.contains-union c db.compliant_set rest,
        any_status held (h ComplianceStatus.compliant) (h ComplianceStatus.non_compliant)
            (h ComplianceStatus.unknown),
      )

  pick_deletes {κ} :
      {B : Type κ} (f : Call → Option B) (p : String) (cs : List String)
      → ((c : String) → f (delete_cluster p c) ≡ none)
      → pick f (map (delete_cluster p) cs) ≡ []
  pick_deletes f p [] h = refl
  pick_deletes f p (c ∷ cs) h = ground (arith, h c, pick_deletes f p cs h)

  pub handle_cluster_per_policy_inserts :
      (o : PolicyCompliance) (db : PolicyClusterSets sets) (q c : String) (s : ComplianceStatus)
      (held : Option ComplianceStatus)
      → ListsOnce o
      → Reads db c held
      → has_row q c s (pick as_insert (handle_cluster_per_policy sets o db))
        ≡ (o.policy_id == q && (not (is_some held) && is_status (status_in o c) s))
  unfolding handle_cluster_per_policy
  handle_cluster_per_policy_inserts o db q c s held once reads =
      let (d₁, d₂, d₃, n₁, n₂, n₃) = once_lem o c once in
      let p = o.policy_id in
      let typed = get_clusters sets db in
      let all = get_all_clusters sets db in
      let (calls₁, all₁) =
        handle_specific sets p ComplianceStatus.compliant o.compliant all
          (typed ComplianceStatus.compliant) in
      let (calls₂, all₂) =
        handle_specific sets p ComplianceStatus.non_compliant o.non_compliant all₁
          (typed ComplianceStatus.non_compliant) in
      let (calls₃, all₃) =
        handle_specific sets p ComplianceStatus.unknown o.unknown all₂
          (typed ComplianceStatus.unknown) in
      let whole =
        any_of_four (λ r. r.policy == q && (r.cluster == c && r.status == s)) as_insert calls₁
          calls₂ calls₃ (map (delete_cluster p) (items all₃)) in
      ground (
        arith,
        n₁,
        n₂,
        n₃,
        whole,
        contains-get_all_clusters db c held reads,
        handle_specific_left sets p ComplianceStatus.compliant o.compliant all
            (typed ComplianceStatus.compliant) c,
        handle_specific_left sets p ComplianceStatus.non_compliant o.non_compliant all₁
            (typed ComplianceStatus.non_compliant) c,
        handle_specific_inserts sets p ComplianceStatus.compliant o.compliant all
            (typed ComplianceStatus.compliant) q c s d₁,
        handle_specific_inserts sets p ComplianceStatus.non_compliant o.non_compliant all₁
            (typed ComplianceStatus.non_compliant) q c s d₂,
        handle_specific_inserts sets p ComplianceStatus.unknown o.unknown all₂
            (typed ComplianceStatus.unknown) q c s d₃,
        pick_deletes as_insert p (items all₃) (λ x. refl),
      )

  pub handle_cluster_per_policy_updates :
      (o : PolicyCompliance) (db : PolicyClusterSets sets) (q c : String) (s : ComplianceStatus)
      (held : Option ComplianceStatus)
      → ListsOnce o
      → Reads db c held
      → has_row q c s (pick as_update (handle_cluster_per_policy sets o db)) ≡ (
          o.policy_id == q
          && (is_some held && (not (is_status held s) && is_status (status_in o c) s)))
  unfolding handle_cluster_per_policy
  handle_cluster_per_policy_updates o db q c s held once reads =
      let (d₁, d₂, d₃, n₁, n₂, n₃) = once_lem o c once in
      let p = o.policy_id in
      let typed = get_clusters sets db in
      let all = get_all_clusters sets db in
      let (calls₁, all₁) =
        handle_specific sets p ComplianceStatus.compliant o.compliant all
          (typed ComplianceStatus.compliant) in
      let (calls₂, all₂) =
        handle_specific sets p ComplianceStatus.non_compliant o.non_compliant all₁
          (typed ComplianceStatus.non_compliant) in
      let (calls₃, all₃) =
        handle_specific sets p ComplianceStatus.unknown o.unknown all₂
          (typed ComplianceStatus.unknown) in
      let whole =
        any_of_four (λ r. r.policy == q && (r.cluster == c && r.status == s)) as_update calls₁
          calls₂ calls₃ (map (delete_cluster p) (items all₃)) in
      ground (
        arith,
        n₁,
        n₂,
        n₃,
        whole,
        contains-get_all_clusters db c held reads,
        handle_specific_left sets p ComplianceStatus.compliant o.compliant all
            (typed ComplianceStatus.compliant) c,
        handle_specific_left sets p ComplianceStatus.non_compliant o.non_compliant all₁
            (typed ComplianceStatus.non_compliant) c,
        handle_specific_updates sets p ComplianceStatus.compliant o.compliant all
            (typed ComplianceStatus.compliant) q c s d₁,
        handle_specific_updates sets p ComplianceStatus.non_compliant o.non_compliant all₁
            (typed ComplianceStatus.non_compliant) q c s d₂,
        handle_specific_updates sets p ComplianceStatus.unknown o.unknown all₂
            (typed ComplianceStatus.unknown) q c s d₃,
        pick_deletes as_update p (items all₃) (λ x. refl),
        reads s,
      )

  drops_deletes :
      (p q c : String) (cs : List String)
      → drops q c (pick as_drop (map (delete_cluster p) cs)) ≡ (p == q && member c cs)
  drops_deletes p q c [] = ground arith
  drops_deletes p q c (x ∷ cs) = ground (arith, drops_deletes p q c cs)

  pub drops-handle_cluster_per_policy :
      (o : PolicyCompliance) (db : PolicyClusterSets sets) (q c : String)
      (held : Option ComplianceStatus)
      → Reads db c held
      → drops q c (pick as_drop (handle_cluster_per_policy sets o db))
        ≡ (o.policy_id == q && (is_some held && not (is_some (status_in o c))))
  unfolding handle_cluster_per_policy
  drops-handle_cluster_per_policy o db q c held reads =
      let p = o.policy_id in
      let typed = get_clusters sets db in
      let all = get_all_clusters sets db in
      let (calls₁, all₁) =
        handle_specific sets p ComplianceStatus.compliant o.compliant all
          (typed ComplianceStatus.compliant) in
      let (calls₂, all₂) =
        handle_specific sets p ComplianceStatus.non_compliant o.non_compliant all₁
          (typed ComplianceStatus.non_compliant) in
      let (calls₃, all₃) =
        handle_specific sets p ComplianceStatus.unknown o.unknown all₂
          (typed ComplianceStatus.unknown) in
      let whole =
        any_of_four (λ e. e.0 == q && e.1 == c) as_drop calls₁ calls₂ calls₃
          (map (delete_cluster p) (items all₃)) in
      ground (
        arith,
        whole,
        contains-get_all_clusters db c held reads,
        handle_specific_left sets p ComplianceStatus.compliant o.compliant all
            (typed ComplianceStatus.compliant) c,
        handle_specific_left sets p ComplianceStatus.non_compliant o.non_compliant all₁
            (typed ComplianceStatus.non_compliant) c,
        handle_specific_left sets p ComplianceStatus.unknown o.unknown all₂
            (typed ComplianceStatus.unknown) c,
        sets.member-items c all₃,
        drops_deletes p q c (items all₃),
        handle_specific_others sets as_drop p ComplianceStatus.compliant o.compliant all
            (typed ComplianceStatus.compliant) (λ r. refl) (λ r. refl),
        handle_specific_others sets as_drop p ComplianceStatus.non_compliant o.non_compliant all₁
            (typed ComplianceStatus.non_compliant) (λ r. refl) (λ r. refl),
        handle_specific_others sets as_drop p ComplianceStatus.unknown o.unknown all₂
            (typed ComplianceStatus.unknown) (λ r. refl) (λ r. refl),
      )

  pub handle_cluster_per_policy_others {κ} :
      {B : Type κ} (f : Call → Option B) (o : PolicyCompliance) (db : PolicyClusterSets sets)
      → ((r : Row) → f (insert_row r) ≡ none)
      → ((r : Row) → f (update_cluster r) ≡ none)
      → ((p c : String) → f (delete_cluster p c) ≡ none)
      → pick f (handle_cluster_per_policy sets o db) ≡ []
  unfolding handle_cluster_per_policy
  handle_cluster_per_policy_others f o db i u d =
      let p = o.policy_id in
      let typed = get_clusters sets db in
      let all = get_all_clusters sets db in
      let (calls₁, all₁) =
        handle_specific sets p ComplianceStatus.compliant o.compliant all
          (typed ComplianceStatus.compliant) in
      let (calls₂, all₂) =
        handle_specific sets p ComplianceStatus.non_compliant o.non_compliant all₁
          (typed ComplianceStatus.non_compliant) in
      let (calls₃, all₃) =
        handle_specific sets p ComplianceStatus.unknown o.unknown all₂
          (typed ComplianceStatus.unknown) in
      let four = map (delete_cluster p) (items all₃) in
      ground (
        arith,
        pick-append f (calls₁ ++ calls₂ ++ calls₃) four,
        pick-append f (calls₁ ++ calls₂) calls₃,
        pick-append f calls₁ calls₂,
        pick_deletes f p (items all₃) (d p),
        handle_specific_others sets f p ComplianceStatus.compliant o.compliant all
            (typed ComplianceStatus.compliant) i u,
        handle_specific_others sets f p ComplianceStatus.non_compliant o.non_compliant all₁
            (typed ComplianceStatus.non_compliant) i u,
        handle_specific_others sets f p ComplianceStatus.unknown o.unknown all₂
            (typed ComplianceStatus.unknown) i u,
      )
