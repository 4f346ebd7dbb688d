-- ===== src/StatusDb.antt =====
-- manager/pkg/statussyncer/transport2db/db: the compliance table as the handlers see it.
-- policy_cluster_sets.go, and the reading of rows in postgresql/postgresql.go.
pub mod Minimal
pub mod Batches
pub mod Handlers
pub mod Postgres
use multicluster_global_hub.Base.{
  ℕ, zero, suc, ◌+◌, ◌-◌, ◌*◌, ◌/◌, ◌%◌, ◌≤◌, ◌<◌, String, ◌≡◌, refl, sym, ap, subst, ap₂, ◌∙◌, ◌≢◌,
  ◌↔◌, ◌⊎◌, inl, inr, Bool, true, false, not, ◌&&◌, ◌||◌, Option, none, some, List, [], ◌∷◌, ◌++◌,
  map, arith, ltb, leb, eqb, if◌then◌else◌, ◌==◌, Key, ==_iff, string_key, nat_key, Bool-cases,
  Option-cases, Result, ok, err, Result-cases, ◌>>=◌, is_some, length, get_elem?, any, All,
  length-append, of_some, of_is_some, eqb_iff,
}
use multicluster_global_hub.Base.Maps.{lookup, insert, erase, lookup-insert, lookup-erase}
use multicluster_global_hub.Compliance.{SetApi}

-- `db.ComplianceStatus`
pub data ComplianceStatus : Type 0 where
  compliant : ComplianceStatus
  non_compliant : ComplianceStatus
  unknown : ComplianceStatus

abbrev same_status : (a b : ComplianceStatus) → Bool
same_status ComplianceStatus.compliant ComplianceStatus.compliant = true
same_status ComplianceStatus.non_compliant ComplianceStatus.non_compliant = true
same_status ComplianceStatus.unknown ComplianceStatus.unknown = true
same_status _ _ = false

pub same_status_iff : (a b : ComplianceStatus) → (same_status a b ≡ true) ↔ (a ≡ b)
same_status_iff a b = ground arith

instance abbrev pub status_key : Key ComplianceStatus
status_key = record { same_iff = same_status_iff; same = same_status }

-- A row of the compliance table: `id`, `cluster_name`, `compliance`.
pub record Row : Type 0 where
  pub policy : String
  pub cluster : String
  pub status : ComplianceStatus

-- Whether the rows hold the status for the policy and the cluster.
abbrev pub has_row : String → String → ComplianceStatus → List Row → Bool
has_row p c s rows = any (λ r. r.policy == p && (r.cluster == c && r.status == s)) rows

-- Whether the rows name the policy and the cluster.
abbrev pub names_row : String → String → List Row → Bool
names_row p c rows = any (λ r. r.policy == p && r.cluster == c) rows

module _ (sets : SetApi) where
  open sets use {StringSet, new_set, add, contains, union}

  -- `PolicyClustersSets`: the map from a status to a set has the three statuses as keys.
  pub record PolicyClusterSets : Type 0 where
    pub compliant_set : StringSet
    pub non_compliant_set : StringSet
    pub unknown_set : StringSet

  unfoldable pub new_policy_cluster_sets : PolicyClusterSets
  new_policy_cluster_sets = record {
    compliant_set = new_set;
    non_compliant_set = new_set;
    unknown_set = new_set;
  }

  unfoldable pub add_cluster : String → ComplianceStatus → PolicyClusterSets → PolicyClusterSets
  add_cluster c ComplianceStatus.compliant s = record s { compliant_set = add c s.compliant_set }
  add_cluster c ComplianceStatus.non_compliant s = record s {
    non_compliant_set = add c s.non_compliant_set;
  }
  add_cluster c ComplianceStatus.unknown s = record s { unknown_set = add c s.unknown_set }

  unfoldable pub get_clusters : PolicyClusterSets → ComplianceStatus → StringSet
  get_clusters s ComplianceStatus.compliant = s.compliant_set
  get_clusters s ComplianceStatus.non_compliant = s.non_compliant_set
  get_clusters s ComplianceStatus.unknown = s.unknown_set

  unfoldable pub get_all_clusters : PolicyClusterSets → StringSet
  get_all_clusters s = union s.compliant_set (union s.non_compliant_set s.unknown_set)

  -- `if !policyExistsInDB { clustersFromDB = db.NewPolicyClusterSets() }`
  unfoldable pub sets_of : String → List (String × PolicyClusterSets) → PolicyClusterSets
  unfolding new_policy_cluster_sets
  sets_of p m = elim (lookup p m) [ none ↦ new_policy_cluster_sets | some s ↦ s ]

  -- `buildComplianceClustersSetsFromRows`, for rows that scan.
  unfoldable pub build_sets :
      List Row → List (String × PolicyClusterSets) → List (String × PolicyClusterSets)
  unfolding sets_of add_cluster
  build_sets [] m = m
  build_sets (r ∷ rows) m =
      build_sets rows (insert r.policy (add_cluster r.cluster r.status (sets_of r.policy m)) m)

  -- The sets hold exactly the rows.
  get_clusters-add_cluster :
      (s : PolicyClusterSets) (c d : String) (a b : ComplianceStatus)
      → contains (get_clusters (add_cluster c a s) b) d
        ≡ ((c == d && a == b) || contains (get_clusters s b) d)
  unfolding add_cluster get_clusters
  get_clusters-add_cluster s c d a b = ground (arith, sets.contains-add c d (get_clusters s b))

  contains-build_sets :
      (rows : List Row) (m : List (String × PolicyClusterSets)) (p c : String)
      → (s : ComplianceStatus)
      → contains (get_clusters (sets_of p (build_sets rows m)) s) c
        ≡ (has_row p c s rows || contains (get_clusters (sets_of p m) s) c)
  unfolding build_sets sets_of
  contains-build_sets [] m p c s = refl
  contains-build_sets (r ∷ rows) m p c s =
      let here = sets_of r.policy m in
      let next = insert r.policy (add_cluster r.cluster r.status here) m in
      ground (
        arith,
        contains-build_sets rows next p c s,
        lookup-insert r.policy p (add_cluster r.cluster r.status here) m,
        get_clusters-add_cluster here r.cluster c r.status s,
        ==_iff r.policy p,
      )

  pub contains-sets_of :
      (rows : List Row) (p c : String) (s : ComplianceStatus)
      → contains (get_clusters (sets_of p (build_sets rows [])) s) c ≡ has_row p c s rows
  unfolding sets_of new_policy_cluster_sets get_clusters
  contains-sets_of rows p c s =
      ground (arith, contains-build_sets rows [] p c s, sets.contains-new_set c)

  pub sets_of_missing :
      (m : List (String × PolicyClusterSets)) (p c : String) (s : ComplianceStatus)
      → lookup p m ≡ none
      → contains (get_clusters (sets_of p m) s) c ≡ false
  unfolding sets_of new_policy_cluster_sets get_clusters
  sets_of_missing m p c ComplianceStatus.compliant h = ground (arith, h, sets.contains-new_set c)
  sets_of_missing m p c ComplianceStatus.non_compliant h =
      ground (arith, h, sets.contains-new_set c)
  sets_of_missing m p c ComplianceStatus.unknown h = ground (arith, h, sets.contains-new_set c)
