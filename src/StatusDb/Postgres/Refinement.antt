-- ===== src/StatusDb/Postgres/Refinement.antt =====
-- policies_db_syncer.go: the table after a `ClustersPerPolicyBundle` is what the bundle lists.
use multicluster_global_hub.Base.{
  ◌<◌, String, ◌≡◌, Option, none, some, List, [], string_key, nat_key, ok, length,
}
use multicluster_global_hub.StatusDb.{status_key, ComplianceStatus, Row, build_sets}
use multicluster_global_hub.Compliance.{PolicyCompliance, SetApi}
use multicluster_global_hub.Compliance.Inherit.{find_policy}
use multicluster_global_hub.StatusDb.Postgres.{PostgresApi}
use multicluster_global_hub.StatusDb.Handlers.{clusters_per_policy_calls}
use multicluster_global_hub.StatusDb.Handlers.Specific.{status_in}

-- What a bundle of full state says of a row.
abbrev pub listed_in : List PolicyCompliance → String → String → Option ComplianceStatus
listed_in objects p c = elim (find_policy p objects) [ none ↦ none | some o ↦ status_in o c ]

module _ (sets : SetApi) (postgres : PostgresApi) where
  open postgres use {Db, Error, row, select_rows}

  -- The batch for the bundle fits in one statement of each kind.
  abbrev pub FitsInStatements : String → List PolicyCompliance → Db → Type 0
  FitsInStatements hub objects db =
      (rows : List Row)
      → select_rows hub db ≡ ok rows
      → length (clusters_per_policy_calls sets objects (build_sets sets rows [])) < 13108
