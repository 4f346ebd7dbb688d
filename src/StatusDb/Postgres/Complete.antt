-- ===== src/StatusDb/Postgres/Complete.antt =====
-- policies_db_syncer.go: the table after a `CompleteComplianceStatusBundle`.
use multicluster_global_hub.Base.{
  ◌<◌, String, ◌≡◌, Option, none, some, List, [], string_key, nat_key, ok, length,
}
use multicluster_global_hub.StatusDb.{status_key, ComplianceStatus, Row, build_sets}
use multicluster_global_hub.StatusDb.Handlers.{CompleteCompliance, complete_compliance_calls}
use multicluster_global_hub.Compliance.{SetApi}
use multicluster_global_hub.StatusDb.Postgres.{PostgresApi}
use multicluster_global_hub.StatusDb.Batches.Policies.{Call}
use multicluster_global_hub.StatusDb.Handlers.Marks.{
  find_complete, IsCompleteBundle, complete_status_in,
}

-- The status of a row by a complete bundle; a policy that is left out is compliant.
abbrev complete_listed : List CompleteCompliance → String → String → ComplianceStatus
complete_listed objects p c = elim (find_complete p objects) [
  | none ↦ ComplianceStatus.compliant
  | some o ↦ complete_status_in o c
]

-- The rows stay; each has its status by the bundle.
abbrev pub restated : Option ComplianceStatus → ComplianceStatus → Option ComplianceStatus
restated none s = none
restated (some old) s = some s

module _ (sets : SetApi) (postgres : PostgresApi) where
  open postgres use {Db, Error, row, select_non_compliant}

  abbrev pub CompleteFits : String → List CompleteCompliance → Db → Type 0
  CompleteFits hub objects db =
      (rows : List Row)
      → select_non_compliant hub db ≡ ok rows
      → length (complete_compliance_calls sets objects (build_sets sets rows [])) < 13108

  module _ (hub : String) (objects : List CompleteCompliance) (db : Db) (rows : List Row)
      (wf : IsCompleteBundle objects) (e : select_non_compliant hub db ≡ ok rows)
      (p c : String) where
    abbrev calls : List Call
    calls = complete_compliance_calls sets objects (build_sets sets rows [])

    abbrev held : Option ComplianceStatus
    held = row db hub p c
