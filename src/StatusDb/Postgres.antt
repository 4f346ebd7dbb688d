-- ===== src/StatusDb/Postgres.antt =====
-- manager/pkg/statussyncer/transport2db/db/postgresql/postgresql.go: the compliance table behind the
-- connection, whose documented behaviour is a parameter, and the handlers of
-- policies_db_syncer.go on it.
pub mod Effects
pub mod Settled
pub mod Refinement
pub mod Delta
pub mod Overflow
pub mod Complete
pub mod Sent
use multicluster_global_hub.Base.{
  ℕ, zero, suc, ◌+◌, ◌-◌, ◌*◌, ◌/◌, ◌%◌, ◌≤◌, ◌<◌, String, ◌≡◌, refl, sym, ap, subst, ap₂, ◌∙◌, ◌≢◌,
  ◌↔◌, ◌⊎◌, inl, inr, Bool, true, false, not, ◌&&◌, ◌||◌, Option, none, some, List, [], ◌∷◌, ◌++◌,
  map, arith, ltb, leb, eqb, if◌then◌else◌, ◌==◌, Key, ==_iff, string_key, nat_key, Bool-cases,
  Option-cases, Result, ok, err, Result-cases, ◌>>=◌, is_some, length, get_elem?, any, All,
  length-append, of_some, of_is_some, eqb_iff,
}
use multicluster_global_hub.Base.Maps.{lookup, insert, erase, lookup-insert, lookup-erase}
use multicluster_global_hub.StatusDb.{
  status_key, ComplianceStatus, Row, has_row, names_row, build_sets,
}
use multicluster_global_hub.StatusDb.Batches.{
  Value, text, status, single, several, insert_values, delete_keys, update_policies,
  update_clusters, delete_clusters, Argument, Table, Statement, Placeholder,
}
use multicluster_global_hub.Compliance.{SetApi, PolicyCompliance, member}
use multicluster_global_hub.StatusDb.Batches.Policies.{
  Call, build_policies, apply_calls, new_policies_builder,
}
use multicluster_global_hub.StatusDb.Handlers.{
  CompleteCompliance, clusters_per_policy_calls, complete_compliance_calls, delta_compliance_calls,
}
use multicluster_global_hub.StatusDb.Batches.Statements.{HasAllArguments}
use multicluster_global_hub.StatusDb.Batches.Rows.{bind_rows, bind_row}
use multicluster_global_hub.StatusDb.Batches.Pending.{
  insert_row_values, update_row_values, policy_values,
}
use multicluster_global_hub.StatusDb.Handlers.Specific.{is_status}

abbrev pub bound : (Row → List Value) → List Row → List (List Argument)
bound f rows = map (map single) (map f rows)

-- One statement, or one query, of PostgreSQL on the compliance table. `row` is the table: a leaf
-- hub, a policy and a cluster have at most one row. A statement that is refused changes nothing. A
-- query is taken to run, since the code drops the error of `conn.Query`: the errors of the two
-- selections are those of a row that does not scan.
pub record PostgresApi : Type 1 where
  pub Db : Type 0
  pub Error : Type 0
  pub table : Table
  pub row : Db → String → String → String → Option ComplianceStatus
  pub exec : Statement → Db → Result Error Db
  pub select_rows : String → Db → Result Error (List Row)
  pub select_non_compliant : String → Db → Result Error (List Row)
  pub select_rows_lem :
      (hub : String) (db : Db) (rows : List Row)
      → select_rows hub db ≡ ok rows
      → (p c : String) (s : ComplianceStatus) → has_row p c s rows ≡ is_status (row db hub p c) s
  pub select_non_compliant_lem :
      (hub : String) (db : Db) (rows : List Row)
      → select_non_compliant hub db ≡ ok rows
      → (p c : String) (s : ComplianceStatus)
      → has_row p c s rows ≡ (is_status (row db hub p c) s && not (s == ComplianceStatus.compliant))
  -- A statement with too few or too many arguments is an error.
  pub exec-arguments : (st : Statement) (db db' : Db) → exec st db ≡ ok db' → HasAllArguments st
  -- `INSERT into t values (…), (…)`
  pub exec-insert_values :
      (places : List (List Placeholder)) (args : List Argument) (hub : String) (rows : List Row)
      (db db' : Db)
      → exec (record { query = insert_values table places; arguments = args }) db ≡ ok db'
      → bind_rows places args ≡ some (bound (insert_row_values hub) rows)
      → (p c : String)
      → ((s : ComplianceStatus) → has_row p c s rows ≡ true → row db' hub p c ≡ some s)
        × (names_row p c rows ≡ false → row db' hub p c ≡ row db hub p c)
  -- `DELETE from t WHERE leaf_hub_name=$1 AND id IN (…)`
  pub exec-delete_keys :
      (ids : List Placeholder) (args : List Argument) (hub : String) (policies : List String)
      (db db' : Db)
      → exec (record { query = delete_keys table "id" ids; arguments = args }) db ≡ ok db'
      → get_elem? args 0 ≡ some (single (text hub))
      → bind_row ids args ≡ some (map single (map text policies))
      → (p c : String) → row db' hub p c ≡ (if member p policies then none else row db hub p c)
  -- `DELETE from t WHERE id=$1 AND leaf_hub_name=$2 AND cluster_name IN (…)`
  pub exec-delete_clusters :
      (names : List Placeholder) (args : List Argument) (hub policy : String)
      (clusters : List String) (db db' : Db)
      → exec (record { query = delete_clusters table names; arguments = args }) db ≡ ok db'
      → get_elem? args 0 ≡ some (single (text policy))
      → get_elem? args 1 ≡ some (single (text hub))
      → bind_row names args ≡ some (map single (map text clusters))
      → (p c : String)
      → row db' hub p c ≡ (if policy == p && member c clusters then none else row db hub p c)
  -- `UPDATE t AS old SET compliance=new.compliance FROM (values (…), (…)) AS new …`: a row that
  -- several new rows match takes the status of one of them.
  pub exec-update_clusters :
      (places : List (List Placeholder)) (args : List Argument) (hub : String) (rows : List Row)
      (db db' : Db)
      → exec (record { query = update_clusters table places; arguments = args }) db ≡ ok db'
      → bind_rows places args ≡ some (bound (update_row_values hub) rows)
      → (p c : String)
      → (row db hub p c ≡ none → row db' hub p c ≡ none)
        × (names_row p c rows ≡ false → row db' hub p c ≡ row db hub p c)
        × ((old : ComplianceStatus)
            → row db hub p c ≡ some old
            → names_row p c rows ≡ true
            → (s : ComplianceStatus) × (has_row p c s rows ≡ true) × (row db' hub p c ≡ some s))
  pub exec-update_policies :
      (places : List (List Placeholder)) (args : List Argument) (hub : String)
      (rows : List (String × ComplianceStatus)) (db db' : Db)
      → exec (record { query = update_policies table places; arguments = args }) db ≡ ok db'
      → bind_rows places args ≡ some (map (map single) (map (policy_values hub) rows))
      → (p c : String)
      → (row db hub p c ≡ none → row db' hub p c ≡ none)
        × (any (λ e. e.0 == p) rows ≡ false → row db' hub p c ≡ row db hub p c)
        × ((old : ComplianceStatus)
            → row db hub p c ≡ some old
            → any (λ e. e.0 == p) rows ≡ true
            → (s : ComplianceStatus) × (any (λ e. e.0 == p && e.1 == s) rows ≡ true)
              × (row db' hub p c ≡ some s))

module _ (postgres : PostgresApi) where
  open postgres use {Db, Error, table, exec}

  -- The statements of a batch are one transaction, which an error rolls back.
  unfoldable pub exec_all : List Statement → Db → Result Error Db
  exec_all [] db = ok db
  exec_all (st ∷ sts) db = elim (exec st db) [ err e ↦ err e | ok db' ↦ exec_all sts db' ]

  -- `SendBatch`, and the error of a handler.
  unfoldable pub send_batch : List Statement → Db → Db × Option Error
  unfolding exec_all
  send_batch batch db = elim (exec_all batch db) [ err e ↦ (db, some e) | ok db' ↦ (db', none) ]

  -- `SendBatch(ctx, batchBuilder.Build())` of the builder that the calls were made on.
  unfoldable pub send_calls : String → List Call → Db → Db × Option Error
  unfolding send_batch
  send_calls hub calls db =
      send_batch (build_policies (apply_calls calls (new_policies_builder table hub))) db

  -- `handleDeltaComplianceBundle`
  unfoldable pub handle_delta_compliance_bundle :
      String → List PolicyCompliance → Db → Db × Option Error
  unfolding send_calls
  handle_delta_compliance_bundle hub objects db = send_calls hub (delta_compliance_calls objects) db

module _ (sets : SetApi) (postgres : PostgresApi) where
  open postgres use {Db, Error, select_rows, select_non_compliant}

  -- `GetComplianceStatusByLeafHub` and `handleClustersPerPolicyBundle`
  unfoldable pub handle_clusters_per_policy_bundle :
      String → List PolicyCompliance → Db → Db × Option Error
  unfolding send_calls
  handle_clusters_per_policy_bundle hub objects db = elim (select_rows hub db) [
    | err e ↦ (db, some e)
    | ok rows ↦
        send_calls postgres hub (clusters_per_policy_calls sets objects (build_sets sets rows []))
          db
  ]

  -- `GetNonCompliantClustersByLeafHub` and `handleCompleteComplianceBundle`
  unfoldable pub handle_complete_compliance_bundle :
      String → List CompleteCompliance → Db → Db × Option Error
  unfolding send_calls
  handle_complete_compliance_bundle hub objects db = elim (select_non_compliant hub db) [
    | err e ↦ (db, some e)
    | ok rows ↦
        send_calls postgres hub (complete_compliance_calls sets objects (build_sets sets rows []))
          db
  ]
