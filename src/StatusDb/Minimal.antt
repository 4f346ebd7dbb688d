-- ===== src/StatusDb/Minimal.antt =====
-- policies_db_syncer.go and postgresql.go: the minimal compliance bundle, which is written by single
-- statements and not by a batch.
pub mod Refinement
use multicluster_global_hub.Base.{
  ℕ, String, ◌≡◌, refl, sym, ap, ◌∙◌, inl, inr, Bool, true, false, not, ◌&&◌, Option, none, some,
  List, [], ◌∷◌, arith, if◌then◌else◌, ◌==◌, ==_iff, string_key, nat_key, Bool-cases, Option-cases,
  Result, ok, err, Result-cases, is_some, of_ok,
}
use multicluster_global_hub.Compliance.{SetApi, member, create_set}
use multicluster_global_hub.Compliance.Laws.{contains-create_set}

-- `MinimalPolicyComplianceStatus`
pub record MinimalCompliance : Type 0 where
  pub policy_id : String
  pub remediation_action : String
  pub non_compliant_clusters : ℕ
  pub applied_clusters : ℕ

abbrev pub counts : MinimalCompliance → Option (ℕ × ℕ)
counts o = some (o.applied_clusters, o.non_compliant_clusters)

-- The table of aggregated compliance behind the connection, by the statements that are run on it: a
-- leaf hub and a policy have at most one row, with two numbers of clusters.
pub record AggregatedApi : Type 1 where
  pub Db : Type 0
  pub Error : Type 0
  pub aggregated : Db → String → String → Option (ℕ × ℕ)
  -- Whether `conn.Query` fails. The code drops that error, and the rows are then none.
  pub query_fails : String → Db → Bool
  -- The scan of the rows of `SELECT DISTINCT(id) … WHERE leaf_hub_name=$1`.
  pub select_ids : String → Db → Result Error (List String)
  -- `SELECT EXISTS(…)`
  pub exists : String → String → Db → Result Error Bool
  -- `UPDATE … WHERE leaf_hub_name=$3 AND id=$4`
  pub update_row : String → MinimalCompliance → Db → Result Error Db
  -- `INSERT INTO … values ($1, $2, $3, $4)`
  pub insert_row : String → MinimalCompliance → Db → Result Error Db
  -- `DELETE … WHERE leaf_hub_name=$1 AND id=$2`
  pub delete_rows : String → String → Db → Result Error Db
  pub select_ids_failed :
      (hub : String) (db : Db) → query_fails hub db ≡ true → select_ids hub db ≡ ok []
  pub select_ids_lem :
      (hub : String) (db : Db) (ids : List String)
      → query_fails hub db ≡ false
      → select_ids hub db ≡ ok ids
      → (p : String) → member p ids ≡ is_some (aggregated db hub p)
  pub exists_lem :
      (hub p : String) (db : Db) (found : Bool)
      → exists hub p db ≡ ok found
      → found ≡ is_some (aggregated db hub p)
  pub update_row_lem :
      (hub : String) (o : MinimalCompliance) (db db' : Db)
      → update_row hub o db ≡ ok db'
      → (p : String)
      → aggregated db' hub p ≡ (
          if o.policy_id == p && is_some (aggregated db hub p)
          then counts o
          else aggregated db hub p)
  pub insert_row_lem :
      (hub : String) (o : MinimalCompliance) (db db' : Db)
      → insert_row hub o db ≡ ok db'
      → (p : String)
      → aggregated db' hub p ≡ (if o.policy_id == p then counts o else aggregated db hub p)
  pub delete_rows_lem :
      (hub policy : String) (db db' : Db)
      → delete_rows hub policy db ≡ ok db'
      → (p : String) → aggregated db' hub p ≡ (if policy == p then none else aggregated db hub p)

module _ (sets : SetApi) (table : AggregatedApi) where
  open sets use {StringSet, contains, items, remove}
  open table use {
    Db, Error, aggregated, query_fails, select_ids, exists, update_row, insert_row, delete_rows,
  }

  -- `GetPolicyIDsByLeafHub`
  unfoldable pub get_policy_ids : String → Db → Result Error StringSet
  get_policy_ids hub db = elim (select_ids hub db) [
    | err e ↦ err e
    | ok ids ↦ ok (create_set sets ids)
  ]

  -- `InsertOrUpdateAggregatedPolicyCompliance`
  unfoldable pub insert_or_update : String → MinimalCompliance → Db → Result Error Db
  insert_or_update hub o db = elim (exists hub o.policy_id db) [
    | err e ↦ err e
    | ok found ↦ if found then update_row hub o db else insert_row hub o db
  ]

  -- The loop over the objects: the rows so far, and the policies that were not listed.
  unfoldable pub write_objects :
      String → List MinimalCompliance → StringSet → Db → Db × Result Error StringSet
  write_objects hub [] left db = (db, ok left)
  write_objects hub (o ∷ os) left db = elim (insert_or_update hub o db) [
    | err e ↦ (db, err e)
    | ok db' ↦ write_objects hub os (remove o.policy_id left) db'
  ]

  -- The loop over what is left.
  unfoldable pub delete_left : String → List String → Db → Db × Option Error
  delete_left hub [] db = (db, none)
  delete_left hub (p ∷ ps) db = elim (delete_rows hub p db) [
    | err e ↦ (db, some e)
    | ok db' ↦ delete_left hub ps db'
  ]

  -- `handleMinimalComplianceBundle`
  unfoldable pub handle_minimal_compliance_bundle :
      String → List MinimalCompliance → Db → Db × Option Error
  unfolding write_objects delete_left
  handle_minimal_compliance_bundle hub objects db = elim (get_policy_ids hub db) [
    | err e ↦ (db, some e)
    | ok ids ↦
        let (db', r) = write_objects hub objects ids db in
        elim r [ err e ↦ (db', some e) | ok left ↦ delete_left hub (items left) db' ]
  ]
