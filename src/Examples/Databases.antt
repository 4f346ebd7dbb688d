-- ===== src/Examples/Databases.antt =====
-- The compliance table in memory as an instance of `PostgresApi`.
use multicluster_global_hub.Base.{
  String, ◌≡◌, refl, sym, ap, ap₂, ◌∙◌, Bool, true, false, not, ◌&&◌, Option, none, some, List, map,
  arith, if◌then◌else◌, ◌==◌, string_key, nat_key, Result, ok, get_elem?, of_ok,
}
use multicluster_global_hub.StatusDb.Postgres.Sent.{Inserted, Updated, PolicyUpdated}
use multicluster_global_hub.StatusDb.{status_key, ComplianceStatus, Row, has_row}
use multicluster_global_hub.StatusDb.Batches.{
  text, single, insert_values, delete_keys, update_policies, update_clusters, delete_clusters,
  Table, Placeholder, Argument, Statement,
}
use multicluster_global_hub.Examples.Tables.{
  OneHub, exec_statement, held_at, put_rows, exec_guard, put_rows_has, pick-map-map, put_rows_other,
  row_of_insert, as_text, found_status, row_of_update, found_status-none, found_status-names,
  if_bound, drop_policies, drop_clusters, update_rows, rows_at, update_rows_of_policies,
  non_compliant_rows, policy_of_update, found_policy, found_policy-none, found_policy-names,
  has_row-rows_at, has_row-non_compliant_rows,
}
use multicluster_global_hub.StatusDb.Batches.Rows.{bind_rows, bind_row}
use multicluster_global_hub.StatusDb.Postgres.{bound, PostgresApi}
use multicluster_global_hub.StatusDb.Batches.Pending.{
  insert_row_values, update_row_values, policy_values,
}
use multicluster_global_hub.Compliance.{member}
use multicluster_global_hub.StatusDb.Postgres.Delta.{updated_by}
use multicluster_global_hub.StatusDb.Batches.Calls.{drops, pick}
use multicluster_global_hub.StatusDb.Batches.Statements.{HasAllArguments}
use multicluster_global_hub.StatusDb.Handlers.Specific.{is_status}

abbrev pub compliance_table : Table
compliance_table = record { schema = "status"; name = "compliance" }

-- A statement that succeeds has run with the arguments that its placeholders name.
ran {ℓ} :
    {A : Type ℓ} (o : Option (List A)) (f : List A → Result String OneHub) (bound_to : List A)
    (db' : OneHub)
    → if_bound o f ≡ ok db'
    → o ≡ some bound_to
    → f bound_to ≡ ok db'
ran o f bound_to db' h e = ap (λ x. if_bound x f) (sym e) ∙ h

put_all :
    (places : List (List Placeholder)) (args : List Argument) (hub : String) (rows : List Row)
    (db db' : OneHub)
    → exec_statement (record { query = insert_values compliance_table places; arguments = args }) db
      ≡ ok db'
    → bind_rows places args ≡ some (bound (insert_row_values hub) rows)
    → put_rows rows db ≡ ok db'
put_all places args hub rows db db' h e =
    let (n, run) =
      exec_guard (record { query = insert_values compliance_table places; arguments = args }) db db'
        h in
    ap (λ l. put_rows l db)
      (sym (pick-map-map row_of_insert (map single) (insert_row_values hub) (λ r. refl) rows))
    ∙ ran (bind_rows places args) (λ l. put_rows (pick row_of_insert l) db)
        (bound (insert_row_values hub) rows) db' run e

pub exec-insert_rows :
    (places : List (List Placeholder)) (args : List Argument) (hub : String) (rows : List Row)
    (db db' : OneHub)
    → exec_statement (record { query = insert_values compliance_table places; arguments = args }) db
      ≡ ok db'
    → bind_rows places args ≡ some (bound (insert_row_values hub) rows)
    → (p c : String) → Inserted rows p c (held_at db p c) (held_at db' p c)
exec-insert_rows places args hub rows db db' h e p c =
    let put = put_all places args hub rows db db' h e in
    (
      λ s has. put_rows_has rows db db' p c s put has,
      λ unnamed. put_rows_other rows db db' p c put (ground (arith, unnamed)),
    )

pub exec-drop_policies :
    (ids : List Placeholder) (args : List Argument) (hub : String) (policies : List String)
    (db db' : OneHub)
    → exec_statement (record { query = delete_keys compliance_table "id" ids; arguments = args }) db
      ≡ ok db'
    → get_elem? args 0 ≡ some (single (text hub))
    → bind_row ids args ≡ some (map single (map text policies))
    → (p c : String) → held_at db' p c ≡ (if member p policies then none else held_at db p c)
exec-drop_policies ids args hub policies db db' h first e p c =
    let (n, run) =
      exec_guard (record { query = delete_keys compliance_table "id" ids; arguments = args }) db db'
        h in
    let at = of_ok (
      sym (
        ran (bind_row ids args) (λ l. ok (drop_policies db (pick as_text l)))
          (map single (map text policies)) db' run e)) in
    ap (λ x. held_at x p c)
      (at ∙ ap (drop_policies db) (pick-map-map as_text single text (λ x. refl) policies))
    ∙ ground arith

pub exec-drop_clusters :
    (names : List Placeholder) (args : List Argument) (hub policy : String) (clusters : List String)
    (db db' : OneHub)
    → exec_statement
        (record { query = delete_clusters compliance_table names; arguments = args })
        db
      ≡ ok db'
    → get_elem? args 0 ≡ some (single (text policy))
    → get_elem? args 1 ≡ some (single (text hub))
    → bind_row names args ≡ some (map single (map text clusters))
    → (p c : String)
    → held_at db' p c ≡ (if policy == p && member c clusters then none else held_at db p c)
exec-drop_clusters names args hub policy clusters db db' h first second e p c =
    let (n, run) =
      exec_guard (record { query = delete_clusters compliance_table names; arguments = args }) db
        db' h in
    let at = of_ok (
      sym (
        ran (bind_row names args) (λ l. ok (drop_clusters (get_elem? args 0) db (pick as_text l)))
          (map single (map text clusters)) db' run e)) in
    ap (λ x. held_at x p c)
      (at
        ∙ ap₂ (λ o l. drop_clusters o db l) first
            (pick-map-map as_text single text (λ x. refl) clusters))
    ∙ ground arith

updated_none : (found : Option ComplianceStatus) → updated_by none found ≡ none
updated_none none = refl
updated_none (some s) = refl

-- A row that is updated to what was found for it.
found_Updated :
    (inside : Bool) (held found : Option ComplianceStatus)
    → (if inside then updated_by held found else none)
      ≡ updated_by (if inside then held else none) found
found_Updated true held found = refl
found_Updated false held none = refl
found_Updated false held (some s) = refl

pub exec-update_rows :
    (places : List (List Placeholder)) (args : List Argument) (hub : String) (rows : List Row)
    (db db' : OneHub)
    → exec_statement
        (record { query = update_clusters compliance_table places; arguments = args })
        db
      ≡ ok db'
    → bind_rows places args ≡ some (bound (update_row_values hub) rows)
    → (p c : String) → Updated rows p c (held_at db p c) (held_at db' p c)
exec-update_rows places args hub rows db db' h e p c =
    let (n, run) =
      exec_guard (record { query = update_clusters compliance_table places; arguments = args }) db
        db' h in
    let at = of_ok (
      sym (
        ran (bind_rows places args) (λ l. ok (update_rows db (pick row_of_update l)))
          (bound (update_row_values hub) rows) db' run e)) in
    let now : held_at db' p c ≡ updated_by (held_at db p c) (found_status p c rows) =
      ap (λ x. held_at x p c)
        (at
          ∙ ap (update_rows db)
              (pick-map-map row_of_update (map single) (update_row_values hub) (λ r. refl) rows))
      ∙ found_Updated (drops p c db.keys) (db.status_at p c) (found_status p c rows) in
    (
      λ gone.
          now
          ∙ ap (λ o. updated_by o (found_status p c rows)) gone
          ∙ updated_none (found_status p c rows),
      λ unnamed. now ∙ ap (updated_by (held_at db p c)) (found_status-none p c rows unnamed),
      λ old there named.
          let (s, has, found) = found_status-names p c rows named in
          (s, has, now ∙ ap₂ updated_by there found),
    )

pub exec-update_rows_of_policies :
    (places : List (List Placeholder)) (args : List Argument) (hub : String)
    (rows : List (String × ComplianceStatus)) (db db' : OneHub)
    → exec_statement
        (record { query = update_policies compliance_table places; arguments = args })
        db
      ≡ ok db'
    → bind_rows places args ≡ some (map (map single) (map (policy_values hub) rows))
    → (p c : String) → PolicyUpdated rows p (held_at db p c) (held_at db' p c)
exec-update_rows_of_policies places args hub rows db db' h e p c =
    let (n, run) =
      exec_guard (record { query = update_policies compliance_table places; arguments = args }) db
        db' h in
    let at = of_ok (
      sym (
        ran (bind_rows places args) (λ l. ok (update_rows_of_policies db (pick policy_of_update l)))
          (map (map single) (map (policy_values hub) rows)) db' run e)) in
    let now : held_at db' p c ≡ updated_by (held_at db p c) (found_policy p rows) =
      ap (λ x. held_at x p c)
        (at
          ∙ ap (update_rows_of_policies db)
              (pick-map-map policy_of_update (map single) (policy_values hub) (λ r. refl) rows))
      ∙ found_Updated (drops p c db.keys) (db.status_at p c) (found_policy p rows) in
    (
      λ gone.
          now
          ∙ ap (λ o. updated_by o (found_policy p rows)) gone
          ∙ updated_none (found_policy p rows),
      λ unnamed. now ∙ ap (updated_by (held_at db p c)) (found_policy-none p rows unnamed),
      λ old there named.
          let (s, has, found) = found_policy-names p rows named in
          (s, has, now ∙ ap₂ updated_by there found),
    )

is_status_if :
    (inside : Bool) (held : Option ComplianceStatus) (s : ComplianceStatus)
    → (inside && is_status held s) ≡ is_status (if inside then held else none) s
is_status_if true held s = refl
is_status_if false held s = refl

rows_at_lem :
    (db : OneHub) (p c : String) (s : ComplianceStatus)
    → has_row p c s (rows_at db.keys db) ≡ is_status (held_at db p c) s
rows_at_lem db p c s =
    has_row-rows_at p c s db.keys db ∙ is_status_if (drops p c db.keys) (db.status_at p c) s

pub select_rows-in_memory :
    (db : OneHub) (rows : List Row)
    → ◌≡◌ {A = Result String (List Row)} (ok (rows_at db.keys db)) (ok rows)
    → (p c : String) (s : ComplianceStatus) → has_row p c s rows ≡ is_status (held_at db p c) s
select_rows-in_memory db rows e p c s = ap (has_row p c s) (sym (of_ok e)) ∙ rows_at_lem db p c s

pub select_non_compliant-in_memory :
    (db : OneHub) (rows : List Row)
    → ◌≡◌ {A = Result String (List Row)} (ok (non_compliant_rows (rows_at db.keys db))) (ok rows)
    → (p c : String) (s : ComplianceStatus)
    → has_row p c s rows ≡ (is_status (held_at db p c) s && not (s == ComplianceStatus.compliant))
select_non_compliant-in_memory db rows e p c s =
    ap (has_row p c s) (sym (of_ok e))
    ∙ has_row-non_compliant_rows p c s (rows_at db.keys db)
    ∙ ap (λ b. b && not (s == ComplianceStatus.compliant)) (rows_at_lem db p c s)

pub exec_statement-arguments :
    (st : Statement) (db db' : OneHub) → exec_statement st db ≡ ok db' → HasAllArguments st
exec_statement-arguments st db db' h = (exec_guard st db db' h).0

abbrev pub in_memory : PostgresApi
in_memory = record {
  Db = OneHub;
  Error = String;
  table = compliance_table;
  row = λ db hub p c. held_at db p c;
  exec = exec_statement;
  select_rows = λ hub db. ok (rows_at db.keys db);
  select_non_compliant = λ hub db. ok (non_compliant_rows (rows_at db.keys db));
  select_rows_lem = λ hub db. select_rows-in_memory db;
  select_non_compliant_lem = λ hub db. select_non_compliant-in_memory db;
  exec-arguments = exec_statement-arguments;
  exec-insert_values = exec-insert_rows;
  exec-delete_keys = exec-drop_policies;
  exec-delete_clusters = exec-drop_clusters;
  exec-update_clusters = exec-update_rows;
  exec-update_policies = exec-update_rows_of_policies;
}
