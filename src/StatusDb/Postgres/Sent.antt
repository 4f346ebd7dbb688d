-- ===== src/StatusDb/Postgres/Sent.antt =====
-- postgresql.go: what a sent sequence of calls does to one row of the table.
use multicluster_global_hub.Base.{
  ◌<◌, String, ◌≡◌, sym, ap, subst, inl, inr, true, false, ◌&&◌, Option, none, some, List, [], ◌∷◌,
  ◌++◌, map, arith, if◌then◌else◌, ◌==◌, string_key, nat_key, Option-cases, ok, Result-cases,
  length, any,
}
use multicluster_global_hub.StatusDb.{status_key, ComplianceStatus, Row, has_row, names_row}
use multicluster_global_hub.StatusDb.Batches.Policies.{
  Call, build_policies, update_policy_statement, delete_cluster_statement, update_cluster_statement,
}
use multicluster_global_hub.StatusDb.Postgres.{PostgresApi, send_batch, send_calls, exec_all}
use multicluster_global_hub.Compliance.{member}
use multicluster_global_hub.StatusDb.Batches.Calls.{
  pick, as_policy_drop, as_insert, as_policy_update, drops, as_drop, as_update,
}
use multicluster_global_hub.StatusDb.Batches.{
  Statement, build, queue_rest, generate_delete_statement, text, generate_insert_statement,
  queue_spread,
}
use multicluster_global_hub.StatusDb.Batches.Pending.{
  builder_of, ask_all, nothing_asked, apply_calls-new_policies_builder, insert_row_values,
  policy_values, group_values, update_row_values,
}
use multicluster_global_hub.StatusDb.Postgres.Effects.{
  exec_all-append, exec_none, delete_rest, insert_rest, policy_rest, drop_groups_rest, update_rest,
}
use multicluster_global_hub.StatusDb.Batches.Rows.{flat}
use multicluster_global_hub.StatusDb.Batches.Asked.{
  ask_all-policy_drops, ask_all-inserts, ask_all-policy_updates, ask_all-drop_groups,
  ask_all-updates,
}

-- A row before and after the statements of one kind.
abbrev pub Inserted : List Row → String → String → (before after : Option ComplianceStatus) → Type 0
Inserted rows p c before after =
    ((s : ComplianceStatus) → has_row p c s rows ≡ true → after ≡ some s)
    × (names_row p c rows ≡ false → after ≡ before)

abbrev pub Updated : List Row → String → String → (before after : Option ComplianceStatus) → Type 0
Updated rows p c before after =
    (before ≡ none → after ≡ none)
    × (names_row p c rows ≡ false → after ≡ before)
    × ((old : ComplianceStatus)
        → before ≡ some old
        → names_row p c rows ≡ true
        → (s : ComplianceStatus) × (has_row p c s rows ≡ true) × (after ≡ some s))

abbrev pub PolicyUpdated :
    List (String × ComplianceStatus) → String → (before after : Option ComplianceStatus) → Type 0
PolicyUpdated rows p before after =
    (before ≡ none → after ≡ none)
    × (any (λ e. e.0 == p) rows ≡ false → after ≡ before)
    × ((old : ComplianceStatus)
        → before ≡ some old
        → any (λ e. e.0 == p) rows ≡ true
        → (s : ComplianceStatus) × (any (λ e. e.0 == p && e.1 == s) rows ≡ true) × (after ≡ some s))

-- A row through the five kinds of statements, in their order.
pub record RowEffect (calls : List Call) (p c : String) (before after : Option ComplianceStatus)
    : Type 0 where
  pub kept : Option ComplianceStatus
  pub inserted : Option ComplianceStatus
  pub settled : Option ComplianceStatus
  pub left : Option ComplianceStatus
  pub kept_lem : kept ≡ (if member p (pick as_policy_drop calls) then none else before)
  pub inserted_lem : Inserted (pick as_insert calls) p c kept inserted
  pub settled_lem : PolicyUpdated (pick as_policy_update calls) p inserted settled
  pub left_lem : left ≡ (if drops p c (pick as_drop calls) then none else settled)
  pub after_lem : Updated (pick as_update calls) p c left after

module _ (postgres : PostgresApi) where
  open postgres use {Db, Error, table, row, exec}

  send_batch_ok :
      (sts : List Statement) (db db' : Db)
      → send_batch postgres sts db ≡ (db', none)
      → exec_all postgres sts db ≡ ok db'
  unfolding send_batch
  send_batch_ok sts db db' h = elim (Result-cases (exec_all postgres sts db)) [
    | inl (mid, e) ↦ ground (arith, e, h)
    | inr (e, f) ↦ ground (arith, f, h)
  ]

  send_calls_effect :
      (hub : String) (calls : List Call) (db db' : Db)
      → length calls < 13108
      → send_calls postgres hub calls db ≡ (db', none)
      → (p c : String) → RowEffect calls p c (row db hub p c) (row db' hub p c)
  unfolding send_calls build_policies build builder_of
  send_calls_effect hub calls db db' few h p c =
      let a = ask_all calls nothing_asked in
      let sent : exec_all postgres (build_policies (builder_of table hub a)) db ≡ ok db' =
        send_batch_ok (build_policies (builder_of table hub a)) db db' (
          subst (λ b. send_batch postgres (build_policies b) db ≡ (db', none))
            (apply_calls-new_policies_builder table hub calls few) h) in
      let b = builder_of table hub a in
      let deletes =
        queue_rest (length a.policy_drops) (generate_delete_statement b.base)
          (text hub ∷ map text a.policy_drops) in
      let inserts =
        queue_rest (length a.inserts) (generate_insert_statement b.base)
          (flat (map (insert_row_values hub) a.inserts)) in
      let policies =
        queue_rest (length a.policy_updates)
          (update_policy_statement table (flat (map (policy_values hub) a.policy_updates))
            (length a.policy_updates))
          (flat (map (policy_values hub) a.policy_updates)) in
      let groups =
        map (λ e. queue_spread (delete_cluster_statement table e.1) e.1)
          (group_values hub a.drop_groups) in
      let updates =
        queue_rest (length a.updates) (update_cluster_statement b)
          (flat (map (update_row_values hub) a.updates)) in
      let to₂ = deletes ++ [] ++ inserts in
      let to₃ = to₂ ++ [] ++ policies in
      let (m₄, up₄, e₅) = exec_all-append postgres (to₃ ++ groups) updates db db' sent in
      let (m₃, up₃, e₄) = exec_all-append postgres to₃ groups db m₄ up₄ in
      let (n₂, on₂, e₃) = exec_all-append postgres (to₂ ++ []) policies db m₃ up₃ in
      let (m₂, up₂, stay₂) = exec_all-append postgres to₂ [] db n₂ on₂ in
      let (n₁, on₁, e₂) = exec_all-append postgres (deletes ++ []) inserts db m₂ up₂ in
      let (m₁, e₁, stay₁) = exec_all-append postgres deletes [] db n₁ on₁ in
      let ins =
        subst (λ m. exec_all postgres inserts m ≡ ok m₂) (sym (exec_none postgres m₁ n₁ stay₁))
          e₂ in
      let pol =
        subst (λ m. exec_all postgres policies m ≡ ok m₃) (sym (exec_none postgres m₂ n₂ stay₂))
          e₃ in
      record {
        kept = row m₁ hub p c;
        inserted = row m₂ hub p c;
        settled = row m₃ hub p c;
        left = row m₄ hub p c;
        kept_lem =
            subst (λ l. row m₁ hub p c ≡ (if member p l then none else row db hub p c))
              (ask_all-policy_drops calls) (delete_rest postgres hub a.policy_drops db m₁ e₁ p c);
        inserted_lem =
            subst (λ l. Inserted l p c (row m₁ hub p c) (row m₂ hub p c)) (ask_all-inserts calls)
              (insert_rest postgres hub a.inserts m₁ m₂ ins p c);
        settled_lem =
            subst (λ l. PolicyUpdated l p (row m₂ hub p c) (row m₃ hub p c))
              (ask_all-policy_updates calls)
              (policy_rest postgres hub a.policy_updates m₂ m₃ pol p c);
        left_lem =
            subst (λ t. row m₄ hub p c ≡ (if t then none else row m₃ hub p c))
              (ask_all-drop_groups p c calls)
              (drop_groups_rest postgres hub a.drop_groups m₃ m₄ e₄ p c);
        after_lem =
            subst (λ l. Updated l p c (row m₄ hub p c) (row db' hub p c)) (ask_all-updates calls)
              (update_rest postgres hub a.updates m₄ db' e₅ p c);
      }

  send_batch_rolls_back :
      (sts : List Statement) (db : Db) (e : Error)
      → (send_batch postgres sts db).1 ≡ some e
      → (send_batch postgres sts db).0 ≡ db
  unfolding send_batch
  send_batch_rolls_back sts db e h = elim (Result-cases (exec_all postgres sts db)) [
    | inl (mid, f) ↦ ground (arith, f, h)
    | inr (e', f) ↦ ground (arith, f)
  ]

  -- An error of the batch leaves the table as it was.
  send_calls_rolls_back :
      (hub : String) (calls : List Call) (db : Db) (e : Error)
      → (send_calls postgres hub calls db).1 ≡ some e
      → (send_calls postgres hub calls db).0 ≡ db
  unfolding send_calls
  send_calls_rolls_back hub calls db e h = send_batch_rolls_back _ db e h

  -- A handler's call returns no error and the row is `want`, or it returns an error and the table is
  -- as it was.
  abbrev pub RowEnds :
      String → (p c : String) → Db → Option ComplianceStatus → Db × Option Error → Type 0
  RowEnds hub p c db want (db', none) = row db' hub p c ≡ want
  RowEnds hub p c db want (db', some e) = db' ≡ db

  pub send_calls-RowEnds :
      (hub : String) (calls : List Call) (db : Db) (p c : String) (want : Option ComplianceStatus)
      → length calls < 13108
      → ((after : Option ComplianceStatus)
          → RowEffect calls p c (row db hub p c) after
          → after ≡ want)
      → RowEnds hub p c db want (send_calls postgres hub calls db)
  send_calls-RowEnds hub calls db p c want few settles =
      let r = send_calls postgres hub calls db in
      elim (Option-cases r.1) [
        | inl done ↦
            let at : r ≡ (r.0, none) = ap (λ e. (r.0, e)) done in
            subst (RowEnds hub p c db want) (sym at)
              (settles _ (send_calls_effect hub calls db r.0 few at p c))
        | inr (e, failed) ↦
            let at : r ≡ (r.0, some e) = ap (λ f. (r.0, f)) failed in
            subst (RowEnds hub p c db want) (sym at) (send_calls_rolls_back hub calls db e failed)
      ]
