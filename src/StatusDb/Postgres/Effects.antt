-- ===== src/StatusDb/Postgres/Effects.antt =====
-- postgresql.go and policies_batch_builder.go: what a sent batch does to one row of the table.
use multicluster_global_hub.Base.{
  ◌-◌, String, ◌≡◌, refl, sym, ap, subst, ◌∙◌, inl, inr, true, false, ◌&&◌, none, some, List, [],
  ◌∷◌, ◌++◌, map, arith, if◌then◌else◌, ◌==◌, string_key, nat_key, ok, Result-cases, length, any,
  of_ok,
}
use multicluster_global_hub.StatusDb.{status_key, ComplianceStatus, Row, has_row, names_row}
use multicluster_global_hub.StatusDb.Batches.{
  text, single, Statement, generate_delete_statement, queue_rest, generate_args_list,
  generate_insert_statement, queue_spread,
}
use multicluster_global_hub.StatusDb.Postgres.{PostgresApi, exec_all}
use multicluster_global_hub.StatusDb.Batches.Pending.{
  builder_of, nothing_asked, insert_row_values, policy_values, update_row_values, group_values,
  drop_values,
}
use multicluster_global_hub.Compliance.{member}
use multicluster_global_hub.StatusDb.Batches.Rows.{length-map, bind_row, flat}
use multicluster_global_hub.StatusDb.Batches.Statements.{
  bind_row-generate_args_list, bind_rows-generate_rows,
}
use multicluster_global_hub.StatusDb.Batches.Policies.{
  update_policy_statement, update_cluster_statement, delete_cluster_statement,
}
use multicluster_global_hub.StatusDb.Batches.Asked.{in_groups}

module _ (postgres : PostgresApi) where
  open postgres use {Db, Error, table, row, exec}

  pub exec_all-append :
      (xs ys : List Statement) (db db' : Db)
      → exec_all postgres (xs ++ ys) db ≡ ok db'
      → (mid : Db) × (exec_all postgres xs db ≡ ok mid) × (exec_all postgres ys mid ≡ ok db')
  unfolding exec_all
  exec_all-append [] ys db db' h = (db, refl, h)
  exec_all-append (x ∷ xs) ys db db' h = elim (Result-cases (exec x db)) [
    | inl (mid, e) ↦
        let (last, a, b) = exec_all-append xs ys mid db' (ground (arith, e, h)) in
        (last, ground (arith, e, a), b)
    | inr (e, f) ↦ ground (arith, f, h)
  ]

  exec_one :
      (st : Statement) (db db' : Db) → exec_all postgres (st ∷ []) db ≡ ok db' → exec st db ≡ ok db'
  unfolding exec_all
  exec_one st db db' h = elim (Result-cases (exec st db)) [
    | inl (mid, e) ↦ ground (arith, e, h)
    | inr (e, f) ↦ ground (arith, f, h)
  ]

  pub exec_none : (db db' : Db) → exec_all postgres [] db ≡ ok db' → db ≡ db'
  unfolding exec_all
  exec_none db db' h = of_ok h

  -- `mid` holds, for the leaf hub, what `db` does after the deletion of the policies.
  module _ (hub : String) where
    pub delete_rest :
        (ps : List String) (db db' : Db)
        → let b = (builder_of table hub (record nothing_asked { policy_drops = ps })).base in
          exec_all postgres
              (queue_rest (length ps) (generate_delete_statement b) (text hub ∷ map text ps))
              db
            ≡ ok db'
          → (p c : String) → row db' hub p c ≡ (if member p ps then none else row db hub p c)
    unfolding builder_of generate_delete_statement
    delete_rest [] db db' h p c = ap (λ x. row x hub p c) (sym (exec_none db db' h))
    delete_rest (x ∷ ps) db db' h p c =
        let ids = map single (map text (x ∷ ps)) in
        let count : length ids ≡ length (x ∷ ps) =
          length-map single (map text (x ∷ ps)) ∙ length-map text (x ∷ ps) in
        let bind =
          subst (λ n. bind_row (generate_args_list n 2 []) (single (text hub) ∷ ids) ≡ some ids)
            count (bind_row-generate_args_list (single (text hub) ∷ []) ids 2 refl) in
        postgres.exec-delete_keys (generate_args_list (length (x ∷ ps)) 2 [])
          (single (text hub) ∷ ids) hub (x ∷ ps) db db' (exec_one _ db db' h) refl bind p c

    pub insert_rest :
        (rows : List Row) (db db' : Db)
        → let b = (builder_of table hub (record nothing_asked { inserts = rows })).base in
          exec_all postgres
              (queue_rest
                (length rows)
                (generate_insert_statement b)
                (flat (map (insert_row_values hub) rows)))
              db
            ≡ ok db'
          → (p c : String)
          → ((s : ComplianceStatus) → has_row p c s rows ≡ true → row db' hub p c ≡ some s)
            × (names_row p c rows ≡ false → row db' hub p c ≡ row db hub p c)
    unfolding builder_of generate_insert_statement
    insert_rest [] db db' h p c =
        (λ s e. ground arith, λ e. ap (λ x. row x hub p c) (sym (exec_none db db' h)))
    insert_rest (r ∷ rows) db db' h p c =
        postgres.exec-insert_values _ _ hub (r ∷ rows) db db' (exec_one _ db db' h)
          (bind_rows-generate_rows (insert_row_values hub) 5 (λ x. refl) (r ∷ rows)
            ((1, "uuid") ∷ []) (omega arith))
          p c

    pub policy_rest :
        (rows : List (String × ComplianceStatus)) (db db' : Db)
        → exec_all postgres
            (queue_rest
              (length rows)
              (update_policy_statement table (flat (map (policy_values hub) rows)) (length rows))
              (flat (map (policy_values hub) rows)))
            db
          ≡ ok db'
        → (p c : String)
        → (row db hub p c ≡ none → row db' hub p c ≡ none)
          × (any (λ e. e.0 == p) rows ≡ false → row db' hub p c ≡ row db hub p c)
          × ((old : ComplianceStatus)
              → row db hub p c ≡ some old
              → any (λ e. e.0 == p) rows ≡ true
              → (s : ComplianceStatus) × (any (λ e. e.0 == p && e.1 == s) rows ≡ true)
                × (row db' hub p c ≡ some s))
    unfolding update_policy_statement
    policy_rest [] db db' h p c =
        let same = ap (λ x. row x hub p c) (sym (exec_none db db' h)) in
        (λ e. same ∙ e, λ e. same, λ old e f. ground (arith, f))
    policy_rest (r ∷ rows) db db' h p c =
        postgres.exec-update_policies _ _ hub (r ∷ rows) db db' (exec_one _ db db' h)
          (bind_rows-generate_rows (policy_values hub) 3 (λ x. refl) (r ∷ rows) _ (omega arith)) p c

    pub update_rest :
        (rows : List Row) (db db' : Db)
        → let b = builder_of table hub (record nothing_asked { updates = rows }) in
          exec_all postgres
              (queue_rest
                (length rows)
                (update_cluster_statement b)
                (flat (map (update_row_values hub) rows)))
              db
            ≡ ok db'
          → (p c : String)
          → (row db hub p c ≡ none → row db' hub p c ≡ none)
            × (names_row p c rows ≡ false → row db' hub p c ≡ row db hub p c)
            × ((old : ComplianceStatus)
                → row db hub p c ≡ some old
                → names_row p c rows ≡ true
                → (s : ComplianceStatus) × (has_row p c s rows ≡ true) × (row db' hub p c ≡ some s))
    unfolding builder_of update_cluster_statement
    update_rest [] db db' h p c =
        let same = ap (λ x. row x hub p c) (sym (exec_none db db' h)) in
        (λ e. same ∙ e, λ e. same, λ old e f. ground (arith, f))
    update_rest (r ∷ rows) db db' h p c =
        postgres.exec-update_clusters _ _ hub (r ∷ rows) db db' (exec_one _ db db' h)
          (bind_rows-generate_rows (update_row_values hub) 4 (λ x. refl) (r ∷ rows) _ (omega arith))
          p c

    pub drop_groups_rest :
        (groups : List (String × List String)) (db db' : Db)
        → exec_all postgres
            (map
              (λ e. queue_spread (delete_cluster_statement table e.1) e.1)
              (group_values hub groups))
            db
          ≡ ok db'
        → (p c : String) → row db' hub p c ≡ (if in_groups p c groups then none else row db hub p c)
    unfolding delete_cluster_statement
    drop_groups_rest [] db db' h p c = ap (λ x. row x hub p c) (sym (exec_none db db' h))
    drop_groups_rest ((q, cs) ∷ groups) db db' h p c =
        let ids = map single (map text cs) in
        let (mid, a, b) =
          exec_all-append
            (queue_spread (delete_cluster_statement table (drop_values hub q cs))
                (drop_values hub q cs)
              ∷ [])
            (map (λ e. queue_spread (delete_cluster_statement table e.1) e.1)
              (group_values hub groups))
            db db' h in
        let count : length ids ≡ length (drop_values hub q cs) - 2 =
          length-map single (map text cs) ∙ omega arith in
        let bind =
          subst
            (λ n.
              bind_row (generate_args_list n 3 []) (single (text q) ∷ single (text hub) ∷ ids)
              ≡ some ids)
            count
            (bind_row-generate_args_list (single (text q) ∷ single (text hub) ∷ []) ids 3 refl) in
        let here =
          postgres.exec-delete_clusters
            (generate_args_list (length (drop_values hub q cs) - 2) 3 [])
            (single (text q) ∷ single (text hub) ∷ ids) hub q cs db mid (exec_one _ db mid a) refl
            refl bind p c in
        ground (arith, here, drop_groups_rest groups mid db' b p c)
