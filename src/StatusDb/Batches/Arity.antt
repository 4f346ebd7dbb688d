-- ===== src/StatusDb/Batches/Arity.antt =====
-- base_batch_builder.go and policies_batch_builder.go: the parameters and the arguments of the
-- statements in a batch.
use multicluster_global_hub.Base.{
  ℕ, ◌+◌, ◌≤◌, String, ◌≡◌, refl, sym, subst, true, List, [], ◌∷◌, ◌++◌, map, arith, leb,
  string_key, nat_key, length, All,
}
use multicluster_global_hub.StatusDb.{Row}
use multicluster_global_hub.StatusDb.Batches.{
  Value, single, Table, generate_delete_statement, build, queue_rest, queue_spread,
  generate_insert_statement, max_columns, insert_args_of, BaseBuilder, queue_items, Statement,
}
use multicluster_global_hub.StatusDb.Batches.Pending.{builder_of, Asked, insert_row_values}
use multicluster_global_hub.StatusDb.Batches.Policies.{
  delete_cluster_statement, build_policies, apply_call, update_cluster_statement, insert_row,
  PoliciesBuilder,
}
use multicluster_global_hub.StatusDb.Batches.Statements.{HasAllArguments, row_places-generate_rows}
use multicluster_global_hub.StatusDb.Batches.Rows.{flat, length-map, length-flat-map}

All-appended {ℓ κ} :
    {A : Type ℓ} (P : A → Type κ) (xs ys : List A) → All P (xs ++ ys) → All P xs × All P ys
All-appended P [] ys h = (tt, h)
All-appended P (x ∷ xs) ys (p, h) = let (a, b) = All-appended P xs ys h in ((p, a), b)

module _ (table : Table) (hub : String) where
  leb_of_le : {n : ℕ} → 65536 ≤ n → leb max_columns n ≡ true
  leb_of_le h = ground arith

  insert_cut :
      (args : List Value) (b : BaseBuilder)
      → 65536 ≤ length b.insert_args + length args
      → (insert_args_of args b).insert_items
        ≡ b.insert_items
          ++ record { query = generate_insert_statement b; arguments = b.insert_args } ∷ []
  unfolding insert_args_of
  insert_cut args b h = rw (leb_of_le h)

  inserts_of_eight :
      (d₁ d₂ i₁ i₂ u₁ u₂ g c : List Statement)
      → All HasAllArguments (d₁ ++ d₂ ++ i₁ ++ i₂ ++ u₁ ++ u₂ ++ g ++ c)
      → All HasAllArguments i₁
  inserts_of_eight d₁ d₂ i₁ i₂ u₁ u₂ g c all =
      let P = HasAllArguments in
      let to_i = d₁ ++ d₂ ++ i₁ in
      let to_u = to_i ++ i₂ ++ u₁ ++ u₂ in
      let first = (All-appended P to_u g (All-appended P (to_u ++ g) c all).0).0 in
      let second =
        (All-appended P (to_i ++ i₂) u₁ (All-appended P (to_i ++ i₂ ++ u₁) u₂ first).0).0 in
      (All-appended P (d₁ ++ d₂) i₁ (All-appended P to_i i₂ second).0).1

  inserts_part :
      (b : PoliciesBuilder)
      → All HasAllArguments (build_policies b)
      → All HasAllArguments (queue_items b.base.insert_items)
  unfolding build_policies build
  inserts_part b all =
      let base = b.base in
      inserts_of_eight (queue_items base.delete_items)
        (queue_rest base.delete_rows_count (generate_delete_statement base) base.delete_args)
        (queue_items base.insert_items)
        (queue_rest base.insert_rows_count (generate_insert_statement base) base.insert_args)
        (queue_items base.update_items)
        (queue_rest base.update_rows_count
          (base.generate_update_statement base.update_args base.update_rows_count) base.update_args)
        (map (λ e. queue_spread (delete_cluster_statement base.table e.1) e.1)
          b.delete_cluster_args)
        (queue_rest b.update_cluster_rows_count (update_cluster_statement b) b.update_cluster_args)
        all

  -- A builder with 13107 rows to insert makes of the next row a statement that has one argument for
  -- its 65535 parameters.
  pub insert_overflow-HasAllArguments :
      (a : Asked) (r : Row)
      → length a.inserts ≡ 13107
      → ¬ All HasAllArguments (build_policies (apply_call (insert_row r) (builder_of table hub a)))
  unfolding apply_call builder_of generate_insert_statement
  insert_overflow-HasAllArguments a r full = λ all.
      let b = builder_of table hub a in
      let cut = insert_cut (insert_row_values hub r) b.base (
        subst (λ n. 65536 ≤ n + 5)
          (sym (length-flat-map (insert_row_values hub) 5 a.inserts (λ x. refl)))
          (omega (arith, full))) in
      let one =
        subst (λ l. All HasAllArguments (queue_items l)) cut
          (inserts_part (apply_call (insert_row r) b) all) in
      let places =
        row_places-generate_rows (insert_row_values hub) 5 (λ x. refl) a.inserts ((1, "uuid") ∷ [])
          (omega (arith, full)) in
      omega (
        arith,
        one.0,
        places,
        length-map single (flat (map (insert_row_values hub) a.inserts)),
        length-flat-map (insert_row_values hub) 5 a.inserts (λ x. refl),
        full,
      )
