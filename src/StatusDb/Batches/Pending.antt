-- ===== src/StatusDb/Batches/Pending.antt =====
-- policies_batch_builder.go: what a builder holds after a sequence of calls that fits in one
-- statement of each kind.
use multicluster_global_hub.Base.{
  ℕ, suc, ◌+◌, ◌<◌, String, ◌≡◌, refl, sym, ap, ◌∙◌, inl, inr, false, none, some, List, [], ◌∷◌,
  ◌++◌, map, arith, leb, ◌==◌, ==_iff, string_key, nat_key, Bool-cases, Option-cases, length,
  length-append,
}
use multicluster_global_hub.Base.Maps.{lookup, insert}
use mathlib.Core.List.{append-nil, append_assoc}
use multicluster_global_hub.StatusDb.{ComplianceStatus, Row}
use multicluster_global_hub.StatusDb.Batches.{
  Value, text, status, Table, insert_args_of, update_args_of, delete_args_of, max_columns,
  BaseBuilder, new_base_builder,
}
use multicluster_global_hub.StatusDb.Batches.Policies.{
  Call, update_policy_statement, apply_call, PoliciesBuilder, update_cluster_compliance,
  delete_cluster_status, insert_row, update_policy, update_cluster, delete_policy, delete_cluster,
  apply_calls, new_policies_builder,
}
use multicluster_global_hub.StatusDb.Batches.Rows.{flat, length-flat-map, length-map}

-- The rows asked for; the clusters to delete are grouped by policy.
pub record Asked : Type 0 where
  pub inserts : List Row
  pub updates : List Row
  pub policy_updates : List (String × ComplianceStatus)
  pub policy_drops : List String
  pub drop_groups : List (String × List String)

abbrev pub group_drop : String → String → List (String × List String) → List (String × List String)
group_drop p c groups =
    insert p (elim (lookup p groups) [ none ↦ c ∷ [] | some cs ↦ cs ++ c ∷ [] ]) groups

abbrev pub ask : Call → Asked → Asked
ask (insert_row r) a = record a { inserts = a.inserts ++ r ∷ [] }
ask (update_policy p s) a = record a { policy_updates = a.policy_updates ++ (p, s) ∷ [] }
ask (update_cluster r) a = record a { updates = a.updates ++ r ∷ [] }
ask (delete_policy p) a = record a { policy_drops = a.policy_drops ++ p ∷ [] }
ask (delete_cluster p c) a = record a { drop_groups = group_drop p c a.drop_groups }

abbrev pub ask_all : List Call → Asked → Asked
ask_all [] a = a
ask_all (c ∷ cs) a = ask_all cs (ask c a)

abbrev pub nothing_asked : Asked
nothing_asked = record {
  inserts = [];
  updates = [];
  policy_updates = [];
  policy_drops = [];
  drop_groups = [];
}

-- The arguments of one row.
module _ (hub : String) where
  abbrev pub insert_row_values : Row → List Value
  insert_row_values r =
      text r.policy ∷ text r.cluster ∷ text hub ∷ text "none" ∷ status r.status ∷ []

  abbrev pub update_row_values : Row → List Value
  update_row_values r = text r.policy ∷ text r.cluster ∷ text hub ∷ status r.status ∷ []

  abbrev pub policy_values : String × ComplianceStatus → List Value
  policy_values (p, s) = text p ∷ text hub ∷ status s ∷ []

  abbrev pub drop_values : String → List String → List Value
  drop_values p cs = text p ∷ text hub ∷ map text cs

  abbrev pub group_values : List (String × List String) → List (String × List Value)
  group_values groups = map (λ e. (e.0, drop_values e.0 e.1)) groups

module _ (table : Table) (hub : String) where
  -- The builder that holds what was asked.
  unfoldable pub builder_of : Asked → PoliciesBuilder
  unfolding update_policy_statement
  builder_of a = record {
    base = record {
      delete_items = [];
      insert_items = [];
      update_items = [];
      table = table;
      special_columns = (1, "uuid") ∷ [];
      leaf_hub_name = hub;
      insert_args = flat (map (insert_row_values hub) a.inserts);
      insert_rows_count = length a.inserts;
      update_args = flat (map (policy_values hub) a.policy_updates);
      update_rows_count = length a.policy_updates;
      generate_update_statement = update_policy_statement table;
      delete_args = text hub ∷ map text a.policy_drops;
      delete_rows_count = length a.policy_drops;
      delete_row_key = "id";
    };
    update_cluster_args = flat (map (update_row_values hub) a.updates);
    update_cluster_rows_count = length a.updates;
    delete_cluster_args = (group_values hub) a.drop_groups;
  }

  -- Room for `n` more calls.
  abbrev HasRoom : ℕ → Asked → Type 0
  HasRoom n a =
      (length a.inserts + n < 13108)
      × (length a.updates + n < 13108)
      × (length a.policy_updates + n < 13108)
      × (length a.policy_drops + n < 13108)

  leb_of_lt : {n : ℕ} → n < 65536 → leb max_columns n ≡ false
  leb_of_lt h = ground arith

  flat-snoc {ℓ κ} :
      {A : Type ℓ} {B : Type κ} (f : A → List B) (xs : List A) (x : A)
      → flat (map f (xs ++ x ∷ [])) ≡ flat (map f xs) ++ f x
  flat-snoc f [] x = append-nil (f x)
  flat-snoc f (y ∷ xs) x =
      ap (λ l. f y ++ l) (flat-snoc f xs x) ∙ sym (append_assoc (f y) (flat (map f xs)) (f x))

  map-snoc {ℓ κ} :
      {A : Type ℓ} {B : Type κ} (f : A → B) (xs : List A) (x : A)
      → map f (xs ++ x ∷ []) ≡ map f xs ++ f x ∷ []
  map-snoc f [] x = refl
  map-snoc f (y ∷ xs) x = ap (λ l. f y ∷ l) (map-snoc f xs x)

  length-snoc {ℓ} : {A : Type ℓ} (xs : List A) (x : A) → length (xs ++ x ∷ []) ≡ suc (length xs)
  length-snoc xs x = omega (arith, length-append xs (x ∷ []))

  base_insert :
      (args : List Value) (b : BaseBuilder)
      → length b.insert_args + length args < 65536
      → insert_args_of args b ≡ record b {
        insert_args = b.insert_args ++ args;
        insert_rows_count = suc b.insert_rows_count;
      }
  unfolding insert_args_of
  base_insert args b h = rw (leb_of_lt h)

  base_update :
      (args : List Value) (b : BaseBuilder)
      → length b.update_args + length args < 65536
      → update_args_of args b ≡ record b {
        update_args = b.update_args ++ args;
        update_rows_count = suc b.update_rows_count;
      }
  unfolding update_args_of
  base_update args b h = rw (leb_of_lt h)

  base_delete :
      (args : List Value) (b : BaseBuilder)
      → length b.delete_args + length args < 65536
      → delete_args_of args b ≡ record b {
        delete_args = b.delete_args ++ args;
        delete_rows_count = suc b.delete_rows_count;
      }
  unfolding delete_args_of
  base_delete args b h = rw (leb_of_lt h)

  lookup-group_values :
      (p : String) (groups : List (String × List String))
      → lookup p ((group_values hub) groups)
        ≡ (elim (lookup p groups) [ none ↦ none | some cs ↦ some ((drop_values hub) p cs) ])
  lookup-group_values p [] = refl
  lookup-group_values p ((q, cs) ∷ groups) = elim (Bool-cases (q == p)) [
    | inl e ↦ rw (e, (==_iff q p).0 e)
    | inr n ↦ ground (arith, n, lookup-group_values p groups)
  ]

  insert-group_values :
      (p : String) (cs : List String) (groups : List (String × List String))
      → insert p ((drop_values hub) p cs) ((group_values hub) groups)
        ≡ (group_values hub) (insert p cs groups)
  insert-group_values p cs [] = refl
  insert-group_values p cs ((q, ds) ∷ groups) = ground (arith, insert-group_values p cs groups)

  apply_call-builder_of :
      (c : Call) (a : Asked) → HasRoom 1 a → apply_call c (builder_of a) ≡ builder_of (ask c a)
  unfolding apply_call builder_of insert_args_of update_args_of delete_args_of
      update_cluster_compliance delete_cluster_status
  apply_call-builder_of (insert_row r) a room =
      let fits : length (flat (map (insert_row_values hub) a.inserts)) + 5 < 65536 =
        omega (arith, length-flat-map (insert_row_values hub) 5 a.inserts (λ x. refl), room.0) in
      rw (
        base_insert ((insert_row_values hub) r) (builder_of a).base fits,
        flat-snoc (insert_row_values hub) a.inserts r,
        length-snoc a.inserts r,
      )
  apply_call-builder_of (update_policy p s) a room =
      let fits : length (flat (map (policy_values hub) a.policy_updates)) + 3 < 65536 =
        omega (arith, length-flat-map (policy_values hub) 3 a.policy_updates (λ x. refl), room.2) in
      rw (
        base_update (policy_values hub (p, s)) (builder_of a).base fits,
        flat-snoc (policy_values hub) a.policy_updates (p, s),
        length-snoc a.policy_updates (p, s),
      )
  apply_call-builder_of (update_cluster r) a room =
      let fits : length (flat (map (update_row_values hub) a.updates)) + 4 < 65536 =
        omega (arith, length-flat-map (update_row_values hub) 4 a.updates (λ x. refl), room.1) in
      rw (leb_of_lt fits, flat-snoc (update_row_values hub) a.updates r, length-snoc a.updates r)
  apply_call-builder_of (delete_policy p) a room =
      let fits : suc (length (map text a.policy_drops)) + 1 < 65536 =
        omega (arith, length-map text a.policy_drops, room.3) in
      rw (
        base_delete (text p ∷ []) (builder_of a).base fits,
        map-snoc text a.policy_drops p,
        length-snoc a.policy_drops p,
      )
  apply_call-builder_of (delete_cluster p c) a room = elim (Option-cases (lookup p a.drop_groups)) [
    | inl n ↦
        rw (lookup-group_values p a.drop_groups, n, insert-group_values p (c ∷ []) a.drop_groups)
    | inr (cs, e) ↦ rw (
      lookup-group_values p a.drop_groups,
      e,
      sym (map-snoc text cs c),
      insert-group_values p (cs ++ c ∷ []) a.drop_groups,
    )
  ]

  ask-HasRoom : (c : Call) (n : ℕ) (a : Asked) → HasRoom (suc n) a → HasRoom n (ask c a)
  ask-HasRoom (insert_row r) n a room = ground (arith, length-snoc a.inserts r)
  ask-HasRoom (update_policy p s) n a room = ground (arith, length-snoc a.policy_updates (p, s))
  ask-HasRoom (update_cluster r) n a room = ground (arith, length-snoc a.updates r)
  ask-HasRoom (delete_policy p) n a room = ground (arith, length-snoc a.policy_drops p)
  ask-HasRoom (delete_cluster p c) n a room = ground arith

  apply_calls-builder_of :
      (cs : List Call) (a : Asked)
      → HasRoom (length cs) a
      → apply_calls cs (builder_of a) ≡ builder_of (ask_all cs a)
  unfolding apply_calls
  apply_calls-builder_of [] a room = refl
  apply_calls-builder_of (c ∷ cs) a room =
      ap (apply_calls cs) (apply_call-builder_of c a (ground arith))
      ∙ apply_calls-builder_of cs (ask c a) (ask-HasRoom c (length cs) a room)

  -- Fewer than 13108 calls fit, so that no statement is cut.
  pub apply_calls-new_policies_builder :
      (cs : List Call)
      → length cs < 13108
      → apply_calls cs (new_policies_builder table hub) ≡ builder_of (ask_all cs nothing_asked)
  unfolding new_policies_builder builder_of new_base_builder
  apply_calls-new_policies_builder cs h =
      apply_calls-builder_of cs nothing_asked (ground (arith, h))
