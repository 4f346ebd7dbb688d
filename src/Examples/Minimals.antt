-- ===== src/Examples/Minimals.antt =====
-- A minimal compliance bundle, handled on a table in memory.
use multicluster_global_hub.Base.{
  ℕ, String, ◌≡◌, refl, sym, ap, ◌∙◌, inl, inr, Bool, true, false, ◌&&◌, Option, none, some, List,
  [], ◌∷◌, map, arith, if◌then◌else◌, ◌==◌, ==_iff, string_key, nat_key, Bool-cases, Result, ok,
  is_some, of_ok,
}
use multicluster_global_hub.Base.Maps.{lookup, insert, erase, lookup-insert, lookup-erase}
use multicluster_global_hub.StatusDb.Minimal.{
  AggregatedApi, MinimalCompliance, counts, handle_minimal_compliance_bundle, write_objects,
  delete_left, get_policy_ids, insert_or_update,
}
use multicluster_global_hub.StatusDb.Minimal.Refinement.{handle_minimal_compliance_bundle_refines}
use multicluster_global_hub.Compliance.{member, create_set, add_all}
use multicluster_global_hub.Examples.Data.{list_sets}

abbrev Counts : Type 0
Counts = List (String × (ℕ × ℕ))

abbrev key_list : Counts → List String
key_list db = map (λ e. e.0) db

member-key_list : (p : String) (db : Counts) → member p (key_list db) ≡ is_some (lookup p db)
member-key_list p [] = refl
member-key_list p (e ∷ db) = ground (arith, member-key_list p db)

abbrev put_counts : MinimalCompliance → Counts → Counts
put_counts o db = insert o.policy_id (o.applied_clusters, o.non_compliant_clusters) db

abbrev change_counts : MinimalCompliance → Counts → Counts
change_counts o db = if is_some (lookup o.policy_id db) then put_counts o db else db

abbrev read_ids : Bool → Counts → Result String (List String)
read_ids fails db = ok (if fails then [] else key_list db)

failed_lem : (fails : Bool) (hub : String) (db : Counts) → fails ≡ true → read_ids fails db ≡ ok []
failed_lem fails hub db h = rw h

ids_lem :
    (fails : Bool) (hub : String) (db : Counts) (ids : List String)
    → fails ≡ false
    → read_ids fails db ≡ ok ids
    → (p : String) → member p ids ≡ is_some (lookup p db)
ids_lem fails hub db ids runs e p = ap (member p) (sym (of_ok e)) ∙ (rw runs (member-key_list p db))

found_lem :
    (hub p : String) (db : Counts) (found : Bool)
    → ◌≡◌ {A = Result String Bool} (ok (is_some (lookup p db))) (ok found)
    → found ≡ is_some (lookup p db)
found_lem hub p db found e = sym (of_ok e)

changed_or :
    (b c : Bool) (x y : Option (ℕ × ℕ))
    → (b ≡ true → c ≡ true)
    → (if b then x else y) ≡ (if b && c then x else y)
changed_or true c x y h = rw (h refl)
changed_or false c x y h = refl

kept_or :
    (b c : Bool) (x y : Option (ℕ × ℕ)) → (b ≡ true → c ≡ false) → y ≡ (if b && c then x else y)
kept_or true c x y h = rw (h refl)
kept_or false c x y h = refl

change_lem :
    (hub : String) (o : MinimalCompliance) (db db' : Counts)
    → ◌≡◌ {A = Result String Counts} (ok (change_counts o db)) (ok db')
    → (p : String)
    → lookup p db' ≡ (if o.policy_id == p && is_some (lookup p db) then counts o else lookup p db)
change_lem hub o db db' e p =
    let at : (o.policy_id == p) ≡ true → is_some (lookup o.policy_id db) ≡ is_some (lookup p db) =
      λ m. ap (λ q. is_some (lookup q db)) ((==_iff o.policy_id p).0 m) in
    ap (lookup p) (sym (of_ok e)) ∙ elim (Bool-cases (is_some (lookup o.policy_id db))) [
      | inl s ↦ rw s (
          lookup-insert o.policy_id p (o.applied_clusters, o.non_compliant_clusters) db
          ∙ changed_or (o.policy_id == p) (is_some (lookup p db)) (counts o) (lookup p db)
              (λ m. sym (at m) ∙ s))
      | inr n ↦ rw n (
          kept_or (o.policy_id == p) (is_some (lookup p db)) (counts o) (lookup p db)
            (λ m. sym (at m) ∙ n))
    ]

put_lem :
    (hub : String) (o : MinimalCompliance) (db db' : Counts)
    → ◌≡◌ {A = Result String Counts} (ok (put_counts o db)) (ok db')
    → (p : String) → lookup p db' ≡ (if o.policy_id == p then counts o else lookup p db)
put_lem hub o db db' e p =
    ap (lookup p) (sym (of_ok e))
    ∙ lookup-insert o.policy_id p (o.applied_clusters, o.non_compliant_clusters) db

erase_lem :
    (hub policy : String) (db db' : Counts)
    → ◌≡◌ {A = Result String Counts} (ok (erase policy db)) (ok db')
    → (p : String) → lookup p db' ≡ (if policy == p then none else lookup p db)
erase_lem hub policy db db' e p = ap (lookup p) (sym (of_ok e)) ∙ lookup-erase policy p db

abbrev counts_in_memory : Bool → AggregatedApi
counts_in_memory fails = record {
  Db = Counts;
  Error = String;
  aggregated = λ db hub p. lookup p db;
  query_fails = λ hub db. fails;
  select_ids = λ hub db. read_ids fails db;
  select_ids_failed = failed_lem fails;
  exists = λ hub p db. ok (is_some (lookup p db));
  update_row = λ hub o db. ok (change_counts o db);
  insert_row = λ hub o db. ok (put_counts o db);
  delete_rows = λ hub p db. ok (erase p db);
  select_ids_lem = ids_lem fails;
  exists_lem = found_lem;
  update_row_lem = change_lem;
  insert_row_lem = put_lem;
  delete_rows_lem = erase_lem;
}

abbrev minimal_bundle : List MinimalCompliance
minimal_bundle =
    record {
      policy_id = "p1";
      remediation_action = "inform";
      non_compliant_clusters = 1;
      applied_clusters = 3;
    }
    ∷ []

abbrev two_policies : Counts
two_policies = ("p1", (2, 0)) ∷ ("p2", (1, 1)) ∷ []

minimal_succeeds :
    (handle_minimal_compliance_bundle list_sets
      (counts_in_memory false)
      "hub1"
      minimal_bundle
      two_policies).1
    ≡ none
unfolding handle_minimal_compliance_bundle write_objects delete_left get_policy_ids insert_or_update
    create_set add_all
minimal_succeeds = refl

handle_minimal_compliance_bundle_refines_example :
    lookup "p1"
      (handle_minimal_compliance_bundle list_sets
        (counts_in_memory false)
        "hub1"
        minimal_bundle
        two_policies).0
    ≡ some (3, 1)
handle_minimal_compliance_bundle_refines_example =
    handle_minimal_compliance_bundle_refines list_sets (counts_in_memory false) "hub1"
      minimal_bundle two_policies refl minimal_succeeds "p1"
