-- ===== src/StatusDb/Minimal/Refinement.antt =====
-- policies_db_syncer.go, handleMinimalComplianceBundle: the table of aggregated compliance after it.
use multicluster_global_hub.Base.{
  ℕ, String, ◌≡◌, refl, sym, ap, ◌∙◌, inl, inr, true, false, not, ◌&&◌, Option, none, List, [], ◌∷◌,
  arith, if◌then◌else◌, ◌==◌, ==_iff, string_key, nat_key, Bool-cases, Option-cases, Result, ok,
  Result-cases, is_some, of_ok,
}
use multicluster_global_hub.Compliance.{SetApi, member, create_set}
use multicluster_global_hub.Compliance.Laws.{contains-create_set}
use multicluster_global_hub.StatusDb.Minimal.{
  MinimalCompliance, counts, AggregatedApi, get_policy_ids, insert_or_update, write_objects,
  delete_left, handle_minimal_compliance_bundle,
}

-- What the bundle says of a policy; of two objects of one policy the later counts.
abbrev pub minimal_listed : List MinimalCompliance → String → Option (ℕ × ℕ)
minimal_listed [] p = none
minimal_listed (o ∷ os) p =
    let rest = minimal_listed os p in
    if is_some rest then rest else if o.policy_id == p then counts o else none

module _ (sets : SetApi) (table : AggregatedApi) where
  open sets use {StringSet, contains, items, remove}
  open table use {
    Db, Error, aggregated, query_fails, select_ids, exists, update_row, insert_row, delete_rows,
  }

  get_policy_ids_lem :
      (hub : String) (db : Db) (ids : StringSet)
      → query_fails hub db ≡ false
      → get_policy_ids sets table hub db ≡ ok ids
      → (p : String) → contains ids p ≡ is_some (aggregated db hub p)
  unfolding get_policy_ids
  get_policy_ids_lem hub db ids runs h p = elim (Result-cases (select_ids hub db)) [
    | inl (read, e) ↦
        let same : ◌≡◌ {A = Result Error StringSet} (ok (create_set sets read)) (ok ids) =
          ground (arith, e, h) in
        let at : create_set sets read ≡ ids = of_ok same in
        ap (λ s. contains s p) (sym at)
        ∙ contains-create_set sets p read
        ∙ table.select_ids_lem hub db read runs e p
    | inr (f, e) ↦ ground (arith, e, h)
  ]

  insert_or_update_lem :
      (hub : String) (o : MinimalCompliance) (db db' : Db)
      → insert_or_update sets table hub o db ≡ ok db'
      → (p : String)
      → aggregated db' hub p ≡ (if o.policy_id == p then counts o else aggregated db hub p)
  unfolding insert_or_update
  insert_or_update_lem hub o db db' h p = elim (Result-cases (exists hub o.policy_id db)) [
    | inr (f, e) ↦ ground (arith, e, h)
    | inl (true, e) ↦
        let ran : update_row hub o db ≡ ok db' = ground (arith, e, h) in
        let here : (o.policy_id == p) ≡ true → is_some (aggregated db hub p) ≡ true = λ m.
          ap (λ q. is_some (aggregated db hub q)) (sym ((==_iff o.policy_id p).0 m))
          ∙ sym (table.exists_lem hub o.policy_id db true e) in
        elim (Bool-cases (o.policy_id == p)) [
          | inl m ↦ table.update_row_lem hub o db db' ran p ∙ rw (m, here m)
          | inr m ↦ table.update_row_lem hub o db db' ran p ∙ rw m
        ]
    | inl (false, e) ↦ table.insert_row_lem hub o db db' (ground (arith, e, h)) p
  ]

  write_objects_lem :
      (hub : String) (os : List MinimalCompliance) (left left' : StringSet) (db : Db) (p : String)
      → (write_objects sets table hub os left db).1 ≡ ok left'
      → (contains left' p ≡ (contains left p && not (is_some (minimal_listed os p))))
        × (aggregated (write_objects sets table hub os left db).0 hub p
            ≡ (if is_some (minimal_listed os p) then minimal_listed os p else aggregated db hub p))
  unfolding write_objects
  write_objects_lem hub [] left left' db p h =
      (ap (λ s. contains s p) (sym (of_ok h)) ∙ ground arith, refl)
  write_objects_lem hub (o ∷ os) left left' db p h =
      elim (Result-cases (insert_or_update sets table hub o db)) [
        | inl (mid, e) ↦
            let next : (write_objects sets table hub os (remove o.policy_id left) mid).1
                ≡ ok left' =
              ground (arith, e, h) in
            let (a, b) = write_objects_lem hub os (remove o.policy_id left) left' mid p next in
            let r = sets.contains-remove o.policy_id p left in
            let w = insert_or_update_lem hub o db mid e p in
            elim (Option-cases (minimal_listed os p)) [
              | inl n ↦ (ground (arith, n, a, r), ground (arith, n, e, b, w))
              | inr (v, f) ↦ (ground (arith, f, a, r), ground (arith, f, e, b, w))
            ]
        | inr (f, e) ↦ ground (arith, e, h)
      ]

  delete_left_lem :
      (hub : String) (ps : List String) (db : Db) (p : String)
      → (delete_left sets table hub ps db).1 ≡ none
      → aggregated (delete_left sets table hub ps db).0 hub p
        ≡ (if member p ps then none else aggregated db hub p)
  unfolding delete_left
  delete_left_lem hub [] db p h = refl
  delete_left_lem hub (q ∷ ps) db p h = elim (Result-cases (delete_rows hub q db)) [
    | inl (mid, e) ↦
        let next : (delete_left sets table hub ps mid).1 ≡ none = ground (arith, e, h) in
        ground (arith, e, delete_left_lem hub ps mid p next, table.delete_rows_lem hub q db mid e p)
    | inr (f, e) ↦ ground (arith, e, h)
  ]

  handle_lem :
      (hub : String) (objects : List MinimalCompliance) (db : Db) (p : String)
      → (handle_minimal_compliance_bundle sets table hub objects db).1 ≡ none
      → (ids : StringSet) × (get_policy_ids sets table hub db ≡ ok ids)
        × (aggregated (handle_minimal_compliance_bundle sets table hub objects db).0 hub p ≡ (
            if is_some (minimal_listed objects p)
            then minimal_listed objects p
            else if contains ids p
            then none
            else aggregated db hub p))
  unfolding handle_minimal_compliance_bundle
  handle_lem hub objects db p h = elim (Result-cases (get_policy_ids sets table hub db)) [
    | inr (f, e) ↦ ground (arith, e, h)
    | inl (ids, e) ↦
        let r = write_objects sets table hub objects ids db in
        elim (Result-cases r.1) [
          | inr (f, g) ↦ ground (arith, e, g, h)
          | inl (left, g) ↦
              let (a, b) = write_objects_lem hub objects ids left db p g in
              let clean : (delete_left sets table hub (items left) r.0).1 ≡ none =
                ground (arith, e, g, h) in
              let gone = delete_left_lem hub (items left) r.0 p clean in
              (ids, e, ground (arith, e, g, a, b, gone, sets.member-items p left))
        ]
  ]

  -- When `handleMinimalComplianceBundle` returns no error and its query ran, the rows of the leaf hub
  -- are what the bundle lists, and there is no row of a policy that it does not list.
  pub handle_minimal_compliance_bundle_refines :
      (hub : String) (objects : List MinimalCompliance) (db : Db)
      → query_fails hub db ≡ false
      → (handle_minimal_compliance_bundle sets table hub objects db).1 ≡ none
      → (p : String)
      → aggregated (handle_minimal_compliance_bundle sets table hub objects db).0 hub p
        ≡ minimal_listed objects p
  handle_minimal_compliance_bundle_refines hub objects db runs h p =
      let (ids, e, at) = handle_lem hub objects db p h in
      ground (arith, at, get_policy_ids_lem hub db ids runs e p)
