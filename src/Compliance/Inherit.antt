-- ===== src/Compliance/Inherit.antt =====
-- delta_compliance_status_bundle.go: the objects of a bundle that inherits from an older one.
use multicluster_global_hub.Base.{
  String, ◌≡◌, refl, subst, ◌≢◌, true, Option, none, some, List, [], ◌∷◌, ◌++◌, arith,
  if◌then◌else◌, ◌==◌, ==_iff, string_key, Bool-cases, Option-cases, ◌⊎◌, inl, inr, is_some,
}
use multicluster_global_hub.Base.Maps.{lookup, insert, lookup-insert}
use multicluster_global_hub.Compliance.{
  SetApi, PolicyCompliance, PolicyStatus, new_policy_status, append_new_clusters,
  update_policy_status, map_policies, merge_old, update_policies,
}

-- The policy of an id.
abbrev pub find_policy : String → List PolicyCompliance → Option PolicyCompliance
find_policy id [] = none
find_policy id (p ∷ ps) = if p.policy_id == id then some p else find_policy id ps

-- No two policies of a bundle have one id.
abbrev pub HasDistinctIds : List PolicyCompliance → Type 0
HasDistinctIds [] = Unit
HasDistinctIds (p ∷ ps) = (find_policy p.policy_id ps ≡ none) × HasDistinctIds ps

pub find_policy-append :
    (id : String) (ps qs : List PolicyCompliance)
    → find_policy id (ps ++ qs)
      ≡ (if is_some (find_policy id ps) then find_policy id ps else find_policy id qs)
find_policy-append id [] qs = refl
find_policy-append id (p ∷ ps) qs = ground (arith, find_policy-append id ps qs)

module _ (sets : SetApi) where
  pub map_policies-lookup :
      (id : String) (ps : List PolicyCompliance) (m : List (String × PolicyStatus sets))
      → HasDistinctIds ps
      → lookup id (map_policies sets ps m) ≡ (elim (find_policy id ps) [
        | none ↦ lookup id m
        | some p ↦ some (new_policy_status sets p)
      ])
  unfolding map_policies
  map_policies-lookup id [] m d = refl
  map_policies-lookup id (p ∷ ps) m d =
      let info = new_policy_status sets p in
      ground (
        arith,
        d.0,
        ==_iff p.policy_id id,
        lookup-insert p.policy_id id info m,
        map_policies-lookup id ps (insert p.policy_id info m) d.1,
      )

  -- What the second loop makes of the info of one policy.
  abbrev pub merged : Option PolicyCompliance → PolicyStatus sets → PolicyStatus sets
  merged none ps = ps
  merged (some old) ps = append_new_clusters sets old ps

  pub merge_old-lookup :
      (id : String) (olds : List PolicyCompliance) (m : List (String × PolicyStatus sets))
      (surviving : List PolicyCompliance) (ps : PolicyStatus sets)
      → HasDistinctIds olds
      → lookup id m ≡ some ps
      → lookup id (merge_old sets olds m surviving).0 ≡ some (merged (find_policy id olds) ps)
  unfolding merge_old
  merge_old-lookup id [] m surviving ps d h = h
  merge_old-lookup id (p ∷ olds) m surviving ps d h = elim (Option-cases (lookup p.policy_id m)) [
    | inl n ↦ ground (
      arith,
      n,
      h,
      ==_iff p.policy_id id,
      merge_old-lookup id olds m (surviving ++ p ∷ []) ps d.1 h,
    )
    | inr (q, f) ↦
        let info = append_new_clusters sets p q in
        let m' = insert p.policy_id info m in
        ground (
          arith,
          f,
          h,
          d.0,
          ==_iff p.policy_id id,
          lookup-insert p.policy_id id info m,
          merge_old-lookup id olds m' surviving info d.1,
          merge_old-lookup id olds m' surviving ps d.1,
        )
  ]

  -- Which old policies survive: those whose id is not mapped.
  pub merge_old-surviving :
      (id : String) (olds : List PolicyCompliance) (m : List (String × PolicyStatus sets))
      (surviving : List PolicyCompliance)
      → find_policy id (merge_old sets olds m surviving).1 ≡ (
          if is_some (find_policy id surviving)
          then find_policy id surviving
          else if is_some (lookup id m)
          then none
          else find_policy id olds)
  unfolding merge_old
  merge_old-surviving id [] m surviving = ground arith
  merge_old-surviving id (p ∷ olds) m surviving = elim (Option-cases (lookup p.policy_id m)) [
    | inl n ↦ ground (
      arith,
      n,
      ==_iff p.policy_id id,
      find_policy-append id surviving (p ∷ []),
      merge_old-surviving id olds m (surviving ++ p ∷ []),
    )
    | inr (q, f) ↦
        let info = append_new_clusters sets p q in
        ground (
          arith,
          f,
          ==_iff p.policy_id id,
          lookup-insert p.policy_id id info m,
          merge_old-surviving id olds (insert p.policy_id info m) surviving,
        )
  ]

  update_policies_cons :
      (p : PolicyCompliance) (ps : List PolicyCompliance) (m : List (String × PolicyStatus sets))
      {result : List PolicyCompliance}
      → update_policies sets (p ∷ ps) m ≡ some result
      → (info : PolicyStatus sets) × (rest : List PolicyCompliance) × (lookup p.policy_id m
          ≡ some info)
        × (update_policies sets ps m ≡ some rest)
        × (result ≡ update_policy_status sets p info ∷ rest)
  unfolding update_policies
  update_policies_cons p ps m h = elim (Option-cases (lookup p.policy_id m)) [
    | inl n ↦ ground (arith, n, h)
    | inr (info, f) ↦ elim (Option-cases (update_policies sets ps m)) [
      | inl n ↦ ground (arith, f, n, h)
      | inr (rest, g) ↦ (info, rest, f, g, ground (arith, f, g, h))
    ]
  ]

  pub update_policies-find :
      (id : String) (ps : List PolicyCompliance) (m : List (String × PolicyStatus sets))
      {result : List PolicyCompliance}
      → update_policies sets ps m ≡ some result
      → (find_policy id ps ≡ none) × (find_policy id result ≡ none)
        ⊎ ((p : PolicyCompliance) × (info : PolicyStatus sets) × (find_policy id ps ≡ some p)
            × (lookup id m ≡ some info)
            × (find_policy id result ≡ some (update_policy_status sets p info)))
  unfolding update_policies update_policy_status
  update_policies-find id [] m h = inl (refl, ground arith)
  update_policies-find id (p ∷ ps) m h =
      let (info, rest, f, g, e) = update_policies_cons p ps m h in
      elim (Bool-cases (p.policy_id == id)) [
        | inl same ↦
            let at : p.policy_id ≡ id = (==_iff p.policy_id id).0 same in
            inr (
              p,
              info,
              ground (arith, same),
              subst (λ k. lookup k m ≡ some info) at f,
              ground (arith, e, same),
            )
        | inr other ↦ elim (update_policies-find id ps m g) [
          | inl (a, b) ↦ inl (ground (arith, other, a), ground (arith, e, other, b))
          | inr (q, i, a, b, c) ↦
              inr (q, i, ground (arith, other, a), b, ground (arith, e, other, c))
        ]
      ]

  pub update_policies-some :
      (ps : List PolicyCompliance) (m : List (String × PolicyStatus sets))
      → ((id : String) → is_some (find_policy id ps) ≡ true → is_some (lookup id m) ≡ true)
      → update_policies sets ps m ≢ none
  unfolding update_policies
  update_policies-some [] m known h = cc
  update_policies-some (p ∷ ps) m known h = ground (
    arith,
    h,
    ==_iff p.policy_id p.policy_id,
    known p.policy_id,
    update_policies-some ps m (λ id f. known id (ground (arith, f))),
  )
