-- ===== src/Compliance/Merge.antt =====
-- delta_compliance_status_bundle.go, inheritObjects: the newer bundle is the source of truth.
use multicluster_global_hub.Base.{
  String, ◌≡◌, Bool, ◌&&◌, ◌||◌, not, Option, none, some, List, [], ◌++◌, arith, if◌then◌else◌,
  string_key, Option-cases, ◌⊎◌, inl, inr, is_some, some_of_ne_none, of_is_some,
}
use multicluster_global_hub.Base.Maps.{lookup}
use multicluster_global_hub.Compliance.{
  SetApi, PolicyCompliance, member, new_policy_status, status_contains, append_new_clusters,
  update_policy_status, map_policies, merge_old, update_policies, inherit_objects, create_set,
}
use multicluster_global_hub.Compliance.Laws.{append_new_clusters-Inherits, contains-create_set}
use multicluster_global_hub.Compliance.Inherit.{
  find_policy, HasDistinctIds, find_policy-append, map_policies-lookup, merge_old-lookup,
  merge_old-surviving, update_policies-find, update_policies-some, merged,
}

-- What an inherited policy holds: `p` is the policy of the newer bundle, `o` that of the older one
-- if it has one.
abbrev listed : Option PolicyCompliance → (PolicyCompliance → List String) → List String
listed none f = []
listed (some o) f = f o

abbrev knows : PolicyCompliance → String → Bool
knows p c = member c p.unknown || member c p.non_compliant || member c p.compliant

pub record IsMerge (p : PolicyCompliance) (o : Option PolicyCompliance) (q : PolicyCompliance)
    (c : String) : Type 0 where
  pub compliant :
      member c q.compliant
      ≡ (member c p.compliant || (not (knows p c) && member c (listed o (λ x. x.compliant))))
  pub non_compliant : member c q.non_compliant ≡ (
      member c p.non_compliant
      || (not (knows p c || member c (listed o (λ x. x.compliant)))
          && member c (listed o (λ x. x.non_compliant))))
  pub unknown : member c q.unknown ≡ (
      member c p.unknown
      || (not (
            knows p c
            || member c (listed o (λ x. x.compliant))
            || member c (listed o (λ x. x.non_compliant)))
          && member c (listed o (λ x. x.unknown))))

module _ (sets : SetApi) where
  merged-IsMerge :
      (p : PolicyCompliance) (o : Option PolicyCompliance) (c : String)
      → IsMerge p o (update_policy_status sets p (merged sets o (new_policy_status sets p))) c
  unfolding update_policy_status new_policy_status status_contains
  merged-IsMerge p none c =
      let x = contains-create_set sets c p.compliant in
      let y = contains-create_set sets c p.non_compliant in
      let z = contains-create_set sets c p.unknown in
      record {
        compliant = ground (arith, x, sets.member-items c (create_set sets p.compliant));
        non_compliant = ground (arith, y, sets.member-items c (create_set sets p.non_compliant));
        unknown = ground (arith, z, sets.member-items c (create_set sets p.unknown));
      }
  merged-IsMerge p (some o) c =
      let info = new_policy_status sets p in
      let r = append_new_clusters sets o info in
      let k = append_new_clusters-Inherits sets o c info in
      let x = contains-create_set sets c p.compliant in
      let y = contains-create_set sets c p.non_compliant in
      let z = contains-create_set sets c p.unknown in
      record {
        compliant = ground (arith, k, x, y, z, sets.member-items c r.compliant);
        non_compliant = ground (arith, k, x, y, z, sets.member-items c r.non_compliant);
        unknown = ground (arith, k, x, y, z, sets.member-items c r.unknown);
      }

  mapped :
      (id : String) (mine olds : List PolicyCompliance) (p : PolicyCompliance)
      → HasDistinctIds mine
      → HasDistinctIds olds
      → find_policy id mine ≡ some p
      → lookup id (merge_old sets olds (map_policies sets mine []) []).0
        ≡ some (merged sets (find_policy id olds) (new_policy_status sets p))
  mapped id mine olds p d e f =
      merge_old-lookup sets id olds (map_policies sets mine []) [] (new_policy_status sets p) e
        (ground (arith, f, map_policies-lookup sets id mine [] d))

  -- `inheritObjects` does not meet a nil pointer on bundles that name each policy once.
  pub inherit_objects-some :
      (mine olds : List PolicyCompliance)
      → HasDistinctIds mine
      → HasDistinctIds olds
      → (result : List PolicyCompliance) × (inherit_objects sets mine olds ≡ some result)
  unfolding inherit_objects
  inherit_objects-some mine olds d e =
      let all =
        update_policies-some sets mine (merge_old sets olds (map_policies sets mine []) []).0
          (λ id k.
            let (p, f) = of_is_some (find_policy id mine) k in
            ground (arith, mapped id mine olds p d e f)) in
      let (updated, u) = some_of_ne_none _ all in
      ((merge_old sets olds (map_policies sets mine []) []).1 ++ updated, ground (arith, u))

  -- The result of `inherit_objects`: the policies that survive, and those of the newer bundle.
  inherit_objects_parts :
      (mine olds : List PolicyCompliance) {result : List PolicyCompliance}
      → inherit_objects sets mine olds ≡ some result
      → (updated : List PolicyCompliance) × (update_policies sets mine
            (merge_old sets olds (map_policies sets mine []) []).0
          ≡ some updated)
        × (result ≡ (merge_old sets olds (map_policies sets mine []) []).1 ++ updated)
  unfolding inherit_objects
  inherit_objects_parts mine olds h =
      elim (Option-cases
        (update_policies sets mine (merge_old sets olds (map_policies sets mine []) []).0)) [
          | inl n ↦ ground (arith, n, h)
          | inr (updated, u) ↦ (updated, u, ground (arith, u, h))
        ]

  find_in_result :
      (id : String) (mine olds updated : List PolicyCompliance)
      → HasDistinctIds mine
      → find_policy id ((merge_old sets olds (map_policies sets mine []) []).1 ++ updated) ≡ (
          if is_some (find_policy id mine)
          then find_policy id updated
          else if is_some (find_policy id olds)
          then find_policy id olds
          else find_policy id updated)
  find_in_result id mine olds updated d = ground (
    arith,
    find_policy-append id (merge_old sets olds (map_policies sets mine []) []).1 updated,
    merge_old-surviving sets id olds (map_policies sets mine []) [],
    map_policies-lookup sets id mine [] d,
  )

  -- The newer bundle is the source of truth, for bundles that name each policy once: a policy of
  -- the newer bundle keeps the status of each cluster that it lists and takes over from the older
  -- bundle's policy of that id the clusters that it does not list; any other policy is the older
  -- bundle's, as it was.
  pub inherit_objects-IsMerge :
      (mine olds result : List PolicyCompliance) (id : String)
      → HasDistinctIds mine
      → HasDistinctIds olds
      → inherit_objects sets mine olds ≡ some result
      → ((find_policy id mine ≡ none) × (find_policy id result ≡ find_policy id olds))
        ⊎ ((p q : PolicyCompliance) × (find_policy id mine ≡ some p)
            × (find_policy id result ≡ some q)
            × ((c : String) → IsMerge p (find_policy id olds) q c))
  inherit_objects-IsMerge mine olds result id d e h =
      let (updated, u, r) = inherit_objects_parts mine olds h in
      let found = find_in_result id mine olds updated d in
      elim (update_policies-find sets id mine _ u) [
        | inl (a, b) ↦ inl (a, ground (arith, r, found, a, b))
        | inr (p, info, a, b, c) ↦
            let same : info ≡ merged sets (find_policy id olds) (new_policy_status sets p) =
              ground (arith, b, mapped id mine olds p d e a) in
            inr (
              p,
              update_policy_status sets p info,
              a,
              ground (arith, r, found, a, c),
              λ k. rw same (merged-IsMerge p (find_policy id olds) k),
            )
      ]
