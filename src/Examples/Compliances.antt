-- ===== src/Examples/Compliances.antt =====
-- What the bundles of policy compliance do when one inherits the events of another.
use multicluster_global_hub.Base.{String, ◌≡◌, refl, none, some, List, [], ◌∷◌, ◌⊎◌}
use multicluster_global_hub.Compliance.{
  PolicyCompliance, inherit_objects, PolicyStatus, update_policies, append_new_clusters, merge_old,
  map_policies, update_policy_status, append_unknown, append_non_compliant, append_compliant,
  status_contains, new_policy_status, create_set, add_all,
}
use multicluster_global_hub.Compliance.Inherit.{find_policy}
use multicluster_global_hub.Examples.Data.{policy, list_sets}
use multicluster_global_hub.Compliance.Merge.{
  inherit_objects-some, IsMerge, inherit_objects-IsMerge,
}

abbrev mine : List PolicyCompliance
mine = policy "p" ("a" ∷ []) ("b" ∷ []) [] ∷ []

abbrev olds : List PolicyCompliance
olds = policy "p" ("b" ∷ "c" ∷ []) [] ("a" ∷ []) ∷ policy "q" ("d" ∷ []) [] [] ∷ []

abbrev inherited : List PolicyCompliance
inherited = policy "q" ("d" ∷ []) [] [] ∷ policy "p" ("c" ∷ "a" ∷ []) ("b" ∷ []) [] ∷ []

inherits : inherit_objects list_sets mine olds ≡ some inherited
unfolding inherit_objects update_policies merge_old map_policies update_policy_status
    append_new_clusters append_unknown append_non_compliant append_compliant status_contains
    new_policy_status create_set add_all
inherits = refl

inherit_objects-IsMerge_example :
    ((find_policy "p" mine ≡ none) × (find_policy "p" inherited ≡ find_policy "p" olds))
    ⊎ ((p q : PolicyCompliance) × (find_policy "p" mine ≡ some p)
        × (find_policy "p" inherited ≡ some q)
        × ((c : String) → IsMerge p (find_policy "p" olds) q c))
inherit_objects-IsMerge_example =
    inherit_objects-IsMerge list_sets mine olds inherited "p" (refl, tt) (refl, (refl, tt)) inherits

inherit_objects-some_example :
    (result : List PolicyCompliance) × (inherit_objects list_sets mine olds ≡ some result)
inherit_objects-some_example =
    inherit_objects-some list_sets mine olds (refl, tt) (refl, (refl, tt))

abbrev status : PolicyStatus list_sets
status = record { compliant = "a" ∷ []; non_compliant = "b" ∷ []; unknown = [] }
