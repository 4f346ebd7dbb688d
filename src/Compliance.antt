-- ===== src/Compliance.antt =====
-- manager/pkg/statussyncer/transport2db/bundle: bundles of policy compliance. The sets of
-- github.com/deckarep/golang-set are a parameter, `SetApi`.
pub mod Inherit
pub mod Laws
pub mod Merge
pub mod Bundles
use multicluster_global_hub.Base.{
  ℕ, String, ◌≡◌, Bool, true, false, ◌&&◌, ◌||◌, not, Option, none, some, List, [], ◌∷◌, ◌++◌,
  if◌then◌else◌, ◌==◌, string_key, any,
}
use multicluster_global_hub.Base.Maps.{lookup, insert}
use multicluster_global_hub.Version.{BundleVersion, equals}

-- `contains` of a slice
abbrev pub member : String → List String → Bool
member c xs = any (λ x. x == c) xs

-- What the code uses of golang-set, for elements that are strings. `items` is the order in which
-- one iteration over the set runs.
pub record SetApi : Type 1 where
  pub StringSet : Type 0
  pub new_set : StringSet
  pub add : String → StringSet → StringSet
  pub contains : StringSet → String → Bool
  pub items : StringSet → List String
  pub remove : String → StringSet → StringSet
  pub union : (s t : StringSet) → StringSet
  pub contains-new_set : (c : String) → contains new_set c ≡ false
  pub contains-add :
      (x c : String) (s : StringSet) → contains (add x s) c ≡ ((x == c) || contains s c)
  pub member-items : (c : String) (s : StringSet) → member c (items s) ≡ contains s c
  pub contains-remove :
      (x c : String) (s : StringSet) → contains (remove x s) c ≡ (not (x == c) && contains s c)
  pub contains-union :
      (c : String) (s t : StringSet) → contains (union s t) c ≡ (contains s c || contains t c)

-- pkg/bundle/status: `PolicyGenericComplianceStatus`
pub record PolicyCompliance : Type 0 where
  pub policy_id : String
  pub compliant : List String
  pub non_compliant : List String
  pub unknown : List String

module _ (sets : SetApi) where
  open sets use {StringSet, new_set, add, contains, items}

  -- `policyStatus`
  pub record PolicyStatus : Type 0 where
    pub compliant : StringSet
    pub non_compliant : StringSet
    pub unknown : StringSet

  unfoldable pub add_all : List String → StringSet → StringSet
  add_all [] s = s
  add_all (x ∷ xs) s = add_all xs (add x s)

  unfoldable pub create_set : List String → StringSet
  unfolding add_all
  create_set xs = add_all xs new_set

  unfoldable pub new_policy_status : PolicyCompliance → PolicyStatus
  unfolding create_set
  new_policy_status p = record {
    compliant = create_set p.compliant;
    non_compliant = create_set p.non_compliant;
    unknown = create_set p.unknown;
  }

  unfoldable pub status_contains : PolicyStatus → String → Bool
  status_contains ps c =
      contains ps.unknown c || contains ps.non_compliant c || contains ps.compliant c

  -- The three loops of `appendNewClusters`.
  unfoldable pub append_compliant : List String → PolicyStatus → PolicyStatus
  unfolding status_contains
  append_compliant [] ps = ps
  append_compliant (c ∷ cs) ps =
      append_compliant cs
        (if status_contains ps c then ps else record ps { compliant = add c ps.compliant })

  unfoldable pub append_non_compliant : List String → PolicyStatus → PolicyStatus
  unfolding status_contains
  append_non_compliant [] ps = ps
  append_non_compliant (c ∷ cs) ps =
      append_non_compliant cs
        (if status_contains ps c then ps else record ps { non_compliant = add c ps.non_compliant })

  unfoldable pub append_unknown : List String → PolicyStatus → PolicyStatus
  unfolding status_contains
  append_unknown [] ps = ps
  append_unknown (c ∷ cs) ps =
      append_unknown cs
        (if status_contains ps c then ps else record ps { unknown = add c ps.unknown })

  unfoldable pub append_new_clusters : PolicyCompliance → PolicyStatus → PolicyStatus
  append_new_clusters old ps =
      append_unknown old.unknown
        (append_non_compliant old.non_compliant (append_compliant old.compliant ps))

  -- `updatePolicyStatusInBundle`
  unfoldable pub update_policy_status : PolicyCompliance → PolicyStatus → PolicyCompliance
  update_policy_status p ps = record p {
    compliant = items ps.compliant;
    non_compliant = items ps.non_compliant;
    unknown = items ps.unknown;
  }

  -- The three loops of `inheritObjects`. The map holds pointers to policy infos; each is reached
  -- through the map alone, so a write through the pointer is a write to the map.
  unfoldable pub map_policies :
      List PolicyCompliance → List (String × PolicyStatus) → List (String × PolicyStatus)
  map_policies [] m = m
  map_policies (p ∷ ps) m = map_policies ps (insert p.policy_id (new_policy_status p) m)

  unfoldable pub merge_old :
      List PolicyCompliance
      → List (String × PolicyStatus)
      → List PolicyCompliance
      → List (String × PolicyStatus) × List PolicyCompliance
  merge_old [] m surviving = (m, surviving)
  merge_old (p ∷ olds) m surviving =
      let found = lookup p.policy_id m in
      merge_old olds
        (elim found [ none ↦ m | some ps ↦ insert p.policy_id (append_new_clusters p ps) m ])
        (elim found [ none ↦ surviving ++ p ∷ [] | some ps ↦ surviving ])

  -- A policy that is missing in the map would be a nil pointer.
  unfoldable pub update_policies :
      List PolicyCompliance → List (String × PolicyStatus) → Option (List PolicyCompliance)
  update_policies [] m = some []
  update_policies (p ∷ ps) m = elim (lookup p.policy_id m) [
    | none ↦ none
    | some info ↦ elim (update_policies ps m) [
      | none ↦ none
      | some rest ↦ some (update_policy_status p info ∷ rest)
    ]
  ]

  unfoldable pub inherit_objects :
      List PolicyCompliance → List PolicyCompliance → Option (List PolicyCompliance)
  inherit_objects mine olds =
      let (m, surviving) = merge_old olds (map_policies mine []) [] in
      elim (update_policies mine m) [ none ↦ none | some updated ↦ some (surviving ++ updated) ]
