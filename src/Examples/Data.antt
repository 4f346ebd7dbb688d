-- ===== src/Examples/Data.antt =====
-- A unit with the three bundle types of policy compliance, as policies_db_syncer.go registers them,
-- and some bundles.
use multicluster_global_hub.Base.{
  ℕ, String, ◌≡◌, refl, true, false, ◌||◌, Option, none, some, List, [], ◌∷◌, arith, if◌then◌else◌,
  ◌==◌, ==_iff, string_key, Bool-cases, inl, inr, not, ◌&&◌,
}
use multicluster_global_hub.Version.{BundleVersion}
use multicluster_global_hub.Conflation.Bundles.{
  BundleApi, Dependency, exact_match, complete_state_mode, delta_state_mode,
}
use multicluster_global_hub.Conflation.Heap.{Heap}
use multicluster_global_hub.Conflation.Info.{BundleInfo, complete, delta}
use multicluster_global_hub.Conflation.Units.{
  ConflationElement, ConflationUnit, ConflationRegistration, Shared,
}
use multicluster_global_hub.Compliance.{SetApi, PolicyCompliance, member}
use multicluster_global_hub.Compliance.Bundles.{
  Bundle, plain, complete_compliance, delta_compliance, bundle_api,
}

abbrev add_to_list : String → List String → List String
add_to_list x s = if member x s then s else x ∷ s

pub member-add_to_list :
    (x c : String) (s : List String) → member c (add_to_list x s) ≡ ((x == c) || member c s)
member-add_to_list x c s = elim (Bool-cases (x == c)) [
  | inl e ↦ let at : x ≡ c = (==_iff x c).0 e in ground (arith, at, e)
  | inr n ↦ ground (arith, n)
]

-- Sets as lists without repetition.
abbrev remove_from_list : String → List String → List String
remove_from_list x [] = []
remove_from_list x (y ∷ ys) = let rest = remove_from_list x ys in if x == y then rest else y ∷ rest

abbrev union_of_lists : (s t : List String) → List String
union_of_lists [] t = t
union_of_lists (x ∷ s) t = add_to_list x (union_of_lists s t)

pub member-remove_from_list :
    (x c : String) (s : List String)
    → member c (remove_from_list x s) ≡ (not (x == c) && member c s)
member-remove_from_list x c [] = ground arith
member-remove_from_list x c (y ∷ s) =
    ground (arith, member-remove_from_list x c s, ==_iff x y, ==_iff x c, ==_iff y c)

pub member-union_of_lists :
    (c : String) (s t : List String) → member c (union_of_lists s t) ≡ (member c s || member c t)
member-union_of_lists c [] t = refl
member-union_of_lists c (x ∷ s) t =
    ground (arith, member-union_of_lists c s t, member-add_to_list x c (union_of_lists s t))

abbrev pub list_sets : SetApi
list_sets = record {
  StringSet = List String;
  new_set = [];
  add = add_to_list;
  contains = λ s c. member c s;
  items = λ s. s;
  contains-new_set = λ c. refl;
  contains-add = member-add_to_list;
  member-items = λ c s. refl;
  remove = remove_from_list;
  union = union_of_lists;
  contains-remove = member-remove_from_list;
  contains-union = member-union_of_lists;
}

instance abbrev pub api : BundleApi Bundle
api = bundle_api list_sets

abbrev pub v : ℕ → ℕ → BundleVersion
v i g = record { incarnation = i; generation = g }

abbrev pub cpp : String
cpp = "ClustersPerPolicyBundle"

abbrev pub complete_status : String
complete_status = "CompleteComplianceStatusBundle"

abbrev pub delta_status : String
delta_status = "DeltaComplianceStatusBundle"

abbrev pub on : String → Dependency
on type = record { bundle_type = type; dependency_type = exact_match }

abbrev pub registrations : List ConflationRegistration
registrations =
    record {
      priority = 0;
      sync_mode = complete_state_mode;
      bundle_type = cpp;
      handler = 10;
      dependency = none;
    }
    ∷ record {
      priority = 1;
      sync_mode = complete_state_mode;
      bundle_type = complete_status;
      handler = 11;
      dependency = some (on cpp);
    }
    ∷ record {
      priority = 2;
      sync_mode = delta_state_mode;
      bundle_type = delta_status;
      handler = 12;
      dependency = some (on complete_status);
    }
    ∷ []

abbrev slot : BundleInfo Bundle → ℕ → Option Dependency → BundleVersion → ConflationElement Bundle
slot i handler d last = record {
  info = i;
  handler = handler;
  dependency = d;
  in_process = false;
  last_processed = last;
}

abbrev empty_complete : BundleInfo Bundle
empty_complete = complete (record { bundle = none; metadata = none })

abbrev empty_delta : BundleInfo Bundle
empty_delta = delta (record {
  bundle = none;
  metadata = none;
  last_dispatched = record { bundle = none; lowest_pending = none };
  last_received = none;
  line_head = none;
})

-- A fresh unit, with the versions that were processed last.
abbrev pub unit_at : BundleVersion → BundleVersion → BundleVersion → ConflationUnit Bundle
unit_at a b c = record {
  name = "hub1";
  priority_queue =
      slot empty_complete 10 none a
      ∷ slot empty_complete 11 (some (on cpp)) b
      ∷ slot empty_delta 12 (some (on complete_status)) c
      ∷ [];
  type_to_priority = (cpp, 0) ∷ (complete_status, 1) ∷ (delta_status, 2) ∷ [];
  require_initial_checks = true;
  in_ready_queue = false;
}

abbrev empty_heap : Heap
empty_heap = record {
  next = 0;
  cell = λ _. record { bundle_type = ""; bundle_version = v 0 0; transport = none };
  processed = λ _. false;
}

abbrev pub nothing_queued : Shared
nothing_queued = record { heap = empty_heap; ready_queue = [] }

abbrev pub cpp_bundle : ℕ → Bundle
cpp_bundle g = plain (record { bundle_type = cpp; leaf_hub_name = "hub1"; version = v 1 g })

abbrev pub complete_bundle : ℕ → ℕ → Bundle
complete_bundle g base =
    complete_compliance
      (record { bundle_type = complete_status; leaf_hub_name = "hub1"; version = v 1 g }) (v 1 base)

abbrev pub policy : String → List String → List String → List String → PolicyCompliance
policy id a b c = record { policy_id = id; compliant = a; non_compliant = b; unknown = c }

abbrev pub delta_bundle : ℕ → ℕ → List PolicyCompliance → Bundle
delta_bundle g base objects =
    delta_compliance (record {
      leaf_hub_name = "hub1";
      base_version = v 1 base;
      version = v 1 g;
      objects = objects;
    })

abbrev pub value {ℓ} : {A : Type ℓ} → Option A → A → A
value none d = d
value (some a) d = a
