-- ===== src/Conflation/Manager.antt =====
-- conflation_manager.go, ready_queue.go, and the loop of syncer/dispatcher/dispatcher.go with the
-- report of db/workerpool/db_worker.go: the units of all leaf hubs behind one queue. The locks of
-- the code make each function below one step.
pub mod Steps
use multicluster_global_hub.Base.{
  ◌>>=◌, ℕ, String, Bool, true, false, Option, none, some, List, [], ◌∷◌, ◌++◌, string_key,
}
use multicluster_global_hub.Base.Maps.{lookup, insert}
use multicluster_global_hub.Conflation.Bundles.{BundleApi}
use multicluster_global_hub.Conflation.Units.{
  ConflationUnit, ConflationRegistration, Shared, new_unit, insert_bundle, get_next, report_result,
  get_bundles_metadata,
}

-- `units` is the map from leaf hubs to units. `held` is the unit that the dispatcher took from the
-- ready queue and has not asked for a bundle yet.
pub record ConflationManager (B : Type 0) : Type 0 where
  pub units : List (String × ConflationUnit B)
  pub registrations : List ConflationRegistration
  pub require_initial_checks : Bool
  pub shared : Shared
  pub held : Option String

-- `Register`
unfoldable pub register :
    {B : Type 0} → ConflationRegistration → ConflationManager B → ConflationManager B
register r w = record w { registrations = w.registrations ++ r ∷ [] }

-- `getConflationUnit`: the unit of a leaf hub, made if there is none yet.
unfoldable pub get_unit : {B : Type 0} → String → ConflationManager B → Option (ConflationUnit B)
get_unit hub w = elim (lookup hub w.units) [
  | some u ↦ some u
  | none ↦ new_unit hub w.registrations w.require_initial_checks
]

unfoldable pub put_unit :
    {B : Type 0} → String → ConflationUnit B → Shared → ConflationManager B → ConflationManager B
put_unit hub u s w = record w { units = insert hub u w.units; shared = s }

abbrev take_front : {B : Type 0} → List String → ConflationManager B → Option (ConflationManager B)
take_front [] w = none
take_front (hub ∷ rest) w =
    some (record w { shared = record (w.shared) { ready_queue = rest }; held = some hub })

-- `BlockingDequeue`: `none` while the queue is empty and the call blocks.
unfoldable pub dequeue : {B : Type 0} → ConflationManager B → Option (ConflationManager B)
dequeue w = take_front w.shared.ready_queue w

module _ {B : Type 0} ⦃api : BundleApi B⦄ where
  -- `Insert`
  unfoldable pub manager_insert : B → ℕ → ConflationManager B → Option (ConflationManager B)
  manager_insert b t w = get_unit (api.leaf_hub_name b) w >>= λ u.
      insert_bundle b t u w.shared >>= λ r. some (put_unit (api.leaf_hub_name b) r.0 r.1 w)

  -- The dispatcher asks the unit that it holds for a bundle.
  unfoldable pub dispatch :
      ConflationManager B → Option (ConflationManager B × Option (Option B × Option ℕ × ℕ))
  dispatch w = w.held >>= λ hub. lookup hub w.units >>= λ u.
      get_next u w.shared >>= λ r. some (record (put_unit hub r.0 r.1 w) { held = none }, r.2)

  -- A worker reports the result of a bundle to the unit it came from.
  unfoldable pub report : String → ℕ → Bool → ConflationManager B → Option (ConflationManager B)
  report hub m failed w = lookup hub w.units >>= λ u.
      report_result m failed u w.shared >>= λ r. some (put_unit hub r.0 r.1 w)

  unfoldable pub units_metadata : List (String × ConflationUnit B) → Shared → List ℕ
  units_metadata [] s = []
  units_metadata ((hub, u) ∷ us) s = get_bundles_metadata u s ++ units_metadata us s

  -- `GetBundlesMetadata`
  unfoldable pub manager_metadata : ConflationManager B → List ℕ
  unfolding units_metadata
  manager_metadata w = units_metadata w.units w.shared
