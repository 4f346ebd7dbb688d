-- ===== src/Conflation/Units/Scheduling.antt =====
-- conflation_unit.go: a unit with a ready bundle is queued or busy.
use multicluster_global_hub.Base.{◌≡◌, true, none, some, ◌⊎◌, string_key}
use multicluster_global_hub.Conflation.Bundles.{BundleApi}
use multicluster_global_hub.Conflation.Units.{ConflationUnit, is_in_process, next_priority}

module _ {B : Type 0} ⦃api : BundleApi B⦄ where
  -- A bundle that is ready is not forgotten: the unit is queued or busy, or no bundle is ready.
  abbrev pub IsScheduled : ConflationUnit B → Type 0
  IsScheduled u =
      (u.in_ready_queue ≡ true) ⊎ (is_in_process u ≡ true) ⊎ (next_priority u ≡ some none)
