-- ===== src/Compliance/Bundles.antt =====
-- The bundles of the manager as the conflator sees them: delta_compliance_status_bundle.go, whose
-- objects `InheritEvents` merges, complete_compliance_status_bundle.go, which depends on a base
-- version too, and the bundles without a dependency.
use multicluster_global_hub.Base.{
  String, ◌≡◌, Bool, true, false, Option, none, some, List, arith, if◌then◌else◌, Option-cases, inl,
  inr,
}
use multicluster_global_hub.Version.{BundleVersion, equals}
use multicluster_global_hub.Conflation.Bundles.{BundleApi}
use multicluster_global_hub.Compliance.{SetApi, PolicyCompliance, inherit_objects}

-- `BaseDeltaComplianceStatusBundle`
pub record DeltaBundle : Type 0 where
  pub leaf_hub_name : String
  pub base_version : BundleVersion
  pub version : BundleVersion
  pub objects : List PolicyCompliance

-- A bundle of full state: its Go type, and what the conflator reads of it.
pub record FullBundle : Type 0 where
  pub bundle_type : String
  pub leaf_hub_name : String
  pub version : BundleVersion

pub data Bundle : Type 0 where
  delta_compliance : DeltaBundle → Bundle
  -- with its base version
  complete_compliance : FullBundle → BundleVersion → Bundle
  plain : FullBundle → Bundle

unfoldable pub bundle_type_of : Bundle → String
bundle_type_of (delta_compliance b) = "DeltaComplianceStatusBundle"
bundle_type_of (complete_compliance b base) = b.bundle_type
bundle_type_of (plain b) = b.bundle_type

unfoldable pub leaf_hub_of : Bundle → String
leaf_hub_of (delta_compliance b) = b.leaf_hub_name
leaf_hub_of (complete_compliance b base) = b.leaf_hub_name
leaf_hub_of (plain b) = b.leaf_hub_name

unfoldable pub version_of : Bundle → BundleVersion
version_of (delta_compliance b) = b.version
version_of (complete_compliance b base) = b.version
version_of (plain b) = b.version

-- `GetDependencyVersion`; a plain bundle has none, and it is not asked for.
unfoldable pub dependency_version_of : Bundle → BundleVersion
dependency_version_of (delta_compliance b) = b.base_version
dependency_version_of (complete_compliance b base) = base
dependency_version_of (plain b) = b.version

unfoldable pub is_dependant_bundle : Bundle → Bool
is_dependant_bundle (plain b) = false
is_dependant_bundle _ = true

unfoldable pub is_delta_bundle : Bundle → Bool
is_delta_bundle (delta_compliance b) = true
is_delta_bundle _ = false

module _ (sets : SetApi) where
  -- `InheritEvents`: no older bundle, a bundle of another type (an error), or another delta bundle,
  -- whose objects count if both have one base version.
  unfoldable pub inherit_delta : DeltaBundle → Option Bundle → Option DeltaBundle
  inherit_delta b none = some b
  inherit_delta b (some (delta_compliance old)) =
      if equals old.base_version b.base_version
      then elim (inherit_objects sets b.objects old.objects) [
        | none ↦ none
        | some objects ↦ some (record b { objects = objects })
      ]
      else some b
  inherit_delta b (some _) = none

  unfoldable pub inherit_events_of : Bundle → Option Bundle → Option Bundle
  inherit_events_of (delta_compliance b) o = elim (inherit_delta b o) [
    | none ↦ none
    | some c ↦ some (delta_compliance c)
  ]
  inherit_events_of _ o = none

  inherit_delta-keeps :
      (b c : DeltaBundle) (o : Option Bundle)
      → inherit_delta b o ≡ some c
      → (c.version ≡ b.version) × (c.base_version ≡ b.base_version)
  unfolding inherit_delta
  inherit_delta-keeps b c none h = ground arith
  inherit_delta-keeps b c (some (delta_compliance old)) h = ground arith
  inherit_delta-keeps b c (some (complete_compliance old base)) h = cc
  inherit_delta-keeps b c (some (plain old)) h = cc

  inherit_keeps :
      (b : Bundle) (o : Option Bundle) (c : Bundle)
      → inherit_events_of b o ≡ some c
      → (version_of c ≡ version_of b)
        × (dependency_version_of c ≡ dependency_version_of b)
        × (bundle_type_of c ≡ bundle_type_of b)
  unfolding inherit_events_of version_of dependency_version_of bundle_type_of
  inherit_keeps (delta_compliance b) o c h = elim (Option-cases (inherit_delta b o)) [
    | inl n ↦ ground (arith, n, h)
    | inr (d, f) ↦ ground (arith, f, h, inherit_delta-keeps b d o f)
  ]
  inherit_keeps (complete_compliance b base) o c h = cc
  inherit_keeps (plain b) o c h = cc

  pub inherit-version_of :
      (b : Bundle) (o : Option Bundle) (c : Bundle)
      → inherit_events_of b o ≡ some c
      → version_of c ≡ version_of b
  inherit-version_of b o c h = (inherit_keeps b o c h).0

  pub inherit-dependency_version_of :
      (b : Bundle) (o : Option Bundle) (c : Bundle)
      → inherit_events_of b o ≡ some c
      → dependency_version_of c ≡ dependency_version_of b
  inherit-dependency_version_of b o c h = (inherit_keeps b o c h).1

  pub inherit-bundle_type_of :
      (b : Bundle) (o : Option Bundle) (c : Bundle)
      → inherit_events_of b o ≡ some c
      → bundle_type_of c ≡ bundle_type_of b
  inherit-bundle_type_of b o c h = (inherit_keeps b o c h).2

  -- The bundles of the manager meet the conflator's interface.
  abbrev pub bundle_api : BundleApi Bundle
  bundle_api = record {
    bundle_type = bundle_type_of;
    leaf_hub_name = leaf_hub_of;
    version = version_of;
    is_dependant = is_dependant_bundle;
    dependency_version = dependency_version_of;
    is_delta = is_delta_bundle;
    inherit_events = inherit_events_of;
    inherit_version = inherit-version_of;
    inherit_dependency_version = inherit-dependency_version_of;
    inherit_type = inherit-bundle_type_of;
  }
