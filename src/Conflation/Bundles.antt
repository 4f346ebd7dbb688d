-- ===== src/Conflation/Bundles.antt =====
-- manager/pkg/statussyncer/transport2db/bundle/bundle.go: what the conflator asks of a bundle. The
-- three Go interfaces are one record of operations; the type assertions to `DependantBundle` and
-- `DeltaStateBundle` are its two tests.
use multicluster_global_hub.Base.{String, ◌≡◌, Bool, Option, some}
use multicluster_global_hub.Version.{BundleVersion}

pub record BundleApi (B : Type 0) : Type 0 where
  -- `helpers.GetBundleType`
  pub bundle_type : B → String
  pub leaf_hub_name : B → String
  pub version : B → BundleVersion
  pub is_dependant : B → Bool
  -- read only if the bundle is a `DependantBundle`
  pub dependency_version : B → BundleVersion
  pub is_delta : B → Bool
  -- called only if the bundle is a `DeltaStateBundle`: the receiver after the call, `none` if the
  -- call fails and leaves the receiver as it was
  pub inherit_events : B → Option B → Option B
  -- `InheritEvents` changes the objects of the receiver and nothing else that the conflator reads.
  pub inherit_version :
      (b : B) (o : Option B) (c : B) → inherit_events b o ≡ some c → version c ≡ version b
  pub inherit_dependency_version :
      (b : B) (o : Option B) (c : B)
      → inherit_events b o ≡ some c
      → dependency_version c ≡ dependency_version b
  pub inherit_type :
      (b : B) (o : Option B) (c : B) → inherit_events b o ≡ some c → bundle_type c ≡ bundle_type b

-- conflator/dependency: `AtLeast` is the default case of the code.
pub data DependencyType : Type 0 where
  exact_match at_least : DependencyType

pub record Dependency : Type 0 where
  pub bundle_type : String
  pub dependency_type : DependencyType

-- pkg/bundle/status/bundle_sync_mode.go
pub data BundleSyncMode : Type 0 where
  complete_state_mode delta_state_mode : BundleSyncMode
