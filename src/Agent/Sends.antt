-- ===== src/Agent/Sends.antt =====
-- agent/pkg/status: a change of an object that is reconciled is sent by the next sync.
use multicluster_global_hub.Base.{
  ◌≤◌, String, ◌≡◌, refl, ap, ap₂, ◌∙◌, true, false, ◌&&◌, Option, none, some, [], ◌∷◌, ◌++◌, arith,
  ==_iff, string_key, nat_key, ok,
}
use multicluster_global_hub.Version.{BundleVersion, newer_than}
use multicluster_global_hub.Agent.StatusBundle.{
  Object, update_object, delete_object, StatusBundle, next_generation, is_changed, object_at,
  update_object_lem,
}
use multicluster_global_hub.Agent.StatusSync.{
  Entry, SyncApi, ClientApi, reconcile, update_object_and_finalizer, update_all_bundles,
  sync_bundles, sync_entry, is_due, send_if, add_finalizer, clean_object, reconcile_updates,
}

-- `GenericStatusBundle` as a bundle of the collection.
abbrev pub status_api : (Object → Object) → (StatusBundle → Option String) → SyncApi StatusBundle
status_api manipulate marshal = record {
  update = update_object manipulate;
  delete = delete_object;
  version_of = λ b. b.version;
  transportation_id = λ b. none;
  marshal = marshal;
}

-- What was sent last is not newer than the bundle.
abbrev IsBehind : {C : Type 0} → Entry StatusBundle C → Type 0
IsBehind e =
    (e.last_sent.incarnation ≡ e.bundle.version.incarnation)
    × (e.last_sent.generation ≤ e.bundle.version.generation)

newer_than_next :
    (b : StatusBundle) (v : BundleVersion)
    → v.incarnation ≡ b.version.incarnation
    → v.generation ≤ b.version.generation
    → newer_than (next_generation b) (some v) ≡ true
unfolding newer_than
newer_than_next b v i g = ground (arith, i, g)

module _ {C : Type 0} (manipulate : Object → Object) (marshal : StatusBundle → Option String)
    (client : ClientApi) (finalizer : String) where
  open client use {Cluster, Error, get}

  -- Of a controller with one bundle, when the object that is reconciled is not being deleted, its
  -- finalizer is there or was added, and it is new to the bundle or has another resource version:
  -- the next sync sends one message, which has the next generation of the bundle and whose payload
  -- is a bundle that holds the object as it was cleaned and manipulated.
  pub reconcile-sync_bundles :
      (name : String) (cluster : Cluster) (config : C) (e : Entry StatusBundle C) (o : Object)
      → get name cluster ≡ ok o
      → o.being_deleted ≡ false
      → (add_finalizer client finalizer o cluster).2 ≡ none
      → e.predicate config ≡ true
      → IsBehind e
      → let put = manipulate (clean_object (add_finalizer client finalizer o cluster).0) in
        is_changed (object_at put.uid e.bundle.objects) put ≡ true
        → let api = status_api manipulate marshal in
          let after =
            update_object manipulate
              (clean_object (add_finalizer client finalizer o cluster).0)
              e.bundle in
          ((sync_bundles api config (reconcile api client finalizer name cluster (e ∷ [])).1).1
            ≡ record {
              id = e.transport_bundle_key;
              transportation_id = none;
              version = next_generation e.bundle;
              payload = marshal after;
            }
              ∷ [])
          × (object_at put.uid after.objects ≡ some put)
  unfolding reconcile update_object_and_finalizer update_all_bundles sync_bundles sync_entry is_due
      send_if
  reconcile-sync_bundles name cluster config e o found alive added enabled behind changed =
      let api = status_api manipulate marshal in
      let cleaned = clean_object (add_finalizer client finalizer o cluster).0 in
      let put = manipulate cleaned in
      let after = update_object manipulate cleaned e.bundle in
      let (held, version) = update_object_lem manipulate cleaned e.bundle put.uid in
      let next : after.version ≡ next_generation e.bundle = version ∙ rw changed in
      let e' : Entry StatusBundle C = record e { bundle = after } in
      let due : is_due api config e' ≡ true =
        ap₂ (λ a v. a && newer_than v (some e.last_sent)) enabled next
        ∙ newer_than_next e.bundle e.last_sent behind.0 behind.1 in
      (
        ap (λ es. (sync_bundles api config es).1)
              (reconcile_updates api client finalizer name cluster (e ∷ []) o found alive added)
            ∙ ap (λ d. (send_if api d e').1 ++ []) due
            ∙ ap
                (λ v.
                  record {
                    id = e.transport_bundle_key;
                    transportation_id = none;
                    version = v;
                    payload = marshal after;
                  }
                  ∷ [])
                next,
        held ∙ rw (changed, (==_iff put.uid put.uid).1 refl),
      )
