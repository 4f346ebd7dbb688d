-- ===== src/Agent/StatusSync.antt =====
-- agent/pkg/status/controller/generic: generic_status_sync_controller.go and
-- bundle_collection_entry.go. The Kubernetes client is a parameter, and so are the bundles, each of
-- which acts on itself alone (the delta bundle of compliance, which also reads its base, is none of
-- these). No collection of the agent has two bundles that change the object they are given, so
-- each bundle gets the object as the controller has it. A lock spans each of the two ways to
-- change the bundles and the sending, so each is one step.
use multicluster_global_hub.Base.{
  ℕ, String, ◌≡◌, Bool, true, false, ◌&&◌, Option, none, some, List, [], ◌∷◌, ◌++◌, arith,
  if◌then◌else◌, ◌==◌, string_key, nat_key, Result, ok, err,
}
use multicluster_global_hub.Version.{BundleVersion, newer_than}
use multicluster_global_hub.Agent.StatusBundle.{Object}
use multicluster_global_hub.Compliance.{member}

-- `bundle.Bundle`; `transportation_id` is there for a `DeltaStateBundle`, and `marshal` is
-- json.Marshal.
pub record SyncApi (B : Type 0) : Type 0 where
  pub update : Object → B → B
  pub delete : Object → B → B
  pub version_of : B → BundleVersion
  pub transportation_id : B → Option ℕ
  pub marshal : B → Option String

-- `BundleCollectionEntry`; the predicate reads the configuration.
pub record Entry (B C : Type 0) : Type 0 where
  pub transport_bundle_key : String
  pub bundle : B
  pub predicate : C → Bool
  pub last_sent : BundleVersion

-- `producer.Message`: the key is the id, with `@` and the transportation id of a delta bundle. A
-- bundle that cannot be marshalled is logged and sent with no payload.
pub record Message : Type 0 where
  pub id : String
  pub transportation_id : Option ℕ
  pub version : BundleVersion
  pub payload : Option String

-- The Kubernetes client: what it reads, and an update, which writes the object that the server
-- returns to the one it was given.
pub record ClientApi : Type 1 where
  pub Cluster : Type 0
  pub Error : Type 0
  pub is_not_found : Error → Bool
  pub is_modified : Error → Bool
  pub get : String → Cluster → Result Error Object
  pub update : Object → Cluster → Cluster × Result Error Object

module _ {B C : Type 0} (api : SyncApi B) where
  abbrev pub new_entry : String → B → (C → Bool) → Entry B C
  new_entry key b predicate = record {
    transport_bundle_key = key;
    bundle = b;
    predicate = predicate;
    last_sent = api.version_of b;
  }

  -- The predicate holds, and the bundle has changed since it was sent.
  unfoldable pub is_due : C → Entry B C → Bool
  is_due config e = e.predicate config && newer_than (api.version_of e.bundle) (some e.last_sent)

  unfoldable pub send_if : Bool → Entry B C → Entry B C × List Message
  send_if false e = (e, [])
  send_if true e = (
    record e { last_sent = api.version_of e.bundle },
    record {
      id = e.transport_bundle_key;
      transportation_id = api.transportation_id e.bundle;
      version = api.version_of e.bundle;
      payload = api.marshal e.bundle;
    }
        ∷ [],
  )

  -- One round of the loop of `syncBundles`.
  unfoldable pub sync_entry : C → Entry B C → Entry B C × List Message
  unfolding is_due send_if
  sync_entry config e = send_if (is_due config e) e

  -- `syncBundles`, and the messages it sends.
  unfoldable pub sync_bundles : C → List (Entry B C) → List (Entry B C) × List Message
  unfolding sync_entry
  sync_bundles config [] = ([], [])
  sync_bundles config (e ∷ es) =
      let (e', sent) = sync_entry config e in
      let (es', rest) = sync_bundles config es in (e' ∷ es', sent ++ rest)

  unfoldable pub update_all_bundles : Object → List (Entry B C) → List (Entry B C)
  update_all_bundles o [] = []
  update_all_bundles o (e ∷ es) =
      record e { bundle = api.update o e.bundle } ∷ update_all_bundles o es

  unfoldable pub delete_from_bundles : Object → List (Entry B C) → List (Entry B C)
  delete_from_bundles o [] = []
  delete_from_bundles o (e ∷ es) =
      record e { bundle = api.delete o e.bundle } ∷ delete_from_bundles o es

-- What `cleanObject` clears of what is modelled of an object.
abbrev pub clean_object : Object → Object
clean_object o = record o { finalizers = [] }

module _ (client : ClientApi) (finalizer : String) where
  open client use {Cluster, Error, is_modified}

  unfoldable pub remove_finalizer_from : List String → List String
  remove_finalizer_from [] = []
  remove_finalizer_from (f ∷ fs) =
      let rest = remove_finalizer_from fs in if f == finalizer then rest else f ∷ rest

  -- `addFinalizer`, and the object with it; an object that was modified meanwhile is no error.
  unfoldable pub add_finalizer : Object → Cluster → Object × Cluster × Option Error
  add_finalizer o cluster =
      let with : Object = record o { finalizers = o.finalizers ++ finalizer ∷ [] } in
      let (cluster', r) = client.update with cluster in
      if member finalizer o.finalizers then (o, cluster, none) else elim r [
        | ok o' ↦ (o', cluster', none)
        | err f ↦ (with, cluster', if is_modified f then none else some f)
      ]

  unfoldable pub remove_finalizer : Object → Cluster → Cluster × Option Error
  unfolding remove_finalizer_from
  remove_finalizer o cluster =
      let without : Object = record o { finalizers = remove_finalizer_from o.finalizers } in
      let (cluster', r) = client.update without cluster in
      if member finalizer o.finalizers
      then (cluster', elim r [ ok o' ↦ none | err f ↦ some f ])
      else (cluster, none)

module _ {B C : Type 0} (api : SyncApi B) (client : ClientApi) (finalizer : String) where
  open client use {Cluster, Error, is_not_found, get}

  unfoldable pub update_object_and_finalizer :
      Object → Cluster → List (Entry B C) → Cluster × List (Entry B C) × Option Error
  unfolding add_finalizer update_all_bundles
  update_object_and_finalizer o cluster es =
      let (o', cluster', e) = add_finalizer client finalizer o cluster in
      elim e [
        | some f ↦ (cluster', es, some f)
        | none ↦ (cluster', update_all_bundles api (clean_object o') es, none)
      ]

  unfoldable pub delete_object_and_finalizer :
      Object → Cluster → List (Entry B C) → Cluster × List (Entry B C) × Option Error
  unfolding remove_finalizer delete_from_bundles
  delete_object_and_finalizer o cluster es =
      let (cluster', e) = remove_finalizer client finalizer o cluster in
      (cluster', delete_from_bundles api o es, e)

  -- `Reconcile`: with an error the request is queued again.
  unfoldable pub reconcile :
      String → Cluster → List (Entry B C) → Cluster × List (Entry B C) × Option Error
  unfolding update_object_and_finalizer delete_object_and_finalizer
  reconcile name cluster es = elim (get name cluster) [
    | err e ↦ (cluster, es, if is_not_found e then none else some e)
    | ok o ↦
        if o.being_deleted
        then delete_object_and_finalizer o cluster es
        else update_object_and_finalizer o cluster es
  ]

  -- A live object whose finalizer is there or was added reaches each bundle.
  pub reconcile_updates :
      (name : String) (cluster : Cluster) (es : List (Entry B C)) (o : Object)
      → get name cluster ≡ ok o
      → o.being_deleted ≡ false
      → (add_finalizer client finalizer o cluster).2 ≡ none
      → (reconcile name cluster es).1
        ≡ update_all_bundles api (clean_object (add_finalizer client finalizer o cluster).0) es
  unfolding reconcile update_object_and_finalizer
  reconcile_updates name cluster es o found alive added = ground (arith, found, alive, added)
