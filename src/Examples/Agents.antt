-- ===== src/Examples/Agents.antt =====
-- A controller with one bundle on a cluster of one object.
use multicluster_global_hub.Base.{
  String, ◌≡◌, refl, Bool, true, false, Option, none, some, [], ◌∷◌, arith, ◌==◌, string_key,
  nat_key, ok,
}
use multicluster_global_hub.Agent.StatusBundle.{
  Object, update_object, StatusBundle, object_at, next_generation, is_changed, update_object_lem,
}
use multicluster_global_hub.Agent.StatusSync.{
  ClientApi, Entry, sync_bundles, add_finalizer, new_entry, clean_object, reconcile,
}
use multicluster_global_hub.Agent.Sends.{status_api, reconcile-sync_bundles}

abbrev placement : Object
placement = record {
  uid = "u1";
  resource_version = "7";
  finalizers = [];
  being_deleted = false;
  body = "placement";
}

abbrev one_object : ClientApi
one_object = record {
  Cluster = Object;
  Error = String;
  is_not_found = λ e. e == "not found";
  is_modified = λ e. e == "the object has been modified";
  get = λ name o. ok o;
  update = λ o old. (o, ok o);
}

abbrev without_body : Object → Object
without_body o = record o { body = "" }

abbrev as_json : StatusBundle → Option String
as_json b = some "bundle"

abbrev sent_before : StatusBundle
sent_before = record {
  objects = record placement { resource_version = "6"; body = "" } ∷ [];
  leaf_hub_name = "hub1";
  version = record { incarnation = 2; generation = 4 };
}

abbrev placements : Entry StatusBundle Bool
placements = new_entry (status_api without_body as_json) "hub1.Placement" sent_before (λ on. on)

update_object_lem_example :
    (object_at "u1" (update_object without_body placement sent_before).objects
      ≡ some (without_body placement))
    × ((update_object without_body placement sent_before).version ≡ next_generation sent_before)
update_object_lem_example = update_object_lem without_body placement sent_before "u1"

finalizer_added : (add_finalizer one_object "hub" placement placement).2 ≡ none
unfolding add_finalizer
finalizer_added = refl

new_version :
    is_changed
      (object_at "u1" sent_before.objects)
      (without_body (clean_object (add_finalizer one_object "hub" placement placement).0))
    ≡ true
unfolding add_finalizer
new_version = refl

same_uid : (add_finalizer one_object "hub" placement placement).0.uid ≡ "u1"
unfolding add_finalizer
same_uid = refl

reconcile-sync_bundles_example :
    let put = without_body (clean_object (add_finalizer one_object "hub" placement placement).0) in
    let api = status_api without_body as_json in
    let after =
      update_object without_body
        (clean_object (add_finalizer one_object "hub" placement placement).0)
        sent_before in
    ((sync_bundles api true
        (reconcile api one_object "hub" "placement" placement (placements ∷ [])).1).1
      ≡ record {
        id = "hub1.Placement";
        transportation_id = none;
        version = next_generation sent_before;
        payload = some "bundle";
      }
        ∷ [])
    × (object_at put.uid after.objects ≡ some put)
unfolding add_finalizer
reconcile-sync_bundles_example =
    reconcile-sync_bundles without_body as_json one_object "hub" "placement" placement true
      placements placement refl refl finalizer_added refl (refl, omega arith) new_version
