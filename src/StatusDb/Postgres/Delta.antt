-- ===== src/StatusDb/Postgres/Delta.antt =====
-- policies_db_syncer.go: the table after a `DeltaComplianceStatusBundle`.
use multicluster_global_hub.Base.{
  ◌<◌, String, ◌≡◌, refl, ap, subst, ◌∙◌, inl, inr, ◌&&◌, Option, none, some, List, [], ◌∷◌, ◌++◌,
  arith, ◌==◌, ==_iff, string_key, nat_key, Bool-cases, Option-cases, is_some, length, any,
}
use multicluster_global_hub.StatusDb.{status_key, ComplianceStatus, Row, has_row, names_row}
use multicluster_global_hub.StatusDb.Postgres.Complete.{restated}
use multicluster_global_hub.Compliance.{SetApi, PolicyCompliance, member}
use multicluster_global_hub.StatusDb.Handlers.{
  handle_delta_status, delta_compliance_calls, update_all,
}
use multicluster_global_hub.StatusDb.Postgres.{PostgresApi, handle_delta_compliance_bundle}
use multicluster_global_hub.StatusDb.Batches.Policies.{Call, update_cluster}
use multicluster_global_hub.Compliance.Inherit.{HasDistinctIds, find_policy}
use multicluster_global_hub.StatusDb.Batches.Calls.{
  pick, as_update, any-pick-append, as_policy_drop, as_insert, as_policy_update, drops, as_drop,
  pick-append,
}
use multicluster_global_hub.StatusDb.Handlers.Bundles.{AllListOnce}
use multicluster_global_hub.StatusDb.Postgres.Sent.{RowEffect, RowEnds, send_calls-RowEnds}
use multicluster_global_hub.StatusDb.Postgres.Refinement.{listed_in}
use multicluster_global_hub.StatusDb.Postgres.Settled.{names_row-none, Updated-one}
use multicluster_global_hub.StatusDb.Handlers.Specific.{ListsOnce, is_status, status_in, once_lem}
use multicluster_global_hub.StatusDb.Handlers.Marks.{update_all_others, update_all_updates}

-- A row takes the status that the bundle lists for it, if the row is there and is listed.
abbrev pub updated_by : Option ComplianceStatus → Option ComplianceStatus → Option ComplianceStatus
updated_by held none = held
updated_by held (some s) = restated held s

module _ (sets : SetApi) where
  delta_status_updates :
      (o : PolicyCompliance) (q c : String) (s : ComplianceStatus)
      → ListsOnce o
      → has_row q c s (pick as_update (handle_delta_status o))
        ≡ (o.policy_id == q && is_status (status_in o c) s)
  unfolding handle_delta_status
  delta_status_updates o q c s once =
      let g = λ (r : Row). r.policy == q && (r.cluster == c && r.status == s) in
      let p = o.policy_id in
      let a = update_all p ComplianceStatus.compliant o.compliant in
      let b = update_all p ComplianceStatus.non_compliant o.non_compliant in
      let d = update_all p ComplianceStatus.unknown o.unknown in
      let (x, y, z, n₁, n₂, n₃) = once_lem o c once in
      ground (
        arith,
        n₁,
        n₂,
        n₃,
        any-pick-append g as_update (a ++ b) d,
        any-pick-append g as_update a b,
        update_all_updates sets p ComplianceStatus.compliant o.compliant q c s,
        update_all_updates sets p ComplianceStatus.non_compliant o.non_compliant q c s,
        update_all_updates sets p ComplianceStatus.unknown o.unknown q c s,
      )

  delta_status_others {κ} :
      {B : Type κ} (f : Call → Option B) (o : PolicyCompliance)
      → ((r : Row) → f (update_cluster r) ≡ none)
      → pick f (handle_delta_status o) ≡ []
  unfolding handle_delta_status
  delta_status_others f o h =
      let p = o.policy_id in
      let a = update_all p ComplianceStatus.compliant o.compliant in
      let b = update_all p ComplianceStatus.non_compliant o.non_compliant in
      pick-append f (a ++ b) (update_all p ComplianceStatus.unknown o.unknown)
      ∙ rw (
        pick-append f a b,
        update_all_others sets f p ComplianceStatus.compliant o.compliant h,
        update_all_others sets f p ComplianceStatus.non_compliant o.non_compliant h,
        update_all_others sets f p ComplianceStatus.unknown o.unknown h,
      )

  delta_compliance_others {κ} :
      {B : Type κ} (f : Call → Option B) (os : List PolicyCompliance)
      → ((r : Row) → f (update_cluster r) ≡ none)
      → pick f (delta_compliance_calls os) ≡ []
  unfolding delta_compliance_calls
  delta_compliance_others f [] h = refl
  delta_compliance_others f (o ∷ os) h =
      pick-append f (handle_delta_status o) (delta_compliance_calls os)
      ∙ rw (delta_status_others f o h, delta_compliance_others f os h)

  delta_compliance_updates :
      (os : List PolicyCompliance) (q c : String) (s : ComplianceStatus)
      → HasDistinctIds os
      → AllListOnce os
      → has_row q c s (pick as_update (delta_compliance_calls os)) ≡ is_status (listed_in os q c) s
  unfolding delta_compliance_calls
  delta_compliance_updates [] q c s d once = refl
  delta_compliance_updates (o ∷ os) q c s (fresh, d) (here, once) =
      let g = λ (r : Row). r.policy == q && (r.cluster == c && r.status == s) in
      let whole = any-pick-append g as_update (handle_delta_status o) (delta_compliance_calls os) in
      let first = delta_status_updates o q c s here in
      let ih = delta_compliance_updates os q c s d once in
      elim (Bool-cases (o.policy_id == q)) [
        | inl e ↦
            let none_left =
              subst (λ x. find_policy x os ≡ none) ((==_iff o.policy_id q).0 e) fresh in
            ground (arith, e, ih, first, whole, none_left)
        | inr n ↦ ground (arith, n, ih, first, whole)
      ]

same_status_sym : (a b : ComplianceStatus) → (a == b) ≡ (b == a)
same_status_sym a b = ground arith

module _ (sets : SetApi) (postgres : PostgresApi) where
  open postgres use {Db, Error, row}

  settled_delta :
      (objects : List PolicyCompliance) (p c : String) (held after : Option ComplianceStatus)
      → HasDistinctIds objects
      → AllListOnce objects
      → RowEffect (delta_compliance_calls objects) p c held after
      → after ≡ updated_by held (listed_in objects p c)
  settled_delta objects p c held after d once f =
      let calls = delta_compliance_calls objects in
      let no_drop =
        ap (member p) (delta_compliance_others sets as_policy_drop objects (λ r. refl)) in
      let no_insert =
        ap (names_row p c) (delta_compliance_others sets as_insert objects (λ r. refl)) in
      let no_policy =
        ap (any (λ e. e.0 == p))
          (delta_compliance_others sets as_policy_update objects (λ r. refl)) in
      let no_row_drop = ap (drops p c) (delta_compliance_others sets as_drop objects (λ r. refl)) in
      let ups = λ (s : ComplianceStatus). delta_compliance_updates sets objects p c s d once in
      let left : f.left ≡ held =
        f.left_lem
        ∙ rw no_row_drop
            (f.settled_lem.1 no_policy ∙ f.inserted_lem.1 no_insert ∙ f.kept_lem ∙ rw no_drop) in
      elim (Option-cases (listed_in objects p c)) [
        | inl n ↦ rw n (f.after_lem.1 (names_row-none _ p c (λ s. ups s ∙ rw n)) ∙ left)
        | inr (w, e) ↦ elim (Option-cases held) [
          | inl h ↦ rw (e, h) (f.after_lem.0 (left ∙ h))
          | inr (old, h) ↦
              rw (e, h)
                (Updated-one _ p c f.left after w f.after_lem (ap is_some (left ∙ h))
                  (λ s. ups s ∙ rw e (same_status_sym w s)))
        ]
      ]

  -- On a bundle that has each policy and each cluster of a policy once and gives rise to fewer
  -- than 13108 calls, `handleDeltaComplianceBundle` either returns no error, and each row of the
  -- leaf hub that the bundle lists has its listed status, with the other rows as they were and
  -- none added, or returns an error, and the table is as it was.
  pub handle_delta_compliance_bundle_refines :
      (hub : String) (objects : List PolicyCompliance) (db : Db)
      → HasDistinctIds objects
      → AllListOnce objects
      → length (delta_compliance_calls objects) < 13108
      → (p c : String)
      → RowEnds postgres hub p c db
          (updated_by (row db hub p c) (listed_in objects p c))
          (handle_delta_compliance_bundle postgres hub objects db)
  unfolding handle_delta_compliance_bundle
  handle_delta_compliance_bundle_refines hub objects db d once fits p c =
      send_calls-RowEnds postgres hub _ db p c _ fits
        (λ after. settled_delta objects p c (row db hub p c) after d once)
