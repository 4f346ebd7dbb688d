-- ===== src/StatusDb/Handlers/Complete.antt =====
-- policies_db_syncer.go: what the calls of `handleCompleteComplianceBundle` are, row by row.
use multicluster_global_hub.Base.{
  String, ◌≡◌, refl, ap, subst, ◌∙◌, inl, inr, true, false, not, ◌&&◌, Option, none, some, List, [],
  ◌∷◌, ◌++◌, map, arith, ◌==◌, ==_iff, string_key, nat_key, Bool-cases, is_some, any,
}
use multicluster_global_hub.Base.Maps.{lookup, erase, lookup-erase}
use multicluster_global_hub.StatusDb.{
  status_key, ComplianceStatus, Row, has_row, sets_of, PolicyClusterSets, get_clusters,
}
use multicluster_global_hub.StatusDb.Handlers.{
  CompleteCompliance, mark_status, handle_complete_status, update_all, complete_compliance_calls,
}
use multicluster_global_hub.StatusDb.Batches.Policies.{Call, update_cluster, update_policy}
use multicluster_global_hub.Compliance.{SetApi}
use multicluster_global_hub.StatusDb.Batches.Calls.{
  pick, as_update, any-pick-append, pick-append, as_policy_update,
}
use multicluster_global_hub.StatusDb.Handlers.Marks.{
  mark_status_others, find_complete, IsCompleteBundle, update_all_others, ReadsNonCompliant,
  asks_status, complete_status_in, handle_complete_status_updates, or_false,
}

module _ (sets : SetApi) where
  open sets use {StringSet, contains, items, remove, union}

  handle_complete_status_others {κ} :
      {B : Type κ} (f : Call → Option B) (o : CompleteCompliance) (db : PolicyClusterSets sets)
      → ((r : Row) → f (update_cluster r) ≡ none)
      → pick f (handle_complete_status sets o db) ≡ []
  unfolding handle_complete_status
  handle_complete_status_others f o db h =
      let p = o.policy_id in
      let nc = get_clusters sets db ComplianceStatus.non_compliant in
      let un = get_clusters sets db ComplianceStatus.unknown in
      let a = mark_status sets p ComplianceStatus.non_compliant o.non_compliant (union nc un) nc in
      let b = mark_status sets p ComplianceStatus.unknown o.unknown a.1 un in
      pick-append f (a.0 ++ b.0) (update_all p ComplianceStatus.compliant (items b.1))
      ∙ rw (
        pick-append f a.0 b.0,
        mark_status_others sets f p ComplianceStatus.non_compliant o.non_compliant (union nc un) nc
            h,
        mark_status_others sets f p ComplianceStatus.unknown o.unknown a.1 un h,
        update_all_others sets f p ComplianceStatus.compliant (items b.1) h,
      )

  update_leftovers_others {κ μ} :
      {A : Type κ} {B : Type μ} (f : Call → Option B) (left : List (String × A))
      → ((p : String) → f (update_policy p ComplianceStatus.compliant) ≡ none)
      → pick f (map (λ e. update_policy e.0 ComplianceStatus.compliant) left) ≡ []
  update_leftovers_others f [] h = refl
  update_leftovers_others f (e ∷ left) h = ground (arith, h e.0, update_leftovers_others f left h)

  pub complete_compliance_others {κ} :
      {B : Type κ} (f : Call → Option B) (os : List CompleteCompliance)
      (left : List (String × PolicyClusterSets sets))
      → ((r : Row) → f (update_cluster r) ≡ none)
      → ((p : String) → f (update_policy p ComplianceStatus.compliant) ≡ none)
      → pick f (complete_compliance_calls sets os left) ≡ []
  unfolding complete_compliance_calls
  complete_compliance_others f [] left u h = update_leftovers_others f left h
  complete_compliance_others f (o ∷ os) left u h =
      let here = handle_complete_status sets o (sets_of sets o.policy_id left) in
      let rest = complete_compliance_calls sets os (erase o.policy_id left) in
      pick-append f here rest
      ∙ rw (
        handle_complete_status_others f o (sets_of sets o.policy_id left) u,
        complete_compliance_others f os (erase o.policy_id left) u h,
      )

  policy_updates-left :
      (q : String) (left : List (String × PolicyClusterSets sets)) (s : ComplianceStatus)
      → any
          (λ e. e.0 == q && e.1 == s)
          (pick as_policy_update (map (λ e. update_policy e.0 ComplianceStatus.compliant) left))
        ≡ (ComplianceStatus.compliant == s && is_some (lookup q left))
  policy_updates-left q [] s = ground arith
  policy_updates-left q (e ∷ left) s = ground (arith, policy_updates-left q left s)

  -- The policies that the bundle leaves out become compliant.
  pub complete_compliance_policies :
      (q : String) (os : List CompleteCompliance) (left : List (String × PolicyClusterSets sets))
      (s : ComplianceStatus)
      → any
          (λ e. e.0 == q && e.1 == s)
          (pick as_policy_update (complete_compliance_calls sets os left))
        ≡ (ComplianceStatus.compliant == s
            && (not (is_some (find_complete q os)) && is_some (lookup q left)))
  unfolding complete_compliance_calls
  complete_compliance_policies q [] left s = policy_updates-left q left s
  complete_compliance_policies q (o ∷ os) left s =
      let here = handle_complete_status sets o (sets_of sets o.policy_id left) in
      let rest = complete_compliance_calls sets os (erase o.policy_id left) in
      ground (
        arith,
        any-pick-append (λ e. e.0 == q && e.1 == s) as_policy_update here rest,
        handle_complete_status_others as_policy_update o (sets_of sets o.policy_id left)
            (λ r. refl),
        complete_compliance_policies q os (erase o.policy_id left) s,
        lookup-erase o.policy_id q left,
      )

  module _ (held : String → String → Option ComplianceStatus) where
    abbrev ReadsAllNonCompliant :
        List CompleteCompliance → List (String × PolicyClusterSets sets) → Type 0
    ReadsAllNonCompliant os left =
        (p : String)
        → is_some (find_complete p os) ≡ true
        → (c : String) → ReadsNonCompliant sets (sets_of sets p left) c (held p c)

    ReadsAllNonCompliant-erase :
        (o : CompleteCompliance) (os : List CompleteCompliance)
        (left : List (String × PolicyClusterSets sets))
        → find_complete o.policy_id os ≡ none
        → ReadsAllNonCompliant (o ∷ os) left
        → ReadsAllNonCompliant os (erase o.policy_id left)
    unfolding sets_of
    ReadsAllNonCompliant-erase o os left fresh reads p found c s =
        elim (Bool-cases (o.policy_id == p)) [
          | inl e ↦
              let at = (==_iff o.policy_id p).0 e in
              ground (arith, subst (λ x. find_complete x os ≡ none) at fresh, found)
          | inr n ↦
              let r = reads p (ground (arith, n, found)) c s in
              ground (arith, n, r, lookup-erase o.policy_id p left)
        ]

    pub complete_compliance_updates :
        (os : List CompleteCompliance) (left : List (String × PolicyClusterSets sets))
        (q c : String) (s : ComplianceStatus)
        → IsCompleteBundle os
        → ReadsAllNonCompliant os left
        → has_row q c s (pick as_update (complete_compliance_calls sets os left))
          ≡ (elim (find_complete q os) [
            | none ↦ false
            | some o ↦ asks_status (held q c) (complete_status_in o c) s
          ])
    unfolding complete_compliance_calls
    complete_compliance_updates [] left q c s ok_bundle reads =
        ap (has_row q c s) (update_leftovers_others as_update left (λ p. refl))
    complete_compliance_updates (o ∷ os) left q c s (fresh, here, rest_ok) reads =
        let db = sets_of sets o.policy_id left in
        let ih =
          complete_compliance_updates os (erase o.policy_id left) q c s rest_ok
            (ReadsAllNonCompliant-erase o os left fresh reads) in
        let mine = reads o.policy_id (ground (arith, ==_iff o.policy_id o.policy_id)) c in
        let first = handle_complete_status_updates sets o db q c s (held o.policy_id c) here mine in
        let whole =
          any-pick-append (λ r. r.policy == q && (r.cluster == c && r.status == s)) as_update
            (handle_complete_status sets o db)
            (complete_compliance_calls sets os (erase o.policy_id left)) in
        elim (Bool-cases (o.policy_id == q)) [
          | inl e ↦
              let at = (==_iff o.policy_id q).0 e in
              let none_left = subst (λ x. find_complete x os ≡ none) at fresh in
              whole ∙ rw (first, ih, none_left, e, ap (λ x. held x c) at) (or_false _)
          | inr n ↦ whole ∙ rw (first, ih, n)
        ]
