-- ===== src/StatusDb/Handlers/Bundles.antt =====
-- policies_db_syncer.go: the calls for a whole `ClustersPerPolicyBundle`.
use multicluster_global_hub.Base.{
  String, ◌≡◌, refl, ap, subst, inl, inr, Bool, true, false, not, ◌&&◌, Option, none, some, List,
  [], ◌∷◌, map, arith, ◌==◌, ==_iff, string_key, nat_key, Bool-cases, is_some, any,
}
use multicluster_global_hub.Base.Maps.{lookup, erase, lookup-erase}
use multicluster_global_hub.StatusDb.{
  status_key, sets_of, ComplianceStatus, PolicyClusterSets, has_row,
}
use multicluster_global_hub.Compliance.{PolicyCompliance, SetApi, member}
use multicluster_global_hub.Compliance.Inherit.{find_policy, HasDistinctIds}
use multicluster_global_hub.StatusDb.Handlers.{clusters_per_policy_calls, handle_cluster_per_policy}
use multicluster_global_hub.StatusDb.Batches.Calls.{
  pick, as_insert, any-pick-append, as_update, drops, as_policy_update, as_drop, as_policy_drop,
  pick-append,
}
use multicluster_global_hub.StatusDb.Batches.Policies.{Call, delete_policy}
use multicluster_global_hub.StatusDb.Handlers.Specific.{ListsOnce, is_status, status_in}
use multicluster_global_hub.StatusDb.Handlers.ClustersPerPolicy.{
  Reads, handle_cluster_per_policy_others, handle_cluster_per_policy_inserts,
  handle_cluster_per_policy_updates, drops-handle_cluster_per_policy,
}

abbrev pub AllListOnce : List PolicyCompliance → Type 0
AllListOnce [] = Unit
AllListOnce (o ∷ os) = ListsOnce o × AllListOnce os

module _ (sets : SetApi) (held : String → String → Option ComplianceStatus) where
  -- For the policies of the bundle, the sets that were read are what the table holds.
  abbrev pub ReadsAll : List PolicyCompliance → List (String × PolicyClusterSets sets) → Type 0
  ReadsAll os left =
      (p : String)
      → is_some (find_policy p os) ≡ true
      → (c : String) → Reads sets (sets_of sets p left) c (held p c)

  ReadsAll-erase :
      (o : PolicyCompliance) (os : List PolicyCompliance)
      (left : List (String × PolicyClusterSets sets))
      → HasDistinctIds (o ∷ os)
      → ReadsAll (o ∷ os) left
      → ReadsAll os (erase o.policy_id left)
  unfolding sets_of
  ReadsAll-erase o os left (fresh, d) reads p found c s = elim (Bool-cases (o.policy_id == p)) [
    | inl e ↦
        let at = (==_iff o.policy_id p).0 e in
        ground (arith, subst (λ x. find_policy x os ≡ none) at fresh, found)
    | inr n ↦
        let r = reads p (ground (arith, n, found)) c s in
        ground (arith, n, r, lookup-erase o.policy_id p left)
  ]

  at_policy : (p q c : String) → (p == q) ≡ true → held p c ≡ held q c
  at_policy p q c e = ap (λ x. held x c) ((==_iff p q).0 e)

  -- What the head of the bundle is asked for, and what is asked for a policy elsewhere.
  abbrev of_policy : String → List PolicyCompliance → (PolicyCompliance → Bool) → Bool
  of_policy q os f = elim (find_policy q os) [ none ↦ false | some o ↦ f o ]

  pick-delete_policy {κ μ} :
      {A : Type κ} {B : Type μ} (f : Call → Option B) (left : List (String × A))
      → ((p : String) → f (delete_policy p) ≡ none)
      → pick f (map (λ e. delete_policy e.0) left) ≡ []
  pick-delete_policy f [] h = refl
  pick-delete_policy f (e ∷ left) h = ground (arith, h e.0, pick-delete_policy f left h)

  -- A test of the rows asked for, which the calls for each policy settle.
  clusters_per_policy_any {κ} :
      {B : Type κ} (g : B → Bool) (f : Call → Option B) (asks : PolicyCompliance → Bool)
      (q c : String) (os : List PolicyCompliance) (left : List (String × PolicyClusterSets sets))
      → ((p : String) → f (delete_policy p) ≡ none)
      → ((o : PolicyCompliance) (db : PolicyClusterSets sets)
          → ListsOnce o
          → Reads sets db c (held o.policy_id c)
          → any g (pick f (handle_cluster_per_policy sets o db)) ≡ (o.policy_id == q && asks o))
      → HasDistinctIds os
      → AllListOnce os
      → ReadsAll os left
      → any g (pick f (clusters_per_policy_calls sets os left)) ≡ of_policy q os asks
  unfolding clusters_per_policy_calls
  clusters_per_policy_any g f asks q c [] left h each d once reads =
      ap (any g) (pick-delete_policy f left h)
  clusters_per_policy_any g f asks q c (o ∷ os) left h each (fresh, d) (here, once) reads =
      let others = erase o.policy_id left in
      let ih =
        clusters_per_policy_any g f asks q c os others h each d once
          (ReadsAll-erase o os left (fresh, d) reads) in
      let db = sets_of sets o.policy_id left in
      let mine = reads o.policy_id (ground (arith, ==_iff o.policy_id o.policy_id)) c in
      let first = each o db here mine in
      let whole =
        any-pick-append g f (handle_cluster_per_policy sets o db)
          (clusters_per_policy_calls sets os others) in
      elim (Bool-cases (o.policy_id == q)) [
        | inl e ↦
            let none_left =
              subst (λ x. find_policy x os ≡ none) ((==_iff o.policy_id q).0 e) fresh in
            ground (arith, e, ih, first, whole, none_left)
        | inr n ↦ ground (arith, n, ih, first, whole)
      ]

  module _ (os : List PolicyCompliance) (left : List (String × PolicyClusterSets sets))
      (d : HasDistinctIds os) (once : AllListOnce os) (reads : ReadsAll os left) where
    pub clusters_per_policy_inserts :
        (q c : String) (s : ComplianceStatus)
        → has_row q c s (pick as_insert (clusters_per_policy_calls sets os left))
          ≡ of_policy q os (λ o. not (is_some (held q c)) && is_status (status_in o c) s)
    clusters_per_policy_inserts q c s =
        clusters_per_policy_any (λ r. r.policy == q && (r.cluster == c && r.status == s)) as_insert
          (λ o. not (is_some (held q c)) && is_status (status_in o c) s) q c os left (λ p. refl)
          (λ o db here mine. ground (
            arith,
            handle_cluster_per_policy_inserts sets o db q c s (held o.policy_id c) here mine,
            at_policy o.policy_id q c,
          ))
          d once reads

    pub clusters_per_policy_updates :
        (q c : String) (s : ComplianceStatus)
        → has_row q c s (pick as_update (clusters_per_policy_calls sets os left))
          ≡ of_policy q os (λ o.
            is_some (held q c) && (not (is_status (held q c) s) && is_status (status_in o c) s))
    clusters_per_policy_updates q c s =
        clusters_per_policy_any (λ r. r.policy == q && (r.cluster == c && r.status == s)) as_update
          (λ o. is_some (held q c) && (not (is_status (held q c) s) && is_status (status_in o c) s))
          q c os left (λ p. refl)
          (λ o db here mine. ground (
            arith,
            handle_cluster_per_policy_updates sets o db q c s (held o.policy_id c) here mine,
            at_policy o.policy_id q c,
          ))
          d once reads

    pub clusters_per_policy_drops :
        (q c : String)
        → drops q c (pick as_drop (clusters_per_policy_calls sets os left))
          ≡ of_policy q os (λ o. is_some (held q c) && not (is_some (status_in o c)))
    clusters_per_policy_drops q c =
        clusters_per_policy_any (λ e. e.0 == q && e.1 == c) as_drop
          (λ o. is_some (held q c) && not (is_some (status_in o c))) q c os left (λ p. refl)
          (λ o db here mine. ground (
            arith,
            drops-handle_cluster_per_policy sets o db q c (held o.policy_id c) mine,
            at_policy o.policy_id q c,
          ))
          d once reads

  drops-left :
      (q : String) (left : List (String × PolicyClusterSets sets))
      → member q (pick as_policy_drop (map (λ e. delete_policy e.0) left)) ≡ is_some (lookup q left)
  drops-left q [] = refl
  drops-left q (e ∷ left) = ground (arith, drops-left q left)

  pub clusters_per_policy_policy_drops :
      (q : String) (os : List PolicyCompliance) (left : List (String × PolicyClusterSets sets))
      → member q (pick as_policy_drop (clusters_per_policy_calls sets os left))
        ≡ (not (is_some (find_policy q os)) && is_some (lookup q left))
  unfolding clusters_per_policy_calls
  clusters_per_policy_policy_drops q [] left = drops-left q left
  clusters_per_policy_policy_drops q (o ∷ os) left =
      let first = handle_cluster_per_policy sets o (sets_of sets o.policy_id left) in
      let rest = clusters_per_policy_calls sets os (erase o.policy_id left) in
      ground (
        arith,
        any-pick-append (λ x. x == q) as_policy_drop first rest,
        handle_cluster_per_policy_others sets as_policy_drop o (sets_of sets o.policy_id left)
            (λ r. refl) (λ r. refl) (λ p c. refl),
        clusters_per_policy_policy_drops q os (erase o.policy_id left),
        lookup-erase o.policy_id q left,
      )

  pub clusters_per_policy_policy_updates :
      (os : List PolicyCompliance) (left : List (String × PolicyClusterSets sets))
      → pick as_policy_update (clusters_per_policy_calls sets os left) ≡ []
  unfolding clusters_per_policy_calls
  clusters_per_policy_policy_updates [] left = pick-delete_policy as_policy_update left (λ p. refl)
  clusters_per_policy_policy_updates (o ∷ os) left =
      let first = handle_cluster_per_policy sets o (sets_of sets o.policy_id left) in
      let rest = clusters_per_policy_calls sets os (erase o.policy_id left) in
      ground (
        arith,
        pick-append as_policy_update first rest,
        handle_cluster_per_policy_others sets as_policy_update o (sets_of sets o.policy_id left)
            (λ r. refl) (λ r. refl) (λ p c. refl),
        clusters_per_policy_policy_updates os (erase o.policy_id left),
      )
