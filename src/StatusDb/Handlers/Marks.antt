-- ===== src/StatusDb/Handlers/Marks.antt =====
-- policies_db_syncer.go: the calls of `handlePolicyCompleteComplianceStatus`, row by row.
use multicluster_global_hub.Base.{
  String, ◌≡◌, refl, sym, ap, ap₂, ◌∙◌, inl, inr, Bool, true, false, not, ◌&&◌, ◌||◌, Option, none,
  some, List, [], ◌∷◌, ◌++◌, arith, if◌then◌else◌, ◌==◌, ==_iff, string_key, nat_key, Bool-cases,
  is_some,
}
use multicluster_global_hub.StatusDb.{
  status_key, ComplianceStatus, Row, has_row, PolicyClusterSets, get_clusters,
}
use multicluster_global_hub.StatusDb.Handlers.{
  CompleteCompliance, mark_status, handle_complete_status, update_all,
}
use multicluster_global_hub.StatusDb.Batches.Policies.{Call, update_cluster}
use multicluster_global_hub.Compliance.{SetApi, member}
use multicluster_global_hub.StatusDb.Batches.Calls.{
  distinct, pick, as_update, any-pick-append, distinct-append,
}
use multicluster_global_hub.StatusDb.Handlers.Specific.{is_status}

abbrev pub find_complete : String → List CompleteCompliance → Option CompleteCompliance
find_complete id [] = none
find_complete id (o ∷ os) = if o.policy_id == id then some o else find_complete id os

-- No two objects are of one policy, and none lists a cluster twice.
abbrev pub IsCompleteBundle : List CompleteCompliance → Type 0
IsCompleteBundle [] = Unit
IsCompleteBundle (o ∷ os) =
    (find_complete o.policy_id os ≡ none)
    × (distinct (o.non_compliant ++ o.unknown) ≡ true)
    × IsCompleteBundle os

-- The status of a cluster, which is compliant when it is not listed.
abbrev pub complete_status_in : CompleteCompliance → String → ComplianceStatus
complete_status_in o c =
    if member c o.non_compliant
    then ComplianceStatus.non_compliant
    else if member c o.unknown
    then ComplianceStatus.unknown
    else ComplianceStatus.compliant

-- What is asked for a row that is to have the status `want`.
abbrev pub asks_status : Option ComplianceStatus → (want s : ComplianceStatus) → Bool
asks_status held want s =
    want == s && (not (is_status held s) && (is_some held || not (s == ComplianceStatus.compliant)))

pub or_false : (b : Bool) → (b || false) ≡ b
or_false true = refl
or_false false = refl

module _ (sets : SetApi) where
  open sets use {StringSet, contains, items, remove, union}

  mark_seen :
      (pq st xc later there rest : Bool)
      → rest ≡ ((pq && st) && (later && not there))
      → (xc ≡ true → there ≡ true)
      → rest ≡ ((pq && st) && ((xc || later) && not there))
  mark_seen pq st true later there rest ih at = ih ∙ rw (at refl) (ground arith)
  mark_seen pq st false later there rest ih at = ih

  mark_new :
      (pq st xc later there rest : Bool)
      → rest ≡ ((pq && st) && (later && not there))
      → (xc ≡ true → there ≡ false)
      → ((pq && (xc && st)) || rest) ≡ ((pq && st) && ((xc || later) && not there))
  mark_new pq st true later there rest ih at = rw (ih, at refl) (ground arith)
  mark_new pq st false later there rest ih at = rw ih (ground arith)

  mark_status_left :
      (p : String) (s : ComplianceStatus) (cs : List String) (left typed : StringSet) (c : String)
      → contains (mark_status sets p s cs left typed).1 c ≡ (contains left c && not (member c cs))
  unfolding mark_status
  mark_status_left p s [] left typed c = ground arith
  mark_status_left p s (x ∷ cs) left typed c =
      ground (arith, mark_status_left p s cs (remove x left) typed c, sets.contains-remove x c left)

  mark_status_updates :
      (p : String) (s : ComplianceStatus) (cs : List String) (left typed : StringSet) (q c : String)
      (t : ComplianceStatus)
      → has_row q c t (pick as_update (mark_status sets p s cs left typed).0)
        ≡ ((p == q && s == t) && (member c cs && not (contains typed c)))
  unfolding mark_status
  mark_status_updates p s [] left typed q c t = ground arith
  mark_status_updates p s (x ∷ cs) left typed q c t =
      let ih = mark_status_updates p s cs (remove x left) typed q c t in
      let at : (x == c) ≡ true → contains typed c ≡ contains typed x =
        λ e. ap (contains typed) (sym ((==_iff x c).0 e)) in
      elim (Bool-cases (contains typed x)) [
        | inl k ↦ rw k (
            mark_seen (p == q) (s == t) (x == c) (member c cs) (contains typed c) _ ih
              (λ e. at e ∙ k))
        | inr k ↦ rw k (
            mark_new (p == q) (s == t) (x == c) (member c cs) (contains typed c) _ ih
              (λ e. at e ∙ k))
      ]

  pub mark_status_others {κ} :
      {B : Type κ} (f : Call → Option B) (p : String) (s : ComplianceStatus) (cs : List String)
      (left typed : StringSet)
      → ((r : Row) → f (update_cluster r) ≡ none)
      → pick f (mark_status sets p s cs left typed).0 ≡ []
  unfolding mark_status
  mark_status_others f p s [] left typed u = refl
  mark_status_others f p s (x ∷ cs) left typed u =
      let ih = mark_status_others f p s cs (remove x left) typed u in
      let row : Row = record { policy = p; cluster = x; status = s } in
      elim (Bool-cases (contains typed x)) [
        | inl k ↦ ground (arith, k, ih)
        | inr k ↦ ground (arith, k, ih, u row)
      ]

  pub update_all_updates :
      (p : String) (s : ComplianceStatus) (cs : List String) (q c : String) (t : ComplianceStatus)
      → has_row q c t (pick as_update (update_all p s cs)) ≡ ((p == q && s == t) && member c cs)
  update_all_updates p s [] q c t = ground arith
  update_all_updates p s (x ∷ cs) q c t = ground (arith, update_all_updates p s cs q c t)

  pub update_all_others {κ} :
      {B : Type κ} (f : Call → Option B) (p : String) (s : ComplianceStatus) (cs : List String)
      → ((r : Row) → f (update_cluster r) ≡ none)
      → pick f (update_all p s cs) ≡ []
  update_all_others f p s [] u = refl
  update_all_others f p s (x ∷ cs) u =
      let row : Row = record { policy = p; cluster = x; status = s } in
      ground (arith, u row, update_all_others f p s cs u)

  -- The sets of the rows that are not compliant agree with the table.
  abbrev pub ReadsNonCompliant : PolicyClusterSets sets → String → Option ComplianceStatus → Type 0
  ReadsNonCompliant db c held =
      (s : ComplianceStatus)
      → contains (get_clusters sets db s) c
        ≡ (is_status held s && not (s == ComplianceStatus.compliant))

  abbrev or_of : Bool → Bool → Bool
  or_of a b = a || b

  complete_asks :
      (pq m n : Bool) (held : Option ComplianceStatus) (s : ComplianceStatus)
      → (m && n) ≡ false
      → (((pq && ComplianceStatus.non_compliant == s)
              && (m && not (is_status held ComplianceStatus.non_compliant && true))
            || (pq && ComplianceStatus.unknown == s)
              && (n && not (is_status held ComplianceStatus.unknown && true)))
          || (pq && ComplianceStatus.compliant == s)
            && (((is_status held ComplianceStatus.non_compliant && true
                    || is_status held ComplianceStatus.unknown && true)
                  && not m)
                && not n))
        ≡ (pq
            && asks_status held
                (if m
                  then ComplianceStatus.non_compliant
                  else if n
                  then ComplianceStatus.unknown
                  else ComplianceStatus.compliant)
                s)
  complete_asks false m n held s apart = refl
  complete_asks true true n held s apart = ground (arith, apart)
  complete_asks true false true held s apart = ground (arith, apart)
  complete_asks true false false held s apart = ground (arith, apart)

  pub handle_complete_status_updates :
      (o : CompleteCompliance) (db : PolicyClusterSets sets) (q c : String) (s : ComplianceStatus)
      (held : Option ComplianceStatus)
      → distinct (o.non_compliant ++ o.unknown) ≡ true
      → ReadsNonCompliant db c held
      → has_row q c s (pick as_update (handle_complete_status sets o db))
        ≡ (o.policy_id == q && asks_status held (complete_status_in o c) s)
  unfolding handle_complete_status
  handle_complete_status_updates o db q c s held once reads =
      let p = o.policy_id in
      let nc = get_clusters sets db ComplianceStatus.non_compliant in
      let un = get_clusters sets db ComplianceStatus.unknown in
      let a = mark_status sets p ComplianceStatus.non_compliant o.non_compliant (union nc un) nc in
      let b = mark_status sets p ComplianceStatus.unknown o.unknown a.1 un in
      let rest = update_all p ComplianceStatus.compliant (items b.1) in
      let g = λ (r : Row). r.policy == q && (r.cluster == c && r.status == s) in
      let whole = any-pick-append g as_update (a.0 ++ b.0) rest in
      let front = any-pick-append g as_update a.0 b.0 in
      let apart = (distinct-append o.non_compliant o.unknown once).2 c in
      let ua =
        mark_status_updates p ComplianceStatus.non_compliant o.non_compliant (union nc un) nc q c
          s in
      let ub = mark_status_updates p ComplianceStatus.unknown o.unknown a.1 un q c s in
      let ur = update_all_updates p ComplianceStatus.compliant (items b.1) q c s in
      let la =
        mark_status_left p ComplianceStatus.non_compliant o.non_compliant (union nc un) nc c in
      let lb = mark_status_left p ComplianceStatus.unknown o.unknown a.1 un c in
      let u = sets.contains-union c nc un in
      let m = sets.member-items c b.1 in
      let rn = reads ComplianceStatus.non_compliant in
      let ru = reads ComplianceStatus.unknown in
      whole
      ∙ ap₂ or_of (front ∙ ap₂ or_of ua ub) ur
      ∙ rw (m, lb, la, u, rn, ru)
          (complete_asks (p == q) (member c o.non_compliant) (member c o.unknown) held s apart)
