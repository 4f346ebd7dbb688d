-- ===== src/StatusDb/Handlers/Specific.antt =====
-- policies_db_syncer.go: the calls of `handleClustersPerPolicyWithSpecificCompliance`.
use multicluster_global_hub.Base.{
  String, ◌≡◌, refl, inl, inr, Bool, true, false, not, ◌&&◌, ◌||◌, Option, none, some, List, [],
  ◌∷◌, ◌++◌, arith, if◌then◌else◌, ◌==◌, ==_iff, string_key, nat_key, Bool-cases, is_some, any,
}
use multicluster_global_hub.StatusDb.{status_key, ComplianceStatus, Row, has_row}
use multicluster_global_hub.Compliance.{PolicyCompliance, SetApi, member}
use multicluster_global_hub.StatusDb.Batches.Calls.{
  distinct, pick, as_insert, as_update, any-pick-append, distinct-append, member-append,
}
use multicluster_global_hub.StatusDb.Handlers.{handle_specific}
use multicluster_global_hub.StatusDb.Batches.Policies.{Call, insert_row, update_cluster}

-- The status that a policy of a bundle lists for a cluster.
abbrev pub status_in : PolicyCompliance → String → Option ComplianceStatus
status_in o c =
    if member c o.compliant
    then some ComplianceStatus.compliant
    else if member c o.non_compliant
    then some ComplianceStatus.non_compliant
    else if member c o.unknown
    then some ComplianceStatus.unknown
    else none

abbrev pub is_status : Option ComplianceStatus → ComplianceStatus → Bool
is_status none s = false
is_status (some a) s = a == s

-- Each cluster is in one list of the policy, and once.
abbrev pub ListsOnce : PolicyCompliance → Type 0
ListsOnce o = distinct (o.compliant ++ o.non_compliant ++ o.unknown) ≡ true

pub any_status :
    (held : Option ComplianceStatus) {a b d : Bool}
    → a ≡ is_status held ComplianceStatus.compliant
    → b ≡ is_status held ComplianceStatus.non_compliant
    → d ≡ is_status held ComplianceStatus.unknown
    → (a || (b || d)) ≡ is_some held
any_status none h k l = ground (arith, h, k, l)
any_status (some ComplianceStatus.compliant) h k l = ground (arith, h, k, l)
any_status (some ComplianceStatus.non_compliant) h k l = ground (arith, h, k, l)
any_status (some ComplianceStatus.unknown) h k l = ground (arith, h, k, l)

pub any_of_four {ℓ κ} :
    {A : Type ℓ} {B : Type κ} (g : B → Bool) (f : A → Option B) (xs ys zs us : List A)
    → any g (pick f (xs ++ ys ++ zs ++ us))
      ≡ (any g (pick f xs) || any g (pick f ys) || any g (pick f zs) || any g (pick f us))
any_of_four g f xs ys zs us = ground (
  arith,
  any-pick-append g f (xs ++ ys ++ zs) us,
  any-pick-append g f (xs ++ ys) zs,
  any-pick-append g f xs ys,
)

-- What `ListsOnce` says of the three lists and of one cluster.
pub once_lem :
    (o : PolicyCompliance) (c : String)
    → ListsOnce o
    → (distinct o.compliant ≡ true)
      × (distinct o.non_compliant ≡ true)
      × (distinct o.unknown ≡ true)
      × ((member c o.compliant && member c o.non_compliant) ≡ false)
      × ((member c o.compliant && member c o.unknown) ≡ false)
      × ((member c o.non_compliant && member c o.unknown) ≡ false)
once_lem o c once =
    let (xy, z, apart) = distinct-append (o.compliant ++ o.non_compliant) o.unknown once in
    let (x, y, near) = distinct-append o.compliant o.non_compliant xy in
    let m = member-append c o.compliant o.non_compliant in
    (x, y, z, near c, ground (arith, apart c, m), ground (arith, apart c, m))

module _ (sets : SetApi) where
  open sets use {StringSet, contains, items, remove}

  pub handle_specific_left :
      (p : String) (s : ComplianceStatus) (cs : List String) (all typed : StringSet) (c : String)
      → contains (handle_specific sets p s cs all typed).1 c ≡ (contains all c && not (member c cs))
  unfolding handle_specific
  handle_specific_left p s [] all typed c = ground arith
  handle_specific_left p s (x ∷ cs) all typed c = elim (Bool-cases (contains all x)) [
    | inl k ↦
        ground (
          arith,
          k,
          handle_specific_left p s cs (remove x all) typed c,
          sets.contains-remove x c all,
        )
    | inr n ↦ ground (arith, n, handle_specific_left p s cs all typed c, ==_iff x c)
  ]

  pub handle_specific_inserts :
      (p : String) (s : ComplianceStatus) (cs : List String) (all typed : StringSet) (q c : String)
      (t : ComplianceStatus)
      → distinct cs ≡ true
      → has_row q c t (pick as_insert (handle_specific sets p s cs all typed).0)
        ≡ ((p == q && s == t) && (member c cs && not (contains all c)))
  unfolding handle_specific
  handle_specific_inserts p s [] all typed q c t d = ground arith
  handle_specific_inserts p s (x ∷ cs) all typed q c t d = elim (Bool-cases (contains all x)) [
    | inl k ↦ ground (
      arith,
      k,
      handle_specific_inserts p s cs (remove x all) typed q c t (ground (arith, d)),
      sets.contains-remove x c all,
      ==_iff x c,
      d,
    )
    | inr n ↦ ground (
      arith,
      n,
      handle_specific_inserts p s cs all typed q c t (ground (arith, d)),
      ==_iff x c,
      d,
    )
  ]

  pub handle_specific_updates :
      (p : String) (s : ComplianceStatus) (cs : List String) (all typed : StringSet) (q c : String)
      (t : ComplianceStatus)
      → distinct cs ≡ true
      → has_row q c t (pick as_update (handle_specific sets p s cs all typed).0)
        ≡ ((p == q && s == t) && (member c cs && (contains all c && not (contains typed c))))
  unfolding handle_specific
  handle_specific_updates p s [] all typed q c t d = ground arith
  handle_specific_updates p s (x ∷ cs) all typed q c t d = elim (Bool-cases (contains all x)) [
    | inl k ↦ elim (Bool-cases (contains typed x)) [
      | inl l ↦ ground (
        arith,
        k,
        l,
        handle_specific_updates p s cs (remove x all) typed q c t (ground (arith, d)),
        sets.contains-remove x c all,
        ==_iff x c,
        d,
      )
      | inr l ↦ ground (
        arith,
        k,
        l,
        handle_specific_updates p s cs (remove x all) typed q c t (ground (arith, d)),
        sets.contains-remove x c all,
        ==_iff x c,
        d,
      )
    ]
    | inr n ↦ ground (
      arith,
      n,
      handle_specific_updates p s cs all typed q c t (ground (arith, d)),
      ==_iff x c,
      d,
    )
  ]

  pub handle_specific_others {κ} :
      {B : Type κ} (f : Call → Option B) (p : String) (s : ComplianceStatus) (cs : List String)
      (all typed : StringSet)
      → ((r : Row) → f (insert_row r) ≡ none)
      → ((r : Row) → f (update_cluster r) ≡ none)
      → pick f (handle_specific sets p s cs all typed).0 ≡ []
  unfolding handle_specific
  handle_specific_others f p s [] all typed i u = refl
  handle_specific_others f p s (x ∷ cs) all typed i u =
      let row : Row = record { policy = p; cluster = x; status = s } in
      elim (Bool-cases (contains all x)) [
        | inl k ↦ elim (Bool-cases (contains typed x)) [
          | inl l ↦ ground (arith, k, l, handle_specific_others f p s cs (remove x all) typed i u)
          | inr l ↦
              ground (arith, k, l, u row, handle_specific_others f p s cs (remove x all) typed i u)
        ]
        | inr n ↦ ground (arith, n, i row, handle_specific_others f p s cs all typed i u)
      ]
