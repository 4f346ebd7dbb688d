-- ===== src/StatusDb/Postgres/Settled.antt =====
-- postgresql.go: the status that a row has after the statements of a batch.
use multicluster_global_hub.Base.{
  String, ◌≡◌, refl, sym, ap, ◌∙◌, inl, inr, Bool, true, false, not, ◌&&◌, ◌||◌, Option, none, some,
  List, [], ◌∷◌, arith, ◌==◌, ==_iff, string_key, nat_key, Bool-cases, is_some, any, of_is_some,
}
use multicluster_global_hub.StatusDb.{status_key, ComplianceStatus, Row, has_row, names_row}
use multicluster_global_hub.StatusDb.Postgres.Sent.{Updated, RowEffect, PolicyUpdated}
use multicluster_global_hub.StatusDb.Batches.Policies.{Call}
use multicluster_global_hub.Compliance.{member}
use multicluster_global_hub.StatusDb.Batches.Calls.{
  pick, as_policy_drop, as_policy_update, as_insert, drops, as_drop, as_update,
}
use multicluster_global_hub.StatusDb.Handlers.Specific.{is_status}

names_row-has_row :
    (p c : String) (rows : List Row)
    → names_row p c rows ≡ (
        has_row p c ComplianceStatus.compliant rows
        || has_row p c ComplianceStatus.non_compliant rows
        || has_row p c ComplianceStatus.unknown rows)
names_row-has_row p c [] = refl
names_row-has_row p c (r ∷ rows) =
    elim r.status
      as (λ s. names_row p c (record r { status = s } ∷ rows) ≡ (
        has_row p c ComplianceStatus.compliant (record r { status = s } ∷ rows)
        || has_row p c ComplianceStatus.non_compliant (record r { status = s } ∷ rows)
        || has_row p c ComplianceStatus.unknown (record r { status = s } ∷ rows))) [
          | ComplianceStatus.compliant ↦ ground (arith, names_row-has_row p c rows)
          | ComplianceStatus.non_compliant ↦ ground (arith, names_row-has_row p c rows)
          | ComplianceStatus.unknown ↦ ground (arith, names_row-has_row p c rows)
        ]

one_of_three :
    (s : ComplianceStatus)
    → (ComplianceStatus.compliant == s
        || ComplianceStatus.non_compliant == s
        || ComplianceStatus.unknown == s)
      ≡ true
one_of_three ComplianceStatus.compliant = refl
one_of_three ComplianceStatus.non_compliant = refl
one_of_three ComplianceStatus.unknown = refl

-- A row that is asked to take one status, and no other, takes it.
pub Updated-one :
    (rows : List Row) (p c : String) (before after : Option ComplianceStatus) (s : ComplianceStatus)
    → Updated rows p c before after
    → is_some before ≡ true
    → ((t : ComplianceStatus) → has_row p c t rows ≡ (t == s))
    → after ≡ some s
Updated-one rows p c before after s u h only =
    let (old, e) = of_is_some before h in
    let named : names_row p c rows ≡ true = ground (
      arith,
      names_row-has_row p c rows,
      only ComplianceStatus.compliant,
      only ComplianceStatus.non_compliant,
      only ComplianceStatus.unknown,
      one_of_three s,
    ) in
    let (t, asked, at) = u.2 old e named in at ∙ ap some ((==_iff t s).0 (sym (only t) ∙ asked))

-- Rows that are not asked for leave a row as it was.
pub names_row-none :
    (rows : List Row) (p c : String)
    → ((t : ComplianceStatus) → has_row p c t rows ≡ false)
    → names_row p c rows ≡ false
names_row-none rows p c absent = ground (
  arith,
  names_row-has_row p c rows,
  absent ComplianceStatus.compliant,
  absent ComplianceStatus.non_compliant,
  absent ComplianceStatus.unknown,
)

-- What the calls of a complete bundle ask for a row that holds `before` and is to hold `want`.
pub record Asks (calls : List Call) (p c : String) (policy_dropped : Bool)
    (before want : Option ComplianceStatus) : Type 0 where
  pub drops_policy : member p (pick as_policy_drop calls) ≡ policy_dropped
  pub inserts :
      (s : ComplianceStatus)
      → has_row p c s (pick as_insert calls) ≡ (not (is_some before) && is_status want s)
  pub no_policy_update : pick as_policy_update calls ≡ []
  pub drops_row :
      drops p c (pick as_drop calls)
      ≡ (not policy_dropped && (is_some before && not (is_some want)))
  pub updates :
      (s : ComplianceStatus)
      → has_row p c s (pick as_update calls)
        ≡ (is_some before && (not (is_status before s) && is_status want s))
  pub dropped_want : policy_dropped ≡ true → want ≡ none

settled_kept :
    (calls : List Call) (p : String) (before after : Option ComplianceStatus)
    → pick as_policy_update calls ≡ []
    → PolicyUpdated (pick as_policy_update calls) p before after
    → after ≡ before
settled_kept calls p before after empty u = u.1 (ap (any (λ e. e.0 == p)) empty)

settle_none :
    (calls : List Call) (p c : String) (dropped : Bool) (want after : Option ComplianceStatus)
    → Asks calls p c dropped none want
    → RowEffect calls p c none after
    → after ≡ want
settle_none calls p c dropped none after a e =
    let kept : e.kept ≡ none = ground (arith, e.kept_lem) in
    let here = e.inserted_lem.1 (names_row-none _ p c a.inserts) in
    let settled = settled_kept calls p e.inserted e.settled a.no_policy_update e.settled_lem in
    let left : e.left ≡ none = ground (arith, kept, here, settled, e.left_lem) in e.after_lem.0 left
settle_none calls p c dropped (some w) after a e =
    let here = e.inserted_lem.0 w (a.inserts w ∙ (==_iff w w).1 refl) in
    let settled = settled_kept calls p e.inserted e.settled a.no_policy_update e.settled_lem in
    let left : e.left ≡ some w = ground (arith, here, settled, e.left_lem, a.drops_row) in
    e.after_lem.1 (names_row-none _ p c a.updates) ∙ left

same_asks : (old w t : ComplianceStatus) → (old == w) ≡ true → (not (old == t) && (w == t)) ≡ false
same_asks old w t e = ground arith

other_asks :
    (old w t : ComplianceStatus) → (old == w) ≡ false → (not (old == t) && (w == t)) ≡ (t == w)
other_asks old w t e = ground arith

settle_some :
    (calls : List Call) (p c : String) (dropped : Bool) (old : ComplianceStatus)
    (want after : Option ComplianceStatus)
    → Asks calls p c dropped (some old) want
    → RowEffect calls p c (some old) after
    → after ≡ want
settle_some calls p c dropped old none after a e =
    let here = e.inserted_lem.1 (names_row-none _ p c a.inserts) in
    let settled = settled_kept calls p e.inserted e.settled a.no_policy_update e.settled_lem in
    let left : e.left ≡ none = elim (Bool-cases dropped) [
      | inl d ↦
          ground (arith, here, settled, e.left_lem, a.drops_row, a.drops_policy, e.kept_lem, d)
      | inr d ↦
          ground (arith, here, settled, e.left_lem, a.drops_row, a.drops_policy, e.kept_lem, d)
    ] in
    e.after_lem.0 left
settle_some calls p c dropped old (some w) after a e =
    let here = e.inserted_lem.1 (names_row-none _ p c a.inserts) in
    let settled = settled_kept calls p e.inserted e.settled a.no_policy_update e.settled_lem in
    let stays : dropped ≡ false = ground (arith, a.dropped_want) in
    let left : e.left ≡ some old =
      ground (arith, here, settled, e.left_lem, a.drops_row, a.drops_policy, e.kept_lem, stays) in
    elim (Bool-cases (old == w)) [
      | inl same ↦
          let at = (==_iff old w).0 same in
          e.after_lem.1 (names_row-none _ p c (λ t. a.updates t ∙ same_asks old w t same))
          ∙ left
          ∙ ap some at
      | inr other ↦
          Updated-one _ p c e.left after w e.after_lem (ap is_some left)
            (λ t. a.updates t ∙ other_asks old w t other)
    ]

-- What is asked is what comes to be.
pub settle :
    (calls : List Call) (p c : String) (dropped : Bool)
    (before want after : Option ComplianceStatus)
    → Asks calls p c dropped before want
    → RowEffect calls p c before after
    → after ≡ want
settle calls p c dropped none want after a e = settle_none calls p c dropped want after a e
settle calls p c dropped (some old) want after a e =
    settle_some calls p c dropped old want after a e

-- A row of a policy that is asked to become compliant, and to become nothing else, does.
pub PolicyUpdated-one :
    (rows : List (String × ComplianceStatus)) (p : String) (before after : Option ComplianceStatus)
    (s : ComplianceStatus)
    → PolicyUpdated rows p before after
    → is_some before ≡ true
    → any (λ e. e.0 == p) rows ≡ true
    → ((t : ComplianceStatus) → any (λ e. e.0 == p && e.1 == t) rows ≡ true → t ≡ s)
    → after ≡ some s
PolicyUpdated-one rows p before after s u h named only =
    let (old, e) = of_is_some before h in
    let (t, asked, at) = u.2 old e named in at ∙ ap some (only t asked)

-- A policy is named when it is named with one of the statuses.
pub names_policy :
    (p : String) (rows : List (String × ComplianceStatus))
    → any (λ e. e.0 == p) rows ≡ (
        any (λ e. e.0 == p && e.1 == ComplianceStatus.compliant) rows
        || any (λ e. e.0 == p && e.1 == ComplianceStatus.non_compliant) rows
        || any (λ e. e.0 == p && e.1 == ComplianceStatus.unknown) rows)
names_policy p [] = refl
names_policy p ((q, ComplianceStatus.compliant) ∷ rows) = ground (arith, names_policy p rows)
names_policy p ((q, ComplianceStatus.non_compliant) ∷ rows) = ground (arith, names_policy p rows)
names_policy p ((q, ComplianceStatus.unknown) ∷ rows) = ground (arith, names_policy p rows)
