-- ===== src/Examples/Tables.antt =====
-- A compliance table of one leaf hub in memory, which behaves as `PostgresApi` asks.
use multicluster_global_hub.Base.{
  String, ◌≡◌, refl, sym, ap, ap₂, ◌∙◌, inl, inr, Bool, true, false, not, ◌&&◌, ◌||◌, Option, none,
  some, List, [], ◌∷◌, map, arith, eqb, if◌then◌else◌, ◌==◌, ==_iff, string_key, nat_key,
  Bool-cases, Option-cases, Result, ok, err, is_some, length, get_elem?, any, eqb_iff, of_ok,
}
use multicluster_global_hub.StatusDb.{status_key, ComplianceStatus, Row, has_row, names_row}
use multicluster_global_hub.StatusDb.Batches.{
  text, status, single, insert_values, delete_keys, update_policies, update_clusters,
  delete_clusters, Argument, Query, Statement,
}
use multicluster_global_hub.StatusDb.Batches.Calls.{drops, pick}
use multicluster_global_hub.StatusDb.Batches.Rows.{bind_rows, bind_row}
use multicluster_global_hub.StatusDb.Batches.Statements.{parameter_count}
use multicluster_global_hub.Compliance.{member}
use multicluster_global_hub.StatusDb.Postgres.Delta.{updated_by}
use multicluster_global_hub.StatusDb.Handlers.Specific.{is_status}

pub record OneHub : Type 0 where
  pub keys : List (String × String)
  pub status_at : String → String → Option ComplianceStatus

abbrev pub held_at : OneHub → String → String → Option ComplianceStatus
held_at db p c = if drops p c db.keys then db.status_at p c else none

abbrev put_row : Row → OneHub → OneHub
put_row r db = record {
  keys = (r.policy, r.cluster) ∷ db.keys;
  status_at = λ p c. if r.policy == p && r.cluster == c then some r.status else db.status_at p c;
}

abbrev pub put_rows : List Row → OneHub → Result String OneHub
put_rows [] db = ok db
put_rows (r ∷ rows) db =
    let rest = put_rows rows (put_row r db) in
    if is_some (held_at db r.policy r.cluster) then err "duplicate key" else rest

held_at-put_row :
    (r : Row) (db : OneHub) (p c : String)
    → held_at (put_row r db) p c
      ≡ (if r.policy == p && r.cluster == c then some r.status else held_at db p c)
held_at-put_row r db p c = ground arith

both_true : (a b : Bool) → (a && b) ≡ true → (a ≡ true) × (b ≡ true)
both_true true b h = (refl, h)
both_true false b h = ground (arith, h)

pub put_rows_other :
    (rows : List Row) (db db' : OneHub) (p c : String)
    → put_rows rows db ≡ ok db'
    → (is_some (held_at db p c) || not (names_row p c rows)) ≡ true
    → held_at db' p c ≡ held_at db p c
put_rows_other [] db db' p c h free = ap (λ x. held_at x p c) (sym (of_ok h))
put_rows_other (r ∷ rows) db db' p c h free =
    elim (Bool-cases (is_some (held_at db r.policy r.cluster))) [
      | inl dup ↦ ground (arith, dup, h)
      | inr new ↦
          let next : put_rows rows (put_row r db) ≡ ok db' = ground (arith, new, h) in
          elim (Bool-cases (r.policy == p && r.cluster == c)) [
            | inl m ↦
                let (a, b) = both_true _ _ m in
                let same =
                  ap₂ (λ x y. is_some (held_at db x y)) ((==_iff r.policy p).0 a)
                    ((==_iff r.cluster c).0 b) in
                ground (arith, m, sym same ∙ new, free)
            | inr n ↦
                put_rows_other rows (put_row r db) db' p c next
                  (ground (arith, held_at-put_row r db p c, n, free))
                ∙ held_at-put_row r db p c
                ∙ rw n
          ]
    ]

abbrev pub found_status : String → String → List Row → Option ComplianceStatus
found_status p c [] = none
found_status p c (r ∷ rows) =
    if r.policy == p && r.cluster == c then some r.status else found_status p c rows

abbrev pub found_policy : String → List (String × ComplianceStatus) → Option ComplianceStatus
found_policy p [] = none
found_policy p (r ∷ rows) = if r.0 == p then some r.1 else found_policy p rows

abbrev pub as_text : Argument → Option String
as_text (single (text t)) = some t
as_text _ = none

abbrev pub row_of_insert : List Argument → Option Row
row_of_insert (single (text p) ∷ single (text c) ∷ h ∷ e ∷ single (status s) ∷ []) =
    some (record { policy = p; cluster = c; status = s })
row_of_insert _ = none

abbrev pub row_of_update : List Argument → Option Row
row_of_update (single (text p) ∷ single (text c) ∷ h ∷ single (status s) ∷ []) =
    some (record { policy = p; cluster = c; status = s })
row_of_update _ = none

abbrev pub policy_of_update : List Argument → Option (String × ComplianceStatus)
policy_of_update (single (text p) ∷ h ∷ single (status s) ∷ []) = some (p, s)
policy_of_update _ = none

abbrev is_policy : String → Option Argument → Bool
is_policy p (some (single (text q))) = q == p
is_policy p _ = false

abbrev pub if_bound {ℓ} :
    {A : Type ℓ} → Option (List A) → (List A → Result String OneHub) → Result String OneHub
if_bound none f = err "no such argument"
if_bound (some bound) f = f bound

abbrev pub drop_policies : OneHub → List String → OneHub
drop_policies db ps = record db {
  status_at = λ p c. if member p ps then none else db.status_at p c;
}

abbrev pub drop_clusters : Option Argument → OneHub → List String → OneHub
drop_clusters policy db cs = record db {
  status_at = λ p c. if is_policy p policy && member c cs then none else db.status_at p c;
}

abbrev pub update_rows : OneHub → List Row → OneHub
update_rows db rows = record db {
  status_at = λ p c. updated_by (db.status_at p c) (found_status p c rows);
}

abbrev pub update_rows_of_policies : OneHub → List (String × ComplianceStatus) → OneHub
update_rows_of_policies db rows = record db {
  status_at = λ p c. updated_by (db.status_at p c) (found_policy p rows);
}

abbrev run_query : Query → List Argument → OneHub → Result String OneHub
run_query (insert_values t places) args db =
    if_bound (bind_rows places args) (λ rows. put_rows (pick row_of_insert rows) db)
run_query (delete_keys t key ids) args db =
    if_bound (bind_row ids args) (λ keys. ok (drop_policies db (pick as_text keys)))
run_query (update_policies t places) args db =
    if_bound (bind_rows places args)
      (λ rows. ok (update_rows_of_policies db (pick policy_of_update rows)))
run_query (update_clusters t places) args db =
    if_bound (bind_rows places args) (λ rows. ok (update_rows db (pick row_of_update rows)))
run_query (delete_clusters t names) args db =
    if_bound (bind_row names args)
      (λ cs. ok (drop_clusters (get_elem? args 0) db (pick as_text cs)))

abbrev pub exec_statement : Statement → OneHub → Result String OneHub
exec_statement st db =
    if eqb (parameter_count st.query) (length st.arguments)
    then run_query st.query st.arguments db
    else err "wrong number of arguments"

abbrev pub rows_at : List (String × String) → OneHub → List Row
rows_at [] db = []
rows_at ((p, c) ∷ keys) db =
    let rest = rows_at keys db in
    elim (db.status_at p c) [
      | none ↦ rest
      | some s ↦ record { policy = p; cluster = c; status = s } ∷ rest
    ]

names_row-has :
    (p c : String) (s : ComplianceStatus) (rows : List Row)
    → has_row p c s rows ≡ true
    → names_row p c rows ≡ true
names_row-has p c s [] h = ground (arith, h)
names_row-has p c s (r ∷ rows) h = ground (arith, h, names_row-has p c s rows)

pub put_rows_has :
    (rows : List Row) (db db' : OneHub) (p c : String) (s : ComplianceStatus)
    → put_rows rows db ≡ ok db'
    → has_row p c s rows ≡ true
    → held_at db' p c ≡ some s
put_rows_has [] db db' p c s h has = ground (arith, has)
put_rows_has (r ∷ rows) db db' p c s h has =
    elim (Bool-cases (is_some (held_at db r.policy r.cluster))) [
      | inl dup ↦ ground (arith, dup, h)
      | inr new ↦
          let next : put_rows rows (put_row r db) ≡ ok db' = ground (arith, new, h) in
          elim (Bool-cases (has_row p c s rows)) [
            | inl later ↦ put_rows_has rows (put_row r db) db' p c s next later
            | inr not_later ↦
                let head : (r.policy == p && (r.cluster == c && r.status == s)) ≡ true =
                  ground (arith, has, not_later) in
                let (a, bc) = both_true (r.policy == p) (r.cluster == c && r.status == s) head in
                let (b, e) = both_true (r.cluster == c) (r.status == s) bc in
                let put : held_at (put_row r db) p c ≡ some r.status =
                  held_at-put_row r db p c ∙ rw (a, b) in
                put_rows_other rows (put_row r db) db' p c next (ground (arith, put))
                ∙ put
                ∙ ap some ((==_iff r.status s).0 e)
          ]
    ]

pub pick-map-map {ℓ κ μ} :
    {A : Type ℓ} {B : Type κ} {C : Type μ} (f : C → Option A) (g : B → C) (h : A → B)
    → ((a : A) → f (g (h a)) ≡ some a)
    → (xs : List A) → pick f (map g (map h xs)) ≡ xs
pick-map-map f g h e [] = refl
pick-map-map f g h e (x ∷ xs) = rw (e x, pick-map-map f g h e xs)

pub found_status-names :
    (p c : String) (rows : List Row)
    → names_row p c rows ≡ true
    → (s : ComplianceStatus) × (has_row p c s rows ≡ true) × (found_status p c rows ≡ some s)
found_status-names p c [] h = ground (arith, h)
found_status-names p c (r ∷ rows) h = elim (Bool-cases (r.policy == p && r.cluster == c)) [
  | inl e ↦ (r.status, ground (arith, e, (==_iff r.status r.status).1 refl), ground (arith, e))
  | inr n ↦
      let (s, a, b) = found_status-names p c rows (ground (arith, h, n)) in
      (s, ground (arith, a), ground (arith, n, b))
]

pub found_status-none :
    (p c : String) (rows : List Row) → names_row p c rows ≡ false → found_status p c rows ≡ none
found_status-none p c [] h = refl
found_status-none p c (r ∷ rows) h = ground (arith, h, found_status-none p c rows)

pub found_policy-names :
    (p : String) (rows : List (String × ComplianceStatus))
    → any (λ e. e.0 == p) rows ≡ true
    → (s : ComplianceStatus) × (any (λ e. e.0 == p && e.1 == s) rows ≡ true)
      × (found_policy p rows ≡ some s)
found_policy-names p [] h = ground (arith, h)
found_policy-names p (r ∷ rows) h = elim (Bool-cases (r.0 == p)) [
  | inl e ↦ (r.1, ground (arith, e, (==_iff r.1 r.1).1 refl), ground (arith, e))
  | inr n ↦
      let (s, a, b) = found_policy-names p rows (ground (arith, h, n)) in
      (s, ground (arith, a), ground (arith, n, b))
]

pub found_policy-none :
    (p : String) (rows : List (String × ComplianceStatus))
    → any (λ e. e.0 == p) rows ≡ false
    → found_policy p rows ≡ none
found_policy-none p [] h = refl
found_policy-none p (r ∷ rows) h = ground (arith, h, found_policy-none p rows)

pub has_row-rows_at :
    (p c : String) (s : ComplianceStatus) (keys : List (String × String)) (db : OneHub)
    → has_row p c s (rows_at keys db) ≡ (drops p c keys && is_status (db.status_at p c) s)
has_row-rows_at p c s [] db = refl
has_row-rows_at p c s ((q, d) ∷ keys) db =
    let at : (q == p && d == c) ≡ true → db.status_at q d ≡ db.status_at p c =
      λ m. let (a, b) = both_true _ _ m in ap₂ db.status_at ((==_iff q p).0 a) ((==_iff d c).0 b) in
    elim (Bool-cases (q == p && d == c)) [
      | inl m ↦ elim (Option-cases (db.status_at q d)) [
        | inl n ↦ ground (arith, m, n, at m, has_row-rows_at p c s keys db)
        | inr (t, e) ↦ ground (arith, m, e, at m, has_row-rows_at p c s keys db)
      ]
      | inr m ↦ elim (Option-cases (db.status_at q d)) [
        | inl n ↦ ground (arith, m, n, has_row-rows_at p c s keys db)
        | inr (t, e) ↦ ground (arith, m, e, has_row-rows_at p c s keys db)
      ]
    ]

pub exec_guard :
    (st : Statement) (db db' : OneHub)
    → exec_statement st db ≡ ok db'
    → (parameter_count st.query ≡ length st.arguments)
      × (run_query st.query st.arguments db ≡ ok db')
exec_guard st db db' h = elim (Bool-cases (eqb (parameter_count st.query) (length st.arguments))) [
  | inl e ↦ ((eqb_iff _ _).0 e, ground (arith, e, h))
  | inr n ↦ ground (arith, n, h)
]

abbrev pub non_compliant_rows : List Row → List Row
non_compliant_rows [] = []
non_compliant_rows (r ∷ rows) =
    let rest = non_compliant_rows rows in
    if r.status == ComplianceStatus.compliant then rest else r ∷ rest

pub has_row-non_compliant_rows :
    (p c : String) (s : ComplianceStatus) (rows : List Row)
    → has_row p c s (non_compliant_rows rows)
      ≡ (has_row p c s rows && not (s == ComplianceStatus.compliant))
has_row-non_compliant_rows p c s [] = refl
has_row-non_compliant_rows p c s (r ∷ rows) = ground (
  arith,
  has_row-non_compliant_rows p c s rows,
  ==_iff r.status s,
  ==_iff r.status ComplianceStatus.compliant,
)
