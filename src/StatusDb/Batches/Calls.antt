-- ===== src/StatusDb/Batches/Calls.antt =====
-- policies_batch_builder.go: the rows that a sequence of calls asks for, by kind of call.
use multicluster_global_hub.Base.{
  String, ◌≡◌, refl, ap, ◌∙◌, inl, inr, Bool, true, false, not, ◌&&◌, ◌||◌, Option, none, some,
  List, [], ◌∷◌, ◌++◌, arith, ◌==◌, ==_iff, string_key, nat_key, Option-cases, any,
}
use multicluster_global_hub.StatusDb.{ComplianceStatus, Row}
use multicluster_global_hub.StatusDb.Batches.Policies.{
  Call, insert_row, update_policy, update_cluster, delete_policy, delete_cluster,
}
use multicluster_global_hub.Compliance.{member}

abbrev pub pick {ℓ κ} : {A : Type ℓ} {B : Type κ} → (A → Option B) → List A → List B
pick f [] = []
pick f (a ∷ l) = let rest = pick f l in elim (f a) [ none ↦ rest | some b ↦ b ∷ rest ]

abbrev pub as_insert : Call → Option Row
as_insert (insert_row r) = some r
as_insert _ = none

abbrev pub as_update : Call → Option Row
as_update (update_cluster r) = some r
as_update _ = none

abbrev pub as_policy_update : Call → Option (String × ComplianceStatus)
as_policy_update (update_policy p s) = some (p, s)
as_policy_update _ = none

abbrev pub as_policy_drop : Call → Option String
as_policy_drop (delete_policy p) = some p
as_policy_drop _ = none

abbrev pub as_drop : Call → Option (String × String)
as_drop (delete_cluster p c) = some (p, c)
as_drop _ = none

abbrev pub drops : String → String → List (String × String) → Bool
drops p c es = any (λ e. e.0 == p && e.1 == c) es

pub pick-append {ℓ κ} :
    {A : Type ℓ} {B : Type κ} (f : A → Option B) (xs ys : List A)
    → pick f (xs ++ ys) ≡ pick f xs ++ pick f ys
pick-append f [] ys = refl
pick-append f (x ∷ xs) ys = elim (Option-cases (f x)) [
  | inl n ↦ ground (arith, n, pick-append f xs ys)
  | inr (b, e) ↦ ground (arith, e, pick-append f xs ys)
]

any-append {ℓ} :
    {A : Type ℓ} (f : A → Bool) (xs ys : List A) → any f (xs ++ ys) ≡ (any f xs || any f ys)
any-append f [] ys = refl
any-append f (x ∷ xs) ys = ground (arith, any-append f xs ys)

pub any-pick-append {ℓ κ} :
    {A : Type ℓ} {B : Type κ} (g : B → Bool) (f : A → Option B) (xs ys : List A)
    → any g (pick f (xs ++ ys)) ≡ (any g (pick f xs) || any g (pick f ys))
any-pick-append g f xs ys = ap (any g) (pick-append f xs ys) ∙ any-append g (pick f xs) (pick f ys)

-- No cluster is listed twice.
abbrev pub distinct : List String → Bool
distinct [] = true
distinct (x ∷ xs) = not (member x xs) && distinct xs

pub member-append :
    (c : String) (xs ys : List String) → member c (xs ++ ys) ≡ (member c xs || member c ys)
member-append c xs ys = any-append (λ x. x == c) xs ys

pub distinct-append :
    (xs ys : List String)
    → distinct (xs ++ ys) ≡ true
    → (distinct xs ≡ true)
      × (distinct ys ≡ true)
      × ((c : String) → (member c xs && member c ys) ≡ false)
distinct-append [] ys h = (refl, h, λ c. refl)
distinct-append (x ∷ xs) ys h =
    let ih = distinct-append xs ys (ground (arith, h)) in
    (
      ground (arith, ih.0, h, member-append x xs ys),
      ih.1,
      λ c. ground (arith, ih.2 c, h, member-append x xs ys, ==_iff x c),
    )
