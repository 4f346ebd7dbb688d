-- ===== src/StatusDb/Batches/Rows.antt =====
-- base_batch_builder.go: the placeholders of a statement, bound to its arguments.
use mathlib.Core.List.{map-append}
use native.Mathlib.Nat.{zero-mul, suc-mul}
use multicluster_global_hub.Base.{
  ℕ, suc, ◌+◌, ◌-◌, ◌*◌, String, ◌≡◌, refl, sym, ap, subst, ◌∙◌, Option, none, some, List, [], ◌∷◌,
  ◌++◌, map, arith, string_key, nat_key, length, get_elem?, length-append,
}
use multicluster_global_hub.StatusDb.Batches.{
  Placeholder, Argument, args_from, rows_from, generate_args_list,
}

-- What PostgreSQL takes `$n` for.
abbrev pub bind_row : List Placeholder → List Argument → Option (List Argument)
bind_row [] args = some []
bind_row (p ∷ ps) args = elim (get_elem? args (p.index - 1)) [
  | none ↦ none
  | some a ↦ elim (bind_row ps args) [ none ↦ none | some row ↦ some (a ∷ row) ]
]

abbrev pub bind_rows : List (List Placeholder) → List Argument → Option (List (List Argument))
bind_rows [] args = some []
bind_rows (r ∷ rs) args = elim (bind_row r args) [
  | none ↦ none
  | some row ↦ elim (bind_rows rs args) [ none ↦ none | some rows ↦ some (row ∷ rows) ]
]

abbrev pub flat {ℓ} : {A : Type ℓ} → List (List A) → List A
flat [] = []
flat (r ∷ rs) = r ++ flat rs

abbrev pub Wide {ℓ} : {A : Type ℓ} → ℕ → List (List A) → Type 0
Wide n [] = Unit
Wide n (r ∷ rs) = (length r ≡ n) × Wide n rs

-- From position `k` on, the arguments are these.
abbrev pub From {ℓ} : {A : Type ℓ} → ℕ → List A → List A → Type ℓ
From k args xs = (j : ℕ) → get_elem? args (k + j) ≡ get_elem? xs j

From-suc {ℓ} :
    {A : Type ℓ} (k : ℕ) (args : List A) (x : A) (xs : List A)
    → From k args (x ∷ xs)
    → From (suc k) args xs
From-suc k args x xs h j = subst (λ n. get_elem? args n ≡ get_elem? xs j) (omega arith) (h (suc j))

get_elem?-From {ℓ} :
    {A : Type ℓ} (k : ℕ) (args : List A) (x : A) (xs : List A)
    → From k args (x ∷ xs)
    → get_elem? args k ≡ some x
get_elem?-From k args x xs h = subst (λ n. get_elem? args n ≡ some x) (omega arith) (h 0)

pub bind_row-args_from :
    (xs rest args : List Argument) (index starting k : ℕ) (special : List (ℕ × String))
    → index + starting ≡ suc k
    → From k args (xs ++ rest)
    → (bind_row (args_from index (length xs) starting special) args ≡ some xs)
      × From (k + length xs) args rest
unfolding args_from
bind_row-args_from [] rest args index starting k special at from =
    (refl, subst (λ n. From n args rest) (omega arith) from)
bind_row-args_from (x ∷ xs) rest args index starting k special at from =
    let next =
      bind_row-args_from xs rest args (suc index) starting (suc k) special (omega arith)
        (From-suc k args x (xs ++ rest) from) in
    let here : get_elem? args (index + starting - 1) ≡ some x =
      subst (λ n. get_elem? args n ≡ some x) (omega arith)
        (get_elem?-From k args x (xs ++ rest) from) in
    (ground (arith, here, next.0), subst (λ n. From n args rest) (omega arith) next.1)

-- Row `i` of the generated rows takes the arguments of row `i`.
pub bind_rows-rows_from :
    (rows : List (List Argument)) (args : List Argument) (i n : ℕ) (special : List (ℕ × String))
    → Wide n rows
    → From (i * n) args (flat rows)
    → bind_rows (rows_from i (length rows) n special) args ≡ some rows
unfolding rows_from generate_args_list
bind_rows-rows_from [] args i n special wide from = refl
bind_rows-rows_from (r ∷ rows) args i n special (w, wide) from =
    let here =
      bind_row-args_from r (flat rows) args 0 (i * n + 1) (i * n) special (omega arith) from in
    let step : i * n + length r ≡ suc i * n = ap (λ m. i * n + m) w ∙ sym (suc-mul i n) in
    let next =
      bind_rows-rows_from rows args (suc i) n special wide
        (subst (λ k. From k args (flat rows)) step here.1) in
    let this = subst (λ m. bind_row (args_from 0 m (i * n + 1) special) args ≡ some r) w here.0 in
    ground (arith, this, next)

length-flat {ℓ} :
    {A : Type ℓ} (n : ℕ) (rows : List (List A)) → Wide n rows → length (flat rows) ≡ length rows * n
length-flat n [] wide = sym (zero-mul n)
length-flat n (r ∷ rows) (w, wide) =
    length-append r (flat rows) ∙ omega (arith, w, length-flat n rows wide, suc-mul (length rows) n)

pub map-flat {ℓ κ} :
    {A : Type ℓ} {B : Type κ} (f : A → B) (rows : List (List A))
    → map f (flat rows) ≡ flat (map (map f) rows)
map-flat f [] = refl
map-flat f (r ∷ rows) = map-append f r (flat rows) ∙ ap (λ xs. map f r ++ xs) (map-flat f rows)

pub length-flat-map {ℓ κ} :
    {A : Type ℓ} {B : Type κ} (f : A → List B) (n : ℕ) (xs : List A)
    → ((x : A) → length (f x) ≡ n)
    → length (flat (map f xs)) ≡ length xs * n
length-flat-map f n [] h = sym (zero-mul n)
length-flat-map f n (x ∷ xs) h =
    length-append (f x) (flat (map f xs))
    ∙ omega (arith, h x, length-flat-map f n xs h, suc-mul (length xs) n)

pub length-map {ℓ κ} :
    {A : Type ℓ} {B : Type κ} (f : A → B) (xs : List A) → length (map f xs) ≡ length xs
length-map f [] = refl
length-map f (x ∷ xs) = ap suc (length-map f xs)
