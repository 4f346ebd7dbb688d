-- ===== src/StatusDb/Batches/Statements.antt =====
-- policies_batch_builder.go: the statements of a batch, bound to their arguments.
use multicluster_global_hub.Base.{
  ℕ, zero, suc, ◌+◌, ◌*◌, ◌/◌, ◌<◌, String, ◌≡◌, refl, sym, ap, subst, ap₂, ◌∙◌, some, List, [],
  ◌∷◌, ◌++◌, map, arith, string_key, nat_key, length, get_elem?,
}
use mathlib.Core.List.{append-nil}
use native.Mathlib.Nat.{mul-div_cancel, mul_comm, zero-mul, suc-mul}
use multicluster_global_hub.StatusDb.Batches.{
  Value, single, insert_values, delete_keys, update_policies, update_clusters, delete_clusters,
  Placeholder, Query, Statement, args_from, rows_from, Argument, generate_rows, generate_args_list,
}
use multicluster_global_hub.StatusDb.Batches.Rows.{
  Wide, flat, length-map, length-flat-map, bind_rows, bind_row, map-flat, From, bind_rows-rows_from,
  bind_row-args_from,
}

-- The parameters that PostgreSQL expects of a statement.
abbrev pub row_places : List (List Placeholder) → ℕ
row_places [] = 0
row_places (r ∷ rs) = length r + row_places rs

abbrev pub parameter_count : Query → ℕ
parameter_count (insert_values t rows) = row_places rows
parameter_count (delete_keys t key ids) = 1 + length ids
parameter_count (update_policies t rows) = row_places rows
parameter_count (update_clusters t rows) = row_places rows
parameter_count (delete_clusters t ids) = 2 + length ids

-- As many arguments as parameters.
abbrev pub HasAllArguments : Statement → Type 0
HasAllArguments st = parameter_count st.query ≡ length st.arguments

pub length-args_from :
    (index n starting : ℕ) (special : List (ℕ × String))
    → length (args_from index n starting special) ≡ n
unfolding args_from
length-args_from index zero starting special = refl
length-args_from index (suc n) starting special =
    ap suc (length-args_from (suc index) n starting special)

row_places-rows_from :
    (i n columns : ℕ) (special : List (ℕ × String))
    → row_places (rows_from i n columns special) ≡ n * columns
unfolding rows_from generate_args_list
row_places-rows_from i zero columns special = sym (zero-mul columns)
row_places-rows_from i (suc n) columns special = omega (
  arith,
  length-args_from 0 columns (i * columns + 1) special,
  row_places-rows_from (suc i) n columns special,
  suc-mul n columns,
)

module _ {ℓ} {A : Type ℓ} (f : A → List Value) (n : ℕ) (wide : (a : A) → length (f a) ≡ n) where
  Wide-map : (l : List A) → Wide n (map (map single) (map f l))
  Wide-map [] = tt
  Wide-map (a ∷ l) = (length-map single (f a) ∙ wide a, Wide-map l)

  abbrev arguments_of : List A → List Argument
  arguments_of l = map single (flat (map f l))

  columns_of : (l : List A) → 0 < length l → length (flat (map f l)) / length l ≡ n
  columns_of l some_rows =
      ap (λ m. m / length l) (length-flat-map f n l wide ∙ mul_comm (length l) n)
      ∙ mul-div_cancel n some_rows

  -- The rows of a statement are the rows asked for, and it has its arguments.
  pub bind_rows-generate_rows :
      (l : List A) (special : List (ℕ × String))
      → 0 < length l
      → bind_rows
          (generate_rows (length l) (length (flat (map f l)) / length l) special)
          (arguments_of l)
        ≡ some (map (map single) (map f l))
  unfolding generate_rows
  bind_rows-generate_rows l special some_rows =
      let rows = map (map single) (map f l) in
      let flat_rows : arguments_of l ≡ flat rows = map-flat single (map f l) in
      let from : From (0 * n) (arguments_of l) (flat rows) =
        λ j. ap₂ get_elem? flat_rows (ap (λ m. m + j) (zero-mul n) ∙ omega arith) in
      let count : length rows ≡ length l = length-map (map single) (map f l) ∙ length-map f l in
      rw (columns_of l some_rows) (
        subst (λ m. bind_rows (rows_from 0 m n special) (arguments_of l) ≡ some rows) count
          (bind_rows-rows_from rows (arguments_of l) 0 n special (Wide-map l) from))

  pub row_places-generate_rows :
      (l : List A) (special : List (ℕ × String))
      → 0 < length l
      → row_places (generate_rows (length l) (length (flat (map f l)) / length l) special)
        ≡ length (arguments_of l)
  unfolding generate_rows
  row_places-generate_rows l special some_rows = rw (columns_of l some_rows) (
      row_places-rows_from 0 (length l) n special
      ∙ sym (length-map single (flat (map f l)) ∙ length-flat-map f n l wide))

From-append : (before keys : List Argument) → From (length before) (before ++ keys) keys
From-append [] keys j = ap (get_elem? keys) (omega arith)
From-append (b ∷ before) keys j =
    let step : suc (length before + j) ≡ suc (length before) + j = omega arith in
    subst (λ m. get_elem? (b ∷ (before ++ keys)) m ≡ get_elem? keys j) step
      (From-append before keys j)

-- The keys of a delete statement, after what stands before them.
pub bind_row-generate_args_list :
    (before keys : List Argument) (starting : ℕ)
    → starting ≡ suc (length before)
    → bind_row (generate_args_list (length keys) starting []) (before ++ keys) ≡ some keys
unfolding generate_args_list
bind_row-generate_args_list before keys starting at =
    let from : From (length before) (before ++ keys) (keys ++ []) =
      λ j. From-append before keys j ∙ ap (λ l. get_elem? l j) (sym (append-nil keys)) in
    (bind_row-args_from keys [] (before ++ keys) 0 starting (length before) [] (omega (arith, at))
      from).0

pub length-generate_args_list : (n starting : ℕ) → length (generate_args_list n starting []) ≡ n
unfolding generate_args_list
length-generate_args_list n starting = length-args_from 0 n starting []
