-- ===== src/StatusDb/Batches.antt =====
-- manager/pkg/statussyncer/transport2db/db/postgresql/batch: base_batch_builder.go and
-- policies_batch_builder.go. A query is kept as the statement its text is, with its placeholders.
pub mod Rows
pub mod Policies
pub mod Calls
pub mod Asked
pub mod Statements
pub mod Pending
pub mod Arity
use multicluster_global_hub.Base.{
  ℕ, zero, suc, ◌+◌, ◌-◌, ◌*◌, ◌/◌, ◌%◌, ◌≤◌, ◌<◌, String, ◌≡◌, refl, sym, ap, subst, ap₂, ◌∙◌, ◌≢◌,
  ◌↔◌, ◌⊎◌, inl, inr, Bool, true, false, not, ◌&&◌, ◌||◌, Option, none, some, List, [], ◌∷◌, ◌++◌,
  map, arith, ltb, leb, eqb, if◌then◌else◌, ◌==◌, Key, ==_iff, string_key, nat_key, Bool-cases,
  Option-cases, Result, ok, err, Result-cases, ◌>>=◌, is_some, length, get_elem?, any, All,
  length-append, of_some, of_is_some, eqb_iff,
}
use multicluster_global_hub.Base.Maps.{lookup, insert, erase, lookup-insert, lookup-erase}
use multicluster_global_hub.StatusDb.{ComplianceStatus, Row}

-- An argument of a statement. `several` is a whole slice passed as one argument.
pub data Value : Type 0 where
  text : String → Value
  status : ComplianceStatus → Value

pub data Argument : Type 0 where
  single : Value → Argument
  several : List Value → Argument

-- `$n` or `$n::type`
pub record Placeholder : Type 0 where
  pub index : ℕ
  pub cast : Option String

pub record Table : Type 0 where
  pub schema : String
  pub name : String

-- The statements that the builders write: their texts up to the table and the placeholders.
pub data Query : Type 0 where
  insert_values : Table → List (List Placeholder) → Query
  delete_keys : Table → String → List Placeholder → Query
  update_policies : Table → List (List Placeholder) → Query
  update_clusters : Table → List (List Placeholder) → Query
  delete_clusters : Table → List Placeholder → Query

pub record Statement : Type 0 where
  pub query : Query
  pub arguments : List Argument

pub record BatchItem : Type 0 where
  pub query : Query
  pub arguments : List Value

abbrev pub max_columns : ℕ
max_columns = 65536

-- `generateArgsList`: the index runs from 0 to `argsCount`.
unfoldable pub args_from : ℕ → ℕ → ℕ → List (ℕ × String) → List Placeholder
args_from index zero starting special = []
args_from index (suc n) starting special =
    record { index = index + starting; cast = lookup (index + 1) special }
    ∷ args_from (suc index) n starting special

unfoldable pub generate_args_list : ℕ → ℕ → List (ℕ × String) → List Placeholder
unfolding args_from
generate_args_list count starting special = args_from 0 count starting special

-- `generateInsertOrUpdateArgs`
unfoldable pub rows_from : ℕ → ℕ → ℕ → List (ℕ × String) → List (List Placeholder)
unfolding generate_args_list
rows_from i zero columns special = []
rows_from i (suc n) columns special =
    generate_args_list columns (i * columns + 1) special ∷ rows_from (suc i) n columns special

unfoldable pub generate_rows : ℕ → ℕ → List (ℕ × String) → List (List Placeholder)
unfolding rows_from
generate_rows count columns special = rows_from 0 count columns special

-- `baseBatchBuilder`, for the tables' `generateUpdateStatement` a function of `updateArgs` and
-- `updateRowsCount`, the fields it reads.
pub record BaseBuilder : Type 0 where
  pub delete_items : List BatchItem
  pub insert_items : List BatchItem
  pub update_items : List BatchItem
  pub table : Table
  pub special_columns : List (ℕ × String)
  pub leaf_hub_name : String
  pub insert_args : List Value
  pub insert_rows_count : ℕ
  pub update_args : List Value
  pub update_rows_count : ℕ
  pub generate_update_statement : List Value → ℕ → Query
  pub delete_args : List Value
  pub delete_rows_count : ℕ
  pub delete_row_key : String

unfoldable pub new_base_builder :
    Table → List (ℕ × String) → String → String → (List Value → ℕ → Query) → BaseBuilder
new_base_builder table special hub key update = record {
  delete_items = [];
  insert_items = [];
  update_items = [];
  table = table;
  special_columns = special;
  leaf_hub_name = hub;
  insert_args = [];
  insert_rows_count = 0;
  update_args = [];
  update_rows_count = 0;
  generate_update_statement = update;
  delete_args = text hub ∷ [];
  delete_rows_count = 0;
  delete_row_key = key;
}

-- The division of Go, which panics at 0, is by a count that is never 0 where it is called.
unfoldable pub generate_insert_statement : BaseBuilder → Query
unfolding generate_rows
generate_insert_statement b = insert_values b.table (
    generate_rows b.insert_rows_count (length b.insert_args / b.insert_rows_count)
      b.special_columns)

unfoldable pub generate_delete_statement : BaseBuilder → Query
unfolding generate_args_list
generate_delete_statement b =
    delete_keys b.table b.delete_row_key (generate_args_list b.delete_rows_count 2 [])

unfoldable pub insert_args_of : List Value → BaseBuilder → BaseBuilder
unfolding generate_insert_statement
insert_args_of args b =
    let full : BaseBuilder = record b {
      insert_items =
          b.insert_items
          ++ record { query = generate_insert_statement b; arguments = b.insert_args } ∷ [];
      insert_args = [];
      insert_rows_count = 0;
    } in
    let c = if leb max_columns (length b.insert_args + length args) then full else b in
    record c { insert_args = c.insert_args ++ args; insert_rows_count = suc c.insert_rows_count }

unfoldable pub update_args_of : List Value → BaseBuilder → BaseBuilder
update_args_of args b =
    let full : BaseBuilder = record b {
      update_items =
          b.update_items
          ++ record {
            query = b.generate_update_statement b.update_args b.update_rows_count;
            arguments = b.update_args;
          }
            ∷ [];
      update_args = [];
      update_rows_count = 0;
    } in
    let c = if leb max_columns (length b.update_args + length args) then full else b in
    record c { update_args = c.update_args ++ args; update_rows_count = suc c.update_rows_count }

unfoldable pub delete_args_of : List Value → BaseBuilder → BaseBuilder
unfolding generate_delete_statement
delete_args_of args b =
    let full : BaseBuilder = record b {
      delete_items =
          b.delete_items
          ++ record { query = generate_delete_statement b; arguments = b.delete_args } ∷ [];
      delete_args = text b.leaf_hub_name ∷ [];
      delete_rows_count = 0;
    } in
    let c = if leb max_columns (length b.delete_args + length args) then full else b in
    record c { delete_args = c.delete_args ++ args; delete_rows_count = suc c.delete_rows_count }

-- `batch.Queue(query, arguments...)`
abbrev pub queue_spread : Query → List Value → Statement
queue_spread q args = record { query = q; arguments = map single args }

-- `batch.Queue(batchItem.query, batchItem.arguments)`: the slice is one argument.
abbrev pub queue_items : List BatchItem → List Statement
queue_items items =
    map (λ i. record { query = i.query; arguments = several i.arguments ∷ [] }) items

-- `if rowsCount > 0 { batch.Queue(statement, args...) }`
abbrev pub queue_rest : ℕ → Query → List Value → List Statement
queue_rest zero q args = []
queue_rest (suc n) q args = queue_spread q args ∷ []

unfoldable pub build : BaseBuilder → List Statement
unfolding generate_insert_statement generate_delete_statement
build b =
    queue_items b.delete_items
    ++ queue_rest b.delete_rows_count (generate_delete_statement b) b.delete_args
    ++ queue_items b.insert_items
    ++ queue_rest b.insert_rows_count (generate_insert_statement b) b.insert_args
    ++ queue_items b.update_items
    ++ queue_rest b.update_rows_count
        (b.generate_update_statement b.update_args b.update_rows_count) b.update_args
