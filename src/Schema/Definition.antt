-- ===== src/Schema/Definition.antt =====
-- Tables and indexes from the SQL of their definitions.
use prsqlite.Prelude.{ℕ, Bool, true, false, not, ◌&&◌, ◌||◌, none, some, List, [], ◌∷◌, ◌++◌}
use prsqlite.Prelude.{if◌then◌else◌, Bytes, Run, and_then}
use prsqlite.Prelude.{
  Error, duplicate_column_name, multiple_primary_key, column_is_not_found, parse_create_table_sql,
  parse_create_index_sql, useless_contents_at_the_tail, Result, ok, err, panic, ◌>>=◌, ◌>>◌, guard,
}
use prsqlite.Utils.Quoted.{dequote}
use prsqlite.Utils.CaseInsensitive.{eq}
use prsqlite.Value.{Collation, default_collation}
use prsqlite.Pager.{PageId}
use prsqlite.Parser.State as Parser
use prsqlite.Parser.State.{
  Outcome, done, failed, crashed, out_of_fuel, Parse, new_parser, expect_no_more_token,
}
use prsqlite.Parser.Create.{
  ColumnConstraint, collate_constraint, primary_key_constraint, ColumnDef, CreateTable, CreateIndex,
  parse_create_table, parse_create_index,
}
use prsqlite.Schema.Columns.{
  Column, ColumnNumber, calc_type_affinity, calc_collation, Index, Table, get_column,
}

-- `bail!` where a column has the name.
unfoldable pub check_name : Bytes → List Column → Result (Unit {0})
unfolding eq
check_name name [] = ok tt
check_name name (c ∷ cs) =
    let rest = check_name name cs in
    do same ← eq c.column_name name; if same then err duplicate_column_name else rest

-- `contains(&ColumnConstraint::PrinaryKey)`.
abbrev pub has_primary : List ColumnConstraint → Bool
has_primary [] = false
has_primary (primary_key_constraint ∷ cs) = true
has_primary (collate_constraint name ∷ cs) = has_primary cs

-- The last collation of the constraints.
unfoldable pub collation_from : Collation → List ColumnConstraint → Result Collation
unfolding calc_collation
collation_from collation [] = ok collation
collation_from collation (primary_key_constraint ∷ cs) = collation_from collation cs
collation_from collation (collate_constraint name ∷ cs) = do
  collation' ← calc_collation name
  collation_from collation' cs

-- One column, behind the columns there are.
unfoldable pub define_column : List Column → Bool → ColumnDef → Result Column
unfolding dequote check_name calc_type_affinity collation_from
define_column columns has_primary_key def = do
  name ← dequote def.column_name
  check_name name columns
  guard (not (has_primary def.constraints && has_primary_key)) multiple_primary_key
  collation ← collation_from default_collation def.constraints
  affinity ← calc_type_affinity def.type_name
  ok (record {
    column_name = name;
    column_affinity = affinity;
    primary_key = has_primary def.constraints;
    column_collation = collation;
  })

unfoldable pub define_columns : List Column → Bool → List ColumnDef → Result (List Column)
unfolding define_column
define_columns columns has_primary_key [] = ok columns
define_columns columns has_primary_key (def ∷ defs) = do
  c ← define_column columns has_primary_key def
  define_columns (columns ++ (c ∷ [])) (has_primary_key || c.primary_key) defs

-- What a parse of the whole of `sql` gives: an error of the parser, a panic, or its result with no token
-- left.
unfoldable pub parsed : {A : Type 0} → Error → Outcome A → Run A
unfolding expect_no_more_token
parsed message (done a p) = elim (expect_no_more_token p) [
  | done u q ↦ some (ok a)
  | failed e ↦ some (err useless_contents_at_the_tail)
  | crashed ↦ some panic
  | out_of_fuel ↦ none
]
parsed message (failed e) = some (err message)
parsed message crashed = some panic
parsed message out_of_fuel = none

unfoldable pub table_of : PageId → CreateTable → Result (Bytes × Table)
unfolding dequote define_columns
table_of root create = do
  name ← dequote create.created_table
  columns ← define_columns [] false create.columns
  ok (name, record { table_root = root; table_columns = columns; indexes = [] })

-- `Table::parse`.
unfoldable pub parse_table : ℕ → Bytes → PageId → Run (Bytes × Table)
unfolding new_parser parse_create_table parsed table_of
parse_table fuel sql root =
    and_then
      (parsed parse_create_table_sql (Parser.bind (new_parser sql) λ t. parse_create_table fuel))
      λ create. some (table_of root create)

unfoldable pub index_numbers : Table → List Bytes → Result (List ColumnNumber)
unfolding dequote get_column
index_numbers table [] = ok []
index_numbers table (column ∷ columns) = do
  name ← dequote column
  found ← get_column table name
  info ← elim found [ none ↦ err column_is_not_found | some info ↦ ok info ]
  rest ← index_numbers table columns
  ok (info.0 ∷ rest)

unfoldable pub index_of : PageId → Table → CreateIndex → Result (Bytes × Bytes × Index)
unfolding dequote index_numbers
index_of root table create = do
  numbers ← index_numbers table create.indexed_columns
  name ← dequote create.index_name
  ok (name, create.indexed_table, record { index_root = root; index_columns = numbers })

-- `Index::parse`.
unfoldable pub parse_index : ℕ → Bytes → PageId → Table → Run (Bytes × Bytes × Index)
unfolding new_parser parse_create_index parsed index_of
parse_index fuel sql root table =
    and_then
      (parsed parse_create_index_sql (Parser.bind (new_parser sql) λ t. parse_create_index fuel))
      λ create. some (index_of root table create)
