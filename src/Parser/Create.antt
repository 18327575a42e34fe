-- ===== src/Parser/Create.antt =====
-- CREATE TABLE and CREATE INDEX.
pub mod Print
pub mod Columns
pub mod RoundTrip
use prsqlite.Prelude.{ℕ, zero, suc, Option, none, some, List, ◌∷◌, ◌++◌, []}
use prsqlite.Prelude.{if◌then◌else◌, Bytes}
use prsqlite.Token.Defs.{
  Token, collate, create, index_kw, key, on, primary, table, left_paren, right_paren, comma,
}
use prsqlite.Parser.State.{
  no_collation_name, no_key_after_primary, no_create, no_table, no_table_name, no_left_paren,
  no_column_name, no_right_paren, no_index, no_index_name, no_on, out_of_fuel, Parse, bind, pure,
  error, next, is_token, expect_next, expect_peek, expect_identifier, ◌>>=◌, ◌>>◌,
}
use prsqlite.Parser.Names.{parse_type_name}

pub data ColumnConstraint : Type 0 where
  collate_constraint : Bytes → ColumnConstraint
  primary_key_constraint : ColumnConstraint

pub record ColumnDef : Type 0 where
  pub column_name : Bytes
  pub type_name : List Bytes
  pub constraints : List ColumnConstraint

pub record CreateTable : Type 0 where
  pub created_table : Bytes
  pub columns : List ColumnDef

pub record CreateIndex : Type 0 where
  pub index_name : Bytes
  pub indexed_table : Bytes
  pub indexed_columns : List Bytes

unfoldable pub collate_clause : Parse ColumnConstraint
unfolding next expect_identifier
collate_clause = do name ← expect_identifier no_collation_name; next; pure (collate_constraint name)

unfoldable pub primary_clause : Parse ColumnConstraint
unfolding next expect_next
primary_clause = do expect_next key no_key_after_primary; next; pure primary_key_constraint

unfoldable pub constraint_at : Option Token → Parse (Option ColumnConstraint)
unfolding collate_clause primary_clause
constraint_at (some collate) = do c ← collate_clause; pure (some c)
constraint_at (some primary) = do c ← primary_clause; pure (some c)
constraint_at _ = pure none

unfoldable pub parse_column_constraint : Parse (Option ColumnConstraint)
unfolding constraint_at
parse_column_constraint p = constraint_at p.token p

-- The step of the loop over the constraints: `again` is the loop.
unfoldable pub constraints_step :
    (List ColumnConstraint → Parse (List ColumnConstraint))
    → List ColumnConstraint
    → Option ColumnConstraint
    → Parse (List ColumnConstraint)
constraints_step again found (some constraint) = again (found ++ (constraint ∷ []))
constraints_step again found none = pure found

unfoldable pub constraints_loop : ℕ → List ColumnConstraint → Parse (List ColumnConstraint)
unfolding parse_column_constraint constraints_step
constraints_loop zero found p = out_of_fuel
constraints_loop (suc fuel) found p =
    bind (parse_column_constraint p) (constraints_step (constraints_loop fuel) found)

unfoldable pub parse_column_def : ℕ → Parse ColumnDef
unfolding next expect_identifier parse_type_name constraints_loop
parse_column_def fuel = do
  name ← expect_identifier no_column_name
  next
  words ← parse_type_name fuel
  found ← constraints_loop fuel []
  pure (record { column_name = name; type_name = words; constraints = found })

-- What stands behind a column: another one, or the end of the list.
unfoldable pub columns_step :
    (List ColumnDef → Parse (List ColumnDef))
    → List ColumnDef
    → Option Token
    → Parse (List ColumnDef)
unfolding is_token
columns_step again columns t =
    if is_token comma t
    then again columns
    else if is_token right_paren t
    then pure columns
    else error no_right_paren

unfoldable pub columns_loop : ℕ → List ColumnDef → Parse (List ColumnDef)
unfolding parse_column_def columns_step
columns_loop zero columns p = out_of_fuel
columns_loop (suc fuel) columns p =
    bind (parse_column_def fuel p)
      λ column p'. columns_step (columns_loop fuel) (columns ++ (column ∷ [])) p'.token p'

unfoldable pub parse_create_table : ℕ → Parse CreateTable
unfolding next expect_peek expect_next expect_identifier columns_loop
parse_create_table fuel = do
  expect_peek create no_create
  expect_next table no_table
  name ← expect_identifier no_table_name
  expect_next left_paren no_left_paren
  found ← columns_loop fuel []
  next
  pure (record { created_table = name; columns = found })

-- What stands behind a column of an index.
unfoldable pub indexed_step :
    (List Bytes → Parse (List Bytes)) → List Bytes → Option Token → Parse (List Bytes)
unfolding is_token
indexed_step again columns t =
    if is_token comma t
    then again columns
    else if is_token right_paren t
    then pure columns
    else error no_right_paren

unfoldable pub indexed_loop : ℕ → List Bytes → Parse (List Bytes)
unfolding next expect_identifier indexed_step
indexed_loop zero columns p = out_of_fuel
indexed_loop (suc fuel) columns p =
    bind (expect_identifier no_column_name p)
      λ name p'. bind (next p') λ t. indexed_step (indexed_loop fuel) (columns ++ (name ∷ [])) t

unfoldable pub parse_create_index : ℕ → Parse CreateIndex
unfolding next expect_peek expect_next expect_identifier indexed_loop
parse_create_index fuel = do
  expect_peek create no_create
  expect_next index_kw no_index
  name ← expect_identifier no_index_name
  expect_next on no_on
  on_table ← expect_identifier no_table_name
  expect_next left_paren no_left_paren
  found ← indexed_loop fuel []
  next
  pure (record { index_name = name; indexed_table = on_table; indexed_columns = found })
