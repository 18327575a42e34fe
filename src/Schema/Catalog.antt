-- ===== src/Schema/Catalog.antt =====
-- The schema of a database, from the rows of sqlite_schema.
use prsqlite.Prelude.{ℕ, zero, suc, ◌^◌, false, ◌||◌, Option, none, some, List, [], ◌∷◌, map, pos}
use prsqlite.Prelude.{if◌then◌else◌, Bytes, bytes_eq, ltb, Run, and_then}
use prsqlite.Prelude.{
  Error, invalid_type, invalid_name, invalid_tbl_name, invalid_root_page_id, invalid_sql,
  no_sql_for_table_schema, table_name_does_not_match, index_table_not_found,
  index_name_does_not_match, index_table_name_does_not_match, unsupported_type, Result, ok, err,
  ◌>>=◌, ◌>>◌, guard, ok_or,
}
use prsqlite.Utils.Ascii.{lower, upper_to_lower}
use prsqlite.Utils.Quoted.{dequote_iter, collect}
use prsqlite.Prelude.{length}
use prsqlite.Value.{Value, null, integer_value, text, integer_affinity, text_affinity, binary}
use prsqlite.Pager.{PageId}
use prsqlite.Schema.Columns.{Column, Index, Table}
use prsqlite.Schema.Definition.{parse_table, parse_index}

abbrev pub root_page_id : PageId
root_page_id = 1

abbrev pub table_bytes : Bytes
table_bytes = b't' ∷ b'a' ∷ b'b' ∷ b'l' ∷ b'e' ∷ []

abbrev pub index_bytes : Bytes
index_bytes = b'i' ∷ b'n' ∷ b'd' ∷ b'e' ∷ b'x' ∷ []

abbrev pub view_bytes : Bytes
view_bytes = b'v' ∷ b'i' ∷ b'e' ∷ b'w' ∷ []

abbrev pub trigger_bytes : Bytes
trigger_bytes = b't' ∷ b'r' ∷ b'i' ∷ b'g' ∷ b'g' ∷ b'e' ∷ b'r' ∷ []

abbrev pub sqlite_schema_bytes : Bytes
sqlite_schema_bytes =
    b's' ∷ b'q' ∷ b'l' ∷ b'i' ∷ b't' ∷ b'e' ∷ b'_' ∷ b's' ∷ b'c' ∷ b'h' ∷ b'e' ∷ b'm' ∷ b'a' ∷ []

abbrev pub text_column : Bytes → Column
text_column name = record {
  column_name = name;
  column_affinity = text_affinity;
  primary_key = false;
  column_collation = binary;
}

-- `Schema::schema_table`.
abbrev pub schema_table : Table
schema_table = record {
  table_root = root_page_id;
  table_columns =
      text_column (b't' ∷ b'y' ∷ b'p' ∷ b'e' ∷ [])
      ∷ text_column (b'n' ∷ b'a' ∷ b'm' ∷ b'e' ∷ [])
      ∷ text_column (b't' ∷ b'b' ∷ b'l' ∷ b'_' ∷ b'n' ∷ b'a' ∷ b'm' ∷ b'e' ∷ [])
      ∷ record {
        column_name = b'r' ∷ b'o' ∷ b'o' ∷ b't' ∷ b'p' ∷ b'a' ∷ b'g' ∷ b'e' ∷ [];
        column_affinity = integer_affinity;
        primary_key = false;
        column_collation = binary;
      }
      ∷ text_column (b's' ∷ b'q' ∷ b'l' ∷ [])
      ∷ [];
  indexes = [];
}

pub record SchemaRecord : Type 0 where
  pub type_ : Bytes
  pub name : Bytes
  pub table_name : Bytes
  pub root : PageId
  pub sql : Option Bytes

abbrev pub text_or : {F : Type 0} → Error → Value F → Result Bytes
text_or e (text b) = ok b
text_or e _ = err e

-- An `i64` as a page id, a `u32`.
abbrev pub page_id_of : {F : Type 0} → Value F → Result PageId
page_id_of (integer_value (pos n)) = if ltb n (2 ^ 32) then ok n else err invalid_root_page_id
page_id_of _ = err invalid_root_page_id

abbrev pub sql_of : {F : Type 0} → Value F → Result (Option Bytes)
sql_of null = ok none
sql_of (text b) = ok (some b)
sql_of _ = err invalid_sql

-- `Columns::get`.
abbrev pub value_at : {F : Type 0} → List (Value F) → ℕ → Value F
value_at [] i = null
value_at (v ∷ vs) zero = v
value_at (v ∷ vs) (suc i) = value_at vs i

-- `SchemaRecord::parse`.
unfoldable pub parse_schema_record : {F : Type 0} → List (Value F) → Result SchemaRecord
parse_schema_record columns = do
  type_ ← text_or invalid_type (value_at columns 0)
  name ← text_or invalid_name (value_at columns 1)
  table_name ← text_or invalid_tbl_name (value_at columns 2)
  root ← page_id_of (value_at columns 3)
  sql ← sql_of (value_at columns 4)
  ok (record { type_ = type_; name = name; table_name = table_name; root = root; sql = sql })

-- A map from lower-case names, as an association list without doubles.
unfoldable pub find_name : {A : Type 0} → Bytes → List (Bytes × A) → Option A
find_name key [] = none
find_name key ((k, a) ∷ rest) = if bytes_eq k key then some a else find_name key rest

unfoldable pub insert_name : {A : Type 0} → Bytes → A → List (Bytes × A) → List (Bytes × A)
insert_name key a [] = (key, a) ∷ []
insert_name key a ((k, b) ∷ rest) =
    if bytes_eq k key then (k, a) ∷ rest else (k, b) ∷ insert_name key a rest

-- An entry of `indexes` shares its index with the chain of the table.
pub record Schema : Type 0 where
  pub tables : List (Bytes × Table)
  pub all_indexes : List (Bytes × List Index)

-- A row of a table.
unfoldable pub add_table : ℕ → SchemaRecord → Schema → Run Schema
unfolding parse_table insert_name upper_to_lower
add_table fuel r s =
    and_then
      (some (do
        guard (bytes_eq r.name r.table_name) table_name_does_not_match
        ok_or r.sql no_sql_for_table_schema))
      λ sql. and_then (parse_table fuel sql r.root) λ (parsed_name, table).
        and_then (some (guard (bytes_eq parsed_name r.name) table_name_does_not_match)) λ same.
          some (ok (record s { tables = insert_name (upper_to_lower parsed_name) table s.tables }))

-- The index of a row, put in front of the chain of its table.
unfoldable pub put_index : SchemaRecord → Table → Bytes × Bytes × Index → Schema → Result Schema
unfolding insert_name upper_to_lower dequote_iter collect
put_index r table (index_name, parsed_table_name, index) s = do
  guard (bytes_eq index_name r.name) index_name_does_not_match
  it ← dequote_iter parsed_table_name
  guard (bytes_eq (upper_to_lower r.table_name) (map lower (collect (length parsed_table_name) it)))
      index_table_name_does_not_match
  ok (record {
    tables =
        insert_name (upper_to_lower r.table_name) (record table { indexes = index ∷ table.indexes })
          s.tables;
    all_indexes = insert_name (upper_to_lower index_name) (index ∷ table.indexes) s.all_indexes;
  })

-- A row of an index; an index without SQL is passed over.
unfoldable pub add_index : ℕ → SchemaRecord → Schema → Run Schema
unfolding find_name upper_to_lower parse_index put_index
add_index fuel r s =
    and_then (some (ok_or (find_name (upper_to_lower r.table_name) s.tables) index_table_not_found))
      λ table. elim r.sql [
        | none ↦ some (ok s)
        | some sql ↦
            and_then (parse_index fuel sql r.root table) λ parsed. some (put_index r table parsed s)
      ]

unfoldable pub add_record : ℕ → SchemaRecord → Schema → Run Schema
unfolding add_table add_index
add_record fuel r s =
    if bytes_eq r.type_ table_bytes
    then add_table fuel r s
    else if bytes_eq r.type_ index_bytes
    then add_index fuel r s
    else if bytes_eq r.type_ view_bytes || bytes_eq r.type_ trigger_bytes
    then some (ok s)
    else some (err unsupported_type)

-- The loop of `generate` over the rows, each read or an error.
unfoldable pub add_rows : {F : Type 0} → ℕ → List (Result (List (Value F))) → Schema → Run Schema
unfolding parse_schema_record add_record
add_rows fuel [] s = some (ok s)
add_rows fuel (row ∷ rows) s =
    and_then (some (row >>= parse_schema_record))
      λ r. and_then (add_record fuel r s) (add_rows fuel rows)

-- `Schema::generate`, on the rows of sqlite_schema.
unfoldable pub generate : {F : Type 0} → ℕ → List (Result (List (Value F))) → Run Schema
unfolding add_rows
generate fuel rows = add_rows fuel rows (record { tables = []; all_indexes = [] })

unfoldable pub get_table : Schema → Bytes → Option Table
unfolding find_name upper_to_lower
get_table s table =
    let key = upper_to_lower table in
    if bytes_eq key sqlite_schema_bytes then some schema_table else find_name key s.tables

unfoldable pub get_index : Schema → Bytes → Option (List Index)
unfolding find_name upper_to_lower
get_index s index = find_name (upper_to_lower index) s.all_indexes
