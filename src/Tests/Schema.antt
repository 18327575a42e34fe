-- ===== src/Tests/Schema.antt =====
-- Definitions of tables, and the theorems of the schema on them.
use prsqlite.Prelude.{
  ℕ, ◌≡◌, refl, true, false, some, List, [], ◌∷◌, map, pos, Bytes, bytes_eq, is_infix, Result, ok,
}
use Prim.Native.Char.{code}
use Prim.Native.String.{String}
use prsqlite.Utils.Ascii.{lower, is_space}
use prsqlite.Token.Chars.{char_code}
use prsqlite.Token.Defs.{word_token, space_token}
use prsqlite.Value.{
  Value, text, integer_value, integer_affinity, text_affinity, blob_affinity, binary, no_case,
}
use prsqlite.Parser.Create.{CreateTable, collate_constraint, primary_key_constraint}
use prsqlite.Schema.Columns.{Column, Table, ColumnNumber, calc_type_affinity, get_column}
use prsqlite.Schema.Affinity.{some_name, has_part, affinity_rule, calc_type_affinity-affinity_rule}
use prsqlite.Schema.Definition.{table_of}
use prsqlite.Schema.WellFormed.{IsTable, IsNumber, get_column-table_of}
use prsqlite.Schema.Catalog.{Schema, generate, get_table}
use prsqlite.Schema.Invariant.{get_table-IsTable}

abbrev codes : String → Bytes
codes String.[] = []
codes (String.◌∷◌ c s) = code c ∷ codes s

abbrev type_words : List Bytes
type_words = codes "REAL" ∷ codes "VarChar" ∷ []

calc_type_affinity-affinity_rule_example :
    calc_type_affinity type_words ≡ ok (affinity_rule type_words)
calc_type_affinity-affinity_rule_example = calc_type_affinity-affinity_rule type_words

type_words_rule : affinity_rule type_words ≡ text_affinity
unfolding affinity_rule some_name has_part is_infix lower
type_words_rule = refl

-- `create table t(id integer primary key, b collate nocase)`.
abbrev created : CreateTable
created = record {
  created_table = codes "t";
  columns =
      record {
        column_name = codes "id";
        type_name = codes "integer" ∷ [];
        constraints = primary_key_constraint ∷ [];
      }
      ∷ record {
        column_name = codes "b";
        type_name = [];
        constraints = collate_constraint (codes "NoCase") ∷ [];
      }
      ∷ [];
}

abbrev id_column : Column
id_column = record {
  column_name = codes "id";
  column_affinity = integer_affinity;
  primary_key = true;
  column_collation = binary;
}

abbrev b_column : Column
b_column = record {
  column_name = codes "b";
  column_affinity = blob_affinity;
  primary_key = false;
  column_collation = no_case;
}

abbrev the_table : Table
the_table = record { table_root = 2; table_columns = id_column ∷ b_column ∷ []; indexes = [] }

made_table : table_of 2 created ≡ ok (codes "t", the_table)
unfolding table_of lower bytes_eq
made_table = refl

in_lower_case : map lower (codes "ID") ≡ map lower (codes "id")
unfolding lower
in_lower_case = refl

get_column-table_of_example :
    IsTable the_table
    × ((number : ColumnNumber) × (get_column the_table (codes "ID")
          ≡ ok (some (number, integer_affinity, binary)))
        × IsNumber 0 id_column number)
get_column-table_of_example =
    get_column-table_of 2 created (codes "t") the_table [] (b_column ∷ []) id_column (codes "ID")
      made_table refl in_lower_case

abbrev rows : List (Result (List (Value ℕ)))
rows =
    ok (
      text (codes "table")
      ∷ text (codes "t")
      ∷ text (codes "t")
      ∷ integer_value (pos 2)
      ∷ text (codes "create table t(a)")
      ∷ [])
    ∷ []

abbrev a_table : Table
a_table = record {
  table_root = 2;
  table_columns =
      record {
        column_name = codes "a";
        column_affinity = blob_affinity;
        primary_key = false;
        column_collation = binary;
      }
      ∷ [];
  indexes = [];
}

abbrev the_schema : Schema
the_schema = record { tables = (codes "t", a_table) ∷ []; all_indexes = [] }

generated : generate 20 rows ≡ some (ok the_schema)
unfolding generate lower bytes_eq char_code word_token space_token is_space
generated = refl

found_table : get_table the_schema (codes "T") ≡ some a_table
unfolding get_table lower bytes_eq
found_table = refl

get_table-IsTable_example : IsTable a_table
get_table-IsTable_example =
    get_table-IsTable 20 rows the_schema (codes "T") a_table generated found_table
