-- ===== src/Schema/Columns.antt =====
-- Columns, their affinities and collations, and the columns of a table by name.
use prsqlite.Prelude.{ℕ, ◌+◌, Bool, true, false, not, ◌&&◌, Option, none, some, List, [], ◌∷◌}
use prsqlite.Prelude.{if◌then◌else◌, Bytes}
use prsqlite.Prelude.{invalid_collation, Result, ok, err, ◌>>=◌}
use prsqlite.Utils.Quoted.{dequote}
use prsqlite.Utils.CaseInsensitive.{eq, equal_to_lower_bytes, contains_lower_bytes}
use prsqlite.Value.{
  TypeAffinity, integer_affinity, text_affinity, blob_affinity, real_affinity, numeric_affinity,
  Collation, binary, no_case, r_trim, default_collation,
}
use prsqlite.Pager.{PageId}

pub record Column : Type 0 where
  pub column_name : Bytes
  pub column_affinity : TypeAffinity
  pub primary_key : Bool
  pub column_collation : Collation

pub data ColumnNumber : Type 0 where
  row_id : ColumnNumber
  column_at : ℕ → ColumnNumber

-- The lower-case names that the code looks for.
abbrev pub int_bytes : Bytes
int_bytes = b'i' ∷ b'n' ∷ b't' ∷ []

abbrev pub char_bytes : Bytes
char_bytes = b'c' ∷ b'h' ∷ b'a' ∷ b'r' ∷ []

abbrev pub clob_bytes : Bytes
clob_bytes = b'c' ∷ b'l' ∷ b'o' ∷ b'b' ∷ []

abbrev pub text_bytes : Bytes
text_bytes = b't' ∷ b'e' ∷ b'x' ∷ b't' ∷ []

abbrev pub blob_bytes : Bytes
blob_bytes = b'b' ∷ b'l' ∷ b'o' ∷ b'b' ∷ []

abbrev pub real_bytes : Bytes
real_bytes = b'r' ∷ b'e' ∷ b'a' ∷ b'l' ∷ []

abbrev pub floa_bytes : Bytes
floa_bytes = b'f' ∷ b'l' ∷ b'o' ∷ b'a' ∷ []

abbrev pub doub_bytes : Bytes
doub_bytes = b'd' ∷ b'o' ∷ b'u' ∷ b'b' ∷ []

abbrev pub binary_bytes : Bytes
binary_bytes = b'b' ∷ b'i' ∷ b'n' ∷ b'a' ∷ b'r' ∷ b'y' ∷ []

abbrev pub nocase_bytes : Bytes
nocase_bytes = b'n' ∷ b'o' ∷ b'c' ∷ b'a' ∷ b's' ∷ b'e' ∷ []

abbrev pub rtrim_bytes : Bytes
rtrim_bytes = b'r' ∷ b't' ∷ b'r' ∷ b'i' ∷ b'm' ∷ []

abbrev pub rowid_bytes : Bytes
rowid_bytes = b'r' ∷ b'o' ∷ b'w' ∷ b'i' ∷ b'd' ∷ []

abbrev pub is_text : TypeAffinity → Bool
is_text text_affinity = true
is_text _ = false

abbrev pub is_numeric : TypeAffinity → Bool
is_numeric numeric_affinity = true
is_numeric _ = false

abbrev pub is_integer : TypeAffinity → Bool
is_integer integer_affinity = true
is_integer _ = false

-- The affinity behind a name that is no integer name, by what the name contains.
abbrev pub next_affinity : TypeAffinity → Bool → Bool → Bool → TypeAffinity
next_affinity affinity texts blobs reals =
    if texts
    then text_affinity
    else if blobs
    then (if not (is_text affinity) then blob_affinity else affinity)
    else if is_numeric affinity && reals
    then real_affinity
    else affinity

-- `a || b` on tests that read bytes.
abbrev pub either : Result Bool → Result Bool → Result Bool
either a b = do x ← a; if x then ok true else b

unfoldable pub affinity_loop : TypeAffinity → List Bytes → Result TypeAffinity
unfolding contains_lower_bytes
affinity_loop affinity [] = ok affinity
affinity_loop affinity (name ∷ names) =
    let rest : Bool → Bool → Bool → Result TypeAffinity =
      λ texts blobs reals. affinity_loop (next_affinity affinity texts blobs reals) names in
    do
      ints ← contains_lower_bytes name int_bytes
      texts ←
          either (contains_lower_bytes name char_bytes)
            (either (contains_lower_bytes name clob_bytes) (contains_lower_bytes name text_bytes))
      blobs ← contains_lower_bytes name blob_bytes
      reals ←
          either (contains_lower_bytes name real_bytes)
            (either (contains_lower_bytes name floa_bytes) (contains_lower_bytes name doub_bytes))
      if ints then ok integer_affinity else rest texts blobs reals

unfoldable pub calc_type_affinity : List Bytes → Result TypeAffinity
unfolding affinity_loop
calc_type_affinity [] = ok blob_affinity
calc_type_affinity (name ∷ names) = affinity_loop numeric_affinity (name ∷ names)

unfoldable pub calc_collation : Bytes → Result Collation
unfolding dequote equal_to_lower_bytes
calc_collation collation_name = do
  name ← dequote collation_name
  is_binary ← equal_to_lower_bytes name binary_bytes
  is_nocase ← equal_to_lower_bytes name nocase_bytes
  is_rtrim ← equal_to_lower_bytes name rtrim_bytes
  if is_binary
      then ok binary
      else if is_nocase
      then ok no_case
      else if is_rtrim
      then ok r_trim
      else err invalid_collation

pub record Index : Type 0 where
  pub index_root : PageId
  pub index_columns : List ColumnNumber

-- The indexes of a table are the chain that begins with the last one.
pub record Table : Type 0 where
  pub table_root : PageId
  pub table_columns : List Column
  pub indexes : List Index

abbrev pub ColumnInfo : Type 0
ColumnInfo = ColumnNumber × TypeAffinity × Collation

-- `iter().enumerate().find(…)`, from position `i` on.
unfoldable pub find_column : Bytes → ℕ → List Column → Result (Option (ℕ × Column))
unfolding eq
find_column name i [] = ok none
find_column name i (c ∷ cs) =
    let rest = find_column name (i + 1) cs in
    do same ← eq c.column_name name; if same then ok (some (i, c)) else rest

abbrev pub number_of : ℕ → Column → ColumnNumber
number_of i c = if c.primary_key && is_integer c.column_affinity then row_id else column_at i

unfoldable pub column_info : Bytes → Option (ℕ × Column) → Result (Option ColumnInfo)
unfolding equal_to_lower_bytes
column_info name (some (i, c)) = ok (some (number_of i c, c.column_affinity, c.column_collation))
column_info name none = do
  is_rowid ← equal_to_lower_bytes name rowid_bytes
  ok (if is_rowid then some (row_id, integer_affinity, default_collation) else none)

unfoldable pub get_column : Table → Bytes → Result (Option ColumnInfo)
unfolding find_column column_info
get_column table name = do found ← find_column name 0 table.table_columns; column_info name found

unfoldable pub all_columns_from : ℕ → List Column → List ColumnInfo
all_columns_from i [] = []
all_columns_from i (c ∷ cs) =
    (number_of i c, c.column_affinity, c.column_collation) ∷ all_columns_from (i + 1) cs

unfoldable pub get_all_columns : Table → List ColumnInfo
unfolding all_columns_from
get_all_columns table = all_columns_from 0 table.table_columns
