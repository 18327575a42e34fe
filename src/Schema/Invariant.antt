-- ===== src/Schema/Invariant.antt =====
-- The tables of a schema are well formed.
use prsqlite.Prelude.{
  ℕ, ◌≡◌, refl, sym, ap, ◌∙◌, inl, inr, Bool, true, false, ◌||◌, Option, none, some, List, [], ◌∷◌,
  arith,
}
use mathlib.Core.Path.{subst}
use prsqlite.Prelude.{if◌then◌else◌, if_true, if_false, Bool-cases, bytes_eq, Bytes, Run, and_then}
use prsqlite.Prelude.{Result, ok, err, panic, ◌>>=◌, ok_before}
use prsqlite.Prelude.{
  parse_create_table_sql, length, map, ◌>>◌, Error, guard, ok_or, table_name_does_not_match,
  index_table_not_found, no_sql_for_table_schema, index_name_does_not_match, unsupported_type,
  index_table_name_does_not_match,
}
use prsqlite.Value.{Value}
use prsqlite.Pager.{PageId}
use prsqlite.Utils.Ascii.{upper_to_lower, lower}
use prsqlite.Utils.Quoted.{dequote_iter, collect}
use prsqlite.Parser.State.{bind, new_parser}
use prsqlite.Parser.Create.{parse_create_table}
use prsqlite.Schema.Columns.{Index, Table}
use prsqlite.Schema.Definition.{parsed, parse_table, parse_index}
use prsqlite.Schema.WellFormed.{IsTable, table_of-IsTable, all_differ, primaries}
use prsqlite.Schema.Catalog.{
  SchemaRecord, parse_schema_record, find_name, insert_name, Schema, add_table, put_index,
  add_index, add_record, add_rows, generate, get_table, schema_table, sqlite_schema_bytes,
  table_bytes, index_bytes, view_bytes, trigger_bytes,
}

-- What comes before a result of a run.
ran_before :
    {A B : Type 0} {b : B} (m : Run A) (f : A → Run B)
    → and_then m f ≡ some (ok b)
    → (a : A) × (m ≡ some (ok a)) × (f a ≡ some (ok b))
ran_before none f h = cc
ran_before (some (ok a)) f h = (a, refl, h)
ran_before (some (err e)) f h = cc
ran_before (some panic) f h = cc

abbrev AllTables : List (Bytes × Table) → Type 0
AllTables [] = Unit
AllTables ((key, t) ∷ rest) = IsTable t × AllTables rest

find_name-IsTable :
    (key : Bytes) (m : List (Bytes × Table)) (t : Table)
    → AllTables m
    → find_name key m ≡ some t
    → IsTable t
unfolding find_name
find_name-IsTable key [] t all h = cc
find_name-IsTable key ((k, u) ∷ rest) t (here, others) h = elim (Bool-cases (bytes_eq k key)) [
  | inl same ↦ subst IsTable (some_same u t (sym (if_true _ _ _ same) ∙ h)) here
  | inr other ↦ find_name-IsTable key rest t others (sym (if_false _ _ _ other) ∙ h)
]
  where
    some_same : (u t : Table) → some u ≡ some t → u ≡ t
    some_same u t e = cc

insert_name-AllTables :
    (key : Bytes) (t : Table) (m : List (Bytes × Table))
    → AllTables m
    → IsTable t
    → AllTables (insert_name key t m)
unfolding insert_name
insert_name-AllTables key t [] all new = (new, tt)
insert_name-AllTables key t ((k, u) ∷ rest) (here, others) new =
    elim (Bool-cases (bytes_eq k key)) [
      | inl same ↦ subst AllTables (sym (if_true _ _ _ same)) (new, others)
      | inr other ↦
          subst AllTables (sym (if_false _ _ _ other))
            (here, insert_name-AllTables key t rest others new)
    ]

parse_table-IsTable :
    (fuel : ℕ) (sql : Bytes) (root : PageId) (name : Bytes) (t : Table)
    → parse_table fuel sql root ≡ some (ok (name, t))
    → IsTable t
unfolding parse_table
parse_table-IsTable fuel sql root name t h =
    let (create, is_create, made) =
      ran_before
        (parsed parse_create_table_sql (bind (new_parser sql) λ t. parse_create_table fuel)) _ h in
    table_of-IsTable root create name t (ok_of made)
  where
    ok_of : {r s : Result (Bytes × Table)} → some r ≡ some s → r ≡ s
    ok_of e = cc

abbrev schema_in : Schema → Run Schema → Schema
schema_in s (some (ok u)) = u
schema_in s _ = s

add_table-AllTables :
    (fuel : ℕ) (r : SchemaRecord) (s s' : Schema)
    → AllTables s.tables
    → add_table fuel r s ≡ some (ok s')
    → AllTables s'.tables
unfolding add_table
add_table-AllTables fuel r s s' all h =
    let (sql, is_sql, h₁) =
      ran_before
        (some (
          guard (bytes_eq r.name r.table_name) table_name_does_not_match
          >> ok_or r.sql no_sql_for_table_schema))
        _ h in
    let (made, is_made, h₂) = ran_before (parse_table fuel sql r.root) _ h₁ in
    let (u, same, h₃) =
      ran_before (some (guard (bytes_eq made.0 r.name) table_name_does_not_match)) _ h₂ in
    subst (λ (s : Schema). AllTables s.tables) (ap (schema_in s) h₃)
      (insert_name-AllTables _ made.1 s.tables all
        (parse_table-IsTable fuel sql r.root made.0 made.1 is_made))

put_index-AllTables :
    (r : SchemaRecord) (table : Table) (made : Bytes × Bytes × Index) (s s' : Schema)
    → AllTables s.tables
    → IsTable table
    → put_index r table made s ≡ ok s'
    → AllTables s'.tables
unfolding put_index
put_index-AllTables r table (index_name, parsed_table_name, index) s s' all formed h =
    let (u, same, h₁) =
      ok_before (guard (bytes_eq index_name r.name) index_name_does_not_match) _ h in
    let (it, is_it, h₂) = ok_before (dequote_iter parsed_table_name) _ h₁ in
    let (v, same', h₃) =
      ok_before
        (guard
          (bytes_eq (upper_to_lower r.table_name)
            (map lower (collect (length parsed_table_name) it)))
          index_table_name_does_not_match)
        _ h₂ in
    let kept : IsTable (record table { indexes = index ∷ table.indexes }) = record {
      names_differ = formed.names_differ;
      one_primary = formed.one_primary;
    } in
    subst (λ (s : Schema). AllTables s.tables) (ap (λ (q : Result Schema). schema_in s (some q)) h₃)
      (insert_name-AllTables _ _ s.tables all kept)

ok_or-some :
    {A : Type 0} (o : Option A) (e : Error) (a : A) → some (ok_or o e) ≡ some (ok a) → o ≡ some a
ok_or-some none e a h = cc
ok_or-some (some b) e a h = cc

add_index-AllTables :
    (fuel : ℕ) (r : SchemaRecord) (s s' : Schema)
    → AllTables s.tables
    → add_index fuel r s ≡ some (ok s')
    → AllTables s'.tables
unfolding add_index
add_index-AllTables fuel r s s' all h =
    let found : Option Table = find_name (upper_to_lower r.table_name) s.tables in
    let (table, is_table, h₁) = ran_before (some (ok_or found index_table_not_found)) _ h in
    let formed =
      find_name-IsTable _ s.tables table all
        (ok_or-some found index_table_not_found table is_table) in
    indexed r.sql table formed h₁
  where
    indexed :
        (sql : Option Bytes) (table : Table)
        → IsTable table
        → (elim sql [
          | none ↦ some (ok s)
          | some sql ↦
              and_then
                (parse_index fuel sql r.root table)
                λ parsed. some (put_index r table parsed s)
        ])
          ≡ some (ok s')
        → AllTables s'.tables
    indexed none table formed g =
        subst (λ (s : Schema). AllTables s.tables) (ap (schema_in s) g) all
    indexed (some sql) table formed g =
        let (made, is_made, put) = ran_before (parse_index fuel sql r.root table) _ g in
        put_index-AllTables r table made s s' all formed (ran_ok put)
      where
        ran_ok : {p q : Result Schema} → some p ≡ some q → p ≡ q
        ran_ok e = cc

add_record-AllTables :
    (fuel : ℕ) (r : SchemaRecord) (s s' : Schema)
    → AllTables s.tables
    → add_record fuel r s ≡ some (ok s')
    → AllTables s'.tables
unfolding add_record
add_record-AllTables fuel r s s' all h = elim (Bool-cases (bytes_eq r.type_ table_bytes)) [
  | inl t ↦ add_table-AllTables fuel r s s' all (sym (if_true _ _ _ t) ∙ h)
  | inr n ↦ others (sym (if_false _ _ _ n) ∙ h)
]
  where
    kept :
        (b : Bool)
        → (if b then some (ok s) else some (err unsupported_type)) ≡ some (ok s')
        → AllTables s'.tables
    kept true g = subst (λ (s : Schema). AllTables s.tables) (ap (schema_in s) g) all
    kept false g = cc

    others :
        (if bytes_eq r.type_ index_bytes
            then add_index fuel r s
            else if bytes_eq r.type_ view_bytes || bytes_eq r.type_ trigger_bytes
            then some (ok s)
            else some (err unsupported_type))
          ≡ some (ok s')
        → AllTables s'.tables
    others g = elim (Bool-cases (bytes_eq r.type_ index_bytes)) [
      | inl t ↦ add_index-AllTables fuel r s s' all (sym (if_true _ _ _ t) ∙ g)
      | inr n ↦
          kept (bytes_eq r.type_ view_bytes || bytes_eq r.type_ trigger_bytes)
            (sym (if_false _ _ _ n) ∙ g)
    ]

add_rows-AllTables :
    {F : Type 0} (fuel : ℕ) (rows : List (Result (List (Value F)))) (s s' : Schema)
    → AllTables s.tables
    → add_rows fuel rows s ≡ some (ok s')
    → AllTables s'.tables
unfolding add_rows
add_rows-AllTables fuel [] s s' all h =
    subst (λ (s : Schema). AllTables s.tables) (ap (schema_in s) h) all
add_rows-AllTables fuel (row ∷ rows) s s' all h =
    let (r, is_r, h₁) = ran_before (some (row >>= parse_schema_record)) _ h in
    let (next, added, h₂) = ran_before (add_record fuel r s) _ h₁ in
    add_rows-AllTables fuel rows next s' (add_record-AllTables fuel r s next all added) h₂

schema_table-IsTable : IsTable schema_table
unfolding all_differ primaries bytes_eq lower
schema_table-IsTable = record { names_differ = refl; one_primary = omega arith }

-- Every table that a schema read from the rows of sqlite_schema finds, sqlite_schema itself as well, has
-- columns of different names, in whatever case, and one primary key at most, whatever the rows are and
-- whichever indexes were added.
pub get_table-IsTable :
    {F : Type 0} (fuel : ℕ) (rows : List (Result (List (Value F)))) (s : Schema) (name : Bytes)
    (t : Table)
    → generate fuel rows ≡ some (ok s)
    → get_table s name ≡ some t
    → IsTable t
unfolding generate get_table
get_table-IsTable fuel rows s name t made found =
    elim (Bool-cases (bytes_eq (upper_to_lower name) sqlite_schema_bytes)) [
      | inl own ↦
          subst IsTable (same_table schema_table t (sym (if_true _ _ _ own) ∙ found))
            schema_table-IsTable
      | inr other ↦
          find_name-IsTable (upper_to_lower name) s.tables t
            (add_rows-AllTables fuel rows (record { tables = []; all_indexes = [] }) s tt made)
            (sym (if_false _ _ _ other) ∙ found)
    ]
  where
    same_table : (u t : Table) → some u ≡ some t → u ≡ t
    same_table u t e = cc
