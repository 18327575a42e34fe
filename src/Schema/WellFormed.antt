-- ===== src/Schema/WellFormed.antt =====
-- The tables that definitions give: their columns have different names, and one at most is the primary key.
use prsqlite.Prelude.{
  ℕ, ◌+◌, ◌≤◌, ◌≡◌, refl, sym, ap, ◌∙◌, Bool, true, false, not, ◌&&◌, ◌||◌, some, List, [], ◌∷◌,
  ◌++◌, map, arith,
}
use prsqlite.Prelude.{if◌then◌else◌, bytes_eq, bytes_eq_refl, Bytes, length}
use prsqlite.Prelude.{
  Result, ok, err, ok_before, bind-ok, panic, duplicate_column_name, multiple_primary_key, guard,
}
use mathlib.Core.Path.{subst}
use prsqlite.Value.{default_collation}
use prsqlite.Utils.Ascii.{lower}
use prsqlite.Utils.Quoted.{dequote}
use prsqlite.Utils.CaseInsensitive.{eq}
use prsqlite.Utils.CaseInsensitive.Laws.{eq_lem}
use prsqlite.Prelude.{◌≢◌, ◌⊎◌, inl, inr, Bool-cases, if_true, if_false}
use prsqlite.Value.{
  TypeAffinity, integer_affinity, text_affinity, blob_affinity, real_affinity, numeric_affinity,
}
use prsqlite.Schema.Columns.{ColumnNumber, row_id, column_at, is_integer}
use prsqlite.Pager.{PageId}
use prsqlite.Parser.Create.{ColumnDef, CreateTable}
use prsqlite.Schema.Columns.{
  Column, Table, calc_type_affinity, number_of, find_column, column_info, get_column,
}
use prsqlite.Schema.Definition.{
  check_name, collation_from, has_primary, define_column, define_columns, table_of,
}

abbrev pub key_of : Column → Bytes
key_of c = map lower c.column_name

-- No column of a list has a name, in whatever case.
unfoldable pub lacks : Bytes → List Column → Bool
lacks key [] = true
lacks key (c ∷ cs) = not (bytes_eq (key_of c) key) && lacks key cs

-- No column of a list has the name of another one before it.
unfoldable pub differs : Column → List Column → Bool
differs c [] = true
differs c (d ∷ ds) = not (bytes_eq (key_of c) (key_of d)) && differs c ds

unfoldable pub all_differ : List Column → Bool
unfolding differs
all_differ [] = true
all_differ (c ∷ cs) = differs c cs && all_differ cs

unfoldable pub primaries : List Column → ℕ
primaries [] = 0
primaries (c ∷ cs) = (if c.primary_key then 1 else 0) + primaries cs

pub record IsTable (t : Table) : Type 0 where
  pub names_differ : all_differ t.table_columns ≡ true
  pub one_primary : primaries t.table_columns ≤ 1

differs-append :
    (c d : Column) (cs : List Column)
    → differs c (cs ++ (d ∷ [])) ≡ (differs c cs && not (bytes_eq (key_of c) (key_of d)))
unfolding differs
differs-append c d [] = ground arith
differs-append c d (x ∷ xs) = let later = differs-append c d xs in ground (arith, later)

all_differ-append :
    (cs : List Column) (d : Column)
    → all_differ cs ≡ true
    → lacks (key_of d) cs ≡ true
    → all_differ (cs ++ (d ∷ [])) ≡ true
unfolding all_differ lacks differs
all_differ-append [] d h l = refl
all_differ-append (c ∷ cs) d h l =
    let here = differs-append c d cs in
    let later = all_differ-append cs d (ground arith) (ground arith) in ground (arith, here, later)

primaries-append :
    (cs : List Column) (d : Column)
    → primaries (cs ++ (d ∷ [])) ≡ primaries cs + (if d.primary_key then 1 else 0)
unfolding primaries
primaries-append [] d = omega arith
primaries-append (c ∷ cs) d = omega (arith, primaries-append cs d)

no_bail :
    (b : Bool) (rest : Result (Unit {0}))
    → (if b then err duplicate_column_name else rest) ≡ ok tt
    → (b ≡ false) × (rest ≡ ok tt)
no_bail true rest h = cc
no_bail false rest h = (refl, h)

check_name-lacks :
    (name : Bytes) (cs : List Column)
    → check_name name cs ≡ ok tt
    → lacks (map lower name) cs ≡ true
unfolding check_name lacks
check_name-lacks name [] h = refl
check_name-lacks name (c ∷ cs) h =
    let (same, rest) =
      no_bail _ (check_name name cs)
        (sym (bind-ok (eq c.column_name name) _ (eq_lem c.column_name name)) ∙ h) in
    let later = check_name-lacks name cs rest in ground (arith, same, later)

abbrev column_of : Column → Result Column → Column
column_of d (ok c) = c
column_of d (err e) = d
column_of d panic = d

abbrev columns_of : List Column → Result (List Column) → List Column
columns_of ds (ok cs) = cs
columns_of ds (err e) = ds
columns_of ds panic = ds

guarded : (b : Bool) (u : Unit {0}) → guard (not b) multiple_primary_key ≡ ok u → b ≡ false
guarded true u h = cc
guarded false u h = refl

-- What is known of a column that is defined.
define_column-facts :
    (cs : List Column) (has : Bool) (def : ColumnDef) (c : Column)
    → define_column cs has def ≡ ok c
    → (lacks (key_of c) cs ≡ true) × ((c.primary_key && has) ≡ false)
unfolding define_column
define_column-facts cs has def c h =
    let (name, is_name, h₁) = ok_before (dequote def.column_name) _ h in
    let (u, is_new, h₂) = ok_before (check_name name cs) _ h₁ in
    let (v, one, h₃) =
      ok_before (guard (not (has_primary def.constraints && has)) multiple_primary_key) _ h₂ in
    let (collation, is_collation, h₄) =
      ok_before (collation_from default_collation def.constraints) _ h₃ in
    let (affinity, is_affinity, h₅) = ok_before (calc_type_affinity def.type_name) _ h₄ in
    let same = ap (column_of c) h₅ in
    (
      subst (λ (d : Column). lacks (key_of d) cs ≡ true) same (check_name-lacks name cs is_new),
      subst (λ (d : Column). (d.primary_key && has) ≡ false) same (guarded _ v one),
    )

-- The columns grow by the definitions, and stay different and with one primary key at most.
define_columns-facts :
    (cs : List Column) (has : Bool) (defs : List ColumnDef) (out : List Column)
    → all_differ cs ≡ true
    → primaries cs ≡ (if has then 1 else 0)
    → define_columns cs has defs ≡ ok out
    → (all_differ out ≡ true) × (primaries out ≤ 1)
unfolding define_columns
define_columns-facts cs has [] out differ few h =
    let same = ap (columns_of cs) h in
    (
      subst (λ (ds : List Column). all_differ ds ≡ true) same differ,
      subst (λ (ds : List Column). primaries ds ≤ 1) same (ground (arith, few)),
    )
define_columns-facts cs has (def ∷ defs) out differ few h =
    let (c, is_c, rest) = ok_before (define_column cs has def) _ h in
    let (new, one) = define_column-facts cs has def c is_c in
    define_columns-facts (cs ++ (c ∷ [])) (has || c.primary_key) defs out
      (all_differ-append cs c differ new) (primaries-append cs c ∙ ground (arith, few, one)) rest

abbrev table_in : Table → Result (Bytes × Table) → Table
table_in t (ok (name, u)) = u
table_in t (err e) = t
table_in t panic = t

pub table_of-IsTable :
    (root : PageId) (create : CreateTable) (name : Bytes) (t : Table)
    → table_of root create ≡ ok (name, t)
    → IsTable t
unfolding table_of primaries all_differ
table_of-IsTable root create name t h =
    let (name', is_name, h₁) = ok_before (dequote create.created_table) _ h in
    let (columns, is_columns, h₂) = ok_before (define_columns [] false create.columns) _ h₁ in
    let (differ, one) = define_columns-facts [] false create.columns columns refl refl is_columns in
    subst IsTable (ap (table_in t) h₂) (record { names_differ = differ; one_primary = one })

differs-at :
    (d : Column) (front back : List Column) (c : Column)
    → differs d (front ++ (c ∷ back)) ≡ true
    → bytes_eq (key_of d) (key_of c) ≡ false
unfolding differs
differs-at d [] back c h = ground arith
differs-at d (x ∷ front) back c h = differs-at d front back c (ground arith)

-- `iter().enumerate().find` stops at the column whose name it is, since those before it differ.
find_column-at :
    (front back : List Column) (c : Column) (name : Bytes) (i : ℕ)
    → all_differ (front ++ (c ∷ back)) ≡ true
    → map lower name ≡ key_of c
    → find_column name i (front ++ (c ∷ back)) ≡ ok (some (i + length front, c))
unfolding find_column all_differ
find_column-at [] back c name i differ same =
    let here : bytes_eq (key_of c) (map lower name) ≡ true = rw same (bytes_eq_refl (key_of c)) in
    bind-ok (eq c.column_name name) _ (eq_lem c.column_name name ∙ ap ok here)
    ∙ ap (λ (n : ℕ). ok (some (n, c))) (omega arith)
find_column-at (d ∷ front) back c name i differ same =
    let here : bytes_eq (key_of d) (map lower name) ≡ false =
      rw same (differs-at d front back c (ground arith)) in
    bind-ok (eq d.column_name name) _ (eq_lem d.column_name name ∙ ap ok here)
    ∙ (find_column-at front back c name (i + 1) (ground arith) same
        ∙ ap (λ (n : ℕ). ok (some (n, c))) (omega arith))

-- The number of the column at a position: an integer primary key is the row id, and any other column is
-- at its position.
pub data IsNumber (i : ℕ) (c : Column) : ColumnNumber → Type 0 where
  is_row_id : c.primary_key ≡ true → c.column_affinity ≡ integer_affinity → IsNumber i c row_id
  not_primary : c.primary_key ≡ false → IsNumber i c (column_at i)
  not_integer : c.column_affinity ≢ integer_affinity → IsNumber i c (column_at i)

affinity-is_integer :
    (a : TypeAffinity) → (a ≡ integer_affinity) ⊎ ((is_integer a ≡ false) × (a ≢ integer_affinity))
affinity-is_integer integer_affinity = inl refl
affinity-is_integer text_affinity = inr (refl, λ e. cc)
affinity-is_integer blob_affinity = inr (refl, λ e. cc)
affinity-is_integer real_affinity = inr (refl, λ e. cc)
affinity-is_integer numeric_affinity = inr (refl, λ e. cc)

both_true : (a b : Bool) → a ≡ true → b ≡ true → (a && b) ≡ true
both_true a b h k = rw (h, k)

number_of-IsNumber : (i : ℕ) (c : Column) → IsNumber i c (number_of i c)
number_of-IsNumber i c = elim (Bool-cases c.primary_key) [
  | inr other ↦
      subst (IsNumber i c)
        (sym (
          if_false (c.primary_key && is_integer c.column_affinity) row_id (column_at i)
            (ground arith)))
        (not_primary other)
  | inl primary ↦ elim (affinity-is_integer c.column_affinity) [
    | inl integer ↦
        subst (IsNumber i c)
          (sym (
            if_true (c.primary_key && is_integer c.column_affinity) row_id (column_at i) (
              both_true (c.primary_key) (is_integer c.column_affinity) primary
                (ap is_integer integer))))
          (is_row_id primary integer)
    | inr (other, ne) ↦
        subst (IsNumber i c)
          (sym (
            if_false (c.primary_key && is_integer c.column_affinity) row_id (column_at i)
              (ground arith)))
          (not_integer ne)
  ]
]

-- A table that a definition gives is well formed, and each of its columns is found by its name, in
-- whatever case, with its affinity and its collation: as the row id where it is an integer primary key,
-- and at its own position otherwise.
pub get_column-table_of :
    (root : PageId) (create : CreateTable) (name : Bytes) (t : Table) (front back : List Column)
    (c : Column) (sought : Bytes)
    → table_of root create ≡ ok (name, t)
    → t.table_columns ≡ front ++ (c ∷ back)
    → map lower sought ≡ map lower c.column_name
    → IsTable t
      × ((number : ColumnNumber) × (get_column t sought
            ≡ ok (some (number, c.column_affinity, c.column_collation)))
          × IsNumber (length front) c number)
unfolding get_column column_info
get_column-table_of root create name t front back c sought made columns same =
    let formed : IsTable t = table_of-IsTable root create name t made in
    let differ : all_differ (front ++ (c ∷ back)) ≡ true =
      subst (λ (ds : List Column). all_differ ds ≡ true) columns formed.names_differ in
    (
      formed,
      (
        number_of (length front) c,
        bind-ok (find_column sought 0 t.table_columns) _
              (ap (find_column sought 0) columns ∙ find_column-at front back c sought 0 differ same)
            ∙ ap (λ (n : ℕ). ok (some (number_of n c, c.column_affinity, c.column_collation)))
                (omega arith),
        number_of-IsNumber (length front) c,
      ),
    )
