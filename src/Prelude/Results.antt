-- ===== src/Prelude/Results.antt =====
-- The outcome of code that returns an error or panics, and the slice operations that may panic.
use Prim.Native.Nat.{ℕ, ◌-◌}
use mathlib.Core.Path.{◌≡◌, refl}
use mathlib.Core.Bool.{Bool}
use mathlib.Core.Option.{Option, none, some}
use mathlib.Core.List.{List}
use prsqlite.Prelude.Tests.{leb, if◌then◌else◌}
use prsqlite.Prelude.Lists.{length, get_elem?, take, drop}

-- One constructor for each message of the code, `io_error` for a failed read.
pub data Error : Type 0 where
  cell_pointer_out_of_range cell_offset_out_of_range : Error
  parse_payload_length_varint parse_key_varint : Error
  payload_length_too_large payload_length_is_negative : Error
  payload_too_large_in_single_cell next_page_id_out_of_range next_page_id_is_zero : Error
  overflow_payload_without_next_page overflow_page_has_too_many_next_page : Error
  interior_cell_too_short : Error
  page_id_starts_from_1 page_id_exceeds_file_size io_error too_many_pages : Error
  offset_must_be_non_negative offset_exceeds_payload_size overflow_page_is_not_found : Error
  buffer_size_does_not_match reserved_record index_out_of_range : Error
  parse_record_header_size header_size_is_too_large record_header_size_mismatch : Error
  parse_serial_type serial_type_is_too_large keys_more_than_index_columns : Error
  failed_to_load_rowid : Error
  not_a_table_page not_an_index_page not_a_btree_page cursor_is_not_initialized : Error
  invalid_collation duplicate_column_name multiple_primary_key column_is_not_found : Error
  parse_create_table_sql parse_create_index_sql useless_contents_at_the_tail : Error
  invalid_type invalid_name invalid_tbl_name invalid_root_page_id invalid_sql : Error
  no_sql_for_table_schema table_name_does_not_match index_table_not_found unsupported_type : Error
  index_name_does_not_match index_table_name_does_not_match : Error

-- `panic` is a failed assertion, an unwrap of none, an index or a slice out of range.
pub data Result {ℓ} (A : Type ℓ) : Type ℓ where
  err : Error → Result A
  ok : A → Result A
  panic : Result A

infixl 5 ◌>>◌ ◌>>=◌
abbrev pub ◌>>=◌ {ℓ μ} : {A : Type ℓ} {B : Type μ} → Result A → (A → Result B) → Result B
panic >>= next = panic
err message >>= next = err message
ok value >>= next = next value

abbrev pub ◌>>◌ {ℓ} : {B : Type ℓ} → Result (Unit {0}) → Result B → Result B
first >> second = first >>= λ done. second

abbrev pub guard : Bool → Error → Result (Unit {0})
guard b message = if b then ok tt else err message

abbrev pub assert : Bool → Result (Unit {0})
assert b = if b then ok tt else panic

abbrev pub unwrap {ℓ} : {A : Type ℓ} → Option A → Result A
unwrap none = panic
unwrap (some a) = ok a

abbrev pub ok_or {ℓ} : {A : Type ℓ} → Option A → Error → Result A
ok_or none e = err e
ok_or (some a) e = ok a

-- What a loop on fuel gives: `none` is out of fuel.
abbrev pub Run {ℓ} : Type ℓ → Type ℓ
Run A = Option (Result A)

-- `?` on what may run out of fuel.
abbrev pub and_then {ℓ κ} : {A : Type ℓ} {B : Type κ} → Run A → (A → Run B) → Run B
and_then none f = none
and_then (some (ok a)) f = f a
and_then (some (err e)) f = some (err e)
and_then (some panic) f = some panic

-- The result is no panic.
abbrev pub IsSafe {ℓ} : {A : Type ℓ} → Result A → Type 0
IsSafe (ok a) = Unit
IsSafe (err e) = Unit
IsSafe panic = ⊥

-- Whatever the result holds has the property.
abbrev pub Ensures {ℓ κ} : {A : Type ℓ} → (A → Type κ) → Result A → Type κ
Ensures P (ok a) = P a
Ensures P (err e) = Unit
Ensures P panic = Unit

module _ {ℓ} {A : Type ℓ} where
  -- `xs[i]`.
  abbrev pub index : List A → ℕ → Result A
  index xs i = unwrap (get_elem? xs i)

  -- `xs[i..]`.
  abbrev pub slice_from : List A → ℕ → Result (List A)
  slice_from xs i = if leb i (length xs) then ok (drop i xs) else panic

  -- `xs[i..j]`.
  abbrev pub slice : List A → ℕ → ℕ → Result (List A)
  slice xs i j =
      if leb i j
      then (if leb j (length xs) then ok (take (j - i) (drop i xs)) else panic)
      else panic

-- What a chain that gives a value went through.
pub ok_before {ℓ μ} :
    {A : Type ℓ} {B : Type μ} {result : B} (first : Result A) (next : A → Result B)
    → (first >>= next) ≡ ok result
    → (value : A) × (first ≡ ok value) × (next value ≡ ok result)
ok_before panic next step = cc
ok_before (err message) next step = cc
ok_before (ok value) next step = (value, refl, step)

pub bind-IsSafe {ℓ μ} :
    {A : Type ℓ} {B : Type μ} (m : Result A) (f : A → Result B)
    → IsSafe m
    → ((a : A) → m ≡ ok a → IsSafe (f a))
    → IsSafe (m >>= f)
bind-IsSafe (ok a) f h k = k a refl
bind-IsSafe (err e) f h k = tt
bind-IsSafe panic f h k = h

pub bind-Ensures {ℓ κ μ} :
    {A : Type ℓ} {B : Type κ} (P : B → Type μ) (m : Result A) (f : A → Result B)
    → ((a : A) → m ≡ ok a → Ensures P (f a))
    → Ensures P (m >>= f)
bind-Ensures P (ok a) f k = k a refl
bind-Ensures P (err e) f k = tt
bind-Ensures P panic f k = tt

pub Ensures-ok {ℓ κ} :
    {A : Type ℓ} (P : A → Type κ) {r : Result A} {a : A} → Ensures P r → r ≡ ok a → P a
Ensures-ok P h e = rw e at h

pub and_then-ok {ℓ κ} :
    {A : Type ℓ} {B : Type κ} {a : A} (r : Result A) (f : A → Run B)
    → r ≡ ok a
    → and_then (some r) f ≡ f a
and_then-ok r f h = rw h

pub bind-ok {ℓ κ} :
    {A : Type ℓ} {B : Type κ} {a : A} (r : Result A) (f : A → Result B) → r ≡ ok a → (r >>= f) ≡ f a
bind-ok r f h = rw h

pub bind_assoc {ℓ κ μ} :
    {A : Type ℓ} {B : Type κ} {C : Type μ} (r : Result A) (f : A → Result B) (g : B → Result C)
    → ((r >>= f) >>= g) ≡ (r >>= λ a. f a >>= g)
bind_assoc (err e) f g = refl
bind_assoc (ok a) f g = refl
bind_assoc panic f g = refl
