-- ===== src/Value.antt =====
-- value.rs: values, type affinity and the comparison under a collation. A `Buffer` is its bytes:
-- whether it owns them is not observable.
pub mod Sees
pub mod Order
pub mod Conversion
use prsqlite.Prelude.{
  ℕ, zero, suc, ◌+◌, ◌-◌, ◌/◌, ◌%◌, ◌^◌, Ordering, Bool, true, false, not, ◌&&◌, ◌||◌, Option, none,
  some, [], ◌∷◌,
}
use prsqlite.Prelude.{ltb, ◌==◌, if◌then◌else◌, reverse_ordering}
use prsqlite.Prelude.{take, Bytes}
use prsqlite.Prelude.{ℤ, pos, negsuc, i64_min, i64_max, compare_ℤ}
use prsqlite.Prelude.{Result, ok, panic, ◌>>=◌, ◌>>◌, unwrap}
use prsqlite.Prelude.{bytes_cmp}
use prsqlite.Utils.Integer.{
  ParseIntegerResult, integer, max_plus_one, too_big, empty, parse_integer,
}
use prsqlite.Utils.Decimal.{Floats, parse_float}
use prsqlite.Utils.CaseInsensitive.{cmp}

pub data TypeAffinity : Type 0 where
  integer_affinity text_affinity blob_affinity real_affinity numeric_affinity : TypeAffinity

pub data Collation : Type 0 where
  binary no_case r_trim : Collation

abbrev pub default_collation : Collation
default_collation = binary

abbrev pub Buffer : Type 0
Buffer = Bytes

-- `Value`, over the type of the floats.
pub data Value (F : Type 0) : Type 0 where
  null : Value F
  integer_value : ℤ → Value F
  real : F → Value F
  text : Buffer → Value F
  blob : Buffer → Value F

-- The digits of `n`, the last first digit in front of `rest`, on fuel: 20 are enough for a 64-bit word.
abbrev pub decimal_text : ℕ → ℕ → Bytes → Bytes
decimal_text zero n rest = rest
decimal_text (suc fuel) n rest =
    let digit = b'0' + n % 10 in
    let more = decimal_text fuel (n / 10) (digit ∷ rest) in if ltb n 10 then digit ∷ rest else more

-- `write!(_, "{}", i)`.
unfoldable pub write_integer : ℤ → Bytes
write_integer (pos n) = decimal_text 20 n []
write_integer (negsuc n) = b'-' ∷ decimal_text 20 (n + 1) []

-- The position behind the last byte that is not a space.
unfoldable pub tail_of : Bytes → ℕ
tail_of [] = 0
tail_of (b ∷ bs) = let t = tail_of bs in if ltb 0 t || not (b == b' ') then suc t else 0

-- The comparison of two texts under a collation.
unfoldable pub compare_text : Collation → Bytes → Bytes → Ordering
unfolding tail_of cmp
compare_text binary t1 t2 = bytes_cmp t1 t2
compare_text no_case t1 t2 = cmp t1 t2
compare_text r_trim t1 t2 = bytes_cmp (take (tail_of t1) t1) (take (tail_of t2) t2)

-- The integer that `as_integer` makes of what `parse_integer` found.
unfoldable pub clamp_integer : ParseIntegerResult → ℤ
clamp_integer (integer i) = i
clamp_integer empty = pos 0
clamp_integer max_plus_one = i64_max
clamp_integer (too_big positive) = if positive then i64_max else i64_min

module _ {F : Type 0} (fl : Floats F) where
  -- `Value::display`: the bytes written.
  unfoldable pub display : Value F → Bytes
  unfolding write_integer
  display null = []
  display (integer_value i) = write_integer i
  display (real d) = fl.display_float d
  display (blob buf) = buf
  display (text buf) = buf

  -- 2 ^ 63 and - 2 ^ 63 as floats.
  abbrev pub upper_real : F
  upper_real = fl.from_i64 (pos (2 ^ 63))

  abbrev pub lower_real : F
  lower_real = fl.from_i64 i64_min

  -- `d >= e`, `d <= e` and `d == e`: no order between a float and NaN.
  abbrev pub real_ge : F → F → Bool
  real_ge d e = elim (fl.partial_cmp d e) [
    | none ↦ false
    | some Ordering.lt ↦ false
    | some o ↦ true
  ]

  abbrev pub real_le : F → F → Bool
  real_le d e = elim (fl.partial_cmp d e) [
    | none ↦ false
    | some Ordering.gt ↦ false
    | some o ↦ true
  ]

  abbrev pub real_eq : F → F → Bool
  real_eq d e = elim (fl.partial_cmp d e) [ some Ordering.eq ↦ true | _ ↦ false ]

  -- `i64::MAX as f64` rounds to 2 ^ 63.
  unfoldable pub real_to_int : F → ℤ
  real_to_int d =
      if real_ge d upper_real
      then i64_max
      else if real_le d lower_real
      then i64_min
      else fl.to_i64 d

  -- The range (-2251799813685248..2251799813685248).
  abbrev pub in_exact_range : ℤ → Bool
  in_exact_range (pos n) = ltb n 2251799813685248
  in_exact_range (negsuc n) = ltb n 2251799813685248

  unfoldable pub is_real_same_as_int : F → ℤ → Bool
  is_real_same_as_int d i =
      real_eq d (fl.from_i64 (pos 0))
      || fl.to_bits d == fl.to_bits (fl.from_i64 i) && in_exact_range i

  -- The float, or the integer that it is the same as.
  unfoldable pub integer_or_real : F → Value F
  unfolding real_to_int is_real_same_as_int
  integer_or_real d =
      if is_real_same_as_int d (real_to_int d) then integer_value (real_to_int d) else real d

  -- What `apply_numeric_affinity` makes of a text that is no integer.
  unfoldable pub float_or_text : Bytes → Bool × Bool × F → Value F
  unfolding integer_or_real
  float_or_text buf (valid, _, d) = if valid then integer_or_real d else text buf

  unfoldable pub number_or_text : Bytes → Bool × ParseIntegerResult → Value F
  unfolding float_or_text parse_float
  number_or_text buf (true, integer i) = integer_value i
  number_or_text buf _ = float_or_text buf (parse_float fl buf)

  unfoldable pub apply_numeric_affinity : Value F → Value F
  unfolding number_or_text parse_integer
  apply_numeric_affinity (text buf) = number_or_text buf (parse_integer buf)
  apply_numeric_affinity v = v

  -- The assertion that the value is not null comes first.
  unfoldable pub apply_text_affinity : Value F → Result (Value F)
  unfolding write_integer
  apply_text_affinity null = panic
  apply_text_affinity (integer_value i) = ok (text (write_integer i))
  apply_text_affinity (real d) = ok (text (fl.display_float d))
  apply_text_affinity (text t) = ok (text t)
  apply_text_affinity (blob b) = ok (blob b)

  unfoldable pub as_integer : Value F → Option ℤ
  unfolding real_to_int clamp_integer parse_integer
  as_integer null = none
  as_integer (integer_value i) = some i
  as_integer (real d) = some (real_to_int d)
  as_integer (text buf) = some (clamp_integer (parse_integer buf).1)
  as_integer (blob buf) = some (clamp_integer (parse_integer buf).1)

  unfoldable pub force_text_buffer : Value F → Result Buffer
  unfolding write_integer
  force_text_buffer null = panic
  force_text_buffer (integer_value i) = ok (write_integer i)
  force_text_buffer (real d) = ok (fl.display_float d)
  force_text_buffer (text buf) = ok buf
  force_text_buffer (blob buf) = ok buf

  -- The cast of a text or a blob to NUMERIC.
  unfoldable pub cast_numeric : Bytes → Bool × Bool × F → ParseIntegerResult → Value F
  unfolding integer_or_real
  cast_numeric buf (_, true, d) (integer i) = integer_value i
  cast_numeric buf (_, _, d) _ = integer_or_real d

  unfoldable pub force_apply_type_affinity : Value F → TypeAffinity → Result (Value F)
  unfolding cast_numeric as_integer force_text_buffer parse_float parse_integer
  force_apply_type_affinity null _ = ok null
  force_apply_type_affinity (text buf) numeric_affinity =
      ok (cast_numeric buf (parse_float fl buf) (parse_integer buf).1)
  force_apply_type_affinity (blob buf) numeric_affinity =
      ok (cast_numeric buf (parse_float fl buf) (parse_integer buf).1)
  force_apply_type_affinity v numeric_affinity = ok v
  force_apply_type_affinity v integer_affinity = elim (as_integer v) [
    | some i ↦ ok (integer_value i)
    | none ↦ ok null
  ]
  force_apply_type_affinity (integer_value i) real_affinity = ok (real (fl.from_i64 i))
  force_apply_type_affinity (real d) real_affinity = ok (real d)
  force_apply_type_affinity (text buf) real_affinity = ok (real (parse_float fl buf).2)
  force_apply_type_affinity (blob buf) real_affinity = ok (real (parse_float fl buf).2)
  force_apply_type_affinity v text_affinity = do b ← force_text_buffer v; ok (text b)
  force_apply_type_affinity v blob_affinity = do b ← force_text_buffer v; ok (blob b)

  -- `cmp_int_real`.
  unfoldable pub cmp_int_real : ℤ → F → Ordering
  cmp_int_real i r =
      let below = fl.less (fl.from_i64 i) r in
      let above = fl.less r (fl.from_i64 i) in
      if fl.less r lower_real
      then Ordering.gt
      else if real_ge r upper_real
      then Ordering.lt
      else elim (compare_ℤ i (fl.to_i64 r)) [
        | Ordering.eq ↦ if below then Ordering.lt else if above then Ordering.gt else Ordering.eq
        | o ↦ o
      ]

  -- `ValueCmp::compare` of a value and a collation with another value.
  unfoldable pub compare_values : Collation → Value F → Value F → Result Ordering
  unfolding cmp_int_real compare_text
  compare_values collation null null = ok Ordering.eq
  compare_values collation null _ = ok Ordering.lt
  compare_values collation _ null = ok Ordering.gt
  compare_values collation (integer_value i1) (integer_value i2) = ok (compare_ℤ i1 i2)
  compare_values collation (integer_value i1) (real d2) = ok (cmp_int_real i1 d2)
  compare_values collation (real d1) (integer_value i2) = ok (reverse_ordering (cmp_int_real i2 d1))
  compare_values collation (real d1) (real d2) = unwrap (fl.partial_cmp d1 d2)
  compare_values collation (integer_value i) _ = ok Ordering.lt
  compare_values collation _ (integer_value i) = ok Ordering.gt
  compare_values collation (real d) _ = ok Ordering.lt
  compare_values collation _ (real d) = ok Ordering.gt
  compare_values collation (text t1) (text t2) = ok (compare_text collation t1 t2)
  compare_values collation (text t) (blob b) = ok Ordering.lt
  compare_values collation (blob b) (text t) = ok Ordering.gt
  compare_values collation (blob b1) (blob b2) = ok (bytes_cmp b1 b2)
