-- ===== src/Utils/Decimal.antt =====
-- `parse_float` of utils.rs. The floats are those of the target: `Floats` has what the code uses of `f64`.
pub mod Bounds
use prsqlite.Prelude.{
  ℕ, zero, suc, ◌+◌, ◌-◌, ◌*◌, ◌/◌, ◌%◌, ◌^◌, Ordering, Bool, true, false, not, ◌&&◌, ◌||◌, Option,
  none, some, [], ◌∷◌,
}
use prsqlite.Prelude.{ltb, ◌==◌, if◌then◌else◌}
use prsqlite.Prelude.{get_elem?, drop, count_while, every, Bytes}
use prsqlite.Prelude.{ℤ, pos, negsuc, neg_ℕ, diff, ◌+ℤ◌}
use prsqlite.Utils.Ascii.{is_space, is_ascii_digit}
use prsqlite.Utils.Integer.{sign_at}

-- The operations of `f64` on a type of floats: `as` in both directions, the tests, `partial_cmp`,
-- `to_ne_bytes` as a word, `{}` of `write!`, and `10.0.powi`.
pub record Floats (F : Type 0) : Type 0 where
  pub from_i64 : ℤ → F
  pub to_i64 : F → ℤ
  pub times : F → F → F
  pub negate : F → F
  pub powi_10 : ℤ → F
  pub infinity : F
  pub less : F → F → Bool
  pub partial_cmp : F → F → Option Ordering
  pub is_nan : F → Bool
  pub to_bits : F → ℕ
  pub from_bits : ℕ → F
  pub display_float : F → Bytes

-- `(i64::MAX - 9) / 10` and `i64::MAX / 10`.
abbrev pub room_for_digit : ℕ
room_for_digit = 922337203685477579

abbrev pub room_for_factor : ℕ
room_for_factor = 922337203685477580

-- The integer part: the significand and how many digits went into it.
unfoldable pub integer_loop : ℕ → ℕ → Bytes → ℕ × ℕ
integer_loop significand digits [] = (significand, digits)
integer_loop significand digits (c ∷ cs) =
    let significand' = significand * 10 + (c - b'0') in
    let rest = integer_loop significand' (digits + 1) cs in
    if is_ascii_digit c
    then (if ltb significand' room_for_digit then rest else (significand', digits + 1))
    else (significand, digits)

-- The fractional part: the significand and how many of the digits went into it.
unfoldable pub fraction_loop : ℕ → ℕ → Bytes → ℕ × ℕ
fraction_loop significand used [] = (significand, used)
fraction_loop significand used (c ∷ cs) =
    let longer = fraction_loop (significand * 10 + (c - b'0')) (used + 1) cs in
    let same = fraction_loop significand used cs in
    if is_ascii_digit c
    then (if ltb significand room_for_digit then longer else same)
    else (significand, used)

-- The digits of the exponent.
unfoldable pub exponent_loop : ℕ → Bytes → ℕ
exponent_loop exponent [] = exponent
exponent_loop exponent (c ∷ cs) =
    let rest =
      exponent_loop (if ltb exponent 10000 then exponent * 10 + (c - b'0') else 10000) cs in
    if is_ascii_digit c then rest else exponent

-- What the part at the exponent finds: whether it is valid, whether a valid exponent is there, the
-- exponent, and the bytes it takes.
pub record Exponent : Type 0 where
  pub valid : Bool
  pub present : Bool
  pub exponent : ℤ
  pub size : ℕ

unfoldable pub parse_exponent : Bytes → Exponent
unfolding sign_at exponent_loop
parse_exponent [] = record { valid = true; present = false; exponent = pos 0; size = 0 }
parse_exponent (c ∷ cs) =
    let (positive, signs) = sign_at (get_elem? cs 0) in
    let digits = drop signs cs in
    let size = count_while is_ascii_digit digits in
    let e = exponent_loop 0 digits in
    let found = ltb 0 size in
    if c == b'e' || c == b'E'
    then record {
      valid = found;
      present = found;
      exponent = (if positive then pos e else neg_ℕ e);
      size = 1 + signs + size;
    }
    else record { valid = true; present = false; exponent = pos 0; size = 0 }

-- The loop that reduces the exponent, by the distance of `dicimal_point` from 0, on either side of it.
unfoldable pub grow : ℕ → ℕ → ℕ × ℕ
grow significand zero = (significand, 0)
grow significand (suc k) =
    let rest = grow (significand * 10) k in
    if ltb significand room_for_factor then rest else (significand, suc k)

unfoldable pub shrink : ℕ → ℕ → ℕ × ℕ
shrink significand zero = (significand, 0)
shrink significand (suc k) =
    let rest = shrink (significand / 10) k in
    if significand % 10 == 0 then rest else (significand, suc k)

unfoldable pub reduce : ℕ → ℤ → ℕ × ℤ
unfolding grow shrink
reduce significand (pos k) = let (s, k') = grow significand k in (s, pos k')
reduce significand (negsuc k) = let (s, k') = shrink significand (suc k) in (s, neg_ℕ k')

-- What is read before the conversion to a float.
pub record Scanned : Type 0 where
  pub scan_valid : Bool
  pub pure_integer : Bool
  pub positive : Bool
  pub significand : ℕ
  pub dicimal_point : ℤ

abbrev pub is_point : Option ℕ → Bool
is_point none = false
is_point (some c) = c == b'.'

unfoldable pub scan : Bytes → Scanned
unfolding sign_at integer_loop fraction_loop parse_exponent reduce
scan input =
    let spaces = count_while is_space input in
    let (positive, signs) = sign_at (get_elem? input spaces) in
    let number = drop (spaces + signs) input in
    let n_zero = count_while (λ c. c == b'0') number in
    let (whole, whole_digits) = integer_loop 0 0 (drop n_zero number) in
    let after_whole = drop (n_zero + whole_digits) number in
    let skipped = count_while is_ascii_digit after_whole in
    let at_point = drop skipped after_whole in
    let pointed = is_point (get_elem? at_point 0) in
    let fraction = drop 1 at_point in
    let (fractional, used) = fraction_loop whole 0 fraction in
    let fractional_digits = count_while is_ascii_digit fraction in
    let digits = if pointed then whole_digits + fractional_digits else whole_digits in
    let at_exponent = if pointed then drop fractional_digits fraction else at_point in
    let ex = parse_exponent at_exponent in
    let point = (if pointed then diff skipped used else pos skipped) +ℤ ex.exponent in
    let (s, p) = reduce (if pointed then fractional else whole) point in
    record {
      scan_valid = ex.valid && ltb 0 (n_zero + digits) && every is_space (drop ex.size at_exponent);
      pure_integer = ltb 0 (n_zero + whole_digits) && not pointed && not ex.present;
      positive = positive;
      significand = s;
      dicimal_point = p;
    }

-- The product, or what stands for it where `dicimal_point` does not fit an `i32`.
abbrev pub saturate : {F : Type 0} → Floats F → ℤ → F → F
saturate fl (pos k) v = if ltb k (2 ^ 31) then v else fl.infinity
saturate fl (negsuc k) v = if ltb k (2 ^ 31) then v else fl.from_i64 (pos 0)

-- The float of what was read.
unfoldable pub to_float : {F : Type 0} → Floats F → Scanned → F
to_float fl s =
    let v = fl.times (fl.from_i64 (pos s.significand)) (fl.powi_10 s.dicimal_point) in
    let v' = saturate fl s.dicimal_point v in if s.positive then v' else fl.negate v'

unfoldable pub parse_float : {F : Type 0} → Floats F → Bytes → Bool × Bool × F
unfolding scan to_float
parse_float fl input = let s = scan input in (s.scan_valid, s.pure_integer, to_float fl s)
