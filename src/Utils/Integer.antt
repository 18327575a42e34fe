-- ===== src/Utils/Integer.antt =====
-- `parse_integer` of utils.rs.
pub mod Spec
use prsqlite.Prelude.{
  ℕ, ◌+◌, ◌-◌, ◌*◌, ◌%◌, ◌^◌, Bool, true, false, ◌||◌, Option, none, some, [], ◌∷◌,
}
use prsqlite.Prelude.{ltb, ◌==◌, if◌then◌else◌}
use prsqlite.Prelude.{get_elem?, drop, count_while, every, Bytes}
use prsqlite.Prelude.{ℤ, pos, neg_ℕ, i64_min}
use prsqlite.Utils.Ascii.{is_space, is_ascii_digit}

pub data ParseIntegerResult : Type 0 where
  integer : ℤ → ParseIntegerResult
  max_plus_one : ParseIntegerResult
  too_big : Bool → ParseIntegerResult
  empty : ParseIntegerResult

abbrev pub max_i64_plus_one : ℕ
max_i64_plus_one = 9223372036854775808

-- The sign at the head of what is left: whether it is positive, and the length of the sign.
unfoldable pub sign_at : Option ℕ → Bool × ℕ
sign_at none = (true, 0)
sign_at (some c) = if c == b'-' then (false, 1) else if c == b'+' then (true, 1) else (true, 0)

-- The loop over the digits, on a wrapping `u64`, and the number of digits.
unfoldable pub digits_loop : ℕ → ℕ → Bytes → ℕ × ℕ
digits_loop u digits [] = (u, digits)
digits_loop u digits (c ∷ cs) =
    let rest = digits_loop ((u * 10 % 2 ^ 64 + (c - b'0')) % 2 ^ 64) (digits + 1) cs in
    if is_ascii_digit c then rest else (u, digits)

-- `if positive { u as i64 } else { -(u as i64) }`, for `u` below 2 ^ 63.
abbrev pub with_sign : Bool → ℕ → ℤ
with_sign positive u = if positive then pos u else neg_ℕ u

-- The tests at the end. A `u` of 19 digits that fails the first three is below 2 ^ 63.
unfoldable pub finish : Bool → Bool → ℕ → ℕ → ℕ → Bool × ParseIntegerResult
finish valid positive n_zero digits u =
    if n_zero + digits == 0
    then (false, empty)
    else if ltb digits 19
    then (valid, integer (with_sign positive u))
    else if ltb 19 digits || ltb max_i64_plus_one u
    then (valid, too_big positive)
    else if u == max_i64_plus_one
    then (valid, (if positive then max_plus_one else integer i64_min))
    else (valid, integer (with_sign positive u))

unfoldable pub parse_integer : Bytes → Bool × ParseIntegerResult
unfolding sign_at digits_loop finish
parse_integer input =
    let n = count_while is_space input in
    let (positive, signs) = sign_at (get_elem? input n) in
    let number = drop (n + signs) input in
    let n_zero = count_while (λ c. c == b'0') number in
    let (u, digits) = digits_loop 0 0 (drop n_zero number) in
    let valid = every is_space (drop (n_zero + digits) number) in
    finish valid positive n_zero digits u
