-- ===== src/Tests/Values.antt =====
-- Values and records: runs, and the theorems at concrete inputs. The floats are whole numbers here.
use prsqlite.Prelude.{
  ◌^◌, ◌<◌, Ordering, ◌≡◌, refl, ap, ◌↔◌, true, false, some, List, ◌∷◌, ◌++◌, arith, [], ◌>>=◌,
}
use prsqlite.Prelude.{reverse_ordering}
use prsqlite.Prelude.{length, replicate, Bytes}
use prsqlite.Prelude.{ℤ, pos, negsuc, i64_max, compare_ℤ, compare_ℤ-reverse}
use prsqlite.Prelude.{ok, ◌>>=◌}
use prsqlite.Utils.Ascii.{is_space, is_ascii_digit}
use prsqlite.Utils.Integer.Spec.{minus, decimal}
use prsqlite.Utils.Decimal.{Floats, scan}
use prsqlite.Utils.Decimal.Bounds.{scan_significand_bound}
use prsqlite.Value.{
  binary, r_trim, Value, integer_value, real, text, compare_text, compare_values, as_integer,
}
use prsqlite.Value.Sees.{Sees, key}
use prsqlite.Value.Order.{compare_text-eq_iff, compare_values_reverse}
use prsqlite.Value.Conversion.{as_integer_digits}
use prsqlite.Record.{content_size, parse, header_loop}
use prsqlite.Record.Serial.{content_size-parse}
use prsqlite.Record.Header.{
  Column, column_bytes, offsets, total_size, Returns, header_loop-column_bytes, header_loop-Returns,
}

abbrev whole_numbers : Floats ℤ
whole_numbers = record {
  from_i64 = λ i. i;
  to_i64 = λ d. d;
  times = λ d e. d;
  negate = λ d. d;
  powi_10 = λ i. i;
  infinity = i64_max;
  less = λ d e. elim (compare_ℤ d e) [ Ordering.lt ↦ true | _ ↦ false ];
  partial_cmp = λ d e. some (compare_ℤ d e);
  is_nan = λ d. false;
  to_bits = λ d. 0;
  from_bits = λ n. pos n;
  display_float = λ d. [];
}

-- `12.5e1`.
abbrev decimal_literal : Bytes
decimal_literal = b'1' ∷ b'2' ∷ b'.' ∷ b'5' ∷ b'e' ∷ b'1' ∷ []

scan_run : (scan decimal_literal).significand ≡ 125
unfolding scan is_space is_ascii_digit
scan_run = refl

scan_significand_bound_example : (scan decimal_literal).significand < 2 ^ 63
scan_significand_bound_example = scan_significand_bound decimal_literal

abbrev spaced : Bytes
spaced = b'a' ∷ b' ' ∷ []

compare_text-eq_iff_example :
    Sees r_trim spaced (key r_trim spaced)
    × Sees r_trim (b'a' ∷ []) (key r_trim (b'a' ∷ []))
    × ((compare_text r_trim spaced (b'a' ∷ []) ≡ Ordering.eq)
        ↔ (key r_trim spaced ≡ key r_trim (b'a' ∷ [])))
compare_text-eq_iff_example =
    compare_text-eq_iff r_trim spaced (b'a' ∷ []) (omega arith) (omega arith)

symmetric : (d e : ℤ) → some (compare_ℤ d e) ≡ some (reverse_ordering (compare_ℤ e d))
symmetric d e = ap some (compare_ℤ-reverse d e)

compare_values_reverse_example :
    compare_values whole_numbers binary (integer_value (pos 9)) (real (pos 8)) ≡ (
      compare_values whole_numbers binary (real (pos 8)) (integer_value (pos 9)) >>= λ o.
      ok (reverse_ordering o))
compare_values_reverse_example =
    compare_values_reverse whole_numbers binary symmetric (integer_value (pos 9)) (real (pos 8))

as_integer_digits_example :
    as_integer whole_numbers
      (text ([] ++ ((b'-' ∷ []) ++ (replicate 1 b'0' ++ ((b'4' ∷ b'2' ∷ []) ++ (b'x' ∷ []))))))
    ≡ some (negsuc 41)
unfolding decimal is_space is_ascii_digit
as_integer_digits_example =
    as_integer_digits whole_numbers [] minus 1 (b'4' ∷ b'2' ∷ []) (b'x' ∷ []) refl refl
      (λ h. ground arith) refl (omega arith)

content_size-parse_example : (v : Value ℤ) × (parse whole_numbers 15 (b'x' ∷ b'y' ∷ []) ≡ ok v)
content_size-parse_example =
    content_size-parse whole_numbers 15 1 (b'x' ∷ b'y' ∷ []) (unfold content_size in refl)
      (omega arith)

abbrev two_columns : List Column
two_columns =
    record { serial_type = 1; groups = 0; size = 1 }
    ∷ record { serial_type = 313; groups = 1; size = 150 }
    ∷ []

header_loop-column_bytes_example :
    header_loop 3
      ((3 ∷ []) ++ column_bytes two_columns)
      (length ((3 ∷ []) ++ column_bytes two_columns))
      1
      4
    ≡ some (ok (offsets 4 two_columns))
unfolding content_size
header_loop-column_bytes_example =
    header_loop-column_bytes 3 4 (3 ∷ []) two_columns (omega arith)
      (
        (omega arith, omega arith, omega arith, refl),
        ((omega arith, omega arith, omega arith, refl), tt),
      )
      (unfold total_size in omega arith)

header_loop-Returns_example : Returns (header_loop 4 (3 ∷ 0x81 ∷ 0x81 ∷ []) 3 1 3)
header_loop-Returns_example =
    header_loop-Returns 3 3 1 3 (3 ∷ 0x81 ∷ 0x81 ∷ []) (omega arith) (omega arith)
