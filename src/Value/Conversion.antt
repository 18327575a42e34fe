-- ===== src/Value/Conversion.antt =====
-- The conversions of values: affinities and `as_integer`.
use prsqlite.Prelude.{
  ℕ, ◌+◌, ◌^◌, ◌<◌, ◌≡◌, refl, ap, Bool, true, false, some, [], ◌∷◌, ◌++◌, arith,
}
use prsqlite.Prelude.{ltb, leb, if◌then◌else◌}
use prsqlite.Prelude.{length, replicate, every, Stops, Bytes}
use prsqlite.Prelude.{ℤ, pos, neg_ℕ, i64_min, i64_max}
use prsqlite.Utils.Ascii.{is_space, is_ascii_digit}
use prsqlite.Utils.Integer.{integer}
use prsqlite.Utils.Integer.Spec.{
  decimal, classify, Sign, sign_text, is_positive, IsTrimmed, parse_integer_digits,
}
use prsqlite.Utils.Decimal.{Floats}
use prsqlite.Value.{
  integer_value, text, number_or_text, apply_numeric_affinity, clamp_integer, as_integer,
}

-- The number of that sign and magnitude, at the nearest end of the `i64` range where it is outside.
abbrev pub saturated : Bool → ℕ → ℤ
saturated true n = if ltb n (2 ^ 63) then pos n else i64_max
saturated false n = if leb n (2 ^ 63) then neg_ℕ n else i64_min

clamp-classify :
    (positive : Bool) (n : ℕ) → clamp_integer (classify positive n) ≡ saturated positive n
unfolding clamp_integer classify
clamp-classify true n = ground arith
clamp-classify false n = ground arith

spaces_stop : (back : Bytes) → every is_space back ≡ true → Stops is_ascii_digit back
unfolding is_space is_ascii_digit
spaces_stop [] h = tt
spaces_stop (c ∷ cs) h = ground arith

module _ {F : Type 0} (fl : Floats F) where
  -- The text of an integer literal, spaces in front and anything behind that is no digit, becomes the
  -- number it denotes under `as_integer`, or the nearest end of the `i64` range. What is behind the digits
  -- is ignored, also where it makes the text not well-formed.
  pub as_integer_digits :
      (front : Bytes) (s : Sign) (z : ℕ) (ds back : Bytes)
      → every is_space front ≡ true
      → every is_ascii_digit ds ≡ true
      → IsTrimmed ds
      → Stops is_ascii_digit back
      → 0 < z + length ds
      → as_integer fl (text (front ++ (sign_text s ++ (replicate z b'0' ++ (ds ++ back)))))
        ≡ some (saturated (is_positive s) (decimal 0 ds))
  unfolding as_integer
  as_integer_digits front s z ds back h1 h2 h3 h4 h5 =
      rw (parse_integer_digits front s z ds back h1 h2 h3 h4 h5)
        (ap some (clamp-classify (is_positive s) (decimal 0 ds)))

  -- A text that is an integer literal within the `i64` range, with only spaces around it, becomes that
  -- integer under NUMERIC affinity, and no float is looked at.
  pub apply_numeric_affinity_digits :
      (front : Bytes) (s : Sign) (z : ℕ) (ds back : Bytes) (i : ℤ)
      → every is_space front ≡ true
      → every is_ascii_digit ds ≡ true
      → IsTrimmed ds
      → every is_space back ≡ true
      → 0 < z + length ds
      → classify (is_positive s) (decimal 0 ds) ≡ integer i
      → apply_numeric_affinity fl
          (text (front ++ (sign_text s ++ (replicate z b'0' ++ (ds ++ back)))))
        ≡ integer_value i
  unfolding apply_numeric_affinity number_or_text
  apply_numeric_affinity_digits front s z ds back i h1 h2 h3 h4 h5 h6 =
      rw (parse_integer_digits front s z ds back h1 h2 h3 (spaces_stop back h4) h5, h4, h6) refl
