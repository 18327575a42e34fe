-- ===== src/Value/Order.antt =====
-- The order that `ValueCmp` puts on values.
use prsqlite.Prelude.{
  ℕ, zero, suc, ◌≤◌, ◌<◌, Ordering, ◌≡◌, refl, ap, ◌↔◌, Option, none, some, [], ◌∷◌, ◌++◌, arith,
}
use prsqlite.Prelude.{reverse_ordering}
use prsqlite.Prelude.{length, take, replicate, Bytes}
use prsqlite.Prelude.{compare_ℤ-reverse}
use prsqlite.Prelude.{ok, ◌>>=◌, unwrap}
use prsqlite.Prelude.{bytes_cmp, bytes_cmp-reverse, bytes_cmp-eq_iff}
use prsqlite.Value.Sees.{key, tail_of-append, tail_of-le-length, Sees, key-Sees}
use prsqlite.Prelude.{IsBytes}
use prsqlite.Utils.Decimal.{Floats}
use prsqlite.Utils.CaseInsensitive.Laws.{cmp-bytes_cmp}
use prsqlite.Value.{
  Collation, binary, no_case, r_trim, Value, null, integer_value, real, text, blob, tail_of,
  compare_text, compare_values,
}

compare_text-key :
    (c : Collation) (t u : Bytes) → compare_text c t u ≡ bytes_cmp (key c t) (key c u)
unfolding compare_text key
compare_text-key binary t u = refl
compare_text-key no_case t u = cmp-bytes_cmp t u
compare_text-key r_trim t u = refl

compare_text-reverse :
    (c : Collation) (t u : Bytes) → compare_text c t u ≡ reverse_ordering (compare_text c u t)
compare_text-reverse c t u =
    rw (compare_text-key c t u, compare_text-key c u t) (bytes_cmp-reverse (key c t) (key c u))

-- Each collation sees something of any two texts (all bytes, the bytes in lower case, or the bytes before
-- the trailing spaces), and they compare as equal exactly if it sees the same of both.
pub compare_text-eq_iff :
    (c : Collation) (t u : Bytes)
    → IsBytes t
    → IsBytes u
    → Sees c t (key c t)
      × Sees c u (key c u)
      × ((compare_text c t u ≡ Ordering.eq) ↔ (key c t ≡ key c u))
compare_text-eq_iff c t u ht hu = (
  key-Sees c t ht,
  key-Sees c u hu,
  rw (compare_text-key c t u) (bytes_cmp-eq_iff (key c t) (key c u)),
)

take-append_le : (n : ℕ) (xs ys : Bytes) → n ≤ length xs → take n (xs ++ ys) ≡ take n xs
take-append_le zero xs ys h = refl
take-append_le (suc n) [] ys h = ground arith
take-append_le (suc n) (x ∷ xs) ys h = ap (◌∷◌ x) (take-append_le n xs ys (omega arith))

-- Under `RTRIM`, any number of spaces at the end of either text makes no difference.
pub compare_text_spaces :
    (t u : Bytes) (m n : ℕ)
    → compare_text r_trim (t ++ replicate m b' ') (u ++ replicate n b' ') ≡ compare_text r_trim t u
unfolding compare_text
compare_text_spaces t u m n = rw (tail_of-append t m, tail_of-append u n, kept t m, kept u n) refl
  where
    kept : (t : Bytes) (m : ℕ) → take (tail_of t) (t ++ replicate m b' ') ≡ take (tail_of t) t
    kept t m = take-append_le (tail_of t) t (replicate m b' ') (tail_of-le-length t)

-- The class of a value: null, the numbers, the texts, the blobs.
abbrev pub rank : {F : Type 0} → Value F → ℕ
rank null = 0
rank (integer_value i) = 1
rank (real d) = 1
rank (text t) = 2
rank (blob b) = 3

abbrev pub reverse_option : Option Ordering → Option Ordering
reverse_option none = none
reverse_option (some o) = some (reverse_ordering o)

reverse_twice : (o : Ordering) → o ≡ reverse_ordering (reverse_ordering o)
reverse_twice Ordering.lt = refl
reverse_twice Ordering.eq = refl
reverse_twice Ordering.gt = refl

unwrap-reverse :
    (o p : Option Ordering)
    → o ≡ reverse_option p
    → unwrap o ≡ (unwrap p >>= λ q. ok (reverse_ordering q))
unwrap-reverse o none h = rw h refl
unwrap-reverse o (some q) h = rw h refl

module _ {F : Type 0} (fl : Floats F) where
  -- A value of a lower class compares as less than one of a higher class, under each collation.
  pub compare_values-rank :
      (c : Collation) (v w : Value F) → rank v < rank w → compare_values fl c v w ≡ ok Ordering.lt
  unfolding compare_values
  compare_values-rank c null null h = ground arith
  compare_values-rank c null (integer_value i) h = refl
  compare_values-rank c null (real d) h = refl
  compare_values-rank c null (text t) h = refl
  compare_values-rank c null (blob b) h = refl
  compare_values-rank c (integer_value i) null h = ground arith
  compare_values-rank c (integer_value i) (integer_value j) h = ground arith
  compare_values-rank c (integer_value i) (real d) h = ground arith
  compare_values-rank c (integer_value i) (text t) h = refl
  compare_values-rank c (integer_value i) (blob b) h = refl
  compare_values-rank c (real d) null h = ground arith
  compare_values-rank c (real d) (integer_value j) h = ground arith
  compare_values-rank c (real d) (real e) h = ground arith
  compare_values-rank c (real d) (text t) h = refl
  compare_values-rank c (real d) (blob b) h = refl
  compare_values-rank c (text t) null h = ground arith
  compare_values-rank c (text t) (integer_value j) h = ground arith
  compare_values-rank c (text t) (real e) h = ground arith
  compare_values-rank c (text t) (text u) h = ground arith
  compare_values-rank c (text t) (blob b) h = refl
  compare_values-rank c (blob t) null h = ground arith
  compare_values-rank c (blob t) (integer_value j) h = ground arith
  compare_values-rank c (blob t) (real e) h = ground arith
  compare_values-rank c (blob t) (text u) h = ground arith
  compare_values-rank c (blob t) (blob b) h = ground arith

  -- Where `partial_cmp` of the floats is antisymmetric, so is the comparison of values: swapping the two
  -- sides reverses the result, or panics on both sides (two floats with no order).
  pub compare_values_reverse :
      (c : Collation)
      → ((d e : F) → fl.partial_cmp d e ≡ reverse_option (fl.partial_cmp e d))
      → (v w : Value F)
      → compare_values fl c v w ≡ (compare_values fl c w v >>= λ o. ok (reverse_ordering o))
  unfolding compare_values
  compare_values_reverse c sym_real null null = refl
  compare_values_reverse c sym_real null (integer_value i) = refl
  compare_values_reverse c sym_real null (real d) = refl
  compare_values_reverse c sym_real null (text t) = refl
  compare_values_reverse c sym_real null (blob b) = refl
  compare_values_reverse c sym_real (integer_value i) null = refl
  compare_values_reverse c sym_real (integer_value i) (integer_value j) =
      ap ok (compare_ℤ-reverse i j)
  compare_values_reverse c sym_real (integer_value i) (real d) = ap ok (reverse_twice _)
  compare_values_reverse c sym_real (integer_value i) (text t) = refl
  compare_values_reverse c sym_real (integer_value i) (blob b) = refl
  compare_values_reverse c sym_real (real d) null = refl
  compare_values_reverse c sym_real (real d) (integer_value j) = refl
  compare_values_reverse c sym_real (real d) (real e) = unwrap-reverse _ _ (sym_real d e)
  compare_values_reverse c sym_real (real d) (text t) = refl
  compare_values_reverse c sym_real (real d) (blob b) = refl
  compare_values_reverse c sym_real (text t) null = refl
  compare_values_reverse c sym_real (text t) (integer_value j) = refl
  compare_values_reverse c sym_real (text t) (real e) = refl
  compare_values_reverse c sym_real (text t) (text u) = ap ok (compare_text-reverse c t u)
  compare_values_reverse c sym_real (text t) (blob b) = refl
  compare_values_reverse c sym_real (blob t) null = refl
  compare_values_reverse c sym_real (blob t) (integer_value j) = refl
  compare_values_reverse c sym_real (blob t) (real e) = refl
  compare_values_reverse c sym_real (blob t) (text u) = refl
  compare_values_reverse c sym_real (blob t) (blob b) = ap ok (bytes_cmp-reverse t b)
