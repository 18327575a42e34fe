-- ===== src/Record/Serial.antt =====
-- Serial types and the columns that they read.
use prsqlite.Prelude.{
  ℕ, zero, suc, ◌-◌, ◌/◌, ◌^◌, ◌≤◌, ◌<◌, ◌≡◌, refl, sym, ◌∙◌, ◌⊎◌, inl, inr, false, arith,
}
use prsqlite.Prelude.{ltb, ◌==◌, Bool-cases}
use prsqlite.Prelude.{length, Bytes}
use prsqlite.Prelude.{ℤ, pos}
use prsqlite.Prelude.{Result, ok, panic, ◌>>=◌}
use prsqlite.Prelude.{slice-ok}
use prsqlite.Utils.Decimal.{Floats}
use prsqlite.Value.{Value, null, integer_value}
use prsqlite.Record.{content_size, sliced_integer, guarded_integer, parse_real, parse_bytes, parse}

sliced-IsOk :
    (size half : ℕ) (buffer : Bytes)
    → size ≤ length buffer
    → (i : ℤ) × (sliced_integer size half buffer ≡ ok i)
unfolding sliced_integer
sliced-IsOk size half buffer h = rw (slice-ok {0} buffer 0 size (omega arith) h) (_, refl)

guarded-IsOk :
    (size half : ℕ) (buffer : Bytes)
    → size ≤ length buffer
    → (i : ℤ) × (guarded_integer size half buffer ≡ ok i)
unfolding guarded_integer
guarded-IsOk size half buffer h =
    let enough : ltb (length buffer) size ≡ false = ground arith in rw enough (_, refl)

ten_eleven : (t : ℕ) → content_size t ≡ panic → (t ≡ 10) ⊎ (t ≡ 11)
unfolding content_size
ten_eleven t h = elim (Bool-cases (t == 10)) [
  | inl e ↦ inl (ground arith)
  | inr e ↦ elim (Bool-cases (t == 11)) [
    | inl f ↦ inr (ground arith)
    | inr f ↦ absurd (ground arith)
  ]
]

module _ {F : Type 0} (fl : Floats F) where
  as_value-ok :
      (r : Result ℤ)
      → (i : ℤ) × (r ≡ ok i)
      → (v : Value F) × ((do i ← r; ok (integer_value i)) ≡ ok v)
  as_value-ok r (i, h) = rw h (integer_value i, refl)

  real-IsOk : (buffer : Bytes) → 8 ≤ length buffer → (v : Value F) × (parse_real fl buffer ≡ ok v)
  unfolding parse_real
  real-IsOk buffer h = rw (slice-ok {0} buffer 0 8 (omega arith) h) (_, refl)

  bytes-IsOk :
      (t : ℕ) (buffer : Bytes)
      → (t - 12) / 2 ≤ length buffer
      → (v : Value F) × (parse_bytes fl t buffer ≡ ok v)
  unfolding parse_bytes
  bytes-IsOk t buffer h =
      let enough : ltb (length buffer) ((t - 12) / 2) ≡ false = ground arith in rw enough (_, refl)

  size-le-length :
      {m : ℕ} (n : ℕ) (buffer : Bytes) → ok m ≡ ok n → n ≤ length buffer → m ≤ length buffer
  size-le-length n buffer h enough = ground arith

  small :
      (t n : ℕ) (buffer : Bytes)
      → content_size t ≡ ok n
      → n ≤ length buffer
      → t < 12
      → (v : Value F) × (parse fl t buffer ≡ ok v)
  unfolding content_size parse
  small zero n buffer h enough below = (null, refl)
  small (suc zero) n buffer h enough below =
      as_value-ok (sliced_integer 1 (2 ^ 7) buffer)
        (sliced-IsOk 1 (2 ^ 7) buffer (size-le-length n buffer h enough))
  small (suc (suc zero)) n buffer h enough below =
      as_value-ok (sliced_integer 2 (2 ^ 15) buffer)
        (sliced-IsOk 2 (2 ^ 15) buffer (size-le-length n buffer h enough))
  small (suc (suc (suc zero))) n buffer h enough below =
      as_value-ok (guarded_integer 3 (2 ^ 23) buffer)
        (guarded-IsOk 3 (2 ^ 23) buffer (size-le-length n buffer h enough))
  small (suc (suc (suc (suc zero)))) n buffer h enough below =
      as_value-ok (sliced_integer 4 (2 ^ 31) buffer)
        (sliced-IsOk 4 (2 ^ 31) buffer (size-le-length n buffer h enough))
  small (suc (suc (suc (suc (suc zero))))) n buffer h enough below =
      as_value-ok (guarded_integer 6 (2 ^ 47) buffer)
        (guarded-IsOk 6 (2 ^ 47) buffer (size-le-length n buffer h enough))
  small (suc (suc (suc (suc (suc (suc zero)))))) n buffer h enough below =
      as_value-ok (sliced_integer 8 (2 ^ 63) buffer)
        (sliced-IsOk 8 (2 ^ 63) buffer (size-le-length n buffer h enough))
  small (suc (suc (suc (suc (suc (suc (suc zero))))))) n buffer h enough below =
      real-IsOk buffer (size-le-length n buffer h enough)
  small (suc (suc (suc (suc (suc (suc (suc (suc zero)))))))) n buffer h enough below =
      (integer_value (pos 0), refl)
  small (suc (suc (suc (suc (suc (suc (suc (suc (suc zero))))))))) n buffer h enough below =
      (integer_value (pos 1), refl)
  small (suc (suc (suc (suc (suc (suc (suc (suc (suc (suc zero)))))))))) n buffer h enough below =
      cc
  small (suc (suc (suc (suc (suc (suc (suc (suc (suc (suc (suc zero))))))))))) n buffer h enough
        below =
      cc
  small (suc (suc (suc (suc (suc (suc (suc (suc (suc (suc (suc (suc t)))))))))))) n buffer h enough
        below =
      absurd (omega arith)

  large :
      (t n : ℕ) (buffer : Bytes)
      → content_size t ≡ ok n
      → n ≤ length buffer
      → 12 ≤ t
      → (v : Value F) × (parse fl t buffer ≡ ok v)
  large t n buffer h enough above =
      let size : content_size t ≡ ok ((t - 12) / 2) = unfold content_size in ground arith in
      let same : parse fl t buffer ≡ parse_bytes fl t buffer = unfold parse in ground arith in
      rw same (bytes-IsOk t buffer (size-le-length n buffer (sym size ∙ h) enough))

  -- Where `content_size` of a serial type gives a size, a buffer of at least that size always parses to a
  -- value: no slice is out of range and no size test fails.
  pub content_size-parse :
      (t n : ℕ) (buffer : Bytes)
      → content_size t ≡ ok n
      → n ≤ length buffer
      → (v : Value F) × (parse fl t buffer ≡ ok v)
  content_size-parse t n buffer h enough = elim (Bool-cases (ltb t 12)) [
    | inl e ↦ small t n buffer h enough (ground arith)
    | inr e ↦ large t n buffer h enough (ground arith)
  ]
