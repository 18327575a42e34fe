-- ===== src/Utils/Varint/Total.antt =====
-- `parse_varint` on every buffer: it never panics, and it reads what the file format says.
use prsqlite.Prelude.{
  ℕ, suc, ◌+◌, ◌*◌, ◌/◌, ◌%◌, ◌^◌, ◌≤◌, ◌<◌, ◌≡◌, refl, ap, ◌∙◌, true, false, Option, none, some,
  [], ◌∷◌, ◌++◌, append_assoc, append-nil, arith,
}
use prsqlite.Prelude.{◌==◌}
use prsqlite.Prelude.{length, All, length-append, Bytes, IsBytes}
use prsqlite.Prelude.{ℤ, pos, signed, IsSigned, signed-IsSigned}
use prsqlite.Prelude.{Result, ok}
use prsqlite.Utils.Varint.{valid_loop, valid_varint_buffer, parse_varint}
use prsqlite.Utils.Varint.Rounds.{value_from, IsFlagged, flag_clear, flag_set}
use prsqlite.Utils.Varint.Encoding.{
  All-append, flagged_groups, short_form, long_form, flagged_groups-IsFlagged,
  length-flagged_groups, value_from-flagged_groups, parse_word_short, parse_word_long,
}
use native.Mathlib.Nat.{pow-suc, pow-le-pow_right}
use native.Mathlib.Decide.{dec_lt}

value_from-lt : (gs : Bytes) (v m : ℕ) → v < m → value_from v gs < m * 128 ^ length gs
unfolding value_from
value_from-lt [] v m h = omega arith
value_from-lt (g ∷ gs) v m h = omega (
  arith,
  value_from-lt gs (v * 128 + g % 128) (m * 128) (omega arith),
  ap (λ (t : ℕ). m * t) (pow-suc 128 (length gs)),
)

value_from-fits : (gs : Bytes) (n : ℕ) → length gs ≤ n → value_from 0 gs < 128 ^ n
value_from-fits gs n h =
    omega (arith, value_from-lt gs 0 1 (omega arith), pow-le-pow_right {n = 128} (omega arith) h)

valid_loop_flag :
    (count g : ℕ) (buf : Bytes)
    → IsFlagged g
    → count < 8
    → valid_loop count (g ∷ buf) ≡ valid_loop (count + 1) buf
unfolding valid_loop
valid_loop_flag count g buf hg h =
    let early : (count + 1 == 9) ≡ false = ground arith in rw (early, flag_set g hg)

valid_loop-flagged :
    (gs tail : Bytes) (count : ℕ)
    → All IsFlagged gs
    → count + length gs ≤ 8
    → valid_loop count (gs ++ tail) ≡ valid_loop (count + length gs) tail
valid_loop-flagged [] tail count hf h = ap (λ (t : ℕ). valid_loop t tail) (omega arith)
valid_loop-flagged (g ∷ gs) tail count hf h =
    let ends : count + 1 + length gs ≡ count + suc (length gs) = omega arith in
    valid_loop_flag count g (gs ++ tail) hf.0 (omega arith)
    ∙ rw (← ends) (valid_loop-flagged gs tail (count + 1) hf.1 (omega arith))

module _ (gs : Bytes) (b : ℕ) (rest : Bytes) (hf : All IsFlagged gs) where
  valid_short : b < 128 → length gs ≤ 7 → valid_varint_buffer (gs ++ (b ∷ rest)) ≡ true
  unfolding valid_varint_buffer
  valid_short hb hl =
      valid_loop-flagged gs (b ∷ rest) 0 hf (omega arith)
      ∙ unfold valid_loop in ground (arith, flag_clear b hb)

  valid_long : length gs ≡ 8 → valid_varint_buffer (gs ++ (b ∷ rest)) ≡ true
  unfolding valid_varint_buffer
  valid_long hl = valid_loop-flagged gs (b ∷ rest) 0 hf (omega arith) ∙ unfold valid_loop in rw hl

  parse_varint_short :
      b < 128
      → length gs ≤ 7
      → parse_varint (gs ++ (b ∷ rest)) ≡ ok (some (pos (value_from 0 gs * 128 + b), length gs + 1))
  unfolding parse_varint
  parse_varint_short hb hl =
      let small : value_from 0 gs < 128 ^ 7 = value_from-fits gs 7 hl in
      let positive : signed (2 ^ 63) (value_from 0 gs * 128 + b) ≡ pos (value_from 0 gs * 128 + b) =
        ground arith in
      rw (valid_short hb hl, parse_word_short gs b rest hf hb hl (omega arith), positive)

  parse_varint_long :
      b < 256
      → length gs ≡ 8
      → parse_varint (gs ++ (b ∷ rest)) ≡ ok (some (signed (2 ^ 63) (value_from 0 gs * 256 + b), 9))
  unfolding parse_varint
  parse_varint_long hb hl =
      let small : value_from 0 gs < 128 ^ 8 = value_from-fits gs 8 (omega arith) in
      rw (valid_long hl, parse_word_long gs b rest hf hb hl (omega arith))

parse_varint_unfinished :
    (buf : Bytes) → All IsFlagged buf → length buf < 9 → parse_varint buf ≡ ok none
unfolding parse_varint
parse_varint_unfinished buf hf h =
    rw (rw append-nil at (valid_loop-flagged buf [] 0 hf (omega arith)), valid_loop)

-- What the format says of a buffer.
pub data Outcome : Bytes → Result (Option (ℤ × ℕ)) → Type 0 where
  unfinished : {buf : Bytes} → All IsFlagged buf → length buf < 9 → Outcome buf (ok none)
  short :
      {buf : Bytes} (gs : Bytes) (b : ℕ) (rest : Bytes)
      → buf ≡ gs ++ (b ∷ rest)
      → All IsFlagged gs
      → b < 128
      → length gs ≤ 7
      → Outcome buf (ok (some (pos (value_from 0 gs * 128 + b), length gs + 1)))
  long :
      {buf : Bytes} (gs : Bytes) (b : ℕ) (rest : Bytes)
      → buf ≡ gs ++ (b ∷ rest)
      → All IsFlagged gs
      → b < 256
      → length gs ≡ 8
      → Outcome buf (ok (some (signed (2 ^ 63) (value_from 0 gs * 256 + b), 9)))

parse_varint-Outcome_from :
    (gs tail : Bytes)
    → All IsFlagged gs
    → length gs ≤ 8
    → IsBytes tail
    → Outcome (gs ++ tail) (parse_varint (gs ++ tail))
parse_varint-Outcome_from gs [] hf hl hb =
    rw (append-nil, parse_varint_unfinished gs hf (omega arith)) (unfinished hf (omega arith))
parse_varint-Outcome_from gs (b ∷ tail) hf hl hb = elim (dec_lt (length gs) 8) [
  | no full ↦
      rw (parse_varint_long gs b tail hf hb.0 (omega arith))
        (long gs b tail refl hf hb.0 (omega arith))
  | yes room ↦ elim (dec_lt b 128) [
    | yes last ↦
        rw (parse_varint_short gs b tail hf last (omega arith))
          (short gs b tail refl hf last (omega arith))
    | no more ↦
        let moved : (gs ++ (b ∷ [])) ++ tail ≡ gs ++ (b ∷ tail) = append_assoc gs (b ∷ []) tail in
        rw moved at (
          parse_varint-Outcome_from (gs ++ (b ∷ [])) tail
            (All-append IsFlagged gs (b ∷ []) hf (omega arith))
            (omega (arith, length-append gs (b ∷ []))) hb.1)
  ]
]

-- On every buffer of bytes `parse_varint` reads the big-endian groups of seven bits up to the first
-- byte without its top bit, or eight of them and a whole ninth byte as a two's complement word, and
-- says how many bytes it took; it gives none exactly where all bytes, fewer than nine, have the bit.
pub parse_varint-Outcome : (buf : Bytes) → IsBytes buf → Outcome buf (parse_varint buf)
parse_varint-Outcome buf hb = parse_varint-Outcome_from [] buf tt (omega arith) hb

-- Where `parse_varint` returns a value, it took 1 to 9 bytes, all of them from the buffer, and the
-- value is an `i64`.
pub parse_varint_bounds :
    (buf : Bytes) (v : ℤ) (n : ℕ)
    → IsBytes buf
    → parse_varint buf ≡ ok (some (v, n))
    → (1 ≤ n) × (n ≤ 9) × (n ≤ length buf) × IsSigned (2 ^ 63) v
parse_varint_bounds buf v n hb e = bounds (parse_varint-Outcome buf hb) e
  where
    bounds :
        {r : Result (Option (ℤ × ℕ))}
        → Outcome buf r
        → r ≡ ok (some (v, n))
        → (1 ≤ n) × (n ≤ 9) × (n ≤ length buf) × IsSigned (2 ^ 63) v
    bounds (unfinished hf hl) e = cc
    bounds (short gs b rest eb hf hl hg) e =
        ground (arith, value_from-fits gs 7 hg, ap length eb, length-append gs (b ∷ rest))
    bounds (long gs b rest eb hf hl hg) e = ground (
      arith,
      value_from-fits gs 8 (omega arith),
      ap length eb,
      length-append gs (b ∷ rest),
      signed-IsSigned (2 ^ 63) (value_from 0 gs * 256 + b),
    )

-- A value below 2 ^ 56, written in any number of bytes from 1 to 8 that has room for it, is read back
-- with that number of bytes, whatever follows.
pub parse_varint-short_form :
    (k v : ℕ) (rest : Bytes)
    → k ≤ 7
    → v < 128 ^ suc k
    → parse_varint (short_form k v ++ rest) ≡ ok (some (pos v, k + 1))
parse_varint-short_form k v rest hk hv =
    let gs = flagged_groups k (v / 128) in
    let len : length gs ≡ k = length-flagged_groups k (v / 128) in
    let value : value_from 0 gs ≡ v / 128 =
      value_from-flagged_groups k (v / 128) (omega (arith, pow-suc 128 k)) in
    let whole : v / 128 * 128 + v % 128 ≡ v = omega arith in
    unfold short_form in
    rw (append_assoc gs ((v % 128) ∷ []) rest) (
      rw (value, len, whole) at
        (parse_varint_short gs (v % 128) rest (flagged_groups-IsFlagged k (v / 128)) (omega arith)
          (omega arith)))

-- Every 64-bit word, written in nine bytes, is read back as the `i64` with those bits.
pub parse_varint-long_form :
    (v : ℕ) (rest : Bytes)
    → v < 2 ^ 64
    → parse_varint (long_form v ++ rest) ≡ ok (some (signed (2 ^ 63) v, 9))
parse_varint-long_form v rest hv =
    let gs = flagged_groups 8 (v / 256) in
    let value : value_from 0 gs ≡ v / 256 = value_from-flagged_groups 8 (v / 256) (omega arith) in
    let whole : v / 256 * 256 + v % 256 ≡ v = omega arith in
    unfold long_form in
    rw (append_assoc gs ((v % 256) ∷ []) rest) (
      rw (value, whole) at
        (parse_varint_long gs (v % 256) rest (flagged_groups-IsFlagged 8 (v / 256)) (omega arith)
          (length-flagged_groups 8 (v / 256))))
