-- ===== src/Utils/Varint/Rounds.antt =====
-- The rounds of the loop of `unsafe_parse_varint`, as arithmetic.
use prsqlite.Prelude.{
  ℕ, suc, ◌+◌, ◌*◌, ◌%◌, ◌^◌, ◌≤◌, ◌<◌, bit_and, ◌≡◌, refl, ◌∙◌, true, false, some, [], ◌∷◌, ◌++◌,
  arith,
}
use prsqlite.Prelude.{◌==◌}
use prsqlite.Prelude.{get_elem?, Bytes}
use prsqlite.Prelude.{ok, low_seven, top_bit, bit_or-shifted}
use prsqlite.Utils.Varint.{add_group, add_byte, parse_loop}

unfoldable pub value_from : ℕ → Bytes → ℕ
value_from v [] = v
value_from v (b ∷ bs) = value_from (v * 128 + b % 128) bs

pub value_from-ge : (v : ℕ) (bs : Bytes) → v ≤ value_from v bs
unfolding value_from
value_from-ge v [] = omega arith
value_from-ge v (b ∷ bs) = omega (arith, value_from-ge (v * 128 + b % 128) bs)

pub value_from-append :
    (v : ℕ) (bs cs : Bytes) → value_from v (bs ++ cs) ≡ value_from (value_from v bs) cs
unfolding value_from
value_from-append v [] cs = refl
value_from-append v (b ∷ bs) cs = value_from-append (v * 128 + b % 128) bs cs

pub value_from_one : (v b : ℕ) → value_from v (b ∷ []) ≡ v * 128 + b % 128
unfolding value_from
value_from_one v b = refl

pub value_from_cons :
    (v b : ℕ) (bs : Bytes) → value_from v (b ∷ bs) ≡ value_from (v * 128 + b % 128) bs
unfolding value_from
value_from_cons v b bs = refl

-- A byte that says that another one follows.
abbrev pub IsFlagged : ℕ → Type 0
IsFlagged b = (128 ≤ b) × (b < 256)

pub add_group_lem : (v b : ℕ) → b < 256 → v * 128 < 2 ^ 64 → add_group v b ≡ v * 128 + b % 128
add_group_lem v b hb hv =
    let e : v * 2 ^ 7 % 2 ^ 64 ≡ v * 2 ^ 7 = omega arith in
    rw (e, low_seven b hb) (bit_or-shifted 7 v (b % 128) (omega arith) ∙ omega arith)

pub add_byte_lem : (v b : ℕ) → b < 256 → v * 256 < 2 ^ 64 → add_byte v b ≡ v * 256 + b
add_byte_lem v b hb hv =
    let e : v * 2 ^ 8 % 2 ^ 64 ≡ v * 2 ^ 8 = omega arith in
    rw e (bit_or-shifted 8 v b (omega arith) ∙ omega arith)

pub flag_clear : (b : ℕ) → b < 128 → (bit_and b 0x80 == 0) ≡ true
flag_clear b h = ground (arith, top_bit b)

pub flag_set : (b : ℕ) → IsFlagged b → (bit_and b 0x80 == 0) ≡ false
flag_set b h = ground (arith, top_bit b)

module _ (k i v : ℕ) (buf : Bytes) (b : ℕ) (at_i : get_elem? buf i ≡ some b) where
  pub parse_loop_last :
      b < 128 → v * 128 < 2 ^ 64 → parse_loop (suc k) i v buf ≡ ok (v * 128 + b % 128, i + 1)
  unfolding parse_loop
  parse_loop_last hb hv = rw (at_i, flag_clear b hb, add_group_lem v b (omega arith) hv)

  pub parse_loop_more :
      IsFlagged b
      → v * 128 < 2 ^ 64
      → parse_loop (suc k) i v buf ≡ parse_loop k (i + 1) (v * 128 + b % 128) buf
  unfolding parse_loop
  parse_loop_more hb hv = rw (at_i, flag_set b hb, add_group_lem v b hb.1 hv)

pub parse_loop_ninth :
    (i v : ℕ) (buf : Bytes) (b : ℕ)
    → get_elem? buf 8 ≡ some b
    → b < 256
    → v * 256 < 2 ^ 64
    → parse_loop 0 i v buf ≡ ok (v * 256 + b, 9)
unfolding parse_loop
parse_loop_ninth i v buf b e hb hv = rw (e, add_byte_lem v b hb hv)
