-- ===== src/Utils/Varint/Encoding.antt =====
-- The encodings of the file format, and that `parse_varint` reads each of them back.
use prsqlite.Prelude.{
  ℕ, zero, suc, ◌+◌, ◌-◌, ◌*◌, ◌/◌, ◌%◌, ◌^◌, ◌≤◌, ◌<◌, ◌≡◌, refl, ◌∙◌, some, List, [], ◌∷◌, ◌++◌,
  append_assoc, arith,
}
use prsqlite.Prelude.{length, get_elem?, All, length-append, get_elem?-append, Bytes}
use prsqlite.Prelude.{ok, low_seven}
use prsqlite.Utils.Varint.{parse_loop, parse_word}
use prsqlite.Utils.Varint.Rounds.{
  value_from, value_from-ge, value_from-append, value_from_one, value_from_cons, IsFlagged,
  flag_clear, flag_set, parse_loop_last, parse_loop_more, parse_loop_ninth,
}
use native.Mathlib.Nat.{pow-suc}

-- The low 7 * k bits of `v`, in groups of seven, highest first, each with its flag set.
unfoldable pub flagged_groups : ℕ → ℕ → Bytes
flagged_groups zero v = []
flagged_groups (suc k) v = flagged_groups k (v / 128) ++ ((v % 128 + 128) ∷ [])

-- `v` in k + 1 bytes; the fewest bytes are the ones for the least `k` with `v < 128 ^ (k + 1)`.
unfoldable pub short_form : ℕ → ℕ → Bytes
short_form k v = flagged_groups k (v / 128) ++ ((v % 128) ∷ [])

-- `v` in nine bytes, of which the last one has eight bits.
unfoldable pub long_form : ℕ → Bytes
long_form v = flagged_groups 8 (v / 256) ++ ((v % 256) ∷ [])

pub All-append {ℓ} :
    {A : Type 0} (P : A → Type ℓ) (xs ys : List A) → All P xs → All P ys → All P (xs ++ ys)
All-append P [] ys p q = q
All-append P (x ∷ xs) ys p q = (p.0, All-append P xs ys p.1 q)

pub flagged_groups-IsFlagged : (k v : ℕ) → All IsFlagged (flagged_groups k v)
unfolding flagged_groups
flagged_groups-IsFlagged zero v = tt
flagged_groups-IsFlagged (suc k) v =
    All-append IsFlagged (flagged_groups k (v / 128)) _ (flagged_groups-IsFlagged k (v / 128))
      (omega arith)

pub length-flagged_groups : (k v : ℕ) → length (flagged_groups k v) ≡ k
unfolding flagged_groups
length-flagged_groups zero v = refl
length-flagged_groups (suc k) v = omega (
  arith,
  length-append (flagged_groups k (v / 128)) ((v % 128 + 128) ∷ []),
  length-flagged_groups k (v / 128),
)

pub value_from-flagged_groups : (k v : ℕ) → v < 128 ^ k → value_from 0 (flagged_groups k v) ≡ v
unfolding flagged_groups
value_from-flagged_groups zero v h = unfold value_from in omega arith
value_from-flagged_groups (suc k) v h =
    rw (value_from-append, value_from_one)
      (omega (
        arith,
        value_from-flagged_groups k (v / 128) (omega (arith, pow-suc 128 k)),
        pow-suc 128 k,
      ))

-- The loop over flagged bytes.
parse_loop-flagged :
    (gs pre tail : Bytes) (j k i v : ℕ)
    → All IsFlagged gs
    → i ≡ length pre
    → j ≡ length gs + k
    → value_from v gs < 2 ^ 64
    → parse_loop j i v (pre ++ (gs ++ tail))
      ≡ parse_loop k (i + length gs) (value_from v gs) (pre ++ (gs ++ tail))
parse_loop-flagged [] pre tail j k i v hf hi hj hv =
    let e : j ≡ k = omega arith in
    let e' : i + 0 ≡ i = omega arith in unfold value_from in rw (e, e')
parse_loop-flagged (g ∷ gs) pre tail zero k i v hf hi hj hv = absurd (omega arith)
parse_loop-flagged (g ∷ gs) pre tail (suc j) k i v hf hi hj hv =
    let v' = v * 128 + g % 128 in
    let bound : value_from v' gs < 2 ^ 64 = rw value_from_cons at hv in
    let shifted : v * 128 < 2 ^ 64 = omega (arith, value_from-ge v' gs) in
    let here : get_elem? (pre ++ (g ∷ (gs ++ tail))) i ≡ some g =
      rw hi (get_elem?-append pre g (gs ++ tail)) in
    let moved : (pre ++ (g ∷ [])) ++ (gs ++ tail) ≡ pre ++ (g ∷ (gs ++ tail)) =
      append_assoc pre (g ∷ []) (gs ++ tail) in
    let rest =
      parse_loop-flagged gs (pre ++ (g ∷ [])) tail j k (i + 1) v' hf.1
        (omega (arith, length-append pre (g ∷ []))) (omega arith) bound in
    let ends : i + 1 + length gs ≡ i + suc (length gs) = omega arith in
    parse_loop_more j i v (pre ++ (g ∷ (gs ++ tail))) g here hf.0 shifted
    ∙ rw (value_from_cons, ← ends, ← moved) rest

value_from_first : (g : ℕ) (gs : Bytes) → value_from 0 (g ∷ gs) ≡ value_from (g % 128) gs
unfolding value_from
value_from_first g gs = let e : 0 * 128 + g % 128 ≡ g % 128 = omega arith in rw e

parse_word_last :
    (buf : Bytes) (b : ℕ) → get_elem? buf 0 ≡ some b → b < 128 → parse_word buf ≡ ok (b, 1)
unfolding parse_word
parse_word_last buf b e h = rw (e, flag_clear b h)

parse_word_more :
    (buf : Bytes) (b : ℕ)
    → get_elem? buf 0 ≡ some b
    → IsFlagged b
    → parse_word buf ≡ parse_loop 7 1 (b % 128) buf
unfolding parse_word
parse_word_more buf b e h = rw (e, flag_set b h, low_seven b h.1)

-- At most seven flagged bytes and one without the flag.
pub parse_word_short :
    (gs : Bytes) (b : ℕ) (rest : Bytes)
    → All IsFlagged gs
    → b < 128
    → length gs ≤ 7
    → value_from 0 gs * 128 < 2 ^ 64
    → parse_word (gs ++ (b ∷ rest)) ≡ ok (value_from 0 gs * 128 + b, length gs + 1)
parse_word_short [] b rest hf hb hl hv =
    parse_word_last (b ∷ rest) b refl hb ∙ unfold value_from in ground arith
parse_word_short (g ∷ gs) b rest hf hb hl hv =
    let buf = g ∷ (gs ++ (b ∷ rest)) in
    let v = g % 128 in
    let start : value_from v gs * 128 < 2 ^ 64 = rw value_from_first at hv in
    let here : get_elem? buf (suc (length gs)) ≡ some b = get_elem?-append gs b rest in
    parse_word_more buf g refl hf.0
    ∙ parse_loop-flagged gs (g ∷ []) (b ∷ rest) 7 (suc (6 - length gs)) 1 v hf.1 (omega arith)
        (omega arith) (omega arith)
    ∙ parse_loop_last (6 - length gs) (1 + length gs) (value_from v gs) buf b
        (rw (let e : 1 + length gs ≡ suc (length gs) = omega arith in e) here) hb start
    ∙ rw value_from_first (ground arith)

-- Eight flagged bytes and any ninth.
pub parse_word_long :
    (gs : Bytes) (b : ℕ) (rest : Bytes)
    → All IsFlagged gs
    → b < 256
    → length gs ≡ 8
    → value_from 0 gs * 256 < 2 ^ 64
    → parse_word (gs ++ (b ∷ rest)) ≡ ok (value_from 0 gs * 256 + b, 9)
parse_word_long [] b rest hf hb hl hv = absurd (omega arith)
parse_word_long (g ∷ gs) b rest hf hb hl hv =
    let buf = g ∷ (gs ++ (b ∷ rest)) in
    let v = g % 128 in
    let start : value_from v gs * 256 < 2 ^ 64 = rw value_from_first at hv in
    let here : get_elem? buf (suc (length gs)) ≡ some b = get_elem?-append gs b rest in
    parse_word_more buf g refl hf.0
    ∙ parse_loop-flagged gs (g ∷ []) (b ∷ rest) 7 0 1 v hf.1 (omega arith) (omega arith)
        (omega arith)
    ∙ parse_loop_ninth (1 + length gs) (value_from v gs) buf b (rw hl at here) hb start
    ∙ rw value_from_first
