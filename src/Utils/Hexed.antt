-- ===== src/Utils/Hexed.antt =====
-- `hex_to_int` and `HexedBytes` of utils.rs.
use prsqlite.Prelude.{
  ℕ, ◌+◌, ◌*◌, ◌/◌, ◌%◌, ◌^◌, ◌<◌, bit_and, bit_or, ◌≡◌, refl, ap, ◌∙◌, Bool, true, false, [], ◌∷◌,
  arith,
}
use prsqlite.Prelude.{ltb, ◌==◌, if◌then◌else◌, ==_iff, all_below, all_below_sound}
use prsqlite.Prelude.{length, Bytes, IsBytes}
use prsqlite.Prelude.{Result, ok, err, panic, ◌>>=◌, ◌>>◌, assert, bit_or-shifted}
use prsqlite.Utils.Ascii.{is_ascii_hexdigit}

-- `h += 9 * (1 & (h >> 6)); h & 0x0f`; the sum stays below 256.
unfoldable pub hex_to_int : ℕ → Result ℕ
hex_to_int h = do assert (is_ascii_hexdigit h); ok (bit_and (h + 9 * bit_and 1 (h / 2 ^ 6)) 0x0f)

unfoldable pub decode_loop : Bytes → Result Bytes
unfolding hex_to_int
decode_loop [] = ok []
decode_loop (b ∷ []) = do high ← hex_to_int b; panic
decode_loop (b ∷ c ∷ rest) = do
  high ← hex_to_int b
  low ← hex_to_int c
  r ← decode_loop rest
  ok (bit_or (high * 2 ^ 4 % 256) low ∷ r)

unfoldable pub decode : Bytes → Result Bytes
unfolding decode_loop
decode bytes = do assert (length bytes % 2 == 0); decode_loop bytes

-- The digit for a number below 16, from one of the two alphabets.
abbrev pub hex_char : Bool → ℕ → ℕ
hex_char upper n = if ltb n 10 then n + b'0' else if upper then n + 55 else n + 87

-- The digits of a byte sequence. Each digit has a case of its own: `u` and `w` are the cases of the first
-- and the second digit of the byte at each position.
unfoldable pub encode : (ℕ → Bool) → (ℕ → Bool) → Bytes → Bytes
encode u w [] = []
encode u w (b ∷ bs) =
    hex_char (u 0) (b / 16) ∷ hex_char (w 0) (b % 16) ∷ encode (λ i. u (i + 1)) (λ i. w (i + 1)) bs

check_char :
    (upper : Bool)
    → all_below (λ n. elim (hex_to_int (hex_char upper n)) [ ok m ↦ m == n | _ ↦ false ]) 16 ≡ true
unfolding hex_to_int all_below is_ascii_hexdigit
check_char true = refl
check_char false = refl

pub hex_to_int-hex_char : (upper : Bool) (n : ℕ) → n < 16 → hex_to_int (hex_char upper n) ≡ ok n
hex_to_int-hex_char upper n h = hit (hex_to_int (hex_char upper n)) (
    all_below_sound 16 (λ n. elim (hex_to_int (hex_char upper n)) [ ok m ↦ m == n | _ ↦ false ]) n
      (check_char upper) h)
  where
    hit : (r : Result ℕ) → elim r [ ok m ↦ m == n | _ ↦ false ] ≡ true → r ≡ ok n
    hit (ok m) e = ap ok ((==_iff m n).0 e)
    hit (err x) e = cc
    hit panic e = cc

decode_loop-encode :
    (u w : ℕ → Bool) (bs : Bytes) → IsBytes bs → decode_loop (encode u w bs) ≡ ok bs
unfolding encode
decode_loop-encode u w [] h = unfold decode_loop in refl
decode_loop-encode u w (b ∷ bs) h =
    let us : ℕ → Bool = λ i. u (i + 1) in
    let ws : ℕ → Bool = λ i. w (i + 1) in
    step (hex_char (u 0) (b / 16)) (hex_char (w 0) (b % 16)) (encode us ws bs)
      (decode_loop-encode us ws bs h.1) (hex_to_int-hex_char (u 0) (b / 16) (omega arith))
      (hex_to_int-hex_char (w 0) (b % 16) (omega arith))
  where
    whole : bit_or (b / 16 * 2 ^ 4 % 256) (b % 16) ≡ b
    whole =
        let e : b / 16 * 2 ^ 4 % 256 ≡ b / 16 * 2 ^ 4 = omega arith in
        rw e (bit_or-shifted 4 (b / 16) (b % 16) (omega arith) ∙ omega arith)

    step :
        (c d : ℕ) (rest : Bytes)
        → decode_loop rest ≡ ok bs
        → hex_to_int c ≡ ok (b / 16)
        → hex_to_int d ≡ ok (b % 16)
        → decode_loop (c ∷ d ∷ rest) ≡ ok (b ∷ bs)
    step c d rest h p q = unfold decode_loop in rw (p, q, h, whole)

even-encode : (u w : ℕ → Bool) (bs : Bytes) → length (encode u w bs) % 2 ≡ 0
unfolding encode
even-encode u w [] = refl
even-encode u w (b ∷ bs) = omega (arith, even-encode (λ i. u (i + 1)) (λ i. w (i + 1)) bs)

-- Decoding the hexadecimal digits of a byte sequence, in any mixture of cases of the single digits, gives
-- the bytes back.
pub decode-encode : (u w : ℕ → Bool) (bs : Bytes) → IsBytes bs → decode (encode u w bs) ≡ ok bs
unfolding decode
decode-encode u w bs h = rw (even-encode u w bs) (decode_loop-encode u w bs h)
