-- ===== src/Tests/Utils.antt =====
-- Runs of the functions of utils.rs, and their theorems at concrete inputs.
use prsqlite.Prelude.{◌==◌}
use prsqlite.Prelude.{◌+◌, Ordering, ◌≡◌, refl, ◌↔◌, true, false, some, ◌∷◌, ◌++◌, map, arith, []}
use prsqlite.Prelude.{reverse_ordering}
use prsqlite.Prelude.{length, replicate, every, Bytes}
use prsqlite.Prelude.{pos, negsuc, i64_min}
use prsqlite.Prelude.{ok, IsSafe}
use prsqlite.Prelude.{is_infix}
use prsqlite.Utils.Varint.{parse_varint}
use prsqlite.Utils.Varint.Encoding.{short_form}
use prsqlite.Utils.Varint.Total.{Outcome, parse_varint-Outcome, parse_varint-short_form}
use prsqlite.Utils.Ascii.{lower, is_space, is_ascii_digit}
use prsqlite.Utils.Integer.{integer, parse_integer}
use prsqlite.Utils.Integer.Spec.{minus, decimal, classify, parse_integer_digits}
use prsqlite.Utils.CaseInsensitive.{eq, cmp, hash_bytes, contains_lower_bytes}
use prsqlite.Utils.CaseInsensitive.Laws.{eq-cmp_hash}
use prsqlite.Utils.CaseInsensitive.Search.{contains_lower_bytes-is_infix}
use prsqlite.Utils.Quoted.{dequote, DequotedIter, dequote_iter, collect}
use prsqlite.Utils.Quoted.RoundTrip.{quote, dequote-quote, dequote_iter-quote}
use prsqlite.Utils.Hexed.{decode, encode, decode-encode}

abbrev three_hundred : Bytes
three_hundred = 0x82 ∷ 0x2c ∷ 7 ∷ []

parse_varint-Outcome_example : Outcome three_hundred (parse_varint three_hundred)
parse_varint-Outcome_example = parse_varint-Outcome three_hundred (omega arith)

parse_300 : parse_varint three_hundred ≡ ok (some (pos 300, 2))
unfolding parse_varint
parse_300 = refl

parse_minus_one : parse_varint (replicate 9 255) ≡ ok (some (negsuc 0, 9))
unfolding parse_varint
parse_minus_one = refl

parse_varint-short_form_example :
    parse_varint (short_form 2 300 ++ (9 ∷ [])) ≡ ok (some (pos 300, 2 + 1))
parse_varint-short_form_example = parse_varint-short_form 2 300 (9 ∷ []) (omega arith) (omega arith)

abbrev text_min : Bytes
text_min =
    b' ' ∷ b'-' ∷ b'0' ∷ b'9' ∷ b'2' ∷ b'2' ∷ b'3' ∷ b'3' ∷ b'7' ∷ b'2' ∷ b'0' ∷ b'3' ∷ b'6' ∷ b'8'
    ∷ b'5' ∷ b'4' ∷ b'7' ∷ b'7' ∷ b'5' ∷ b'8' ∷ b'0' ∷ b'8' ∷ b' ' ∷ []

parse_integer_min : parse_integer text_min ≡ (true, integer i64_min)
unfolding parse_integer is_space is_ascii_digit
parse_integer_min = refl

parse_integer_digits_example :
    parse_integer (b' ' ∷ b'-' ∷ b'0' ∷ b'4' ∷ b'2' ∷ b'x' ∷ [])
    ≡ (every is_space (b'x' ∷ []), classify false (decimal 0 (b'4' ∷ b'2' ∷ [])))
unfolding is_space is_ascii_digit
parse_integer_digits_example =
    parse_integer_digits (b' ' ∷ []) minus 1 (b'4' ∷ b'2' ∷ []) (b'x' ∷ []) refl refl (omega arith)
      refl (omega arith)

abbrev upper_ab : Bytes
upper_ab = b'A' ∷ b'b' ∷ []

abbrev lower_ab : Bytes
lower_ab = b'a' ∷ b'B' ∷ []

eq-cmp_hash_example :
    ((eq upper_ab lower_ab ≡ ok true) ↔ (cmp upper_ab lower_ab ≡ Ordering.eq))
    × ((eq upper_ab lower_ab ≡ ok true) ↔ (hash_bytes upper_ab ≡ hash_bytes lower_ab))
    × IsSafe (eq upper_ab lower_ab)
    × (cmp upper_ab lower_ab ≡ reverse_ordering (cmp lower_ab upper_ab))
eq-cmp_hash_example = eq-cmp_hash upper_ab lower_ab

contains_lower_bytes-is_infix_example :
    contains_lower_bytes (b'x' ∷ upper_ab) lower_ab
    ≡ ok (is_infix lower_ab (map lower (b'x' ∷ upper_ab)))
contains_lower_bytes-is_infix_example = contains_lower_bytes-is_infix (b'x' ∷ upper_ab) lower_ab

abbrev its : Bytes
its = b'i' ∷ b't' ∷ b'\'' ∷ b's' ∷ []

dequote-quote_example : dequote (quote b'\'' its) ≡ ok its
dequote-quote_example = dequote-quote b'\'' its refl

dequote_iter-quote_example :
    (it : DequotedIter) × (dequote_iter (quote b'\'' its) ≡ ok it)
    × (collect (length (quote b'\'' its)) it ≡ its)
dequote_iter-quote_example = dequote_iter-quote b'\'' its refl

decode-encode_example :
    decode (encode (λ i. i == 0) (λ i. i == 1) (0xab ∷ 0xab ∷ [])) ≡ ok (0xab ∷ 0xab ∷ [])
decode-encode_example = decode-encode (λ i. i == 0) (λ i. i == 1) (0xab ∷ 0xab ∷ []) (omega arith)
