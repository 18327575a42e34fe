-- ===== src/Tests/Tokens.antt =====
-- Runs of `get_token`, and its theorems at concrete inputs.
use prsqlite.Prelude.{ℕ, ◌≤◌, ◌≡◌, refl, inl, some, ◌∷◌, ◌++◌, arith, []}
use prsqlite.Prelude.{length, Bytes}
use prsqlite.Prelude.{ok, panic}
use prsqlite.Prelude.{bytes_eq}
use Prim.Native.Char.{code}
use Prim.Native.String.{String}
use prsqlite.Utils.Ascii.{is_ascii_digit, is_ascii_hexdigit, lower}
use prsqlite.Token.Chars.{char_code}
use prsqlite.Utils.Quoted.{dequote}
use prsqlite.Utils.Quoted.RoundTrip.{quote}
use prsqlite.Token.Progress.{get_token_progress, get_token_dollar}
use prsqlite.Token.Keywords.{word, get_token-word}
use prsqlite.Token.Literals.{quoted_token, get_token-quote, get_token_bracket_quote}
use prsqlite.Token.Defs.{
  Token, word_token, digit_token, dot_token, quote_loop, x_token, bracket_loop, select, integer,
  float, blob, string, identifier, illegal, get_token,
}

abbrev codes : String → Bytes
codes String.[] = []
codes (String.◌∷◌ c s) = code c ∷ codes s

get_token_select : get_token (codes "SeLect *") ≡ ok (some (6, select))
unfolding get_token char_code lower bytes_eq word_token
get_token_select = refl

get_token_numbers :
    (get_token (codes "123 ") ≡ ok (some (3, integer (codes "123"))))
    × (get_token (codes "1.5e-3,") ≡ ok (some (6, float (codes "1.5e-3"))))
    × (get_token (codes "1e+,") ≡ ok (some (3, illegal)))
    × (get_token (codes ".5") ≡ ok (some (2, float (codes ".5"))))
unfolding get_token char_code is_ascii_digit digit_token dot_token
get_token_numbers = (refl, refl, refl, refl)

get_token_quoted :
    (get_token (codes "'it''s' x") ≡ ok (some (7, string (codes "'it''s'"))))
    × (get_token (codes "x'0aFF' x") ≡ ok (some (7, blob (codes "0aFF"))))
    × (get_token (codes "x'0aF' x") ≡ ok (some (6, illegal)))
    × (get_token (codes "[a b]c") ≡ ok (some (5, identifier (codes "a b"))))
    × (get_token (codes "xyz 1") ≡ ok (some (3, identifier (codes "xyz"))))
unfolding get_token char_code is_ascii_hexdigit quote_loop x_token bracket_loop
get_token_quoted = (refl, refl, refl, refl, refl)

abbrev letters_ab : Bytes
letters_ab = codes "ab"

get_token_progress_example :
    (n : ℕ) × (t : Token) × (get_token (b'a' ∷ []) ≡ ok (some (n, t))) × (1 ≤ n) × (n ≤ 1)
get_token_progress_example = get_token_progress b'a' [] (omega arith) (omega arith)

get_token_dollar_example : get_token (codes "$ab") ≡ panic
get_token_dollar_example = get_token_dollar letters_ab

get_token-word_example : get_token (codes "Select a") ≡ ok (some (6, word (codes "Select")))
unfolding char_code
get_token-word_example =
    get_token-word b'S' (codes "elect") (codes " a") (inl refl) (omega arith) refl refl

get_token-quote_example :
    get_token (quote b'"' (codes "a\"b") ++ codes ",")
    ≡ ok (some (length (quote b'"' (codes "a\"b")), quoted_token b'"' (quote b'"' (codes "a\"b"))))
get_token-quote_example = get_token-quote b'"' (codes "a\"b") (codes ",") refl refl

get_token_bracket_quote_example :
    (get_token (codes "['a]") ≡ ok (some (4, identifier (codes "'a"))))
    × (dequote (codes "'a") ≡ panic)
get_token_bracket_quote_example = get_token_bracket_quote b'\'' b'a' [] [] refl refl refl
