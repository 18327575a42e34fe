-- ===== src/Token/Defs.antt =====
-- The tokens and `get_token` of token.rs, with `len_identifier` and `len_float`.
use prsqlite.Prelude.{
  ℕ, suc, ◌+◌, ◌-◌, ◌%◌, Bool, true, false, not, ◌||◌, Option, none, some, [], ◌∷◌, ◌++◌, map,
}
use prsqlite.Prelude.{leb, ◌==◌, if◌then◌else◌}
use prsqlite.Prelude.{length, drop, replicate, count_while, Bytes}
use prsqlite.Prelude.{Result, ok, panic, ◌>>=◌, slice_from, slice}
use prsqlite.Prelude.{bytes_eq}
use prsqlite.Utils.Ascii.{is_space, is_ascii_digit, is_ascii_hexdigit, lower}
use prsqlite.Token.Chars.{
  char_code, char_x, char_alphabet, char_underscore, char_digit, char_dollar, char_quote,
  char_quote2, char_invalid,
}

pub data Token : Type 0 where
  as_kw cast collate create from index_kw key null on primary select table where_kw : Token
  space left_paren right_paren asterisk plus comma minus dot semicolon tilda : Token
  eq ne gt ge lt le bit_or_op concat : Token
  identifier string blob integer float : Bytes → Token
  illegal : Token

-- `&input[..len]`.
abbrev pub slice_to : Bytes → ℕ → Result Bytes
slice_to xs n = slice xs 0 n

-- `input.len() >= 2 && input[1] == b`.
unfoldable pub second_is : Bytes → ℕ → Bool
second_is (a ∷ c ∷ cs) b = c == b
second_is _ b = false

unfoldable pub second_is_digit : Bytes → Bool
second_is_digit (a ∷ c ∷ cs) = is_ascii_digit c
second_is_digit _ = false

-- The bytes at which `len_identifier` goes on.
abbrev pub is_identifier_byte : ℕ → Bool
is_identifier_byte b = leb (char_code b) char_dollar

unfoldable pub len_identifier : Bytes → ℕ
len_identifier [] = 0
len_identifier (c ∷ cs) = suc (count_while is_identifier_byte cs)

-- The digits of an exponent, behind its sign; the end of the input reads as the byte 0.
unfoldable pub len_exponent_digits : ℕ → Bytes → ℕ × Bool
len_exponent_digits len [] = (len, false)
len_exponent_digits len (b ∷ bs) =
    if is_ascii_digit b then (len + 1 + count_while is_ascii_digit bs, true) else (len, false)

-- What follows the `e`; `len` counts it.
unfoldable pub len_exponent : ℕ → Bytes → ℕ × Bool
unfolding len_exponent_digits
len_exponent len [] = (len, false)
len_exponent len (b ∷ bs) =
    if b == b'+' || b == b'-'
    then len_exponent_digits (len + 1) bs
    else len_exponent_digits len (b ∷ bs)

-- The length of the fraction, with its point.
unfoldable pub len_fraction : Bytes → ℕ
len_fraction [] = 0
len_fraction (c ∷ cs) = if c == b'.' then suc (count_while is_ascii_digit cs) else 0

unfoldable pub len_tail : ℕ → Bytes → ℕ × Bool
unfolding len_exponent
len_tail len [] = (len, true)
len_tail len (b ∷ bs) = if b == b'e' || b == b'E' then len_exponent (len + 1) bs else (len, true)

unfoldable pub len_float : Bytes → ℕ × Bool
unfolding len_fraction len_tail
len_float input = len_tail (len_fraction input) (drop (len_fraction input) input)

-- `b' '`
unfoldable pub space_token : Bytes → ℕ × Token
space_token [] = (0, space)
space_token (c ∷ cs) = (suc (count_while is_space cs), space)

-- `b'.'`
unfoldable pub dot_token : Bytes → Result (ℕ × Token)
unfolding len_float second_is_digit
dot_token input =
    let (len, valid) = len_float input in
    if second_is_digit input
    then (if valid then (do s ← slice_to input len; ok (len, float s)) else ok (len, illegal))
    else ok (1, dot)

-- Symbols of one byte or two.
abbrev pub two_bytes : Bytes → ℕ → Token → Token → Result (ℕ × Token)
two_bytes input b long short = if second_is input b then ok (2, long) else ok (1, short)

unfoldable pub less_token : Bytes → Result (ℕ × Token)
unfolding second_is
less_token input =
    if second_is input b'='
    then ok (2, le)
    else if second_is input b'>'
    then ok (2, ne)
    else ok (1, lt)

-- The loop that vacuums invalid hexadecimal digits, at index `i` behind the opening quote.
unfoldable pub vacuum : ℕ → ℕ → Bytes → ℕ × Token
vacuum total i [] = (total, illegal)
vacuum total i (b ∷ bs) =
    let rest = vacuum total (i + 1) bs in if b == b'\'' then (i + 3, illegal) else rest

-- The loop over the hexadecimal digits, at index `i` behind the opening quote.
unfoldable pub blob_loop : Bytes → ℕ → Bytes → Result (ℕ × Token)
unfolding vacuum
blob_loop input i [] = ok (length input, illegal)
blob_loop input i (b ∷ bs) =
    let rest = blob_loop input (i + 1) bs in
    if is_ascii_hexdigit b
    then rest
    else if b == b'\''
    then (if i % 2 == 0
        then (do s ← slice input 2 (i + 2); ok (i + 3, blob s))
        else ok (i + 3, illegal))
    else ok (vacuum (length input) (i + 1) bs)

-- `CHAR_X`
unfoldable pub x_token : Bytes → Result (ℕ × Token)
unfolding second_is blob_loop len_identifier
x_token input =
    if second_is input b'\''
    then blob_loop input 0 (drop 2 input)
    else (do id ← slice_to input (len_identifier input); ok (len_identifier input, identifier id))

abbrev pub max_keyword_len : ℕ
max_keyword_len = 7

-- The match on the padded identifier in lower case.
unfoldable pub keyword : Bytes → Option Token
keyword lower_id =
    if bytes_eq lower_id (b'a' ∷ b's' ∷ 0 ∷ 0 ∷ 0 ∷ 0 ∷ 0 ∷ [])
    then some as_kw
    else if bytes_eq lower_id (b'c' ∷ b'a' ∷ b's' ∷ b't' ∷ 0 ∷ 0 ∷ 0 ∷ [])
    then some cast
    else if bytes_eq lower_id (b'c' ∷ b'o' ∷ b'l' ∷ b'l' ∷ b'a' ∷ b't' ∷ b'e' ∷ [])
    then some collate
    else if bytes_eq lower_id (b'c' ∷ b'r' ∷ b'e' ∷ b'a' ∷ b't' ∷ b'e' ∷ 0 ∷ [])
    then some create
    else if bytes_eq lower_id (b'f' ∷ b'r' ∷ b'o' ∷ b'm' ∷ 0 ∷ 0 ∷ 0 ∷ [])
    then some from
    else if bytes_eq lower_id (b'i' ∷ b'n' ∷ b'd' ∷ b'e' ∷ b'x' ∷ 0 ∷ 0 ∷ [])
    then some index_kw
    else if bytes_eq lower_id (b'k' ∷ b'e' ∷ b'y' ∷ 0 ∷ 0 ∷ 0 ∷ 0 ∷ [])
    then some key
    else if bytes_eq lower_id (b'n' ∷ b'u' ∷ b'l' ∷ b'l' ∷ 0 ∷ 0 ∷ 0 ∷ [])
    then some null
    else if bytes_eq lower_id (b'o' ∷ b'n' ∷ 0 ∷ 0 ∷ 0 ∷ 0 ∷ 0 ∷ [])
    then some on
    else if bytes_eq lower_id (b'p' ∷ b'r' ∷ b'i' ∷ b'm' ∷ b'a' ∷ b'r' ∷ b'y' ∷ [])
    then some primary
    else if bytes_eq lower_id (b's' ∷ b'e' ∷ b'l' ∷ b'e' ∷ b'c' ∷ b't' ∷ 0 ∷ [])
    then some select
    else if bytes_eq lower_id (b't' ∷ b'a' ∷ b'b' ∷ b'l' ∷ b'e' ∷ 0 ∷ 0 ∷ [])
    then some table
    else if bytes_eq lower_id (b'w' ∷ b'h' ∷ b'e' ∷ b'r' ∷ b'e' ∷ 0 ∷ 0 ∷ [])
    then some where_kw
    else none

-- `lower_id`: an array of zeros, written over from the front.
abbrev pub padded : Bytes → Bytes
padded id = map lower id ++ replicate (max_keyword_len - length id) 0

-- The last case of that match.
abbrev pub or_identifier : Bytes → Option Token → Token
or_identifier id none = identifier id
or_identifier id (some t) = t

-- `CHAR_ALPHABET | CHAR_UNDERSCORE`
unfoldable pub word_token : Bytes → Result (ℕ × Token)
unfolding len_identifier keyword
word_token input = do
  let len = len_identifier input
  id ← slice_to input len
  ok (
    len,
    (if leb len max_keyword_len then or_identifier id (keyword (padded id)) else identifier id),
  )

-- `CHAR_DIGIT`
unfoldable pub digit_token : Bytes → Result (ℕ × Token)
unfolding len_float
digit_token input = do
  let len = 1 + count_while is_ascii_digit (drop 1 input)
  rest ← slice_from input len
  let (l, valid) = len_float rest
  if not valid
      then ok (len + l, illegal)
      else if l == 0
      then (do s ← slice_to input len; ok (len, integer s))
      else (do s ← slice_to input (len + l); ok (len + l, float s))

-- The closing quote at index `i`.
unfoldable pub quoted : Bytes → ℕ → ℕ → Result (ℕ × Token)
quoted input d i = do
  s ← slice_to input (i + 1)
  ok (i + 1, (if d == b'\'' then string s else identifier s))

unfoldable pub quote_loop : Bytes → ℕ → ℕ → Bytes → Result (ℕ × Token)
unfolding quoted
quote_loop input d i [] = ok (length input, illegal)
quote_loop input d i (b ∷ []) = if b == d then quoted input d i else ok (length input, illegal)
quote_loop input d i (b ∷ c ∷ rest) =
    let skip = quote_loop input d (i + 2) rest in
    let keep = quote_loop input d (i + 1) (c ∷ rest) in
    if b == d then (if c == d then skip else quoted input d i) else keep

-- `CHAR_QUOTE2`, at index `i`.
unfoldable pub bracket_loop : Bytes → ℕ → Bytes → Result (ℕ × Token)
bracket_loop input i [] = ok (length input, illegal)
bracket_loop input i (b ∷ bs) =
    let rest = bracket_loop input (i + 1) bs in
    if b == b']' then (do s ← slice input 1 i; ok (i + 1, identifier s)) else rest

-- The match on the code of the first byte, `c`; the last case is `unreachable!`.
unfoldable pub token_of : ℕ → ℕ → Bytes → Result (ℕ × Token)
token_of k c input =
    if k == b' '
    then ok (space_token input)
    else if k == b'!'
    then two_bytes input b'=' ne illegal
    else if k == b'('
    then ok (1, left_paren)
    else if k == b')'
    then ok (1, right_paren)
    else if k == b'*'
    then ok (1, asterisk)
    else if k == b'+'
    then ok (1, plus)
    else if k == b','
    then ok (1, comma)
    else if k == b'-'
    then ok (1, minus)
    else if k == b'.'
    then dot_token input
    else if k == b';'
    then ok (1, semicolon)
    else if k == b'<'
    then less_token input
    else if k == b'='
    then two_bytes input b'=' eq eq
    else if k == b'>'
    then two_bytes input b'=' ge gt
    else if k == b'|'
    then two_bytes input b'|' concat bit_or_op
    else if k == b'~'
    then ok (1, tilda)
    else if k == char_x
    then x_token input
    else if k == char_alphabet || k == char_underscore
    then word_token input
    else if k == char_digit
    then digit_token input
    else if k == char_quote
    then quote_loop input c 1 (drop 1 input)
    else if k == char_quote2
    then bracket_loop input 1 (drop 1 input)
    else if k == char_invalid
    then ok (1, illegal)
    else panic

unfoldable pub get_token : Bytes → Result (Option (ℕ × Token))
unfolding token_of
get_token [] = ok none
get_token (c ∷ cs) = do r ← token_of (char_code c) c (c ∷ cs); ok (some r)
