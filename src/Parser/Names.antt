-- ===== src/Parser/Names.antt =====
-- Type names, and the signed numbers in them.
use prsqlite.Prelude.{
  ℕ, zero, suc, Bool, true, false, ◌||◌, Option, none, some, List, ◌∷◌, ◌++◌, [],
}
use prsqlite.Prelude.{if◌then◌else◌, Bytes}
use prsqlite.Token.Defs.{
  Token, null, left_paren, right_paren, plus, comma, minus, identifier, integer, float,
}
use prsqlite.Parser.State.{
  no_signed_number, type_name_no_right_paren, done, out_of_fuel, Parse, bind, pure, ◌>>◌, error,
  peek, next, is_token, expect_peek, ◌>>=◌,
}

-- `null`.
abbrev pub null_bytes : Bytes
null_bytes = b'n' ∷ b'u' ∷ b'l' ∷ b'l' ∷ []

-- `if matches!(p.peek(), …) { p.next(); }`.
unfoldable pub skip_if : (Option Token → Bool) → Parse (Unit {0})
unfolding next
skip_if test p = if test p.token then bind (next p) (λ t. pure tt) else done tt p

abbrev pub is_sign : Option Token → Bool
is_sign t = is_token plus t || is_token minus t

abbrev pub is_number : Option Token → Bool
is_number (some (integer b)) = true
is_number (some (float b)) = true
is_number _ = false

unfoldable pub skip_signed_number : Parse (Unit {0})
unfolding skip_if next is_token
skip_signed_number = do
  skip_if is_sign
  t ← peek
  if is_number t then (next >> pure tt) else error no_signed_number

-- The signed numbers of a type name in parentheses.
unfoldable pub type_arguments : Parse (Unit {0})
unfolding next skip_signed_number is_token expect_peek
type_arguments = do
  next
  skip_signed_number
  t ← peek
  (if is_token comma t then (next >> skip_signed_number) else pure tt)
  expect_peek right_paren type_name_no_right_paren
  next
  pure tt

-- A word of a type name.
abbrev pub type_word : Option Token → Option Bytes
type_word (some null) = some null_bytes
type_word (some (identifier b)) = some b
type_word _ = none

-- The step of the loop over the words: `again` is the loop.
unfoldable pub type_step :
    (List Bytes → Parse (List Bytes))
    → List Bytes
    → Option Token
    → Option Bytes
    → Parse (List Bytes)
unfolding type_arguments is_token
type_step again names t (some word) = again (names ++ (word ∷ []))
type_step again names t none =
    if is_token left_paren t then (type_arguments >> pure names) else pure names

unfoldable pub type_loop : ℕ → List Bytes → Parse (List Bytes)
unfolding next type_step
type_loop zero names p = out_of_fuel
type_loop (suc fuel) names p = bind (next p) λ t. type_step (type_loop fuel) names t (type_word t)

unfoldable pub type_from : ℕ → Option Bytes → Parse (List Bytes)
unfolding type_loop
type_from fuel none = pure []
type_from fuel (some word) = type_loop fuel (word ∷ [])

unfoldable pub parse_type_name : ℕ → Parse (List Bytes)
unfolding type_from
parse_type_name fuel p = type_from fuel (type_word p.token) p
