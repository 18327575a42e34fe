-- ===== src/Parser/State.antt =====
-- The parser's position in the tokens of the input, and the outcome of a parse.
use prsqlite.Prelude.{ℕ, zero, suc, ◌+◌, Bool, true, false, Option, none, some}
use prsqlite.Prelude.{◌==◌, if◌then◌else◌, length, Bytes}
use prsqlite.Prelude.{Result, ok, err, panic, ◌>>=◌ as ◌>>=ᵣ◌, slice_from}
use prsqlite.Token.Defs.{
  Token, as_kw, cast, collate, create, from, index_kw, key, null, on, primary, select, table,
  where_kw, space, left_paren, right_paren, asterisk, plus, comma, minus, dot, semicolon, tilda, eq,
  ne, gt, ge, lt, le, bit_or_op, concat, identifier, string, blob, integer, float, illegal,
  get_token,
}

-- One constructor for each message of the code.
pub data Message : Type 0 where
  no_semicolon unexpected_token no_collation_name no_key_after_primary no_signed_number : Message
  type_name_no_right_paren no_create no_table no_table_name no_left_paren no_column_name : Message
  no_right_paren no_index no_index_name no_on no_select no_from no_alias : Message
  no_cast_left_paren no_cast_as no_cast_right_paren no_expr : Message

-- `Error`: the input is the parser's.
pub record ParseError : Type 0 where
  pub error_cursor : ℕ
  pub error_token_size : ℕ
  pub msg : Message

pub record Parser : Type 0 where
  pub input : Bytes
  pub cursor : ℕ
  pub token : Option Token
  pub token_size : ℕ

-- `done` with the parser behind what was read; `crashed` is a panic. After an error the parser is not
-- used again.
pub data Outcome {ℓ} (A : Type ℓ) : Type ℓ where
  done : A → Parser → Outcome A
  failed : ParseError → Outcome A
  crashed : Outcome A
  out_of_fuel : Outcome A

abbrev pub Parse {ℓ} : Type ℓ → Type ℓ
Parse A = Parser → Outcome A

abbrev pub bind {ℓ κ} : {A : Type ℓ} {B : Type κ} → Outcome A → (A → Parse B) → Outcome B
bind (done a p) f = f a p
bind (failed e) f = failed e
bind crashed f = crashed
bind out_of_fuel f = out_of_fuel

abbrev pub pure {ℓ} : {A : Type ℓ} → A → Parse A
pure a p = done a p

infixl 4 ◌>>=◌ ◌>>◌
abbrev pub ◌>>=◌ {ℓ κ} : {A : Type ℓ} {B : Type κ} → Parse A → (A → Parse B) → Parse B
m >>= f = λ p. bind (m p) f

abbrev pub ◌>>◌ {ℓ κ} : {A : Type ℓ} {B : Type κ} → Parse A → Parse B → Parse B
m >> k = m >>= λ a. k

-- `p.error(msg)`.
abbrev pub error {ℓ} : {A : Type ℓ} → Message → Parse A
error m p = failed (record { error_cursor = p.cursor; error_token_size = p.token_size; msg = m })

abbrev pub peek : Parse (Option Token)
peek p = done p.token p

abbrev pub check_that : Bool → Parse (Unit {0})
check_that true p = done tt p
check_that false p = crashed

-- What `next` does with the token at the cursor; a space is passed over.
unfoldable pub take_token :
    Parse (Option Token) → Parser → Result (Option (ℕ × Token)) → Outcome (Option Token)
take_token again p (ok none) = done none (record p { token_size = 0; token = none })
take_token again p (ok (some (n, space))) = again (record p { token_size = n })
take_token again p (ok (some (n, t))) = done (some t) (record p { token_size = n; token = some t })
take_token again p (err e) = crashed
take_token again p panic = crashed

-- The recursion of `next` over spaces, on fuel.
unfoldable pub next_loop : ℕ → Parse (Option Token)
unfolding take_token get_token
next_loop zero p = out_of_fuel
next_loop (suc fuel) p =
    let p' = record p { cursor = p.cursor + p.token_size } in
    take_token (next_loop fuel) p' (slice_from p.input p'.cursor >>=ᵣ get_token)

-- `next`: the tokens of the input are no more than its bytes.
unfoldable pub next : Parse (Option Token)
unfolding next_loop
next p = next_loop (length p.input + 1) p

-- `Parser::new`.
unfoldable pub new_parser : Bytes → Outcome (Option Token)
unfolding next
new_parser input = next (record { input = input; cursor = 0; token = none; token_size = 0 })

-- The number of bytes consumed.
abbrev pub n_consumed : Parser → ℕ
n_consumed p = p.cursor

-- What follows, if the next token is there as wanted, and the error otherwise.
abbrev pub wanted {ℓ} : {A : Type ℓ} → Option A → Message → Parse A
wanted (some a) m = pure a
wanted none m = error m

-- The number of a token's constructor: tokens without bytes are equal where it is the same.
unfoldable pub tag : Token → ℕ
tag as_kw = 0
tag cast = 1
tag collate = 2
tag create = 3
tag from = 4
tag index_kw = 5
tag key = 6
tag null = 7
tag on = 8
tag primary = 9
tag select = 10
tag table = 11
tag where_kw = 12
tag space = 13
tag left_paren = 14
tag right_paren = 15
tag asterisk = 16
tag plus = 17
tag comma = 18
tag minus = 19
tag dot = 20
tag semicolon = 21
tag tilda = 22
tag eq = 23
tag ne = 24
tag gt = 25
tag ge = 26
tag lt = 27
tag le = 28
tag bit_or_op = 29
tag concat = 30
tag (identifier b) = 31
tag (string b) = 32
tag (blob b) = 33
tag (integer b) = 34
tag (float b) = 35
tag illegal = 36

unfoldable pub is_token : Token → Option Token → Bool
unfolding tag
is_token t none = false
is_token t (some u) = tag t == tag u

abbrev pub identifier_of : Option Token → Option Bytes
identifier_of (some (identifier b)) = some b
identifier_of _ = none

-- `let Some(t) = p.next() else { return Err(p.error(m)) }`, for a token without bytes, and the same for the
-- token that `peek` shows.
unfoldable pub expect_next : Token → Message → Parse (Unit {0})
unfolding next is_token
expect_next t m = do u ← next; if is_token t u then pure tt else error m

unfoldable pub expect_peek : Token → Message → Parse (Unit {0})
unfolding is_token
expect_peek t m = do u ← peek; if is_token t u then pure tt else error m

-- `let Some(Token::Identifier(b)) = p.next() else { return Err(p.error(m)) }`.
unfoldable pub expect_identifier : Message → Parse Bytes
unfolding next
expect_identifier m = do t ← next; wanted (identifier_of t) m

unfoldable pub expect_semicolon : Parse (Unit {0})
unfolding expect_peek next
expect_semicolon = do expect_peek semicolon no_semicolon; next; pure tt

unfoldable pub expect_no_more_token : Parse (Unit {0})
expect_no_more_token p = no_more p.token p
  where
    no_more : Option Token → Parse (Unit {0})
    no_more (some t) = error unexpected_token
    no_more none = pure tt
