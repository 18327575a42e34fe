-- ===== src/Parser/Expr.antt =====
-- The expressions of SQL. Each level of the grammar is a function of the one below it, so that only the
-- cast, the unary operators and the loops need fuel.
pub mod Grammar
pub mod Steps
pub mod Follow
pub mod Numerals
pub mod Unary
pub mod Correct
use prsqlite.Prelude.{
  ℕ, zero, suc, Bool, true, false, not, Option, none, some, List, ℤ, pos, negsuc, neg_ℕ, ◌+◌,
  i64_min,
}
use prsqlite.Prelude.{if◌then◌else◌, Bytes}
use prsqlite.Utils.Integer.{ParseIntegerResult, parse_integer}
use prsqlite.Utils.Integer as Integer
use prsqlite.Utils.Decimal.{Floats, parse_float}
use prsqlite.Token.Defs.{Token}
use prsqlite.Parser.State.{
  no_collation_name, no_cast_left_paren, no_cast_as, no_cast_right_paren, no_expr, out_of_fuel,
  Parse, bind, pure, ◌>>◌, error, check_that, next, is_token, expect_next, expect_peek,
  expect_identifier, ◌>>=◌,
}
use prsqlite.Parser.Names.{parse_type_name}

pub data UnaryOp : Type 0 where
  bit_not negate_op : UnaryOp

pub data CompareOp : Type 0 where
  eq_op ne_op gt_op ge_op lt_op le_op : CompareOp

pub data BinaryOp : Type 0 where
  compare_op : CompareOp → BinaryOp
  concat_op : BinaryOp

pub data Expr (F : Type 0) : Type 0 where
  column : Bytes → Expr F
  unary_operator : UnaryOp → Expr F → Expr F
  collate_expr : Expr F → Bytes → Expr F
  binary_operator : BinaryOp → Expr F → Expr F → Expr F
  cast_expr : Expr F → List Bytes → Expr F
  null_expr : Expr F
  integer_expr : ℤ → Expr F
  real_expr : F → Expr F
  text_expr : Bytes → Expr F
  blob_expr : Bytes → Expr F

-- The operators of the three levels of binary operators.
unfoldable pub eq_level : Option Token → Option BinaryOp
eq_level (some Token.eq) = some (compare_op eq_op)
eq_level (some Token.ne) = some (compare_op ne_op)
eq_level _ = none

unfoldable pub compare_level : Option Token → Option BinaryOp
compare_level (some Token.gt) = some (compare_op gt_op)
compare_level (some Token.ge) = some (compare_op ge_op)
compare_level (some Token.lt) = some (compare_op lt_op)
compare_level (some Token.le) = some (compare_op le_op)
compare_level _ = none

unfoldable pub concat_level : Option Token → Option BinaryOp
concat_level (some Token.concat) = some concat_op
concat_level _ = none

-- `-v` on an `i64` that `parse_integer` found.
abbrev pub negated : ℤ → ℤ
negated (pos n) = neg_ℕ n
negated (negsuc n) = pos (n + 1)

-- The collations behind an expression: the last one counts.
unfoldable pub collation_step :
    (Option Bytes → Parse (Option Bytes)) → Option Bytes → Bool → Parse (Option Bytes)
unfolding next expect_identifier
collation_step again found false = pure found
collation_step again found true = do
  name ← expect_identifier no_collation_name
  next
  again (some name)

unfoldable pub collation_loop : ℕ → Option Bytes → Parse (Option Bytes)
unfolding is_token collation_step
collation_loop zero found p = out_of_fuel
collation_loop (suc fuel) found p =
    collation_step (collation_loop fuel) found (is_token Token.collate p.token) p

-- An expression with the collation behind it, if there is one.
abbrev pub collated : {F : Type 0} → Expr F → Option Bytes → Expr F
collated e none = e
collated e (some name) = collate_expr e name

module _ {F : Type 0} (fl : Floats F) where
  -- The float of a literal, of which `pure_integer` is what is asserted.
  unfoldable pub checked_float : Bool → Bool × Bool × F → Parse F
  checked_float wanted_pure (valid, pure_integer, d) = do
    check_that valid
    check_that (if wanted_pure then pure_integer else not pure_integer)
    pure d

  -- An integer literal, by what `parse_integer` finds.
  unfoldable pub integer_at : Bytes → Bool × ParseIntegerResult → Parse (Expr F)
  unfolding checked_float parse_float
  integer_at buf (false, r) = check_that false >> error no_expr
  integer_at buf (true, Integer.integer v) = pure (integer_expr v)
  integer_at buf (true, Integer.empty) = check_that false >> error no_expr
  integer_at buf (true, r) = do d ← checked_float true (parse_float fl buf); pure (real_expr d)

  -- An integer literal behind a minus.
  unfoldable pub negative_at : Bytes → Bool × ParseIntegerResult → Parse (Expr F)
  unfolding checked_float parse_float
  negative_at buf (false, r) = check_that false >> error no_expr
  negative_at buf (true, Integer.integer v) = pure (integer_expr (negated v))
  negative_at buf (true, Integer.max_plus_one) = pure (integer_expr i64_min)
  negative_at buf (true, Integer.too_big b) = do
    d ← checked_float true (parse_float fl buf)
    pure (real_expr (fl.negate d))
  negative_at buf (true, Integer.empty) = check_that false >> error no_expr

  -- CAST, up to its right parenthesis; `expr` is `parse_expr`.
  unfoldable pub cast_clause : Parse (Expr F) → ℕ → Parse (Expr F)
  unfolding next expect_next expect_peek parse_type_name
  cast_clause expr fuel = do
    expect_next Token.left_paren no_cast_left_paren
    next
    e ← expr
    expect_peek Token.as_kw no_cast_as
    next
    words ← parse_type_name fuel
    expect_peek Token.right_paren no_cast_right_paren
    pure (cast_expr e words)

  -- The expression that begins with a token, up to its last token.
  unfoldable pub primitive_at : Parse (Expr F) → ℕ → Option Token → Parse (Expr F)
  unfolding cast_clause integer_at checked_float parse_integer parse_float
  primitive_at expr fuel (some (Token.identifier id)) = pure (column id)
  primitive_at expr fuel (some Token.cast) = cast_clause expr fuel
  primitive_at expr fuel (some Token.null) = pure null_expr
  primitive_at expr fuel (some (Token.integer buf)) = integer_at buf (parse_integer buf)
  primitive_at expr fuel (some (Token.float buf)) = do
    d ← checked_float false (parse_float fl buf)
    pure (real_expr d)
  primitive_at expr fuel (some (Token.string buf)) = pure (text_expr buf)
  primitive_at expr fuel (some (Token.blob buf)) = pure (blob_expr buf)
  primitive_at expr fuel _ = error no_expr

  unfoldable pub parse_expr_primitive : Parse (Expr F) → ℕ → Parse (Expr F)
  unfolding next primitive_at
  parse_expr_primitive expr fuel p = bind (primitive_at expr fuel p.token p) λ e. do next; pure e

  -- Behind a minus: a literal is read with its sign; `again` is the level of unary operators.
  unfoldable pub minus_at : Parse (Expr F) → Option Token → Parse (Expr F)
  unfolding next negative_at checked_float parse_integer parse_float
  minus_at again (some (Token.integer buf)) = do
    e ← negative_at buf (parse_integer buf)
    next
    pure e
  minus_at again (some (Token.float buf)) = do
    d ← checked_float false (parse_float fl buf)
    next
    pure (real_expr (fl.negate d))
  minus_at again _ = do e ← again; pure (unary_operator negate_op e)

  unfoldable pub unary_at : Parse (Expr F) → ℕ → Parse (Expr F) → Option Token → Parse (Expr F)
  unfolding next minus_at parse_expr_primitive
  unary_at expr fuel again (some Token.tilda) = do next; e ← again; pure (unary_operator bit_not e)
  unary_at expr fuel again (some Token.plus) = next >> again
  unary_at expr fuel again (some Token.minus) = do t ← next; minus_at again t
  unary_at expr fuel again _ = parse_expr_primitive expr fuel

  unfoldable pub parse_expr_unary : Parse (Expr F) → ℕ → Parse (Expr F)
  unfolding unary_at
  parse_expr_unary expr zero p = out_of_fuel
  parse_expr_unary expr (suc fuel) p = unary_at expr fuel (parse_expr_unary expr fuel) p.token p

  unfoldable pub parse_expr_collate : Parse (Expr F) → ℕ → Parse (Expr F)
  unfolding parse_expr_unary collation_loop
  parse_expr_collate expr fuel = do
    e ← parse_expr_unary expr fuel
    name ← collation_loop fuel none
    pure (collated e name)

  -- The loop of a level of binary operators, from its left operand on; `again` is the loop.
  unfoldable pub binary_step :
      Parse (Expr F) → (Expr F → Parse (Expr F)) → Expr F → Option BinaryOp → Parse (Expr F)
  unfolding next
  binary_step operand again left none = pure left
  binary_step operand again left (some op) = do
    next
    right ← operand
    again (binary_operator op left right)

  unfoldable pub binary_loop :
      (Option Token → Option BinaryOp) → Parse (Expr F) → ℕ → Expr F → Parse (Expr F)
  unfolding binary_step
  binary_loop level operand zero left p = out_of_fuel
  binary_loop level operand (suc fuel) left p =
      binary_step operand (binary_loop level operand fuel) left (level p.token) p

  unfoldable pub parse_expr_concat : Parse (Expr F) → ℕ → Parse (Expr F)
  unfolding concat_level parse_expr_collate binary_loop
  parse_expr_concat expr fuel = do
    e ← parse_expr_collate expr fuel
    binary_loop concat_level (parse_expr_collate expr fuel) fuel e

  unfoldable pub parse_expr_compare : Parse (Expr F) → ℕ → Parse (Expr F)
  unfolding compare_level parse_expr_concat binary_loop
  parse_expr_compare expr fuel = do
    e ← parse_expr_concat expr fuel
    binary_loop compare_level (parse_expr_concat expr fuel) fuel e

  unfoldable pub parse_expr_eq : Parse (Expr F) → ℕ → Parse (Expr F)
  unfolding eq_level parse_expr_compare binary_loop
  parse_expr_eq expr fuel = do
    e ← parse_expr_compare expr fuel
    binary_loop eq_level (parse_expr_compare expr fuel) fuel e

  unfoldable pub parse_expr : ℕ → Parse (Expr F)
  unfolding parse_expr_eq
  parse_expr zero p = out_of_fuel
  parse_expr (suc fuel) p = parse_expr_eq (parse_expr fuel) fuel p
