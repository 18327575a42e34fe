-- ===== src/Parser/Expr/Follow.antt =====
-- What may follow a part of an expression, and the parser of each part.
use prsqlite.Prelude.{
  ℕ, ◌≤◌, ◌≡◌, refl, false, Option, none, some, List, ◌∷◌, ◌++◌, arith, length, Bytes, [],
}
use prsqlite.Token.Defs.{Token}
use prsqlite.Utils.Decimal.{Floats}
use prsqlite.Parser.State.{Parser, Parse, bind, is_token, pure, ◌>>=◌}
use prsqlite.Parser.Names.{is_number}
use prsqlite.Parser.Yields.{head_token}
use prsqlite.Parser.Expr.{
  BinaryOp, Expr, unary_operator, negate_op, eq_level, compare_level, concat_level, minus_at,
  parse_expr, parse_expr_eq, parse_expr_compare, parse_expr_concat, parse_expr_collate,
  parse_expr_unary, binary_loop,
}
use prsqlite.Parser.Expr.Grammar.{
  Level, equality, comparison, concatenation, Part, level, behind, collation, unary, op_of, operand,
  clauses, Derives, end_rule, operator_rule, Ends, EndsPart,
}

pub clauses-length : (names : List Bytes) → length names ≤ length (clauses names)
clauses-length [] = omega arith
clauses-length (name ∷ names) = omega (arith, clauses-length names)

pub as-Ends : Ends equality (some Token.as_kw)
unfolding op_of is_token
as-Ends = (refl, refl, refl, refl)

-- The test that the code has for the operators of a level.
abbrev pub level_test : Level → Option Token → Option BinaryOp
level_test equality t = eq_level t
level_test comparison t = compare_level t
level_test concatenation t = concat_level t

pub level_test-op_of : (l : Level) (t : Option Token) → level_test l t ≡ op_of l t
unfolding op_of eq_level compare_level concat_level
level_test-op_of equality none = refl
level_test-op_of equality (some Token.eq) = refl
level_test-op_of equality (some Token.ne) = refl
level_test-op_of equality (some t) = refl
level_test-op_of comparison none = refl
level_test-op_of comparison (some Token.gt) = refl
level_test-op_of comparison (some Token.ge) = refl
level_test-op_of comparison (some Token.lt) = refl
level_test-op_of comparison (some Token.le) = refl
level_test-op_of comparison (some t) = refl
level_test-op_of concatenation none = refl
level_test-op_of concatenation (some Token.concat) = refl
level_test-op_of concatenation (some t) = refl

-- An operator of a level is none of a tighter level.
operator-EndsPart :
    (F : Type 0) (l : Level) (t : Token) (op : BinaryOp)
    → op_of l (some t) ≡ some op
    → EndsPart {F = F} (operand l) (some t)
unfolding op_of is_token
operator-EndsPart F equality Token.eq op h = (refl, refl, refl)
operator-EndsPart F equality Token.ne op h = (refl, refl, refl)
operator-EndsPart F equality t op h = cc
operator-EndsPart F comparison Token.gt op h = (refl, refl)
operator-EndsPart F comparison Token.ge op h = (refl, refl)
operator-EndsPart F comparison Token.lt op h = (refl, refl)
operator-EndsPart F comparison Token.le op h = (refl, refl)
operator-EndsPart F comparison t op h = cc
operator-EndsPart F concatenation Token.concat op h = refl
operator-EndsPart F concatenation t op h = cc

Ends-operand :
    (F : Type 0) (l : Level) (t : Option Token) → Ends l t → EndsPart {F = F} (operand l) t
Ends-operand F equality t (here, compares, concats, collates) = (compares, concats, collates)
Ends-operand F comparison t (here, concats, collates) = (concats, collates)
Ends-operand F concatenation t (here, tighter) = tighter

pub Ends-none : (l : Level) (t : Option Token) → Ends l t → op_of l t ≡ none
Ends-none equality t (here, compares, concats, collates) = here
Ends-none comparison t (here, concats, collates) = here
Ends-none concatenation t (here, tighter) = here

-- What stands behind a left operand ends the operand.
pub behind-EndsPart :
    {F : Type 0} (l : Level) (left e : Expr F) (us rest : List Token)
    → Derives (behind l left) us e
    → Ends l (head_token rest)
    → EndsPart {F = F} (operand l) (head_token (us ++ rest))
behind-EndsPart l left e us rest (end_rule l' left') ends = Ends-operand _ l (head_token rest) ends
behind-EndsPart l left e us rest (operator_rule l' left' right e' t op ts vs is_op d d') ends =
    operator-EndsPart _ l t op is_op

module _ {F : Type 0} (fl : Floats F) where
  -- Behind a minus, what is no number is negated.
  pub minus_at-other :
      (again : Parse (Expr F)) (t : Token)
      → is_number (some t) ≡ false
      → minus_at fl again (some t) ≡ (again >>= λ e. pure (unary_operator negate_op e))
  unfolding minus_at
  minus_at-other again (Token.integer b) h = cc
  minus_at-other again (Token.float b) h = cc
  minus_at-other again t h = refl

  -- The parser of a part: `n` is the fuel inside casts, `m` that of the operands and `k` that of the loop
  -- over the operators.
  unfoldable pub runs : Part F → ℕ → ℕ → ℕ → Parse (Expr F)
  runs (level equality) n m k = parse_expr_eq fl (parse_expr fl n) m
  runs (level comparison) n m k = parse_expr_compare fl (parse_expr fl n) m
  runs (level concatenation) n m k = parse_expr_concat fl (parse_expr fl n) m
  runs (behind equality left) n m k =
      binary_loop fl (level_test equality) (parse_expr_compare fl (parse_expr fl n) m) k left
  runs (behind comparison left) n m k =
      binary_loop fl (level_test comparison) (parse_expr_concat fl (parse_expr fl n) m) k left
  runs (behind concatenation left) n m k =
      binary_loop fl (level_test concatenation) (parse_expr_collate fl (parse_expr fl n) m) k left
  runs collation n m k = parse_expr_collate fl (parse_expr fl n) m
  runs unary n m k = parse_expr_unary fl (parse_expr fl n) m

  pub runs-level :
      (l : Level) (n m k : ℕ) (p : Parser)
      → runs (level l) n m k p
        ≡ bind (runs (operand l) n m m p) (λ left. runs (behind l left) n m m)
  unfolding runs parse_expr_eq parse_expr_compare parse_expr_concat
  runs-level equality n m k p = refl
  runs-level comparison n m k p = refl
  runs-level concatenation n m k p = refl

  pub runs-behind :
      (l : Level) (left : Expr F) (n m k : ℕ)
      → runs (behind l left) n m k ≡ binary_loop fl (level_test l) (runs (operand l) n m m) k left
  unfolding runs
  runs-behind equality left n m k = refl
  runs-behind comparison left n m k = refl
  runs-behind concatenation left n m k = refl
