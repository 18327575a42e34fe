-- ===== src/Parser/Expr/Grammar.antt =====
-- The grammar of expressions, as derivations: which tokens denote which expression.
use prsqlite.Prelude.{◌≡◌, true, false, Option, none, some, List, ◌∷◌, ◌++◌, Bytes, []}
use prsqlite.Prelude.{ℕ, ◌+◌, ◌^◌, ◌<◌, ◌≤◌, pos, neg_ℕ, replicate, every, length}
use prsqlite.Utils.Ascii.{is_ascii_digit}
use prsqlite.Utils.Integer.Spec.{decimal, IsTrimmed}
use prsqlite.Token.Defs.{Token}
use prsqlite.Parser.Names.{is_number}
use prsqlite.Parser.State.{is_token}
use prsqlite.Parser.Words.{words}
use prsqlite.Parser.Expr.{
  BinaryOp, Expr, column, unary_operator, bit_not, negate_op, binary_operator, cast_expr, null_expr,
  integer_expr, text_expr, blob_expr, collate_expr, compare_op, concat_op, eq_op, ne_op, gt_op,
  ge_op, lt_op, le_op,
}

-- The levels of binary operators, from the loosest.
pub data Level : Type 0 where
  equality comparison concatenation : Level

-- Which token is which operator, and of which level.
unfoldable pub op_of : Level → Option Token → Option BinaryOp
op_of equality (some Token.eq) = some (compare_op eq_op)
op_of equality (some Token.ne) = some (compare_op ne_op)
op_of comparison (some Token.gt) = some (compare_op gt_op)
op_of comparison (some Token.ge) = some (compare_op ge_op)
op_of comparison (some Token.lt) = some (compare_op lt_op)
op_of comparison (some Token.le) = some (compare_op le_op)
op_of concatenation (some Token.concat) = some concat_op
op_of _ _ = none

-- The parts of an expression: a level, the rest of a level behind its left operand, an operand with its
-- collations, and an operand with its unary operators.
pub data Part (F : Type 0) : Type 0 where
  level : Level → Part F
  behind : Level → Expr F → Part F
  collation : Part F
  unary : Part F

abbrev pub operand : {F : Type 0} → Level → Part F
operand equality = level comparison
operand comparison = level concatenation
operand concatenation = collation

-- The tokens of a list of COLLATE clauses.
abbrev pub clauses : List Bytes → List Token
clauses [] = []
clauses (name ∷ names) = Token.collate ∷ Token.identifier name ∷ clauses names

-- A numeral: zeros and further digits, at least one digit in all.
abbrev pub numeral : ℕ → Bytes → Bytes
numeral z ds = replicate z b'0' ++ ds

abbrev pub IsNumeral : ℕ → Bytes → Type 0
IsNumeral z ds = (every is_ascii_digit ds ≡ true) × IsTrimmed ds × (0 < z + length ds)

abbrev pub cast_tokens : List Token → List Bytes → List Token
cast_tokens ts names =
    Token.cast
    ∷ Token.left_paren
    ∷ (ts ++ (Token.as_kw ∷ (words names ++ (Token.right_paren ∷ []))))

-- A numeral is the number it denotes, with its sign where a minus is in front; of several COLLATE clauses
-- the last one counts. Literals of floats and of integers outside `i64` are left out: the floats say what
-- they denote.
pub data Derives {F : Type 0} : Part F → List Token → Expr F → Type 0 where
  name_rule : (id : Bytes) → Derives unary (Token.identifier id ∷ []) (column id)
  null_rule : Derives unary (Token.null ∷ []) null_expr
  text_rule : (b : Bytes) → Derives unary (Token.string b ∷ []) (text_expr b)
  blob_rule : (b : Bytes) → Derives unary (Token.blob b ∷ []) (blob_expr b)
  integer_rule :
      (z : ℕ) (ds : Bytes)
      → IsNumeral z ds
      → decimal 0 ds < 2 ^ 63
      → Derives unary (Token.integer (numeral z ds) ∷ []) (integer_expr (pos (decimal 0 ds)))
  negative_rule :
      (z : ℕ) (ds : Bytes)
      → IsNumeral z ds
      → decimal 0 ds ≤ 2 ^ 63
      → Derives unary
          (Token.minus ∷ Token.integer (numeral z ds) ∷ [])
          (integer_expr (neg_ℕ (decimal 0 ds)))
  cast_rule :
      (ts : List Token) (e : Expr F) (names : List Bytes)
      → Derives (level equality) ts e
      → Derives unary (cast_tokens ts names) (cast_expr e names)
  not_rule :
      (ts : List Token) (e : Expr F)
      → Derives unary ts e
      → Derives unary (Token.tilda ∷ ts) (unary_operator bit_not e)
  plus_rule :
      (ts : List Token) (e : Expr F) → Derives unary ts e → Derives unary (Token.plus ∷ ts) e
  minus_rule :
      (t : Token) (ts : List Token) (e : Expr F)
      → is_number (some t) ≡ false
      → Derives unary (t ∷ ts) e
      → Derives unary (Token.minus ∷ t ∷ ts) (unary_operator negate_op e)
  plain_rule : (ts : List Token) (e : Expr F) → Derives unary ts e → Derives collation ts e
  collate_rule :
      (ts : List Token) (e : Expr F) (names : List Bytes) (last : Bytes)
      → Derives unary ts e
      → Derives collation (ts ++ clauses (names ++ (last ∷ []))) (collate_expr e last)
  level_rule :
      (l : Level) (ts us : List Token) (left e : Expr F)
      → Derives (operand l) ts left
      → Derives (behind l left) us e
      → Derives (level l) (ts ++ us) e
  end_rule : (l : Level) (left : Expr F) → Derives (behind l left) [] left
  operator_rule :
      (l : Level) (left right e : Expr F) (t : Token) (op : BinaryOp) (ts us : List Token)
      → op_of l (some t) ≡ some op
      → Derives (operand l) ts right
      → Derives (behind l (binary_operator op left right)) us e
      → Derives (behind l left) (t ∷ (ts ++ us)) e

-- What may follow an expression of a level: no operator of the level or of a tighter one.
abbrev pub Ends : Level → Option Token → Type 0
Ends concatenation t = (op_of concatenation t ≡ none) × (is_token Token.collate t ≡ false)
Ends comparison t =
    (op_of comparison t ≡ none)
    × (op_of concatenation t ≡ none)
    × (is_token Token.collate t ≡ false)
Ends equality t =
    (op_of equality t ≡ none)
    × (op_of comparison t ≡ none)
    × (op_of concatenation t ≡ none)
    × (is_token Token.collate t ≡ false)

abbrev pub EndsPart : {F : Type 0} → Part F → Option Token → Type 0
EndsPart (level l) t = Ends l t
EndsPart (behind l left) t = Ends l t
EndsPart collation t = is_token Token.collate t ≡ false
EndsPart unary t = Unit
