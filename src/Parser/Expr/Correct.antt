-- ===== src/Parser/Expr/Correct.antt =====
-- The parser of expressions, and the grammar.
use prsqlite.Prelude.{
  ℕ, zero, suc, ◌+◌, ◌<◌, ◌≡◌, refl, sym, ap, ◌∙◌, some, List, ◌∷◌, ◌++◌, append_assoc, append-nil,
  none, pos, neg_ℕ, Bytes, arith, length, length-append, [],
}
use mathlib.Core.Path.{subst}
use prsqlite.Token.Defs.{Token}
use prsqlite.Utils.Decimal.{Floats}
use prsqlite.Parser.State.{Parser, Parse}
use prsqlite.Parser.Yields.{
  head_token, Yields, Reads, Reads-pure, Reads-same, Reads-bind, Reads-next, at_token,
}
use prsqlite.Parser.Expr.{
  BinaryOp, Expr, column, null_expr, integer_expr, text_expr, blob_expr, binary_operator,
  parse_expr, unary_at, primitive_at, integer_at, collated, parse_expr_collate, binary_loop,
  binary_step,
}
use prsqlite.Parser.Expr.Grammar.{
  Level, equality, Part, level, op_of, operand, clauses, Derives, Ends, EndsPart, name_rule,
  null_rule, text_rule, blob_rule, integer_rule, negative_rule, cast_rule, not_rule, plus_rule,
  minus_rule, plain_rule, collate_rule, numeral, level_rule, end_rule, operator_rule,
}
use prsqlite.Utils.Integer.Spec.{decimal}
use prsqlite.Parser.Expr.Steps.{last_name-append}
use prsqlite.Parser.Expr.Numerals.{parse_integer-small, negative_at-numeral}
use prsqlite.Parser.Words.{words, words-length}
use prsqlite.Parser.Expr.Follow.{
  clauses-length, as-Ends, Ends-none, level_test, level_test-op_of, behind-EndsPart, runs,
  runs-level, runs-behind,
}
use prsqlite.Parser.Expr.Unary.{
  one_token, negative_step, minus_step, not_step, plus_step, cast_step, collate_step,
}

module _ {F : Type 0} (fl : Floats F) where
  -- The loop over the operators of a level, where no operator follows and where one does.
  loop-Ends :
      (l : Level) (part : Parse (Expr F)) (k : ℕ) (left : Expr F) (rest : List Token) (p : Parser)
      → Ends l (head_token rest)
      → Yields p rest
      → Reads (binary_loop fl (level_test l) part (suc k) left p) left rest
  unfolding binary_loop binary_step
  loop-Ends l part k left rest p ends y =
      let stops =
        at_token p rest y (level_test l)
        ∙ (level_test-op_of l (head_token rest) ∙ Ends-none l (head_token rest) ends) in
      Reads-same left rest
        (ap (λ op. binary_step fl part (binary_loop fl (level_test l) part k) left op p) stops)
        (Reads-pure left p rest y)

  loop_goes :
      (l : Level) (part : Parse (Expr F)) (k : ℕ) (left right : Expr F) (t : Token) (op : BinaryOp)
      (ts us : List Token) (e : Expr F) (rest : List Token) (p : Parser)
      → op_of l (some t) ≡ some op
      → ((q : Parser) → Yields q (ts ++ (us ++ rest)) → Reads (part q) right (us ++ rest))
      → ((q : Parser)
          → Yields q (us ++ rest)
          → Reads (binary_loop fl (level_test l) part k (binary_operator op left right) q) e rest)
      → Yields p (t ∷ ((ts ++ us) ++ rest))
      → Reads (binary_loop fl (level_test l) part (suc k) left p) e rest
  unfolding binary_loop binary_step
  loop_goes l part k left right t op ts us e rest p is_op read go y =
      let here =
        at_token p (t ∷ ((ts ++ us) ++ rest)) y (level_test l)
        ∙ (level_test-op_of l (some t) ∙ is_op) in
      Reads-same e rest
        (ap (λ op. binary_step fl part (binary_loop fl (level_test l) part k) left op p) here)
        (Reads-next p t ((ts ++ us) ++ rest) y _ e rest λ q z.
          Reads-bind _ _ right e (us ++ rest) rest
            (read q (subst (Yields q) (append_assoc ts us rest) z)) go)

  -- The parser of each part reads the tokens of a derivation, with fuel for more than their number.
  runs-Reads :
      {part : Part F} {ts : List Token} {e : Expr F} (d : Derives part ts e) (n m k : ℕ)
      (rest : List Token) (p : Parser)
      → length ts < n
      → length ts < m
      → length ts < k
      → EndsPart part (head_token rest)
      → Yields p (ts ++ rest)
      → Reads (runs fl part n m k p) e rest
  unfolding runs unary_at primitive_at integer_at parse_expr
  runs-Reads d n zero k rest p less below enough ends y = absurd (omega arith)
  runs-Reads d zero m k rest p less below enough ends y = absurd (omega arith)
  runs-Reads (name_rule id) (suc n) (suc m) k rest p less below enough ends y =
      one_token fl (suc n) m (Token.identifier id) (column id) rest p refl refl y
  runs-Reads null_rule (suc n) (suc m) k rest p less below enough ends y =
      one_token fl (suc n) m Token.null null_expr rest p refl refl y
  runs-Reads (text_rule b) (suc n) (suc m) k rest p less below enough ends y =
      one_token fl (suc n) m (Token.string b) (text_expr b) rest p refl refl y
  runs-Reads (blob_rule b) (suc n) (suc m) k rest p less below enough ends y =
      one_token fl (suc n) m (Token.blob b) (blob_expr b) rest p refl refl y
  runs-Reads (integer_rule z ds n small) (suc n') (suc m) k rest p less below enough ends y =
      one_token fl (suc n') m (Token.integer (numeral z ds)) (integer_expr (pos (decimal 0 ds)))
        rest p refl (ap (λ r. integer_at fl (numeral z ds) r p) (parse_integer-small z ds n small))
        y
  runs-Reads (negative_rule z ds n low) (suc n') (suc m) k rest p less below enough ends y =
      negative_step fl (suc n') m (numeral z ds) (neg_ℕ (decimal 0 ds)) rest p
        (negative_at-numeral fl z ds n low) y
  runs-Reads (cast_rule ts e names d) (suc n) (suc m) k rest p less below enough ends y =
      let size = length-append ts (Token.as_kw ∷ (words names ++ (Token.right_paren ∷ []))) in
      let size' = length-append (words names) (Token.right_paren ∷ []) in
      let size'' = words-length names in
      cast_step fl (suc n) m ts e names rest p (omega (arith, size, size', size''))
        (λ q us z.
          runs-Reads d n n n (Token.as_kw ∷ us) q (omega (arith, size)) (omega (arith, size))
            (omega (arith, size)) as-Ends z)
        y
  runs-Reads (not_rule ts e d) (suc n) (suc m) k rest p less below enough ends y =
      not_step fl (suc n) m (ts ++ rest) e rest p
        (λ q z. runs-Reads d (suc n) m m rest q (omega arith) (omega arith) (omega arith) tt z) y
  runs-Reads (plus_rule ts e d) (suc n) (suc m) k rest p less below enough ends y =
      plus_step fl (suc n) m (ts ++ rest) e rest p
        (λ q z. runs-Reads d (suc n) m m rest q (omega arith) (omega arith) (omega arith) tt z) y
  runs-Reads (minus_rule t ts e other d) (suc n) (suc m) k rest p less below enough ends y =
      minus_step fl (suc n) m t (ts ++ rest) e rest p other
        (λ q z. runs-Reads d (suc n) m m rest q (omega arith) (omega arith) (omega arith) tt z) y
  runs-Reads (plain_rule ts e d) (suc n) (suc m) k rest p less below enough ends y =
      collate_step fl (suc n) (suc m) ts e [] rest p (omega arith) ends
        (λ q us z. runs-Reads d (suc n) (suc m) (suc m) us q less below below tt z)
        (subst (λ us. Yields p (us ++ rest)) (sym (append-nil ts)) y)
  runs-Reads (collate_rule ts e names last d) (suc n) (suc m) k rest p less below enough ends y =
      let all : List Bytes = names ++ (last ∷ []) in
      let size = length-append ts (clauses all) in
      let size' = clauses-length all in
      subst
        (λ found.
          Reads (parse_expr_collate fl (parse_expr fl (suc n)) (suc m) p) (collated e found) rest)
        (last_name-append none names last)
        (collate_step fl (suc n) (suc m) ts e all rest p (omega (arith, size, size')) ends
          (λ q us z.
            runs-Reads d (suc n) (suc m) (suc m) us q (omega (arith, size)) (omega (arith, size))
              (omega (arith, size)) tt z)
          y)
  runs-Reads (level_rule l ts us left e d d') (suc n) (suc m) k rest p less below enough ends y =
      let size = length-append ts us in
      Reads-same e rest (runs-level fl l (suc n) (suc m) k p) (
        Reads-bind _ _ left e (us ++ rest) rest
          (runs-Reads d (suc n) (suc m) (suc m) (us ++ rest) p (omega (arith, size))
            (omega (arith, size)) (omega (arith, size)) (behind-EndsPart l left e us rest d' ends)
            (subst (Yields p) (append_assoc ts us rest) y))
          λ q z.
            runs-Reads d' (suc n) (suc m) (suc m) rest q (omega (arith, size)) (omega (arith, size))
              (omega (arith, size)) ends z)
  runs-Reads (end_rule l left) (suc n) (suc m) zero rest p less below enough ends y =
      absurd (omega arith)
  runs-Reads (end_rule l left) (suc n) (suc m) (suc k) rest p less below enough ends y =
      Reads-same left rest (ap (λ r. r p) (runs-behind fl l left (suc n) (suc m) (suc k)))
        (loop-Ends l (runs fl (operand l) (suc n) (suc m) (suc m)) k left rest p ends y)
  runs-Reads (operator_rule l left right e t op ts us is_op d d') (suc n) (suc m) zero rest p less
        below enough ends y =
      absurd (omega arith)
  runs-Reads (operator_rule l left right e t op ts us is_op d d') (suc n) (suc m) (suc k) rest p
        less below enough ends y =
      let size = length-append ts us in
      let all : Expr F = binary_operator op left right in
      Reads-same e rest (ap (λ r. r p) (runs-behind fl l left (suc n) (suc m) (suc k))) (
        loop_goes l (runs fl (operand l) (suc n) (suc m) (suc m)) k left right t op ts us e rest p
          is_op
          (λ q z.
            runs-Reads d (suc n) (suc m) (suc m) (us ++ rest) q (omega (arith, size))
              (omega (arith, size)) (omega (arith, size)) (behind-EndsPart l all e us rest d' ends)
              z)
          (λ q z. Reads-same e rest (ap (λ r. r q) (sym (runs-behind fl l all (suc n) (suc m) k))) (
            runs-Reads d' (suc n) (suc m) k rest q (omega (arith, size)) (omega (arith, size))
              (omega (arith, size)) ends z))
          y)

  -- `parse_expr` on the tokens of an expression of the grammar, followed by a token that can go on no
  -- expression: with fuel for two more than their number it gives that expression, not an error and not a
  -- panic, and leaves what follows. The grammar has each operator with its own token, a numeral as the
  -- number it denotes, negative behind a minus, and the last of several collations; it has no literals of
  -- floats and none of integers outside `i64`.
  pub parse_expr-Reads :
      (ts : List Token) (e : Expr F) (rest : List Token) (fuel : ℕ) (p : Parser)
      → Derives (level equality) ts e
      → Ends equality (head_token rest)
      → length ts + 1 < fuel
      → Yields p (ts ++ rest)
      → Reads (parse_expr fl fuel p) e rest
  unfolding parse_expr runs
  parse_expr-Reads ts e rest zero p d ends enough y = absurd (omega arith)
  parse_expr-Reads ts e rest (suc fuel) p d ends enough y =
      runs-Reads d fuel fuel fuel rest p (omega arith) (omega arith) (omega arith) ends y
