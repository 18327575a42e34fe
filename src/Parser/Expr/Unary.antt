-- ===== src/Parser/Expr/Unary.antt =====
-- Operands on their tokens: the primitive expressions, the unary operators and the collations.
use prsqlite.Prelude.{
  ℕ, suc, ◌<◌, ◌≡◌, refl, ap, ◌∙◌, false, none, some, List, ◌∷◌, ◌++◌, append_assoc, ℤ, length,
  Bytes, [],
}
use mathlib.Core.Path.{subst}
use prsqlite.Token.Defs.{Token}
use prsqlite.Utils.Integer.{parse_integer}
use prsqlite.Utils.Decimal.{Floats}
use prsqlite.Parser.State.{
  Parser, Parse, done, tag, is_token, no_cast_left_paren, no_cast_as, no_cast_right_paren,
}
use prsqlite.Parser.Yields.{
  head_token, Yields, Reads, Reads-pure, Reads-same, Reads-bind, Reads-next, at_token,
}
use prsqlite.Parser.Names.{is_number}
use prsqlite.Parser.Expr.{
  Expr, unary_operator, bit_not, negate_op, integer_expr, cast_expr, collated, parse_expr,
  parse_expr_unary, unary_at, parse_expr_primitive, primitive_at, cast_clause, negative_at,
  minus_at, parse_expr_collate,
}
use prsqlite.Parser.Expr.Grammar.{clauses, cast_tokens}
use prsqlite.Parser.Words.{words, parse_type_name-words}
use prsqlite.Parser.Expect.{expect_next-Reads, expect_peek-Reads}
use prsqlite.Parser.Expr.Steps.{last_name, collation_loop-clauses}
use prsqlite.Parser.Expr.Follow.{minus_at-other}

module _ {F : Type 0} (fl : Floats F) where
  -- The parser of unary operators on the token at the cursor.
  unary_step :
      (expr : Parse (Expr F)) (m : ℕ) (t : Token) (e : Expr F) (ts rest : List Token) (p : Parser)
      → Yields p (t ∷ ts)
      → Reads (unary_at fl expr m (parse_expr_unary fl expr m) (some t) p) e rest
      → Reads (parse_expr_unary fl expr (suc m) p) e rest
  unfolding parse_expr_unary
  unary_step expr m t e ts rest p y read =
      Reads-same e rest
        (at_token p (t ∷ ts) y λ u. unary_at fl expr m (parse_expr_unary fl expr m) u p) read

  -- A primitive expression and the token behind it.
  primitive_step :
      (expr : Parse (Expr F)) (m : ℕ) (t u : Token) (e : Expr F) (ts rest : List Token) (p : Parser)
      → Yields p (t ∷ ts)
      → Reads (primitive_at fl expr m (some t) p) e (u ∷ rest)
      → Reads (parse_expr_primitive fl expr m p) e rest
  unfolding parse_expr_primitive
  primitive_step expr m t u e ts rest p y read =
      Reads-bind _ _ e e (u ∷ rest) rest
        (Reads-same e (u ∷ rest) (at_token p (t ∷ ts) y λ u. primitive_at fl expr m u p) read)
        λ q z. Reads-next q u rest z _ e rest λ q' z'. Reads-pure e q' rest z'

  cast_clause-Reads :
      (expr : Parse (Expr F)) (m : ℕ) (ts : List Token) (e : Expr F) (names : List Bytes)
      (rest : List Token) (p : Parser)
      → length names < m
      → ((q : Parser) (us : List Token)
          → Yields q (ts ++ (Token.as_kw ∷ us))
          → Reads (expr q) e (Token.as_kw ∷ us))
      → Yields p (cast_tokens ts names ++ rest)
      → Reads (cast_clause fl expr m p) (cast_expr e names) (Token.right_paren ∷ rest)
  unfolding cast_clause is_token tag
  cast_clause-Reads expr m ts e names rest p enough read y =
      let close : List Token = words names ++ (Token.right_paren ∷ rest) in
      let inner : List Token = ts ++ (Token.as_kw ∷ close) in
      let end : List Token = Token.right_paren ∷ rest in
      let whole : cast_tokens ts names ++ rest ≡ Token.cast ∷ Token.left_paren ∷ inner =
        ap (λ us. Token.cast ∷ Token.left_paren ∷ us)
          (append_assoc ts (Token.as_kw ∷ (words names ++ (Token.right_paren ∷ []))) rest
            ∙ ap (λ us. ts ++ (Token.as_kw ∷ us))
                (append_assoc (words names) (Token.right_paren ∷ []) rest)) in
      let out : Expr F = cast_expr e names in
      Reads-bind _ _ tt out (Token.left_paren ∷ inner) end
        (expect_next-Reads Token.left_paren Token.cast no_cast_left_paren inner p refl
          (subst (Yields p) whole y))
        λ p₁ y₁. Reads-next p₁ Token.left_paren inner y₁ _ out end λ p₂ y₂.
          Reads-bind _ _ e out (Token.as_kw ∷ close) end (read p₂ close y₂) λ p₃ y₃.
            Reads-bind _ _ tt out (Token.as_kw ∷ close) end
              (expect_peek-Reads Token.as_kw no_cast_as close p₃ refl y₃)
              λ p₄ y₄. Reads-next p₄ Token.as_kw close y₄ _ out end λ p₅ y₅.
                Reads-bind _ _ names out end end
                  (parse_type_name-words m names end p₅ enough (refl, refl) y₅)
                  λ p₆ y₆.
                    Reads-bind _ _ tt out end end
                      (expect_peek-Reads Token.right_paren no_cast_right_paren rest p₆ refl y₆)
                      λ p₇ y₇. Reads-pure out p₇ end y₇

  pub one_token :
      (n m : ℕ) (t : Token) (e : Expr F) (rest : List Token) (p : Parser)
      → unary_at fl (parse_expr fl n) m (parse_expr_unary fl (parse_expr fl n) m) (some t)
        ≡ parse_expr_primitive fl (parse_expr fl n) m
      → primitive_at fl (parse_expr fl n) m (some t) p ≡ done e p
      → Yields p (t ∷ rest)
      → Reads (parse_expr_unary fl (parse_expr fl n) (suc m) p) e rest
  one_token n m t e rest p is_primitive is_e y = unary_step (parse_expr fl n) m t e rest rest p y (
      Reads-same e rest (ap (λ r. r p) is_primitive) (
        primitive_step (parse_expr fl n) m t t e rest rest p y
          (Reads-same e (t ∷ rest) is_e (Reads-pure e p (t ∷ rest) y))))

  pub negative_step :
      (n m : ℕ) (b : Bytes) (v : ℤ) (rest : List Token) (p : Parser)
      → ((q : Parser) → negative_at fl b (parse_integer b) q ≡ done (integer_expr v) q)
      → Yields p (Token.minus ∷ Token.integer b ∷ rest)
      → Reads (parse_expr_unary fl (parse_expr fl n) (suc m) p) (integer_expr v) rest
  unfolding unary_at minus_at
  negative_step n m b v rest p is_v y =
      let e : Expr F = integer_expr v in
      unary_step (parse_expr fl n) m Token.minus e (Token.integer b ∷ rest) rest p y (
        Reads-next p Token.minus (Token.integer b ∷ rest) y _ e rest λ q z.
          Reads-bind _ _ e e (Token.integer b ∷ rest) rest
            (Reads-same e (Token.integer b ∷ rest) (is_v q)
              (Reads-pure e q (Token.integer b ∷ rest) z))
            λ q₁ z₁.
              Reads-next q₁ (Token.integer b) rest z₁ _ e rest λ q₂ z₂. Reads-pure e q₂ rest z₂)

  pub minus_step :
      (n m : ℕ) (t : Token) (ts : List Token) (e : Expr F) (rest : List Token) (p : Parser)
      → is_number (some t) ≡ false
      → ((q : Parser)
          → Yields q (t ∷ ts)
          → Reads (parse_expr_unary fl (parse_expr fl n) m q) e rest)
      → Yields p (Token.minus ∷ t ∷ ts)
      → Reads (parse_expr_unary fl (parse_expr fl n) (suc m) p) (unary_operator negate_op e) rest
  unfolding unary_at
  minus_step n m t ts e rest p other read y =
      let out : Expr F = unary_operator negate_op e in
      let again : Parse (Expr F) = parse_expr_unary fl (parse_expr fl n) m in
      unary_step (parse_expr fl n) m Token.minus out (t ∷ ts) rest p y (
        Reads-next p Token.minus (t ∷ ts) y _ out rest λ q z.
          Reads-same out rest (ap (λ r. r q) (minus_at-other fl again t other))
            (Reads-bind _ _ e out rest rest (read q z) λ q₁ z₁. Reads-pure out q₁ rest z₁))

  pub not_step :
      (n m : ℕ) (ts : List Token) (e : Expr F) (rest : List Token) (p : Parser)
      → ((q : Parser) → Yields q ts → Reads (parse_expr_unary fl (parse_expr fl n) m q) e rest)
      → Yields p (Token.tilda ∷ ts)
      → Reads (parse_expr_unary fl (parse_expr fl n) (suc m) p) (unary_operator bit_not e) rest
  unfolding unary_at
  not_step n m ts e rest p read y =
      let out : Expr F = unary_operator bit_not e in
      unary_step (parse_expr fl n) m Token.tilda out ts rest p y (
        Reads-next p Token.tilda ts y _ out rest
          λ q z. Reads-bind _ _ e out rest rest (read q z) λ q₁ z₁. Reads-pure out q₁ rest z₁)

  pub plus_step :
      (n m : ℕ) (ts : List Token) (e : Expr F) (rest : List Token) (p : Parser)
      → ((q : Parser) → Yields q ts → Reads (parse_expr_unary fl (parse_expr fl n) m q) e rest)
      → Yields p (Token.plus ∷ ts)
      → Reads (parse_expr_unary fl (parse_expr fl n) (suc m) p) e rest
  unfolding unary_at
  plus_step n m ts e rest p read y =
      unary_step (parse_expr fl n) m Token.plus e ts rest p y
        (Reads-next p Token.plus ts y _ e rest read)

  pub cast_step :
      (n m : ℕ) (ts : List Token) (e : Expr F) (names : List Bytes) (rest : List Token) (p : Parser)
      → length names < m
      → ((q : Parser) (us : List Token)
          → Yields q (ts ++ (Token.as_kw ∷ us))
          → Reads (parse_expr fl n q) e (Token.as_kw ∷ us))
      → Yields p (cast_tokens ts names ++ rest)
      → Reads (parse_expr_unary fl (parse_expr fl n) (suc m) p) (cast_expr e names) rest
  unfolding unary_at primitive_at
  cast_step n m ts e names rest p enough read y =
      let out : Expr F = cast_expr e names in
      unary_step (parse_expr fl n) m Token.cast out _ rest p y (
        primitive_step (parse_expr fl n) m Token.cast Token.right_paren out _ rest p y
          (cast_clause-Reads (parse_expr fl n) m ts e names rest p enough read y))

  pub collate_step :
      (n m : ℕ) (ts : List Token) (e : Expr F) (names : List Bytes) (rest : List Token) (p : Parser)
      → length names < m
      → is_token Token.collate (head_token rest) ≡ false
      → ((q : Parser) (us : List Token)
          → Yields q (ts ++ us)
          → Reads (parse_expr_unary fl (parse_expr fl n) m q) e us)
      → Yields p ((ts ++ clauses names) ++ rest)
      → Reads (parse_expr_collate fl (parse_expr fl n) m p) (collated e (last_name none names)) rest
  unfolding parse_expr_collate
  collate_step n m ts e names rest p enough ends read y =
      let out : Expr F = collated e (last_name none names) in
      Reads-bind _ _ e out (clauses names ++ rest) rest
        (read p (clauses names ++ rest) (subst (Yields p) (append_assoc ts (clauses names) rest) y))
        λ q z.
          Reads-bind _ _ (last_name none names) out rest rest
            (collation_loop-clauses m none names rest q enough ends z)
            λ q₁ z₁. Reads-pure out q₁ rest z₁
