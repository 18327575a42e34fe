-- ===== src/Parser/Select/RoundTrip.antt =====
-- SELECT on its tokens.
use prsqlite.Prelude.{
  ℕ, zero, suc, ◌+◌, ◌<◌, ◌≤◌, ◌≡◌, refl, false, Option, none, some, List, [], ◌∷◌, ◌++◌,
  append_assoc, arith, length, length-append, Bytes,
}
use mathlib.Core.Path.{subst}
use prsqlite.Token.Defs.{Token}
use prsqlite.Utils.Decimal.{Floats}
use prsqlite.Parser.State.{Parser, is_token, tag, no_select, no_table_name}
use prsqlite.Parser.Yields.{
  head_token, Yields, Reads, Reads-pure, Reads-same, Reads-bind, Reads-next, at_token,
}
use prsqlite.Parser.Expect.{expect_identifier-Reads, expect_peek-Reads}
use prsqlite.Parser.Expr.{Expr}
use prsqlite.Parser.Expr.Grammar.{equality, level, Derives, Ends}
use prsqlite.Parser.Expr.Correct.{parse_expr-Reads}
use prsqlite.Parser.Create.Columns.{Reads-grown}
use prsqlite.Parser.Select.{
  ResultColumn, Select, results_loop, results_step, where_at, parse_select,
}
use prsqlite.Parser.Select.Columns.{Item, at_comma, at_from, parse_result_column-Reads}

-- Result columns, with commas between them.
pub data Items {F : Type 0} : List (ResultColumn F) → List Token → Type 0 where
  last_item : (c : ResultColumn F) (ts : List Token) → Item c ts → Items (c ∷ []) ts
  more_items :
      (c : ResultColumn F) (cs : List (ResultColumn F)) (ts us : List Token)
      → Item c ts
      → Items cs us
      → Items (c ∷ cs) (ts ++ (Token.comma ∷ us))

-- A condition, or none.
pub data Condition {F : Type 0} : Option (Expr F) → List Token → Type 0 where
  no_condition : Condition none []
  where_rule :
      (ts : List Token) (e : Expr F)
      → Derives (level equality) ts e
      → Condition (some e) (Token.where_kw ∷ ts)

abbrev pub select_tokens : List Token → Bytes → List Token → List Token
select_tokens columns name condition =
    Token.select ∷ (columns ++ (Token.from ∷ Token.identifier name ∷ condition))

-- What follows a statement: no WHERE, and nothing that goes on an expression.
abbrev pub EndsSelect : Option Token → Type 0
EndsSelect t = Ends equality t × (is_token Token.where_kw t ≡ false)

module _ {F : Type 0} (fl : Floats F) where
  results_loop-Reads :
      (before cs : List (ResultColumn F)) (ts rest : List Token) (fuel : ℕ) (p : Parser)
      → Items cs ts
      → length ts + 2 < fuel
      → Yields p (ts ++ (Token.from ∷ rest))
      → Reads (results_loop fl fuel before p) (before ++ cs) (Token.from ∷ rest)
  unfolding results_loop results_step is_token tag
  results_loop-Reads before cs ts rest zero p items enough y = absurd (omega arith)
  results_loop-Reads before cs ts rest (suc fuel) p (last_item c ts' item) enough y =
      let end : List Token = Token.from ∷ rest in
      let all : List (ResultColumn F) = before ++ (c ∷ []) in
      Reads-bind _ _ c all end end
        (parse_result_column-Reads fl c ts end fuel p item (at_from rest) (omega arith) y)
        λ q z.
          Reads-same all end (at_token q end z λ t. results_step fl (results_loop fl fuel) all t q)
            (Reads-pure all q end z)
  results_loop-Reads before cs all rest (suc fuel) p (more_items c cs' ts us item items) enough y =
      let end : List Token = Token.from ∷ rest in
      let others : List Token = us ++ end in
      let here : List (ResultColumn F) = before ++ (c ∷ []) in
      let size = length-append ts (Token.comma ∷ us) in
      let y' : Yields p (ts ++ (Token.comma ∷ others)) =
        subst (Yields p) (append_assoc ts (Token.comma ∷ us) end) y in
      Reads-bind _ _ c (before ++ (c ∷ cs')) (Token.comma ∷ others) end
        (parse_result_column-Reads fl c ts (Token.comma ∷ others) fuel p item (at_comma others)
          (omega (arith, size)) y')
        λ q z.
          Reads-same _ end
            (at_token q (Token.comma ∷ others) z
              λ t. results_step fl (results_loop fl fuel) here t q)
            (Reads-next q Token.comma others z _ _ end λ q₁ z₁.
              Reads-grown _ before c cs' end
                (results_loop-Reads here cs' us rest fuel q₁ items (omega (arith, size)) z₁))

  where_at-Reads :
      (condition : Option (Expr F)) (ts rest : List Token) (fuel : ℕ) (p : Parser)
      → Condition condition ts
      → EndsSelect (head_token rest)
      → length ts + 1 < fuel
      → Yields p (ts ++ rest)
      → Reads (where_at fl fuel (head_token (ts ++ rest)) p) condition rest
  unfolding where_at is_token tag
  where_at-Reads condition ts rest fuel p no_condition ends enough y =
      rw (ends.1) (Reads-pure none p rest y)
  where_at-Reads condition all rest fuel p (where_rule ts e d) ends enough y =
      Reads-next p Token.where_kw (ts ++ rest) y _ (some e) rest λ q z.
        Reads-bind _ _ e (some e) rest rest
          (parse_expr-Reads fl ts e rest fuel q d ends.0 (omega arith) z)
          λ q₁ z₁. Reads-pure (some e) q₁ rest z₁

  -- SELECT with result columns of all three kinds, an alias with or without AS, and a condition or none,
  -- the expressions of the grammar: its tokens, followed by no WHERE and nothing that goes on an
  -- expression, are parsed as that statement, and what follows is left. The fuel is two more than the tokens.
  pub parse_select-tokens :
      (columns : List (ResultColumn F)) (name : Bytes) (condition : Option (Expr F))
      (ts us rest : List Token) (fuel : ℕ) (p : Parser)
      → Items columns ts
      → Condition condition us
      → EndsSelect (head_token rest)
      → length (select_tokens ts name us) + 2 ≤ fuel
      → Yields p (select_tokens ts name (us ++ rest))
      → Reads
          (parse_select fl fuel p)
          (record { selected_table = name; result_columns = columns; filter = condition })
          rest
  unfolding parse_select is_token tag
  parse_select-tokens columns name condition ts us rest fuel p items where_it ends enough y =
      let out : Select F = record {
        selected_table = name;
        result_columns = columns;
        filter = condition;
      } in
      let target : List Token = Token.from ∷ Token.identifier name ∷ (us ++ rest) in
      let size = length-append ts (Token.from ∷ Token.identifier name ∷ us) in
      Reads-bind _ _ tt out (Token.select ∷ (ts ++ target)) rest
        (expect_peek-Reads Token.select no_select (ts ++ target) p refl y)
        λ p₁ y₁. Reads-next p₁ Token.select (ts ++ target) y₁ _ out rest λ p₂ y₂.
          Reads-bind _ _ columns out target rest
            (results_loop-Reads [] columns ts (Token.identifier name ∷ (us ++ rest)) fuel p₂ items
              (omega (arith, size)) y₂)
            λ p₃ y₃.
              Reads-bind _ _ name out (Token.identifier name ∷ (us ++ rest)) rest
                (expect_identifier-Reads name Token.from no_table_name (us ++ rest) p₃ y₃)
                λ p₄ y₄. Reads-next p₄ (Token.identifier name) (us ++ rest) y₄ _ out rest λ p₅ y₅.
                  Reads-bind _ _ condition out rest rest
                    (where_at-Reads condition us rest fuel p₅ where_it ends (omega (arith, size))
                      y₅)
                    λ p₆ y₆. Reads-pure out p₆ rest y₆
