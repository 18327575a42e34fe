-- ===== src/Parser/Select/Columns.antt =====
-- The result columns of SELECT on their tokens.
use prsqlite.Prelude.{
  ℕ, ◌+◌, ◌<◌, ◌≡◌, refl, ap, ◌∙◌, true, false, Option, none, some, List, [], ◌∷◌, ◌++◌,
  append_assoc, arith, length, length-append, Bytes,
}
use mathlib.Core.Path.{subst}
use prsqlite.Token.Defs.{Token}
use prsqlite.Utils.Decimal.{Floats}
use prsqlite.Parser.State.{Parser, is_token, tag, no_alias}
use prsqlite.Parser.Yields.{
  head_token, Yields, Reads, Reads-pure, Reads-same, Reads-bind, Reads-next, at_token,
}
use prsqlite.Parser.Words.{words}
use prsqlite.Parser.Expect.{expect_identifier-Reads}
use prsqlite.Parser.Expr.{Expr, BinaryOp}
use prsqlite.Parser.Expr.Grammar.{
  Level, equality, comparison, concatenation, Part, level, op_of, clauses, Derives, Ends, name_rule,
  null_rule, text_rule, blob_rule, integer_rule, negative_rule, cast_rule, not_rule, plus_rule,
  minus_rule, plain_rule, collate_rule, level_rule, end_rule, operator_rule,
}
use prsqlite.Parser.Expr.Correct.{parse_expr-Reads}
use prsqlite.Parser.Select.{
  ResultColumn, all_columns, all_of_table, expr_column, dot_asterisk, alias_at, expr_with_alias,
  table_or_expr, result_column_at, parse_result_column,
}

-- A token that is no dot and no asterisk: an expression has no others.
abbrev pub IsPlain : Option Token → Type 0
IsPlain t = (is_token Token.dot t ≡ false) × (is_token Token.asterisk t ≡ false)

abbrev pub AllPlain : List Token → Type 0
AllPlain [] = Unit
AllPlain (t ∷ ts) = IsPlain (some t) × AllPlain ts

append-AllPlain : (ts us : List Token) → AllPlain ts → AllPlain us → AllPlain (ts ++ us)
append-AllPlain [] us a b = b
append-AllPlain (t ∷ ts) us (here, a) b = (here, append-AllPlain ts us a b)

clauses-AllPlain : (names : List Bytes) → AllPlain (clauses names)
unfolding is_token
clauses-AllPlain [] = tt
clauses-AllPlain (name ∷ names) = ((refl, refl), ((refl, refl), clauses-AllPlain names))

words-AllPlain : (names : List Bytes) → AllPlain (words names)
unfolding is_token
words-AllPlain [] = tt
words-AllPlain (name ∷ names) = ((refl, refl), words-AllPlain names)

operator-IsPlain :
    (l : Level) (t : Token) (op : BinaryOp) → op_of l (some t) ≡ some op → IsPlain (some t)
unfolding op_of is_token
operator-IsPlain equality Token.eq op h = (refl, refl)
operator-IsPlain equality Token.ne op h = (refl, refl)
operator-IsPlain equality t op h = cc
operator-IsPlain comparison Token.gt op h = (refl, refl)
operator-IsPlain comparison Token.ge op h = (refl, refl)
operator-IsPlain comparison Token.lt op h = (refl, refl)
operator-IsPlain comparison Token.le op h = (refl, refl)
operator-IsPlain comparison t op h = cc
operator-IsPlain concatenation Token.concat op h = (refl, refl)
operator-IsPlain concatenation t op h = cc

Derives-AllPlain :
    {F : Type 0} {part : Part F} {ts : List Token} {e : Expr F} → Derives part ts e → AllPlain ts
unfolding is_token
Derives-AllPlain (name_rule id) = ((refl, refl), tt)
Derives-AllPlain null_rule = ((refl, refl), tt)
Derives-AllPlain (text_rule b) = ((refl, refl), tt)
Derives-AllPlain (blob_rule b) = ((refl, refl), tt)
Derives-AllPlain (integer_rule z ds n h) = ((refl, refl), tt)
Derives-AllPlain (negative_rule z ds n h) = ((refl, refl), ((refl, refl), tt))
Derives-AllPlain (cast_rule ts e names d) = (
  (refl, refl),
  (
    (refl, refl),
    append-AllPlain ts _ (Derives-AllPlain d)
        ((refl, refl), append-AllPlain (words names) _ (words-AllPlain names) ((refl, refl), tt)),
  ),
)
Derives-AllPlain (not_rule ts e d) = ((refl, refl), Derives-AllPlain d)
Derives-AllPlain (plus_rule ts e d) = ((refl, refl), Derives-AllPlain d)
Derives-AllPlain (minus_rule t ts e h d) = ((refl, refl), Derives-AllPlain d)
Derives-AllPlain (plain_rule ts e d) = Derives-AllPlain d
Derives-AllPlain (collate_rule ts e names last d) =
    append-AllPlain ts (clauses (names ++ (last ∷ []))) (Derives-AllPlain d)
      (clauses-AllPlain (names ++ (last ∷ [])))
Derives-AllPlain (level_rule l ts us left e d d') =
    append-AllPlain ts us (Derives-AllPlain d) (Derives-AllPlain d')
Derives-AllPlain (end_rule l left) = tt
Derives-AllPlain (operator_rule l left right e t op ts us h d d') =
    (operator-IsPlain l t op h, append-AllPlain ts us (Derives-AllPlain d) (Derives-AllPlain d'))

-- What an expression's result column has behind it: its alias.
pub data Alias : Option Bytes → List Token → Type 0 where
  no_alias_rule : Alias none []
  alias_rule : (a : Bytes) → Alias (some a) (Token.identifier a ∷ [])
  as_rule : (a : Bytes) → Alias (some a) (Token.as_kw ∷ Token.identifier a ∷ [])

pub data Item {F : Type 0} : ResultColumn F → List Token → Type 0 where
  all_rule : Item all_columns (Token.asterisk ∷ [])
  table_rule :
      (name : Bytes)
      → Item (all_of_table name) (Token.identifier name ∷ Token.dot ∷ Token.asterisk ∷ [])
  expr_rule :
      (t : Token) (ts us : List Token) (e : Expr F) (alias : Option Bytes)
      → Derives (level equality) (t ∷ ts) e
      → Alias alias us
      → Item (expr_column e alias) (t ∷ (ts ++ us))

-- A result column ends at a comma or at FROM.
pub data EndsItem : List Token → Type 0 where
  at_comma : (rest : List Token) → EndsItem (Token.comma ∷ rest)
  at_from : (rest : List Token) → EndsItem (Token.from ∷ rest)

-- The token behind an expression with its alias ends the expression.
Alias-Ends :
    (alias : Option Bytes) (us rest : List Token)
    → Alias alias us
    → EndsItem rest
    → Ends equality (head_token (us ++ rest)) × IsPlain (head_token (us ++ rest))
unfolding op_of is_token
Alias-Ends alias us rest no_alias_rule (at_comma more) = ((refl, refl, refl, refl), (refl, refl))
Alias-Ends alias us rest no_alias_rule (at_from more) = ((refl, refl, refl, refl), (refl, refl))
Alias-Ends alias us rest (alias_rule a) ends = ((refl, refl, refl, refl), (refl, refl))
Alias-Ends alias us rest (as_rule a) ends = ((refl, refl, refl, refl), (refl, refl))

module _ {F : Type 0} (fl : Floats F) where
  alias_at-Reads :
      (e : Expr F) (alias : Option Bytes) (us rest : List Token) (p : Parser)
      → Alias alias us
      → EndsItem rest
      → Yields p (us ++ rest)
      → Reads (alias_at fl e p.token p) (expr_column e alias) rest
  unfolding alias_at
  alias_at-Reads e alias us rest p no_alias_rule (at_comma more) y =
      Reads-same _ rest (at_token p rest y λ t. alias_at fl e t p)
        (Reads-pure (expr_column e none) p rest y)
  alias_at-Reads e alias us rest p no_alias_rule (at_from more) y =
      Reads-same _ rest (at_token p rest y λ t. alias_at fl e t p)
        (Reads-pure (expr_column e none) p rest y)
  alias_at-Reads e alias us rest p (alias_rule a) ends y =
      let out : ResultColumn F = expr_column e (some a) in
      Reads-same out rest (at_token p (Token.identifier a ∷ rest) y λ t. alias_at fl e t p)
        (Reads-next p (Token.identifier a) rest y _ out rest λ q z. Reads-pure out q rest z)
  alias_at-Reads e alias us rest p (as_rule a) ends y =
      let out : ResultColumn F = expr_column e (some a) in
      Reads-same out rest
        (at_token p (Token.as_kw ∷ Token.identifier a ∷ rest) y λ t. alias_at fl e t p)
        (Reads-bind _ _ a out (Token.identifier a ∷ rest) rest
          (expect_identifier-Reads a Token.as_kw no_alias rest p y)
          λ q z.
            Reads-next q (Token.identifier a) rest z _ out rest λ q₁ z₁. Reads-pure out q₁ rest z₁)

  expr_with_alias-Reads :
      (t : Token) (ts us rest : List Token) (e : Expr F) (alias : Option Bytes) (fuel : ℕ)
      (p : Parser)
      → Derives (level equality) (t ∷ ts) e
      → Alias alias us
      → EndsItem rest
      → length ts + 2 < fuel
      → Yields p (t ∷ (ts ++ (us ++ rest)))
      → Reads (expr_with_alias fl fuel p) (expr_column e alias) rest
  unfolding expr_with_alias
  expr_with_alias-Reads t ts us rest e alias fuel p d a ends enough y =
      Reads-bind _ _ e (expr_column e alias) (us ++ rest) rest
        (parse_expr-Reads fl (t ∷ ts) e (us ++ rest) fuel p d (Alias-Ends alias us rest a ends).0
          (omega arith) y)
        λ q z. alias_at-Reads e alias us rest q a ends z

  -- Without a dot behind its name the copy of the parser finds no table.
  dot_asterisk-Reads :
      (name : Bytes) (us : List Token) (p : Parser)
      → IsPlain (head_token us)
      → Yields p (Token.identifier name ∷ us)
      → Reads (dot_asterisk p) false us
  unfolding dot_asterisk
  dot_asterisk-Reads name us p plain y =
      Reads-next p (Token.identifier name) us y _ false us
        λ q z. rw (plain.0) (Reads-pure false q us z)

  dot_asterisk-table :
      (name : Bytes) (us : List Token) (p : Parser)
      → Yields p (Token.identifier name ∷ Token.dot ∷ Token.asterisk ∷ us)
      → Reads (dot_asterisk p) true us
  unfolding dot_asterisk is_token tag
  dot_asterisk-table name us p y =
      Reads-next p (Token.identifier name) (Token.dot ∷ Token.asterisk ∷ us) y _ true us λ q z.
        Reads-next q Token.dot (Token.asterisk ∷ us) z _ true us
          λ q₁ z₁. Reads-next q₁ Token.asterisk us z₁ _ true us λ q₂ z₂. Reads-pure true q₂ us z₂

  -- A first token that begins an expression.
  begins_expr :
      (t : Token) (us rest : List Token) (c : ResultColumn F) (fuel : ℕ) (p : Parser)
      → IsPlain (some t)
      → IsPlain (head_token us)
      → Yields p (t ∷ us)
      → Reads (expr_with_alias fl fuel p) c rest
      → Reads (result_column_at fl fuel (some t) p) c rest
  unfolding result_column_at table_or_expr is_token tag Reads
  begins_expr (Token.identifier name) us rest c fuel p plain follows y read =
      let (q, looked, z) = dot_asterisk-Reads name us p follows y in
      Reads-same c rest (ap (table_or_expr fl fuel name p) looked) read
  begins_expr Token.asterisk us rest c fuel p plain follows y read = absurd (true_false plain.1)
    where
      true_false : true ≡ false → ⊥
      true_false e = cc
  begins_expr t us rest c fuel p plain follows y read = read

  head-IsPlain :
      (ts us : List Token) → AllPlain ts → IsPlain (head_token us) → IsPlain (head_token (ts ++ us))
  head-IsPlain [] us all plain = plain
  head-IsPlain (t ∷ ts) us all plain = all.0

  -- A result column in front of a comma or FROM.
  pub parse_result_column-Reads :
      (c : ResultColumn F) (ts rest : List Token) (fuel : ℕ) (p : Parser)
      → Item c ts
      → EndsItem rest
      → length ts + 1 < fuel
      → Yields p (ts ++ rest)
      → Reads (parse_result_column fl fuel p) c rest
  unfolding parse_result_column result_column_at table_or_expr Reads
  parse_result_column-Reads c ts rest fuel p all_rule ends enough y =
      Reads-same all_columns rest
        (at_token p (Token.asterisk ∷ rest) y λ t. result_column_at fl fuel t p)
        (Reads-next p Token.asterisk rest y _ all_columns rest
          λ q z. Reads-pure all_columns q rest z)
  parse_result_column-Reads c ts rest fuel p (table_rule name) ends enough y =
      let (q, looked, z) = dot_asterisk-table name rest p y in
      Reads-same (all_of_table name) rest
        (at_token p (Token.identifier name ∷ Token.dot ∷ Token.asterisk ∷ rest) y
            (λ t. result_column_at fl fuel t p)
          ∙ ap (table_or_expr fl fuel name p) looked)
        (Reads-pure (all_of_table name) q rest z)
  parse_result_column-Reads c all rest fuel p (expr_rule t ts us e alias d a) ends enough y =
      let size = length-append ts us in
      let y' : Yields p (t ∷ (ts ++ (us ++ rest))) =
        subst (λ vs. Yields p (t ∷ vs)) (append_assoc ts us rest) y in
      let plain = Derives-AllPlain d in
      Reads-same (expr_column e alias) rest
        (at_token p (t ∷ (ts ++ (us ++ rest))) y' λ u. result_column_at fl fuel u p)
        (begins_expr t (ts ++ (us ++ rest)) rest (expr_column e alias) fuel p plain.0
          (head-IsPlain ts (us ++ rest) plain.1 (Alias-Ends alias us rest a ends).1) y'
          (expr_with_alias-Reads t ts us rest e alias fuel p d a ends (omega (arith, size)) y'))
