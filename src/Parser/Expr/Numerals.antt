-- ===== src/Parser/Expr/Numerals.antt =====
-- The numerals of an expression, and what the parser makes of them.
use prsqlite.Prelude.{
  ℕ, ◌^◌, ◌<◌, ◌≤◌, ◌≡◌, refl, sym, ap, ◌∙◌, inl, inr, true, ◌++◌, append-nil, pos, neg_ℕ, arith,
  Bytes, [],
}
use prsqlite.Prelude.{ltb, if_true, Bool-cases, replicate}
use prsqlite.Utils.Integer.{parse_integer}
use prsqlite.Utils.Integer as Integer
use prsqlite.Utils.Integer.Spec.{decimal, classify, unsigned, parse_integer_digits}
use prsqlite.Utils.Decimal.{Floats}
use prsqlite.Parser.State.{Parser, done}
use prsqlite.Parser.Expr.{integer_expr, negative_at}
use prsqlite.Parser.Expr.Grammar.{numeral, IsNumeral}

parse_integer-numeral :
    (z : ℕ) (ds : Bytes)
    → IsNumeral z ds
    → parse_integer (numeral z ds) ≡ (true, classify true (decimal 0 ds))
parse_integer-numeral z ds (digits, trimmed, some_digit) =
    ap (λ (bs : Bytes). parse_integer (replicate z b'0' ++ bs)) (sym (append-nil ds))
    ∙ parse_integer_digits [] unsigned z ds [] refl digits trimmed tt some_digit

pub parse_integer-small :
    (z : ℕ) (ds : Bytes)
    → IsNumeral z ds
    → decimal 0 ds < 2 ^ 63
    → parse_integer (numeral z ds) ≡ (true, Integer.integer (pos (decimal 0 ds)))
unfolding classify
parse_integer-small z ds n small =
    let fits : ltb (decimal 0 ds) (2 ^ 63) ≡ true = ground arith in
    parse_integer-numeral z ds n ∙ ap (λ r. (true, r)) (if_true _ _ _ fits)

parse_integer-limit :
    (z : ℕ) (ds : Bytes)
    → IsNumeral z ds
    → decimal 0 ds ≡ 2 ^ 63
    → parse_integer (numeral z ds) ≡ (true, Integer.max_plus_one)
unfolding classify
parse_integer-limit z ds n limit =
    parse_integer-numeral z ds n ∙ ap (λ (u : ℕ). (true, classify true u)) limit

module _ {F : Type 0} (fl : Floats F) where
  pub negative_at-numeral :
      (z : ℕ) (ds : Bytes)
      → IsNumeral z ds
      → decimal 0 ds ≤ 2 ^ 63
      → (q : Parser)
      → negative_at fl (numeral z ds) (parse_integer (numeral z ds)) q
        ≡ done (integer_expr (neg_ℕ (decimal 0 ds))) q
  unfolding negative_at
  negative_at-numeral z ds n low q = elim (Bool-cases (ltb (decimal 0 ds) (2 ^ 63))) [
    | inl t ↦
        ap (λ r. negative_at fl (numeral z ds) r q) (parse_integer-small z ds n (ground arith))
    | inr f ↦
        let limit : decimal 0 ds ≡ 2 ^ 63 = ground arith in
        ap (λ r. negative_at fl (numeral z ds) r q) (parse_integer-limit z ds n limit)
        ∙ ap (λ (u : ℕ). done (integer_expr (neg_ℕ u)) q) (sym limit)
  ]
