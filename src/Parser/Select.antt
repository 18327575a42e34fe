-- ===== src/Parser/Select.antt =====
-- SELECT.
pub mod Columns
pub mod RoundTrip
use prsqlite.Prelude.{ℕ, zero, suc, Bool, true, false, Option, none, some, List, ◌∷◌, ◌++◌, []}
use prsqlite.Prelude.{if◌then◌else◌, Bytes}
use prsqlite.Utils.Decimal.{Floats}
use prsqlite.Token.Defs.{Token}
use prsqlite.Parser.State.{
  no_select, no_from, no_table_name, no_alias, Parser, Outcome, done, failed, crashed, out_of_fuel,
  Parse, bind, pure, ◌>>◌, error, peek, next, is_token, expect_peek, expect_identifier, ◌>>=◌,
}
use prsqlite.Parser.Expr.{Expr, parse_expr}

pub data ResultColumn (F : Type 0) : Type 0 where
  all_columns : ResultColumn F
  all_of_table : Bytes → ResultColumn F
  expr_column : Expr F → Option Bytes → ResultColumn F

pub record Select (F : Type 0) : Type 0 where
  pub selected_table : Bytes
  pub result_columns : List (ResultColumn F)
  pub filter : Option (Expr F)

-- Whether `.` and `*` follow, on a copy of the parser, and the copy behind them.
unfoldable pub dot_asterisk : Parse Bool
unfolding next is_token
dot_asterisk = do
  t ← next
  if is_token Token.dot t
      then (do u ← next; if is_token Token.asterisk u then (next >> pure true) else pure false)
      else pure false

module _ {F : Type 0} (fl : Floats F) where
  unfoldable pub alias_at : Expr F → Option Token → Parse (ResultColumn F)
  unfolding next expect_identifier
  alias_at e (some (Token.identifier alias)) = do next; pure (expr_column e (some alias))
  alias_at e (some Token.as_kw) = do
    alias ← expect_identifier no_alias
    next
    pure (expr_column e (some alias))
  alias_at e _ = pure (expr_column e none)

  unfoldable pub expr_with_alias : ℕ → Parse (ResultColumn F)
  unfolding parse_expr alias_at
  expr_with_alias fuel = do e ← parse_expr fl fuel; t ← peek; alias_at e t

  -- Behind the look ahead: the copy takes the parser's place where it found `.*`.
  unfoldable pub table_or_expr : ℕ → Bytes → Parser → Outcome Bool → Outcome (ResultColumn F)
  unfolding expr_with_alias
  table_or_expr fuel name p (done true copy) = done (all_of_table name) copy
  table_or_expr fuel name p (done false copy) = expr_with_alias fuel p
  table_or_expr fuel name p (failed e) = failed e
  table_or_expr fuel name p crashed = crashed
  table_or_expr fuel name p out_of_fuel = out_of_fuel

  unfoldable pub result_column_at : ℕ → Option Token → Parse (ResultColumn F)
  unfolding next dot_asterisk table_or_expr expr_with_alias
  result_column_at fuel (some (Token.identifier name)) p =
      table_or_expr fuel name p (dot_asterisk p)
  result_column_at fuel (some Token.asterisk) p = bind (next p) λ t. pure all_columns
  result_column_at fuel _ p = expr_with_alias fuel p

  unfoldable pub parse_result_column : ℕ → Parse (ResultColumn F)
  unfolding result_column_at
  parse_result_column fuel p = result_column_at fuel p.token p

  -- What stands behind a result column.
  unfoldable pub results_step :
      (List (ResultColumn F) → Parse (List (ResultColumn F)))
      → List (ResultColumn F)
      → Option Token
      → Parse (List (ResultColumn F))
  unfolding next is_token
  results_step again columns t =
      if is_token Token.comma t
      then (next >> again columns)
      else if is_token Token.from t
      then pure columns
      else error no_from

  unfoldable pub results_loop : ℕ → List (ResultColumn F) → Parse (List (ResultColumn F))
  unfolding parse_result_column results_step
  results_loop zero columns p = out_of_fuel
  results_loop (suc fuel) columns p =
      bind (parse_result_column fuel p)
        λ column p'. results_step (results_loop fuel) (columns ++ (column ∷ [])) p'.token p'

  unfoldable pub where_at : ℕ → Option Token → Parse (Option (Expr F))
  unfolding next is_token parse_expr
  where_at fuel t =
      if is_token Token.where_kw t
      then (do next; e ← parse_expr fl fuel; pure (some e))
      else pure none

  unfoldable pub parse_select : ℕ → Parse (Select F)
  unfolding next expect_peek expect_identifier results_loop where_at
  parse_select fuel = do
    expect_peek Token.select no_select
    next
    columns ← results_loop fuel []
    name ← expect_identifier no_table_name
    t ← next
    condition ← where_at fuel t
    pure (record { selected_table = name; result_columns = columns; filter = condition })
