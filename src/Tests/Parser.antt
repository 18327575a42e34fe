-- ===== src/Tests/Parser.antt =====
-- Runs of the parser, and its theorem on the tokens of a concrete expression.
use prsqlite.Prelude.{
  ℕ, ◌*◌, refl, false, Option, none, some, List, ◌∷◌, ◌++◌, pos, arith, Bytes, compare, [],
}
use Prim.Native.Char.{code}
use Prim.Native.String.{String}
use prsqlite.Utils.Decimal.{Floats}
use prsqlite.Utils.Ascii.{lower, is_space}
use prsqlite.Prelude.{bytes_eq}
use prsqlite.Token.Chars.{char_code}
use prsqlite.Token.Defs.{
  Token, get_token, word_token, second_is, space_token, digit_token, less_token,
}
use prsqlite.Parser.State.{Parser, next}
use prsqlite.Parser.Yields.{Yields, Reads}
use prsqlite.Parser.Expr.{
  Expr, integer_expr, collate_expr, compare_op, lt_op, column, binary_operator, parse_expr,
}
use prsqlite.Parser.Expr.Grammar.{
  equality, comparison, concatenation, level, collation, unary, op_of, Derives, Ends, name_rule,
  negative_rule, plain_rule, collate_rule, level_rule, end_rule, operator_rule,
}
use prsqlite.Parser.Select.{expr_column, all_columns, parse_select}
use prsqlite.Parser.Select.Columns.{alias_rule, expr_rule, all_rule}
use prsqlite.Parser.Select.RoundTrip.{
  Items, last_item, more_items, where_rule, select_tokens, EndsSelect, parse_select-tokens,
}
use prsqlite.Parser.Create.{ColumnDef, collate_constraint, parse_create_table, parse_create_index}
use prsqlite.Parser.Create.Print.{create_table_tokens, create_index_tokens}
use prsqlite.Parser.Create.RoundTrip.{parse_create_table-tokens, parse_create_index-tokens}
use prsqlite.Utils.Integer.Spec.{decimal}
use prsqlite.Utils.Ascii.{is_ascii_digit}
use prsqlite.Prelude.{negsuc}
use prsqlite.Parser.Expr.Correct.{parse_expr-Reads}
use prsqlite.Parser.State.{is_token}

abbrev codes : String → Bytes
codes String.[] = []
codes (String.◌∷◌ c s) = code c ∷ codes s

abbrev naturals : Floats ℕ
naturals = record {
  from_i64 = λ z. 0;
  to_i64 = λ d. pos d;
  times = λ x y. x * y;
  negate = λ d. 0;
  powi_10 = λ e. 10;
  infinity = 0;
  less = λ x y. false;
  partial_cmp = λ x y. some (compare x y);
  is_nan = λ d. false;
  to_bits = λ d. d;
  from_bits = λ n. n;
  display_float = λ d. [];
}

abbrev a_name : Bytes
a_name = b'a' ∷ []

abbrev b_name : Bytes
b_name = b'b' ∷ []

-- `-5<b collate c;`.
abbrev at : ℕ → Option Token → ℕ → Parser
at cursor t size = record {
  input = codes "-5<b collate c;";
  cursor = cursor;
  token = t;
  token_size = size;
}

abbrev five : Bytes
five = b'5' ∷ []

abbrev c_name : Bytes
c_name = b'c' ∷ []

abbrev collated_tokens : List Token
collated_tokens = Token.identifier b_name ∷ Token.collate ∷ Token.identifier c_name ∷ []

abbrev tokens : List Token
tokens = Token.minus ∷ Token.integer five ∷ Token.lt ∷ collated_tokens

abbrev minus_five : Expr ℕ
minus_five = integer_expr (negsuc 4)

abbrev b_collated : Expr ℕ
b_collated = collate_expr (column b_name) c_name

abbrev compared : Expr ℕ
compared = binary_operator (compare_op lt_op) minus_five b_collated

abbrev first : Parser
first = at 0 (some Token.minus) 1

first-Yields : Yields first (tokens ++ (Token.semicolon ∷ []))
unfolding Yields next get_token char_code lower word_token bytes_eq second_is space_token is_space
    digit_token less_token is_ascii_digit
first-Yields = (
  refl,
  (
    at 1 (some (Token.integer five)) 1,
    refl,
    (
      refl,
      (
        at 2 (some Token.lt) 1,
        refl,
        (
          refl,
          (
            at 3 (some (Token.identifier b_name)) 1,
            refl,
            (
              refl,
              (
                at 5 (some Token.collate) 7,
                refl,
                (
                  refl,
                  (
                    at 13 (some (Token.identifier c_name)) 1,
                    refl,
                    (
                      refl,
                      (at 14 (some Token.semicolon) 1, refl, (refl, (at 15 none 0, refl, refl))),
                    ),
                  ),
                ),
              ),
            ),
          ),
        ),
      ),
    ),
  ),
)

five-Derives : Derives {F = ℕ} unary (Token.minus ∷ Token.integer five ∷ []) minus_five
unfolding decimal is_ascii_digit
five-Derives = negative_rule 0 five (refl, (λ e. absurd (omega arith)), omega arith) (omega arith)

-- An operand as a whole level of concatenations.
operand_derived :
    (ts : List Token) (e : Expr ℕ)
    → Derives collation (ts ++ []) e
    → Derives (level concatenation) ((ts ++ []) ++ []) e
operand_derived ts e d = level_rule concatenation (ts ++ []) [] e e d (end_rule concatenation e)

compared-Derives : Derives (level equality) tokens compared
unfolding op_of
compared-Derives =
    level_rule equality tokens [] compared compared
      (level_rule comparison (Token.minus ∷ Token.integer five ∷ []) (Token.lt ∷ collated_tokens)
        minus_five compared
        (operand_derived (Token.minus ∷ Token.integer five ∷ []) minus_five
          (plain_rule (Token.minus ∷ Token.integer five ∷ []) minus_five five-Derives))
        (operator_rule comparison minus_five b_collated compared Token.lt (compare_op lt_op)
          collated_tokens [] refl
          (operand_derived collated_tokens b_collated (
            collate_rule (Token.identifier b_name ∷ []) (column b_name) [] c_name
              (name_rule b_name)))
          (end_rule comparison compared)))
      (end_rule equality compared)

semicolon-Ends : Ends equality (some Token.semicolon)
unfolding op_of is_token
semicolon-Ends = (refl, refl, refl, refl)

parse_expr-Reads_example : Reads (parse_expr naturals 8 first) compared (Token.semicolon ∷ [])
parse_expr-Reads_example =
    parse_expr-Reads naturals tokens compared (Token.semicolon ∷ []) 8 first compared-Derives
      semicolon-Ends (omega arith) first-Yields

-- `create table t(a text collate c,b)`.
abbrev table_at : ℕ → Option Token → ℕ → Parser
table_at cursor t size = record {
  input = codes "create table t(a text collate c,b)";
  cursor = cursor;
  token = t;
  token_size = size;
}

abbrev table_start : Parser
table_start = table_at 0 (some Token.create) 6

abbrev a_column : ColumnDef
a_column = record {
  column_name = codes "a";
  type_name = codes "text" ∷ [];
  constraints = collate_constraint (codes "c") ∷ [];
}

abbrev b_column : ColumnDef
b_column = record { column_name = codes "b"; type_name = []; constraints = [] }

table-Yields : Yields table_start (create_table_tokens (codes "t") a_column (b_column ∷ []) [])
unfolding Yields next get_token char_code lower word_token bytes_eq second_is space_token is_space
table-Yields = (
  refl,
  (
    table_at 7 (some Token.table) 5,
    refl,
    (
      refl,
      (
        table_at 13 (some (Token.identifier (codes "t"))) 1,
        refl,
        (
          refl,
          (
            table_at 14 (some Token.left_paren) 1,
            refl,
            (
              refl,
              (
                table_at 15 (some (Token.identifier (codes "a"))) 1,
                refl,
                (
                  refl,
                  (
                    table_at 17 (some (Token.identifier (codes "text"))) 4,
                    refl,
                    (
                      refl,
                      (
                        table_at 22 (some Token.collate) 7,
                        refl,
                        (
                          refl,
                          (
                            table_at 30 (some (Token.identifier (codes "c"))) 1,
                            refl,
                            (
                              refl,
                              (
                                table_at 31 (some Token.comma) 1,
                                refl,
                                (
                                  refl,
                                  (
                                    table_at 32 (some (Token.identifier (codes "b"))) 1,
                                    refl,
                                    (
                                      refl,
                                      (
                                        table_at 33 (some Token.right_paren) 1,
                                        refl,
                                        (refl, (table_at 34 none 0, refl, refl)),
                                      ),
                                    ),
                                  ),
                                ),
                              ),
                            ),
                          ),
                        ),
                      ),
                    ),
                  ),
                ),
              ),
            ),
          ),
        ),
      ),
    ),
  ),
)

parse_create_table-tokens_example :
    Reads
      (parse_create_table 20 table_start)
      (record { created_table = codes "t"; columns = a_column ∷ b_column ∷ [] })
      []
parse_create_table-tokens_example =
    parse_create_table-tokens (codes "t") a_column (b_column ∷ []) [] 20 table_start (omega arith)
      table-Yields

-- `create index i on t(a,b)`.
abbrev index_at : ℕ → Option Token → ℕ → Parser
index_at cursor t size = record {
  input = codes "create index i on t(a,b)";
  cursor = cursor;
  token = t;
  token_size = size;
}

abbrev index_start : Parser
index_start = index_at 0 (some Token.create) 6

index-Yields :
    Yields index_start (create_index_tokens (codes "i") (codes "t") (codes "a") (codes "b" ∷ []) [])
unfolding Yields next get_token char_code lower word_token bytes_eq second_is space_token is_space
index-Yields = (
  refl,
  (
    index_at 7 (some Token.index_kw) 5,
    refl,
    (
      refl,
      (
        index_at 13 (some (Token.identifier (codes "i"))) 1,
        refl,
        (
          refl,
          (
            index_at 15 (some Token.on) 2,
            refl,
            (
              refl,
              (
                index_at 18 (some (Token.identifier (codes "t"))) 1,
                refl,
                (
                  refl,
                  (
                    index_at 19 (some Token.left_paren) 1,
                    refl,
                    (
                      refl,
                      (
                        index_at 20 (some (Token.identifier (codes "a"))) 1,
                        refl,
                        (
                          refl,
                          (
                            index_at 21 (some Token.comma) 1,
                            refl,
                            (
                              refl,
                              (
                                index_at 22 (some (Token.identifier (codes "b"))) 1,
                                refl,
                                (
                                  refl,
                                  (
                                    index_at 23 (some Token.right_paren) 1,
                                    refl,
                                    (refl, (index_at 24 none 0, refl, refl)),
                                  ),
                                ),
                              ),
                            ),
                          ),
                        ),
                      ),
                    ),
                  ),
                ),
              ),
            ),
          ),
        ),
      ),
    ),
  ),
)

parse_create_index-tokens_example :
    Reads
      (parse_create_index 3 index_start)
      (record {
        index_name = codes "i";
        indexed_table = codes "t";
        indexed_columns = codes "a" ∷ codes "b" ∷ [];
      })
      []
parse_create_index-tokens_example =
    parse_create_index-tokens (codes "i") (codes "t") (codes "a") (codes "b" ∷ []) [] 3 index_start
      (omega arith) index-Yields

-- `select a c,* from t where b;`.
abbrev select_at : ℕ → Option Token → ℕ → Parser
select_at cursor t size = record {
  input = codes "select a c,* from t where b;";
  cursor = cursor;
  token = t;
  token_size = size;
}

abbrev select_start : Parser
select_start = select_at 0 (some Token.select) 6

abbrev select_columns : List Token
select_columns =
    Token.identifier (codes "a") ∷ Token.identifier (codes "c") ∷ Token.comma ∷ Token.asterisk ∷ []

abbrev select_where : List Token
select_where = Token.where_kw ∷ Token.identifier (codes "b") ∷ []

select-Yields :
    Yields select_start
      (select_tokens select_columns (codes "t") (select_where ++ (Token.semicolon ∷ [])))
unfolding Yields next get_token char_code lower word_token bytes_eq second_is space_token is_space
select-Yields = (
  refl,
  (
    select_at 7 (some (Token.identifier (codes "a"))) 1,
    refl,
    (
      refl,
      (
        select_at 9 (some (Token.identifier (codes "c"))) 1,
        refl,
        (
          refl,
          (
            select_at 10 (some Token.comma) 1,
            refl,
            (
              refl,
              (
                select_at 11 (some Token.asterisk) 1,
                refl,
                (
                  refl,
                  (
                    select_at 13 (some Token.from) 4,
                    refl,
                    (
                      refl,
                      (
                        select_at 18 (some (Token.identifier (codes "t"))) 1,
                        refl,
                        (
                          refl,
                          (
                            select_at 20 (some Token.where_kw) 5,
                            refl,
                            (
                              refl,
                              (
                                select_at 26 (some (Token.identifier (codes "b"))) 1,
                                refl,
                                (
                                  refl,
                                  (
                                    select_at 27 (some Token.semicolon) 1,
                                    refl,
                                    (refl, (select_at 28 none 0, refl, refl)),
                                  ),
                                ),
                              ),
                            ),
                          ),
                        ),
                      ),
                    ),
                  ),
                ),
              ),
            ),
          ),
        ),
      ),
    ),
  ),
)

column_derived :
    (id : Bytes) → Derives {F = ℕ} (level equality) (Token.identifier id ∷ []) (column id)
column_derived id =
    let ts : List Token = Token.identifier id ∷ [] in
    let e : Expr ℕ = column id in
    level_rule equality ts [] e e
      (level_rule comparison ts [] e e
        (level_rule concatenation ts [] e e (plain_rule ts e (name_rule id))
          (end_rule concatenation e))
        (end_rule comparison e))
      (end_rule equality e)

select-Items :
    Items {F = ℕ}
      (expr_column (column (codes "a")) (some (codes "c")) ∷ all_columns ∷ [])
      select_columns
select-Items =
    more_items (expr_column (column (codes "a")) (some (codes "c"))) (all_columns ∷ [])
      (Token.identifier (codes "a") ∷ Token.identifier (codes "c") ∷ []) (Token.asterisk ∷ [])
      (expr_rule (Token.identifier (codes "a")) [] (Token.identifier (codes "c") ∷ [])
        (column (codes "a")) (some (codes "c")) (column_derived (codes "a"))
        (alias_rule (codes "c")))
      (last_item all_columns (Token.asterisk ∷ []) all_rule)

semicolon-EndsSelect : EndsSelect (some Token.semicolon)
unfolding is_token
semicolon-EndsSelect = (semicolon-Ends, refl)

parse_select-tokens_example :
    Reads
      (parse_select naturals 20 select_start)
      (record {
        selected_table = codes "t";
        result_columns = expr_column (column (codes "a")) (some (codes "c")) ∷ all_columns ∷ [];
        filter = some (column (codes "b"));
      })
      (Token.semicolon ∷ [])
parse_select-tokens_example =
    parse_select-tokens naturals
      (expr_column (column (codes "a")) (some (codes "c")) ∷ all_columns ∷ []) (codes "t")
      (some (column (codes "b"))) select_columns select_where (Token.semicolon ∷ []) 20 select_start
      select-Items
      (where_rule (Token.identifier (codes "b") ∷ []) (column (codes "b"))
        (column_derived (codes "b")))
      semicolon-EndsSelect (omega arith) select-Yields
