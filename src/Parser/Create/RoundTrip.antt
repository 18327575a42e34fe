-- ===== src/Parser/Create/RoundTrip.antt =====
-- CREATE TABLE and CREATE INDEX on their tokens.
use prsqlite.Prelude.{ℕ, ◌+◌, ◌<◌, refl, List, ◌∷◌, arith, length, Bytes, []}
use prsqlite.Token.Defs.{Token, create, index_kw, on, table, left_paren, right_paren, identifier}
use prsqlite.Parser.State.{
  Parser, is_token, tag, no_create, no_table, no_table_name, no_left_paren, no_index, no_index_name,
  no_on,
}
use prsqlite.Parser.Yields.{Yields, Reads, Reads-pure, Reads-bind, Reads-next}
use prsqlite.Parser.Expect.{expect_identifier-Reads, expect_next-Reads, expect_peek-Reads}
use prsqlite.Parser.Create.{
  ColumnDef, CreateTable, CreateIndex, parse_create_table, parse_create_index,
}
use prsqlite.Parser.Create.Print.{
  columns_tokens, create_table_tokens, indexed_tokens, create_index_tokens,
}
use prsqlite.Parser.Create.Columns.{columns_loop-Reads, indexed_loop-Reads}

-- CREATE TABLE with at least one column, each with any words of a type and any constraints: written as
-- tokens and parsed, it is the same statement, and what follows is left. The fuel is more than the tokens.
pub parse_create_table-tokens :
    (name : Bytes) (d : ColumnDef) (ds : List ColumnDef) (rest : List Token) (fuel : ℕ) (p : Parser)
    → length (create_table_tokens name d ds rest) < fuel
    → Yields p (create_table_tokens name d ds rest)
    → Reads (parse_create_table fuel p) (record { created_table = name; columns = d ∷ ds }) rest
unfolding parse_create_table is_token tag
parse_create_table-tokens name d ds rest fuel p enough y =
    let out : CreateTable = record { created_table = name; columns = d ∷ ds } in
    let end : List Token = right_paren ∷ rest in
    let body : List Token = left_paren ∷ columns_tokens d ds end in
    Reads-bind _ _ tt out (create_table_tokens name d ds rest) rest
      (expect_peek-Reads create no_create (table ∷ identifier name ∷ body) p refl y)
      λ p₁ y₁.
        Reads-bind _ _ tt out (table ∷ identifier name ∷ body) rest
          (expect_next-Reads table create no_table (identifier name ∷ body) p₁ refl y₁)
          λ p₂ y₂.
            Reads-bind _ _ name out (identifier name ∷ body) rest
              (expect_identifier-Reads name table no_table_name body p₂ y₂)
              λ p₃ y₃.
                Reads-bind _ _ tt out body rest
                  (expect_next-Reads left_paren (identifier name) no_left_paren
                    (columns_tokens d ds end) p₃ refl y₃)
                  λ p₄ y₄.
                    Reads-bind _ _ (d ∷ ds) out end rest
                      (columns_loop-Reads fuel [] d ds left_paren rest p₄ (omega arith) y₄)
                      λ p₅ y₅.
                        Reads-next p₅ right_paren rest y₅ _ out rest
                          λ p₆ y₆. Reads-pure out p₆ rest y₆

-- CREATE INDEX with at least one column: written as tokens and parsed, it is the same statement, and what
-- follows is left. The fuel is more than one for each column.
pub parse_create_index-tokens :
    (name on_table column : Bytes) (others : List Bytes) (rest : List Token) (fuel : ℕ) (p : Parser)
    → length others + 1 < fuel
    → Yields p (create_index_tokens name on_table column others rest)
    → Reads
        (parse_create_index fuel p)
        (record { index_name = name; indexed_table = on_table; indexed_columns = column ∷ others })
        rest
unfolding parse_create_index is_token tag
parse_create_index-tokens name on_table column others rest fuel p enough y =
    let out : CreateIndex = record {
      index_name = name;
      indexed_table = on_table;
      indexed_columns = column ∷ others;
    } in
    let end : List Token = right_paren ∷ rest in
    let body : List Token = left_paren ∷ indexed_tokens column others end in
    let target : List Token = on ∷ identifier on_table ∷ body in
    Reads-bind _ _ tt out (create_index_tokens name on_table column others rest) rest
      (expect_peek-Reads create no_create (index_kw ∷ identifier name ∷ target) p refl y)
      λ p₁ y₁.
        Reads-bind _ _ tt out (index_kw ∷ identifier name ∷ target) rest
          (expect_next-Reads index_kw create no_index (identifier name ∷ target) p₁ refl y₁)
          λ p₂ y₂.
            Reads-bind _ _ name out (identifier name ∷ target) rest
              (expect_identifier-Reads name index_kw no_index_name target p₂ y₂)
              λ p₃ y₃.
                Reads-bind _ _ tt out target rest
                  (expect_next-Reads on (identifier name) no_on (identifier on_table ∷ body) p₃ refl
                    y₃)
                  λ p₄ y₄.
                    Reads-bind _ _ on_table out (identifier on_table ∷ body) rest
                      (expect_identifier-Reads on_table on no_table_name body p₄ y₄)
                      λ p₅ y₅.
                        Reads-bind _ _ tt out body rest
                          (expect_next-Reads left_paren (identifier on_table) no_left_paren
                            (indexed_tokens column others end) p₅ refl y₅)
                          λ p₆ y₆.
                            Reads-bind _ _ (column ∷ others) out end rest
                              (indexed_loop-Reads fuel [] column others left_paren rest p₆ enough
                                y₆)
                              λ p₇ y₇.
                                Reads-next p₇ right_paren rest y₇ _ out rest
                                  λ p₈ y₈. Reads-pure out p₈ rest y₈
