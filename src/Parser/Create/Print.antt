-- ===== src/Parser/Create/Print.antt =====
-- The tokens of CREATE TABLE and CREATE INDEX, in front of the tokens that follow.
use prsqlite.Prelude.{
  ◌+◌, ◌*◌, ◌≡◌, refl, false, List, ◌∷◌, ◌++◌, arith, length, length-append, Bytes, [],
}
use prsqlite.Token.Defs.{
  Token, collate, create, index_kw, key, on, primary, table, left_paren, right_paren, comma,
  identifier,
}
use prsqlite.Parser.State.{is_token}
use prsqlite.Parser.Create.{ColumnConstraint, collate_constraint, primary_key_constraint, ColumnDef}
use prsqlite.Parser.Yields.{head_token}
use prsqlite.Parser.Words.{words, words-length, EndsName}

abbrev pub constraint_tokens : List ColumnConstraint → List Token → List Token
constraint_tokens [] rest = rest
constraint_tokens (collate_constraint name ∷ cs) rest =
    collate ∷ identifier name ∷ constraint_tokens cs rest
constraint_tokens (primary_key_constraint ∷ cs) rest = primary ∷ key ∷ constraint_tokens cs rest

abbrev pub column_tokens : ColumnDef → List Token → List Token
column_tokens d rest =
    identifier d.column_name ∷ (words d.type_name ++ constraint_tokens d.constraints rest)

-- A column and the others.
abbrev pub columns_tokens : ColumnDef → List ColumnDef → List Token → List Token
columns_tokens d [] rest = column_tokens d rest
columns_tokens d (d' ∷ ds) rest = column_tokens d (comma ∷ columns_tokens d' ds rest)

abbrev pub create_table_tokens : Bytes → ColumnDef → List ColumnDef → List Token → List Token
create_table_tokens name d ds rest =
    create ∷ table ∷ identifier name ∷ left_paren ∷ columns_tokens d ds (right_paren ∷ rest)

abbrev pub indexed_tokens : Bytes → List Bytes → List Token → List Token
indexed_tokens name [] rest = identifier name ∷ rest
indexed_tokens name (name' ∷ names) rest = identifier name ∷ comma ∷ indexed_tokens name' names rest

abbrev pub create_index_tokens : Bytes → Bytes → Bytes → List Bytes → List Token → List Token
create_index_tokens name on_table column others rest =
    create
    ∷ index_kw
    ∷ identifier name
    ∷ on
    ∷ identifier on_table
    ∷ left_paren
    ∷ indexed_tokens column others (right_paren ∷ rest)

-- What follows a column.
abbrev pub EndsColumn : List Token → Type 0
EndsColumn rest =
    EndsName (head_token rest)
    × (is_token collate (head_token rest) ≡ false)
    × (is_token primary (head_token rest) ≡ false)

pub comma-EndsColumn : (rest : List Token) → EndsColumn (comma ∷ rest)
unfolding is_token
comma-EndsColumn rest = ((refl, refl), refl, refl)

pub right_paren-EndsColumn : (rest : List Token) → EndsColumn (right_paren ∷ rest)
unfolding is_token
right_paren-EndsColumn rest = ((refl, refl), refl, refl)

pub constraint_tokens-EndsName :
    (cs : List ColumnConstraint) (rest : List Token)
    → EndsColumn rest
    → EndsName (head_token (constraint_tokens cs rest))
unfolding is_token
constraint_tokens-EndsName [] rest ends = ends.0
constraint_tokens-EndsName (collate_constraint name ∷ cs) rest ends = (refl, refl)
constraint_tokens-EndsName (primary_key_constraint ∷ cs) rest ends = (refl, refl)

constraint_tokens-length :
    (cs : List ColumnConstraint) (rest : List Token)
    → length (constraint_tokens cs rest) ≡ 2 * length cs + length rest
constraint_tokens-length [] rest = omega arith
constraint_tokens-length (collate_constraint name ∷ cs) rest =
    omega (arith, constraint_tokens-length cs rest)
constraint_tokens-length (primary_key_constraint ∷ cs) rest =
    omega (arith, constraint_tokens-length cs rest)

pub column_tokens-length :
    (d : ColumnDef) (rest : List Token)
    → length (column_tokens d rest)
      ≡ 1 + length d.type_name + 2 * length d.constraints + length rest
column_tokens-length d rest = omega (
  arith,
  length-append (words d.type_name) (constraint_tokens d.constraints rest),
  words-length d.type_name,
  constraint_tokens-length d.constraints rest,
)
