-- ===== src/Parser/Create/Columns.antt =====
-- The columns of CREATE TABLE and CREATE INDEX on their tokens.
use prsqlite.Prelude.{
  ℕ, zero, suc, ◌+◌, ◌<◌, ◌≡◌, refl, sym, ap, ◌∙◌, false, Option, none, some, List, ◌∷◌, ◌++◌,
  append_assoc, append-nil, arith, length, Bytes, [],
}
use mathlib.Core.Path.{subst}
use prsqlite.Token.Defs.{Token, collate, key, primary, right_paren, comma, identifier}
use prsqlite.Parser.State.{
  Parser, Outcome, done, bind, is_token, tag, pure, no_column_name, no_collation_name,
  no_key_after_primary,
}
use prsqlite.Parser.Yields.{
  head_token, Yields, Reads, Reads-pure, Reads-same, Reads-bind, Reads-next, at_token,
}
use prsqlite.Parser.Words.{words, parse_type_name-words}
use prsqlite.Parser.Expect.{expect_identifier-Reads, expect_next-Reads}
use prsqlite.Parser.Create.{
  ColumnConstraint, collate_constraint, primary_key_constraint, ColumnDef, collate_clause,
  primary_clause, parse_column_constraint, constraint_at, constraints_step, constraints_loop,
  parse_column_def, columns_loop, columns_step, indexed_loop, indexed_step,
}
use prsqlite.Parser.Create.Print.{
  constraint_tokens, column_tokens, columns_tokens, indexed_tokens, EndsColumn, comma-EndsColumn,
  right_paren-EndsColumn, constraint_tokens-EndsName, column_tokens-length,
}

-- A list that grows at its end.
pub Reads-grown :
    {A : Type 0} (r : Outcome (List A)) (before : List A) (a : A) (others : List A)
    (rest : List Token)
    → Reads r ((before ++ (a ∷ [])) ++ others) rest
    → Reads r (before ++ (a ∷ others)) rest
Reads-grown r before a others rest read =
    subst (λ all. Reads r all rest) (append_assoc before (a ∷ []) others) read

Reads-none_more :
    {A : Type 0} (before : List A) (p : Parser) (rest : List Token)
    → Yields p rest
    → Reads (done before p) (before ++ []) rest
Reads-none_more before p rest y =
    Reads-same (before ++ []) rest (ap (λ all. done all p) (sym (append-nil before)))
      (Reads-pure (before ++ []) p rest y)

constraint_at-none :
    (t : Option Token)
    → is_token collate t ≡ false
    → is_token primary t ≡ false
    → constraint_at t ≡ pure none
unfolding constraint_at is_token tag
constraint_at-none none c p = refl
constraint_at-none (some collate) c p = cc
constraint_at-none (some primary) c p = cc
constraint_at-none (some t) c p = refl

collate_clause-Reads :
    (name : Bytes) (rest : List Token) (p : Parser)
    → Yields p (collate ∷ identifier name ∷ rest)
    → Reads (constraint_at p.token p) (some (collate_constraint name)) rest
unfolding constraint_at collate_clause
collate_clause-Reads name rest p y =
    let out : ColumnConstraint = collate_constraint name in
    Reads-same (some out) rest
      (at_token p (collate ∷ identifier name ∷ rest) y λ t. constraint_at t p)
      (Reads-bind _ _ out (some out) rest rest
        (Reads-bind _ _ name out (identifier name ∷ rest) rest
          (expect_identifier-Reads name collate no_collation_name rest p y)
          λ q z.
            Reads-next q (identifier name) rest z _ out rest λ q₁ z₁. Reads-pure out q₁ rest z₁)
        λ q₂ z₂. Reads-pure (some out) q₂ rest z₂)

primary_clause-Reads :
    (rest : List Token) (p : Parser)
    → Yields p (primary ∷ key ∷ rest)
    → Reads (constraint_at p.token p) (some primary_key_constraint) rest
unfolding constraint_at primary_clause is_token tag
primary_clause-Reads rest p y =
    let out : ColumnConstraint = primary_key_constraint in
    Reads-same (some out) rest (at_token p (primary ∷ key ∷ rest) y λ t. constraint_at t p) (
      Reads-bind _ _ out (some out) rest rest
        (Reads-bind _ _ tt out (key ∷ rest) rest
          (expect_next-Reads key primary no_key_after_primary rest p refl y)
          λ q z. Reads-next q key rest z _ out rest λ q₁ z₁. Reads-pure out q₁ rest z₁)
        λ q₂ z₂. Reads-pure (some out) q₂ rest z₂)

constraints_loop-Reads :
    (fuel : ℕ) (found cs : List ColumnConstraint) (rest : List Token) (p : Parser)
    → length cs < fuel
    → EndsColumn rest
    → Yields p (constraint_tokens cs rest)
    → Reads (constraints_loop fuel found p) (found ++ cs) rest
unfolding constraints_loop parse_column_constraint constraints_step
constraints_loop-Reads zero found cs rest p enough ends y = absurd (omega arith)
constraints_loop-Reads (suc fuel) found [] rest p enough ends y =
    let stops =
      at_token p rest y (λ t. constraint_at t p)
      ∙ ap (λ r. r p) (constraint_at-none (head_token rest) ends.1 ends.2) in
    Reads-same (found ++ []) rest
      (ap (λ r. bind r (constraints_step (constraints_loop fuel) found)) stops)
      (Reads-none_more found p rest y)
constraints_loop-Reads (suc fuel) found (collate_constraint name ∷ cs) rest p enough ends y =
    Reads-bind _ _ (some (collate_constraint name)) (found ++ (collate_constraint name ∷ cs))
      (constraint_tokens cs rest) rest (collate_clause-Reads name (constraint_tokens cs rest) p y)
      λ q z. Reads-grown _ found (collate_constraint name) cs rest (
        constraints_loop-Reads fuel (found ++ (collate_constraint name ∷ [])) cs rest q
          (omega arith) ends z)
constraints_loop-Reads (suc fuel) found (primary_key_constraint ∷ cs) rest p enough ends y =
    Reads-bind _ _ (some primary_key_constraint) (found ++ (primary_key_constraint ∷ cs))
      (constraint_tokens cs rest) rest (primary_clause-Reads (constraint_tokens cs rest) p y)
      λ q z. Reads-grown _ found primary_key_constraint cs rest (
        constraints_loop-Reads fuel (found ++ (primary_key_constraint ∷ [])) cs rest q (omega arith)
          ends z)

parse_column_def-Reads :
    (fuel : ℕ) (d : ColumnDef) (u : Token) (rest : List Token) (p : Parser)
    → length d.type_name < fuel
    → length d.constraints < fuel
    → EndsColumn rest
    → Yields p (u ∷ column_tokens d rest)
    → Reads (parse_column_def fuel p) d rest
unfolding parse_column_def
parse_column_def-Reads fuel d u rest p few_words few_constraints ends y =
    let behind : List Token = constraint_tokens d.constraints rest in
    Reads-bind _ _ d.column_name d (column_tokens d rest) rest
      (expect_identifier-Reads d.column_name u no_column_name (words d.type_name ++ behind) p y)
      λ q z.
        Reads-next q (identifier d.column_name) (words d.type_name ++ behind) z _ d rest λ q₁ z₁.
          Reads-bind _ _ d.type_name d behind rest
            (parse_type_name-words fuel d.type_name behind q₁ few_words
              (constraint_tokens-EndsName d.constraints rest ends) z₁)
            λ q₂ z₂.
              Reads-bind _ _ d.constraints d rest rest
                (constraints_loop-Reads fuel [] d.constraints rest q₂ few_constraints ends z₂)
                λ q₃ z₃. Reads-pure d q₃ rest z₃

-- The columns of a table, up to the right parenthesis.
pub columns_loop-Reads :
    (fuel : ℕ) (before : List ColumnDef) (d : ColumnDef) (ds : List ColumnDef) (u : Token)
    (rest : List Token) (p : Parser)
    → length (columns_tokens d ds (right_paren ∷ rest)) < fuel
    → Yields p (u ∷ columns_tokens d ds (right_paren ∷ rest))
    → Reads (columns_loop fuel before p) (before ++ (d ∷ ds)) (right_paren ∷ rest)
unfolding columns_loop columns_step is_token tag
columns_loop-Reads zero before d ds u rest p enough y = absurd (omega arith)
columns_loop-Reads (suc fuel) before d [] u rest p enough y =
    let size = column_tokens-length d (right_paren ∷ rest) in
    let end : List Token = right_paren ∷ rest in
    let all : List ColumnDef = before ++ (d ∷ []) in
    Reads-bind _ _ d all end end
      (parse_column_def-Reads fuel d u end p (omega (arith, size)) (omega (arith, size))
        (right_paren-EndsColumn rest) y)
      λ q z.
        Reads-same all end (at_token q end z λ t. columns_step (columns_loop fuel) all t q)
          (Reads-pure all q end z)
columns_loop-Reads (suc fuel) before d (d' ∷ ds) u rest p enough y =
    let end : List Token = right_paren ∷ rest in
    let others : List Token = columns_tokens d' ds end in
    let size = column_tokens-length d (comma ∷ others) in
    let all : List ColumnDef = before ++ (d ∷ d' ∷ ds) in
    let here : List ColumnDef = before ++ (d ∷ []) in
    Reads-bind _ _ d all (comma ∷ others) end
      (parse_column_def-Reads fuel d u (comma ∷ others) p (omega (arith, size))
        (omega (arith, size)) (comma-EndsColumn others) y)
      λ q z.
        Reads-same all end
          (at_token q (comma ∷ others) z λ t. columns_step (columns_loop fuel) here t q)
          (Reads-grown _ before d (d' ∷ ds) end
            (columns_loop-Reads fuel here d' ds comma rest q (omega (arith, size)) z))

-- The columns of an index, up to the right parenthesis.
pub indexed_loop-Reads :
    (fuel : ℕ) (before : List Bytes) (name : Bytes) (names : List Bytes) (u : Token)
    (rest : List Token) (p : Parser)
    → length names + 1 < fuel
    → Yields p (u ∷ indexed_tokens name names (right_paren ∷ rest))
    → Reads (indexed_loop fuel before p) (before ++ (name ∷ names)) (right_paren ∷ rest)
unfolding indexed_loop indexed_step is_token tag
indexed_loop-Reads zero before name names u rest p enough y = absurd (omega arith)
indexed_loop-Reads (suc fuel) before name [] u rest p enough y =
    let end : List Token = right_paren ∷ rest in
    let all : List Bytes = before ++ (name ∷ []) in
    Reads-bind _ _ name all (identifier name ∷ end) end
      (expect_identifier-Reads name u no_column_name end p y)
      λ q z. Reads-next q (identifier name) end z _ all end λ q₁ z₁. Reads-pure all q₁ end z₁
indexed_loop-Reads (suc fuel) before name (name' ∷ names) u rest p enough y =
    let end : List Token = right_paren ∷ rest in
    let others : List Token = comma ∷ indexed_tokens name' names end in
    let all : List Bytes = before ++ (name ∷ name' ∷ names) in
    Reads-bind _ _ name all (identifier name ∷ others) end
      (expect_identifier-Reads name u no_column_name others p y)
      λ q z. Reads-next q (identifier name) others z _ all end λ q₁ z₁.
        Reads-grown _ before name (name' ∷ names) end (
          indexed_loop-Reads fuel (before ++ (name ∷ [])) name' names comma rest q₁ (omega arith)
            z₁)
