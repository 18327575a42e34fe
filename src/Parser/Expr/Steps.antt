-- ===== src/Parser/Expr/Steps.antt =====
-- The loop over the collations of an expression on its tokens.
use prsqlite.Prelude.{
  ℕ, zero, suc, ◌<◌, ◌≡◌, refl, ap, ◌∙◌, false, Option, some, List, ◌∷◌, ◌++◌, arith, length, Bytes,
  [],
}
use prsqlite.Token.Defs.{Token}
use prsqlite.Parser.State.{Parser, is_token, expect_identifier}
use prsqlite.Parser.Yields.{
  head_token, Yields, Reads, Reads-pure, Reads-same, Reads-bind, Reads-next, at_token,
}
use prsqlite.Parser.Expr.{collation_loop, collation_step}
use prsqlite.Parser.Expr.Grammar.{clauses}

-- The collation that the loop ends with.
abbrev pub last_name : Option Bytes → List Bytes → Option Bytes
last_name found [] = found
last_name found (name ∷ names) = last_name (some name) names

pub last_name-append :
    (found : Option Bytes) (names : List Bytes) (last : Bytes)
    → last_name found (names ++ (last ∷ [])) ≡ some last
last_name-append found [] last = refl
last_name-append found (name ∷ names) last = last_name-append (some name) names last

-- The collations are read up to a token that begins none, and the last one counts.
pub collation_loop-clauses :
    (fuel : ℕ) (found : Option Bytes) (names : List Bytes) (rest : List Token) (p : Parser)
    → length names < fuel
    → is_token Token.collate (head_token rest) ≡ false
    → Yields p (clauses names ++ rest)
    → Reads (collation_loop fuel found p) (last_name found names) rest
unfolding collation_loop collation_step is_token expect_identifier
collation_loop-clauses zero found names rest p enough ends y = absurd (omega arith)
collation_loop-clauses (suc fuel) found [] rest p enough ends y =
    let stops = at_token p rest y (λ t. is_token Token.collate t) ∙ ends in
    Reads-same _ _ (ap (λ more. collation_step (collation_loop fuel) found more p) stops)
      (Reads-pure found p rest y)
collation_loop-clauses (suc fuel) found (name ∷ names) rest p enough ends y =
    Reads-same _ _
      (at_token p _ y λ t. collation_step (collation_loop fuel) found (is_token Token.collate t) p)
      (Reads-bind _ _ name _ _ rest
        (Reads-next p Token.collate _ y _ name _ λ q z. Reads-pure name q _ z)
        λ q z.
          Reads-next q (Token.identifier name) _ z _ _ rest
            λ q' z'. collation_loop-clauses fuel (some name) names rest q' (omega arith) ends z')
