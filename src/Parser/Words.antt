-- ===== src/Parser/Words.antt =====
-- A type name on its tokens.
use prsqlite.Prelude.{
  ℕ, zero, suc, ◌<◌, ◌≡◌, refl, sym, ap, ◌∙◌, false, Option, none, List, ◌∷◌, ◌++◌, map,
  append_assoc, append-nil, arith, length, Bytes, [],
}
use mathlib.Core.Path.{subst}
use prsqlite.Token.Defs.{Token}
use prsqlite.Parser.State.{done, is_token}
use prsqlite.Parser.Names.{parse_type_name, type_from, type_loop, type_step, type_word}
use prsqlite.Parser.State.{Parser}
use prsqlite.Parser.Yields.{head_token, Yields, Reads, Reads-pure, Reads-same, Reads-next, at_token}

abbrev pub words : List Bytes → List Token
words = map Token.identifier

pub words-length : (names : List Bytes) → length (words names) ≡ length names
words-length [] = refl
words-length (name ∷ names) = ap suc (words-length names)

-- What ends a type name: no word of it, and no left parenthesis.
abbrev pub EndsName : Option Token → Type 0
EndsName t = (type_word t ≡ none) × (is_token Token.left_paren t ≡ false)

type_loop-words :
    (fuel : ℕ) (before names : List Bytes) (t : Token) (rest : List Token) (p : Parser)
    → length names < fuel
    → EndsName (head_token rest)
    → Yields p (t ∷ (words names ++ rest))
    → Reads (type_loop fuel before p) (before ++ names) rest
unfolding type_loop type_step is_token
type_loop-words zero before names t rest p enough ends y = absurd (omega arith)
type_loop-words (suc fuel) before [] t rest p enough (no_word, no_paren) y =
    Reads-next p t rest y _ (before ++ []) rest λ q z.
      rw (no_word, no_paren)
        (Reads-same (before ++ []) rest (ap (λ names. done names q) (sym (append-nil before)))
          (Reads-pure (before ++ []) q rest z))
type_loop-words (suc fuel) before (name ∷ names) t rest p enough ends y =
    Reads-next p t (words (name ∷ names) ++ rest) y _ _ _ λ q z.
      subst (λ all. Reads (type_loop fuel (before ++ (name ∷ [])) q) all rest)
        (append_assoc before (name ∷ []) names)
        (type_loop-words fuel (before ++ (name ∷ [])) names (Token.identifier name) rest q
          (omega arith) ends z)

-- The words of a type name are read up to what ends it.
pub parse_type_name-words :
    (fuel : ℕ) (names : List Bytes) (rest : List Token) (p : Parser)
    → length names < fuel
    → EndsName (head_token rest)
    → Yields p (words names ++ rest)
    → Reads (parse_type_name fuel p) names rest
unfolding parse_type_name type_from
parse_type_name-words fuel [] rest p enough (no_word, no_paren) y =
    let none_here = at_token p rest y type_word ∙ no_word in
    Reads-same [] rest (ap (λ w. type_from fuel w p) none_here) (Reads-pure [] p rest y)
parse_type_name-words fuel (name ∷ names) rest p enough ends y =
    Reads-same (name ∷ names) rest
      (at_token p (words (name ∷ names) ++ rest) y λ t. type_from fuel (type_word t) p)
      (type_loop-words fuel (name ∷ []) names (Token.identifier name) rest p (omega arith) ends y)
