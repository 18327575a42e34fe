-- ===== src/Parser/Expect.antt =====
-- What the code expects, where it is there.
use prsqlite.Prelude.{◌≡◌, ◌∙◌, true, some, List, ◌∷◌, Bytes}
use prsqlite.Token.Defs.{Token}
use prsqlite.Parser.State.{Message, Parser, is_token, expect_next, expect_peek, expect_identifier}
use prsqlite.Parser.Yields.{Yields, Reads, Reads-pure, Reads-next, at_token}

pub expect_next-Reads :
    (t u : Token) (m : Message) (rest : List Token) (p : Parser)
    → is_token t (some t) ≡ true
    → Yields p (u ∷ t ∷ rest)
    → Reads (expect_next t m p) tt (t ∷ rest)
unfolding expect_next
expect_next-Reads t u m rest p same y =
    Reads-next p u (t ∷ rest) y _ tt (t ∷ rest) λ q z. rw same (Reads-pure tt q (t ∷ rest) z)

pub expect_peek-Reads :
    (t : Token) (m : Message) (rest : List Token) (p : Parser)
    → is_token t (some t) ≡ true
    → Yields p (t ∷ rest)
    → Reads (expect_peek t m p) tt (t ∷ rest)
unfolding expect_peek
expect_peek-Reads t m rest p same y =
    let there = at_token p (t ∷ rest) y (λ u. is_token t u) ∙ same in
    rw there (Reads-pure tt p (t ∷ rest) y)

pub expect_identifier-Reads :
    (name : Bytes) (u : Token) (m : Message) (rest : List Token) (p : Parser)
    → Yields p (u ∷ Token.identifier name ∷ rest)
    → Reads (expect_identifier m p) name (Token.identifier name ∷ rest)
unfolding expect_identifier
expect_identifier-Reads name u m rest p y =
    Reads-next p u (Token.identifier name ∷ rest) y _ name (Token.identifier name ∷ rest)
      λ q z. Reads-pure name q (Token.identifier name ∷ rest) z
