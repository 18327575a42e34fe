-- ===== src/Parser/Yields.antt =====
-- The tokens that are still to come for a parser.
use prsqlite.Prelude.{◌≡◌, refl, ap, ◌∙◌, Option, none, some, List, ◌∷◌, []}
use prsqlite.Token.Defs.{Token}
use prsqlite.Parser.State.{Parser, Outcome, done, Parse, bind, next}

abbrev pub head_token : List Token → Option Token
head_token [] = none
head_token (t ∷ ts) = some t

-- The token at the cursor and the tokens that `next` finds one after the other.
unfoldable pub Yields : Parser → List Token → Type 0
Yields p [] = p.token ≡ none
Yields p (t ∷ ts) = (p.token ≡ some t) × ((q : Parser) × (next p ≡ done q.token q) × Yields q ts)

pub Yields-head : (p : Parser) (ts : List Token) → Yields p ts → p.token ≡ head_token ts
unfolding Yields
Yields-head p [] y = y
Yields-head p (t ∷ ts) y = y.0

-- A parser reads tokens where it gives a value and leaves what follows.
unfoldable pub Reads {ℓ} : {A : Type ℓ} → Outcome A → A → List Token → Type ℓ
Reads {A = A} r a rest = (q : Parser) × (r ≡ done a q) × Yields q rest

pub Reads-pure {ℓ} :
    {A : Type ℓ} (a : A) (p : Parser) (ts : List Token) → Yields p ts → Reads (done a p) a ts
unfolding Reads
Reads-pure a p ts y = (p, refl, y)

pub Reads-same {ℓ} :
    {A : Type ℓ} {r s : Outcome A} (a : A) (rest : List Token)
    → r ≡ s
    → Reads s a rest
    → Reads r a rest
unfolding Reads
Reads-same a rest e (q, read, y) = (q, e ∙ read, y)

pub Reads-bind {ℓ κ} :
    {A : Type ℓ} {B : Type κ} (r : Outcome A) (f : A → Parse B) (a : A) (b : B)
    (ts rest : List Token)
    → Reads r a ts
    → ((q : Parser) → Yields q ts → Reads (f a q) b rest)
    → Reads (bind r f) b rest
unfolding Reads
Reads-bind r f a b ts rest (q, read, y) k = Reads-same b rest (ap (λ s. bind s f) read) (k q y)

-- What a step at the cursor gives, once the token there is known.
pub at_token {ℓ} :
    {A : Type ℓ} (p : Parser) (ts : List Token)
    → Yields p ts
    → (f : Option Token → A) → f p.token ≡ f (head_token ts)
at_token p ts y f = ap f (Yields-head p ts y)

-- `next`, and what follows.
pub Reads-next {ℓ} :
    {A : Type ℓ} (p : Parser) (t : Token) (ts : List Token)
    → Yields p (t ∷ ts)
    → (f : Option Token → Parse A) (a : A) (rest : List Token)
    → ((q : Parser) → Yields q ts → Reads (f (head_token ts) q) a rest)
    → Reads (bind (next p) f) a rest
unfolding Yields
Reads-next p t ts (here, (q, moved, y)) f a rest k =
    Reads-same a rest (ap (λ r. bind r f) moved)
      (Reads-same a rest (ap (λ u. f u q) (Yields-head q ts y)) (k q y))
