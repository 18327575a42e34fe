-- ===== src/Token/Keywords.antt =====
-- Words: keywords in any mixture of cases, and identifiers.
use prsqlite.Prelude.{
  ℕ, zero, suc, ◌+◌, ◌-◌, ◌≤◌, ◌<◌, ◌≡◌, refl, ap, ◌⊎◌, inl, inr, Bool, true, not, ◌||◌, Option,
  none, some, List, [], ◌∷◌, ◌++◌, map, arith,
}
use prsqlite.Prelude.{leb, ◌==◌, if◌then◌else◌, Bool-cases, all_below, all_below_sound}
use prsqlite.Prelude.{length, replicate, every, All, Stops, count_while-append, Bytes, IsBytes}
use prsqlite.Prelude.{ok, slice}
use prsqlite.Prelude.{bytes_eq, bytes_eq_refl, bytes_eq-length_ne, slice-append}
use prsqlite.Utils.Ascii.{lower}
use prsqlite.Token.Chars.{char_code, char_alphabet, char_underscore}
use prsqlite.Token.Defs.{
  Token, identifier, keyword, padded, or_identifier, max_keyword_len, word_token, len_identifier,
  is_identifier_byte, get_token,
}

abbrev pub keywords : List (Bytes × Token)
keywords =
    (b'a' ∷ b's' ∷ [], Token.as_kw)
    ∷ (b'c' ∷ b'a' ∷ b's' ∷ b't' ∷ [], Token.cast)
    ∷ (b'c' ∷ b'o' ∷ b'l' ∷ b'l' ∷ b'a' ∷ b't' ∷ b'e' ∷ [], Token.collate)
    ∷ (b'c' ∷ b'r' ∷ b'e' ∷ b'a' ∷ b't' ∷ b'e' ∷ [], Token.create)
    ∷ (b'f' ∷ b'r' ∷ b'o' ∷ b'm' ∷ [], Token.from)
    ∷ (b'i' ∷ b'n' ∷ b'd' ∷ b'e' ∷ b'x' ∷ [], Token.index_kw)
    ∷ (b'k' ∷ b'e' ∷ b'y' ∷ [], Token.key)
    ∷ (b'n' ∷ b'u' ∷ b'l' ∷ b'l' ∷ [], Token.null)
    ∷ (b'o' ∷ b'n' ∷ [], Token.on)
    ∷ (b'p' ∷ b'r' ∷ b'i' ∷ b'm' ∷ b'a' ∷ b'r' ∷ b'y' ∷ [], Token.primary)
    ∷ (b's' ∷ b'e' ∷ b'l' ∷ b'e' ∷ b'c' ∷ b't' ∷ [], Token.select)
    ∷ (b't' ∷ b'a' ∷ b'b' ∷ b'l' ∷ b'e' ∷ [], Token.table)
    ∷ (b'w' ∷ b'h' ∷ b'e' ∷ b'r' ∷ b'e' ∷ [], Token.where_kw)
    ∷ []

unfoldable pub lookup_keyword : Bytes → List (Bytes × Token) → Option Token
lookup_keyword w [] = none
lookup_keyword w ((k, t) ∷ rest) = if bytes_eq w k then some t else lookup_keyword w rest

-- The token of a word: a keyword if its lower case spells one.
unfoldable pub word : Bytes → Token
word w = or_identifier w (lookup_keyword (map lower w) keywords)

nonzero : Bytes → Bool
nonzero = every (λ b. not (b == 0))

bytes_eq-padded :
    (xs ys : Bytes) (m n : ℕ)
    → nonzero xs ≡ true
    → nonzero ys ≡ true
    → length xs + m ≡ length ys + n
    → bytes_eq (xs ++ replicate m 0) (ys ++ replicate n 0) ≡ bytes_eq xs ys
unfolding bytes_eq nonzero
bytes_eq-padded [] [] m n p q e =
    let h : m ≡ n = omega arith in rw h (bytes_eq_refl (replicate n 0))
bytes_eq-padded [] (y ∷ ys) zero n p q e = refl
bytes_eq-padded [] (y ∷ ys) (suc m) n p q e = ground arith
bytes_eq-padded (x ∷ xs) [] m zero p q e = refl
bytes_eq-padded (x ∷ xs) [] m (suc n) p q e = ground arith
bytes_eq-padded (x ∷ xs) (y ∷ ys) m n p q e = ground (arith, bytes_eq-padded xs ys m n)

length-lower : (xs : Bytes) → length (map lower xs) ≡ length xs
length-lower [] = refl
length-lower (x ∷ xs) = ap suc (length-lower xs)

-- The match on padded arrays finds what the words themselves say.
keyword-padded :
    (id : Bytes)
    → length id ≤ 7
    → nonzero (map lower id) ≡ true
    → keyword (padded id) ≡ lookup_keyword (map lower id) keywords
unfolding keyword lookup_keyword
keyword-padded id h nz = rw (
  own (b'a' ∷ b's' ∷ []) (omega arith) (unfold nonzero in refl),
  own (b'c' ∷ b'a' ∷ b's' ∷ b't' ∷ []) (omega arith) (unfold nonzero in refl),
  own (b'c' ∷ b'o' ∷ b'l' ∷ b'l' ∷ b'a' ∷ b't' ∷ b'e' ∷ []) (omega arith) (unfold nonzero in refl),
  own (b'c' ∷ b'r' ∷ b'e' ∷ b'a' ∷ b't' ∷ b'e' ∷ []) (omega arith) (unfold nonzero in refl),
  own (b'f' ∷ b'r' ∷ b'o' ∷ b'm' ∷ []) (omega arith) (unfold nonzero in refl),
  own (b'i' ∷ b'n' ∷ b'd' ∷ b'e' ∷ b'x' ∷ []) (omega arith) (unfold nonzero in refl),
  own (b'k' ∷ b'e' ∷ b'y' ∷ []) (omega arith) (unfold nonzero in refl),
  own (b'n' ∷ b'u' ∷ b'l' ∷ b'l' ∷ []) (omega arith) (unfold nonzero in refl),
  own (b'o' ∷ b'n' ∷ []) (omega arith) (unfold nonzero in refl),
  own (b'p' ∷ b'r' ∷ b'i' ∷ b'm' ∷ b'a' ∷ b'r' ∷ b'y' ∷ []) (omega arith) (unfold nonzero in refl),
  own (b's' ∷ b'e' ∷ b'l' ∷ b'e' ∷ b'c' ∷ b't' ∷ []) (omega arith) (unfold nonzero in refl),
  own (b't' ∷ b'a' ∷ b'b' ∷ b'l' ∷ b'e' ∷ []) (omega arith) (unfold nonzero in refl),
  own (b'w' ∷ b'h' ∷ b'e' ∷ b'r' ∷ b'e' ∷ []) (omega arith) (unfold nonzero in refl),
)
  where
    own :
        (k : Bytes)
        → length k ≤ 7
        → nonzero k ≡ true
        → bytes_eq (padded id) (k ++ replicate (7 - length k) 0) ≡ bytes_eq (map lower id) k
    own k l nk =
        bytes_eq-padded (map lower id) k (7 - length id) (7 - length k) nz nk
          (omega (arith, length-lower id))

lookup_keyword_long :
    (w : Bytes) (table : List (Bytes × Token))
    → All (λ e. length e.0 ≤ 7) table
    → 7 < length w
    → lookup_keyword w table ≡ none
unfolding lookup_keyword
lookup_keyword_long w [] h l = refl
lookup_keyword_long w ((k, t) ∷ rest) h l =
    rw (bytes_eq-length_ne w k (λ e. absurd (omega arith))) (lookup_keyword_long w rest h.1 l)

-- An identifier byte is not NUL in lower case.
identifier_byte : ℕ → Bool
unfolding char_code lower
identifier_byte c = not (is_identifier_byte c) || not (lower c == 0)

identifier_bytes : all_below identifier_byte 256 ≡ true
unfolding identifier_byte all_below
identifier_bytes = refl

nonzero-lower :
    (cs : Bytes) → IsBytes cs → every is_identifier_byte cs ≡ true → nonzero (map lower cs) ≡ true
unfolding nonzero
nonzero-lower [] h e = refl
nonzero-lower (c ∷ cs) h e =
    let this : is_identifier_byte c ≡ true = ground arith in
    let others : every is_identifier_byte cs ≡ true = ground arith in
    let kept : not (lower c == 0) ≡ true =
      one c this (all_below_sound 256 identifier_byte c identifier_bytes h.0) in
    rw (kept, nonzero-lower cs h.1 others)
  where
    one :
        (c : ℕ) → is_identifier_byte c ≡ true → identifier_byte c ≡ true → not (lower c == 0) ≡ true
    one c p q = unfold identifier_byte in ground arith

choice :
    (w : Bytes)
    → nonzero (map lower w) ≡ true
    → (if leb (length w) max_keyword_len
        then or_identifier w (keyword (padded w))
        else identifier w)
      ≡ word w
unfolding word
choice w nz = elim (Bool-cases (leb (length w) 7)) [
  | inl e ↦ rw (e, keyword-padded w (ground arith) nz)
  | inr e ↦
      rw (
        e,
        lookup_keyword_long (map lower w) keywords (omega arith) (ground (arith, length-lower w)),
      )
]

-- A word of letters, digits, `_` and `$` that begins with a letter other than x or with `_`, up to the
-- first byte of another kind, is one token: the keyword that it spells in any mixture of cases, or else
-- an identifier with its bytes.
pub get_token-word :
    (c : ℕ) (cs rest : Bytes)
    → (char_code c ≡ char_alphabet) ⊎ (char_code c ≡ char_underscore)
    → IsBytes (c ∷ cs)
    → every is_identifier_byte cs ≡ true
    → Stops is_identifier_byte rest
    → get_token ((c ∷ cs) ++ rest) ≡ ok (some (length (c ∷ cs), word (c ∷ cs)))
unfolding get_token
get_token-word c cs rest k bytes letters ends =
    let len : len_identifier ((c ∷ cs) ++ rest) ≡ length (c ∷ cs) =
      unfold len_identifier in
      ap suc (count_while-append is_identifier_byte cs rest letters ends) in
    let cut : slice ((c ∷ cs) ++ rest) 0 (length (c ∷ cs)) ≡ ok (c ∷ cs) =
      let n : 0 + suc (length cs) ≡ suc (length cs) = omega arith in
      rw n at (slice-append [] (c ∷ cs) rest) in
    let first : is_identifier_byte c ≡ true = ground arith in
    let nz : nonzero (map lower (c ∷ cs)) ≡ true =
      nonzero-lower (c ∷ cs) bytes (rw (first, letters)) in
    let token : word_token ((c ∷ cs) ++ rest) ≡ ok (length (c ∷ cs), word (c ∷ cs)) =
      unfold word_token in rw (len, cut, choice (c ∷ cs) nz) in
    elim k [ inl e ↦ rw (e, token) | inr e ↦ rw (e, token) ]
