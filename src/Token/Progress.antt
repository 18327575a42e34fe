-- ===== src/Token/Progress.antt =====
-- `get_token` never panics and takes at least one byte, at most all.
use prsqlite.Prelude.{
  ℕ, suc, ◌+◌, ◌≤◌, ◌<◌, ◌≡◌, refl, ◌≢◌, inl, inr, Bool, true, false, not, ◌&&◌, ◌||◌, some, ◌∷◌,
  arith, [], ◌>>=◌,
}
use prsqlite.Prelude.{◌==◌, if◌then◌else◌, Bool-cases, all_below, all_below_sound}
use prsqlite.Prelude.{length, drop, count_while, length-drop, count_while-le-length, Bytes, IsByte}
use prsqlite.Prelude.{Result, ok, err, panic, ◌>>=◌}
use prsqlite.Prelude.{slice-ok}
use prsqlite.Utils.Ascii.{is_space, is_ascii_digit}
use prsqlite.Token.Chars.{char_code}
use prsqlite.Token.Defs.{
  Token, second_is, len_identifier, len_exponent_digits, len_exponent, len_fraction, len_tail,
  len_float, space_token, dot_token, less_token, vacuum, blob_loop, x_token, word_token,
  digit_token, quoted, quote_loop, bracket_loop, token_of, get_token, is_identifier_byte,
}

-- The lexer returned, and took between one byte and the whole input.
abbrev pub Takes : ℕ → Result (ℕ × Token) → Type 0
Takes total (ok (n, t)) = (1 ≤ n) × (n ≤ total)
Takes total (err e) = ⊥
Takes total panic = ⊥

len_exponent_digits-le : (len : ℕ) (bs : Bytes) → (len_exponent_digits len bs).0 ≤ len + length bs
unfolding len_exponent_digits
len_exponent_digits-le len [] = omega arith
len_exponent_digits-le len (b ∷ bs) = ground (arith, count_while-le-length is_ascii_digit bs)

len_exponent-le : (len : ℕ) (bs : Bytes) → (len_exponent len bs).0 ≤ len + length bs
unfolding len_exponent
len_exponent-le len [] = omega arith
len_exponent-le len (b ∷ bs) =
    ground (arith, len_exponent_digits-le (len + 1) bs, len_exponent_digits-le len (b ∷ bs))

len_tail-le : (len : ℕ) (bs : Bytes) → (len_tail len bs).0 ≤ len + length bs
unfolding len_tail
len_tail-le len [] = omega arith
len_tail-le len (b ∷ bs) = ground (arith, len_exponent-le (len + 1) bs)

len_exponent_digits-ge : (len : ℕ) (bs : Bytes) → len ≤ (len_exponent_digits len bs).0
unfolding len_exponent_digits
len_exponent_digits-ge len [] = omega arith
len_exponent_digits-ge len (b ∷ bs) = ground arith

len_exponent-ge : (len : ℕ) (bs : Bytes) → len ≤ (len_exponent len bs).0
unfolding len_exponent
len_exponent-ge len [] = omega arith
len_exponent-ge len (b ∷ bs) =
    ground (arith, len_exponent_digits-ge (len + 1) bs, len_exponent_digits-ge len (b ∷ bs))

len_tail-ge : (len : ℕ) (bs : Bytes) → len ≤ (len_tail len bs).0
unfolding len_tail
len_tail-ge len [] = omega arith
len_tail-ge len (b ∷ bs) = ground (arith, len_exponent-ge (len + 1) bs)

len_fraction-le : (bs : Bytes) → len_fraction bs ≤ length bs
unfolding len_fraction
len_fraction-le [] = omega arith
len_fraction-le (b ∷ bs) = ground (arith, count_while-le-length is_ascii_digit bs)

pub len_float-le : (bs : Bytes) → (len_float bs).0 ≤ length bs
unfolding len_float
len_float-le bs = omega (
  arith,
  len_tail-le (len_fraction bs) (drop (len_fraction bs) bs),
  len_fraction-le bs,
  length-drop (len_fraction bs) bs,
)

pub len_identifier-le :
    (c : ℕ) (cs : Bytes)
    → (1 ≤ len_identifier (c ∷ cs)) × (len_identifier (c ∷ cs) ≤ suc (length cs))
unfolding len_identifier
len_identifier-le c cs = omega (arith, count_while-le-length is_identifier_byte cs)

module _ (total : ℕ) (room : 2 ≤ total) where
  vacuum-Takes :
      (i : ℕ) (bs : Bytes) → i + 2 + length bs ≤ total → Takes total (ok (vacuum total i bs))
  unfolding vacuum
  vacuum-Takes i [] h = (omega arith, omega arith)
  vacuum-Takes i (b ∷ bs) h = ground (arith, vacuum-Takes (i + 1) bs (omega arith))

blob_loop-Takes :
    (input : Bytes) (i : ℕ) (bs : Bytes)
    → length input ≡ i + 2 + length bs
    → Takes (length input) (blob_loop input i bs)
unfolding blob_loop
blob_loop-Takes input i [] h = (omega arith, omega arith)
blob_loop-Takes input i (b ∷ bs) h = ground (
  arith,
  blob_loop-Takes input (i + 1) bs (omega arith),
  vacuum-Takes (length input) (omega arith) (i + 1) bs (omega arith),
  slice-ok {0} input 2 (i + 2),
)

quoted-Takes :
    (input : Bytes) (d i : ℕ) → i + 1 ≤ length input → Takes (length input) (quoted input d i)
unfolding quoted
quoted-Takes input d i h = rw (slice-ok input 0 (i + 1) (omega arith) h) (omega arith, omega arith)

quote_loop-Takes :
    (input : Bytes) (d i : ℕ) (bs : Bytes)
    → 1 ≤ i
    → length input ≡ i + length bs
    → Takes (length input) (quote_loop input d i bs)
unfolding quote_loop
quote_loop-Takes input d i [] h e = (omega arith, omega arith)
quote_loop-Takes input d i (b ∷ []) h e = ground (arith, quoted-Takes input d i (omega arith))
quote_loop-Takes input d i (b ∷ c ∷ rest) h e = ground (
  arith,
  quote_loop-Takes input d (i + 2) rest (omega arith) (omega arith),
  quote_loop-Takes input d (i + 1) (c ∷ rest) (omega arith) (omega arith),
  quoted-Takes input d i (omega arith),
)

bracket_loop-Takes :
    (input : Bytes) (i : ℕ) (bs : Bytes)
    → 1 ≤ i
    → length input ≡ i + length bs
    → Takes (length input) (bracket_loop input i bs)
unfolding bracket_loop
bracket_loop-Takes input i [] h e = (omega arith, omega arith)
bracket_loop-Takes input i (b ∷ bs) h e =
    ground (
      arith,
      bracket_loop-Takes input (i + 1) bs (omega arith) (omega arith),
      slice-ok {0} input 1 i,
    )

second_is-length : (input : Bytes) (b : ℕ) → second_is input b ≡ true → 2 ≤ length input
unfolding second_is
second_is-length [] b h = cc
second_is-length (a ∷ []) b h = cc
second_is-length (a ∷ c ∷ cs) b h = omega arith

module _ (c : ℕ) (cs : Bytes) where
  two_bytes-Takes :
      (b : ℕ) (long short : Token)
      → Takes (suc (length cs)) (if second_is (c ∷ cs) b then ok (2, long) else ok (1, short))
  two_bytes-Takes b long short = ground (arith, second_is-length (c ∷ cs) b)

  space_token-Takes : Takes (suc (length cs)) (ok (space_token (c ∷ cs)))
  unfolding space_token
  space_token-Takes = omega (arith, count_while-le-length is_space cs)

  less_token-Takes : Takes (suc (length cs)) (less_token (c ∷ cs))
  unfolding less_token
  less_token-Takes = ground (arith, second_is-length (c ∷ cs) b'=', second_is-length (c ∷ cs) b'>')

  dot_token-Takes : c ≡ b'.' → Takes (suc (length cs)) (dot_token (c ∷ cs))
  unfolding dot_token
  dot_token-Takes h =
      ground
        (arith, float_taken, len_float-le (c ∷ cs), slice-ok {0} (c ∷ cs) 0 (len_float (c ∷ cs)).0)
    where
      float_taken : 1 ≤ (len_float (c ∷ cs)).0
      float_taken =
          unfold len_float len_fraction in
          rw h (
            omega (
              arith,
              len_tail-ge (suc (count_while is_ascii_digit cs))
                  (drop (count_while is_ascii_digit cs) cs),
            ))

  x_token-Takes : Takes (suc (length cs)) (x_token (c ∷ cs))
  unfolding x_token
  x_token-Takes = elim (Bool-cases (second_is (c ∷ cs) b'\'')) [
    | inl e ↦ rw e (
        blob_loop-Takes (c ∷ cs) 0 (drop 2 (c ∷ cs))
          (omega (arith, second_is-length (c ∷ cs) b'\'' e, length-drop 2 (c ∷ cs))))
    | inr ne ↦
        rw
          (
            ne,
            slice-ok (c ∷ cs) 0 (len_identifier (c ∷ cs)) (omega arith) (len_identifier-le c cs).1,
          )
          (len_identifier-le c cs)
  ]

  word_token-Takes : Takes (suc (length cs)) (word_token (c ∷ cs))
  unfolding word_token
  word_token-Takes =
      rw (slice-ok (c ∷ cs) 0 (len_identifier (c ∷ cs)) (omega arith) (len_identifier-le c cs).1)
        (len_identifier-le c cs)

  digit_token-Takes : Takes (suc (length cs)) (digit_token (c ∷ cs))
  unfolding digit_token
  digit_token-Takes =
      let n = 1 + count_while is_ascii_digit cs in
      let fits : n ≤ suc (length cs) = omega (arith, count_while-le-length is_ascii_digit cs) in
      let rest = drop n (c ∷ cs) in
      let ends : n + (len_float rest).0 ≤ suc (length cs) =
        omega (arith, len_float-le rest, length-drop n (c ∷ cs)) in
      ground (
        arith,
        fits,
        ends,
        slice-ok {0} (c ∷ cs) 0 n,
        slice-ok {0} (c ∷ cs) 0 (n + (len_float rest).0),
      )

-- The codes that the match of `get_token` handles.
abbrev symbols : Bytes
symbols =
    b' ' ∷ b'!' ∷ b'(' ∷ b')' ∷ b'*' ∷ b'+' ∷ b',' ∷ b'-' ∷ b'.' ∷ b';' ∷ b'<' ∷ b'=' ∷ b'>' ∷ b'|'
    ∷ b'~' ∷ 0 ∷ 1 ∷ 2 ∷ 3 ∷ 5 ∷ 6 ∷ 0xff ∷ []

elem : ℕ → Bytes → Bool
elem k [] = false
elem k (x ∷ xs) = k == x || elem k xs

-- Every code of the table but `CHAR_DOLLAR`, which only `$` has, stands in the match, and only a point
-- has the code of a point.
fits_match : ℕ → Bool
unfolding elem char_code
fits_match c = (elem (char_code c) symbols || c == b'$') && (not (char_code c == b'.') || c == b'.')

codes_known : all_below fits_match 256 ≡ true
unfolding all_below fits_match
codes_known = refl

code_facts :
    (c : ℕ)
    → c < 256
    → c ≢ b'$'
    → (elem (char_code c) symbols ≡ true) × ((char_code c == b'.') ≡ true → c ≡ b'.')
code_facts c h ne = split (all_below_sound 256 fits_match c codes_known h)
  where
    split :
        fits_match c ≡ true
        → (elem (char_code c) symbols ≡ true) × ((char_code c == b'.') ≡ true → c ≡ b'.')
    split e = unfold fits_match in parts (elem (char_code c) symbols) (char_code c) e
      where
        parts :
            (b : Bool) (k : ℕ)
            → ((b || c == b'$') && (not (k == b'.') || c == b'.')) ≡ true
            → (b ≡ true) × ((k == b'.') ≡ true → c ≡ b'.')
        parts b k f = (ground arith, λ e. ground arith)

token_of-Takes :
    (k c : ℕ) (cs : Bytes)
    → elem k symbols ≡ true
    → ((k == b'.') ≡ true → c ≡ b'.')
    → Takes (suc (length cs)) (token_of k c (c ∷ cs))
unfolding token_of elem
token_of-Takes k c cs known point = ground (
  arith,
  point,
  space_token-Takes c cs,
  two_bytes-Takes c cs b'=' Token.ne Token.illegal,
  two_bytes-Takes c cs b'=' Token.eq Token.eq,
  two_bytes-Takes c cs b'=' Token.ge Token.gt,
  two_bytes-Takes c cs b'|' Token.concat Token.bit_or_op,
  less_token-Takes c cs,
  dot_token-Takes c cs,
  x_token-Takes c cs,
  word_token-Takes c cs,
  digit_token-Takes c cs,
  quote_loop-Takes (c ∷ cs) c 1 cs,
  bracket_loop-Takes (c ∷ cs) 1 cs,
)

-- On every input that is not empty and does not begin with `$`, `get_token` returns a token that takes
-- at least one byte and no more than the input has.
pub get_token_progress :
    (c : ℕ) (cs : Bytes)
    → IsByte c
    → c ≢ b'$'
    → (n : ℕ) × (t : Token) × (get_token (c ∷ cs) ≡ ok (some (n, t)))
      × (1 ≤ n)
      × (n ≤ length (c ∷ cs))
unfolding get_token
get_token_progress c cs h ne =
    found (token_of (char_code c) c (c ∷ cs))
      (token_of-Takes (char_code c) c cs (code_facts c h ne).0 (code_facts c h ne).1)
  where
    found :
        (r : Result (ℕ × Token))
        → Takes (suc (length cs)) r
        → (n : ℕ) × (t : Token) × ((r >>= λ p. ok (some p)) ≡ ok (some (n, t)))
          × (1 ≤ n)
          × (n ≤ length (c ∷ cs))
    found (ok (n, t)) h = (n, t, refl, h.0, h.1)
    found (err e) h = absurd h
    found panic h = absurd h

-- Every input that begins with `$` ends in the panic of `unreachable!`.
pub get_token_dollar : (cs : Bytes) → get_token (b'$' ∷ cs) ≡ panic
unfolding get_token char_code
get_token_dollar cs = refl
