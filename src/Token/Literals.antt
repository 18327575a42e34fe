-- ===== src/Token/Literals.antt =====
-- Literals: texts in quotes, hexadecimal blobs and integers.
use prsqlite.Prelude.{
  ℕ, suc, ◌+◌, ◌-◌, ◌/◌, ◌%◌, ◌<◌, ◌≡◌, refl, ap, ◌∙◌, ◌≢◌, ◌⊎◌, inl, inr, Bool, true, false, not,
  ◌||◌, some, [], ◌∷◌, ◌++◌, append_assoc, arith,
}
use prsqlite.Prelude.{leb, ◌==◌, if◌then◌else◌, ==_iff, Bool-cases, all_below, all_below_sound}
use prsqlite.Prelude.{
  length, count_while, every, length-append, drop-append, take-append, Stops, count_while-append,
  Bytes, IsBytes,
}
use prsqlite.Prelude.{ok, panic, slice}
use prsqlite.Prelude.{slice-append}
use prsqlite.Utils.Ascii.{is_ascii_digit, is_ascii_hexdigit}
use prsqlite.Utils.Quoted.{is_delimiter, dequote}
use prsqlite.Utils.Quoted.RoundTrip.{escape, quote, index_last}
use prsqlite.Utils.Hexed.{encode, hex_char}
use prsqlite.Token.Chars.{char_code, char_x, char_digit, char_quote}
use prsqlite.Token.Defs.{
  Token, string, identifier, blob, integer, len_fraction, len_tail, len_float, x_token, blob_loop,
  digit_token, quoted, quote_loop, bracket_loop, get_token,
}

-- The token of a text in quotes of that kind.
abbrev pub quoted_token : ℕ → Bytes → Token
quoted_token d s = if d == b'\'' then string s else identifier s

quote_loop_plain :
    (input : Bytes) (d i b : ℕ) (xs : Bytes)
    → (b == d) ≡ false
    → quote_loop input d i (b ∷ xs) ≡ quote_loop input d (i + 1) xs
unfolding quote_loop
quote_loop_plain input d i b [] h = rw h
quote_loop_plain input d i b (c ∷ xs) h = rw h

quote_loop_close :
    (input : Bytes) (d i : ℕ) (rest : Bytes)
    → Stops (λ c. c == d) rest
    → quote_loop input d i (d ∷ rest) ≡ quoted input d i
unfolding quote_loop
quote_loop_close input d i [] h = ground arith
quote_loop_close input d i (c ∷ rest) h = let same : (d == d) ≡ true = ground arith in rw (same, h)

quote_loop_double :
    (input : Bytes) (d i : ℕ) (xs : Bytes)
    → quote_loop input d i (d ∷ d ∷ xs) ≡ quote_loop input d (i + 2) xs
unfolding quote_loop
quote_loop_double input d i xs = let same : (d == d) ≡ true = ground arith in rw same

quote_loop-escape :
    (input : Bytes) (d i : ℕ) (s rest : Bytes)
    → Stops (λ c. c == d) rest
    → quote_loop input d i (escape d s ++ (d ∷ rest)) ≡ quoted input d (i + length (escape d s))
unfolding escape
quote_loop-escape input d i [] rest h =
    quote_loop_close input d i rest h ∙ ap (quoted input d) (omega arith)
quote_loop-escape input d i (b ∷ s) rest h = elim (Bool-cases (b == d)) [
  | inl e ↦
      let n : i + 2 + length (escape d s) ≡ i + suc (suc (length (escape d s))) = omega arith in
      rw e (
        quote_loop_double input d i _
        ∙ quote_loop-escape input d (i + 2) s rest h
        ∙ ap (quoted input d) n)
  | inr ne ↦
      let n : i + 1 + length (escape d s) ≡ i + suc (length (escape d s)) = omega arith in
      rw ne (
        quote_loop_plain input d i b _ ne
        ∙ quote_loop-escape input d (i + 1) s rest h
        ∙ ap (quoted input d) n)
]

delimiter_cases : (d : ℕ) → is_delimiter d ≡ true → (d ≡ b'\'') ⊎ (d ≡ b'"') ⊎ (d ≡ b'`')
delimiter_cases d h = ground arith

delimiter_code : (d : ℕ) → is_delimiter d ≡ true → char_code d ≡ char_quote
unfolding char_code
delimiter_code d h = elim (delimiter_cases d h) [
  | inl e ↦ rw e
  | inr (inl e) ↦ rw e
  | inr (inr e) ↦ rw e
]

-- A text in quotes of any kind, up to a byte that is not the same quote, is one token with all its
-- bytes: a string in single quotes, an identifier in the other two kinds.
pub get_token-quote :
    (d : ℕ) (s rest : Bytes)
    → is_delimiter d ≡ true
    → Stops (λ c. c == d) rest
    → get_token (quote d s ++ rest) ≡ ok (some (length (quote d s), quoted_token d (quote d s)))
unfolding get_token quote
get_token-quote d s rest h ends =
    let body = escape d s in
    let moved : (body ++ (d ∷ [])) ++ rest ≡ body ++ (d ∷ rest) = append_assoc body (d ∷ []) rest in
    let input = d ∷ (body ++ (d ∷ rest)) in
    let n : 1 + length body + 1 ≡ suc (length (body ++ (d ∷ []))) =
      omega (arith, length-append body (d ∷ [])) in
    let whole : slice input 0 (suc (length (body ++ (d ∷ [])))) ≡ ok (d ∷ (body ++ (d ∷ []))) =
      let z : 0 + suc (length (body ++ (d ∷ []))) ≡ suc (length (body ++ (d ∷ []))) = omega arith in
      rw (moved, z) at (slice-append [] (d ∷ (body ++ (d ∷ []))) rest) in
    let loop = quote_loop-escape input d 1 s rest ends in
    rw (moved, delimiter_code d h, loop) (unfold quoted in rw (n, whole))

hex_digits-encode :
    (u w : ℕ → Bool) (bs : Bytes) → IsBytes bs → every is_ascii_hexdigit (encode u w bs) ≡ true
unfolding encode
hex_digits-encode u w [] h = refl
hex_digits-encode u w (b ∷ bs) h =
    rw (digit (u 0) (b / 16) (omega arith), digit (w 0) (b % 16) (omega arith))
      (hex_digits-encode (λ i. u (i + 1)) (λ i. w (i + 1)) bs h.1)
  where
    digit : (upper : Bool) (n : ℕ) → n < 16 → is_ascii_hexdigit (hex_char upper n) ≡ true
    digit true n h = unfold is_ascii_hexdigit is_ascii_digit in ground arith
    digit false n h = unfold is_ascii_hexdigit is_ascii_digit in ground arith

even-encode : (u w : ℕ → Bool) (bs : Bytes) → length (encode u w bs) % 2 ≡ 0
unfolding encode
even-encode u w [] = refl
even-encode u w (b ∷ bs) = omega (arith, even-encode (λ i. u (i + 1)) (λ i. w (i + 1)) bs)

blob_loop-digits :
    (input : Bytes) (i : ℕ) (ds rest : Bytes)
    → every is_ascii_hexdigit ds ≡ true
    → blob_loop input i (ds ++ (b'\'' ∷ rest)) ≡ blob_loop input (i + length ds) (b'\'' ∷ rest)
blob_loop-digits input i [] rest h = ap (λ (t : ℕ). blob_loop input t (b'\'' ∷ rest)) (omega arith)
blob_loop-digits input i (d ∷ ds) rest h =
    let this : is_ascii_hexdigit d ≡ true = ground arith in
    let n : i + 1 + length ds ≡ i + suc (length ds) = omega arith in
    step d (ds ++ (b'\'' ∷ rest)) this
    ∙ rw (← n) (blob_loop-digits input (i + 1) ds rest (ground arith))
  where
    step :
        (d : ℕ) (xs : Bytes)
        → is_ascii_hexdigit d ≡ true
        → blob_loop input i (d ∷ xs) ≡ blob_loop input (i + 1) xs
    step d xs h = unfold blob_loop in rw h

blob_loop_close :
    (input : Bytes) (i : ℕ) (rest s : Bytes)
    → i % 2 ≡ 0
    → slice input 2 (i + 2) ≡ ok s
    → blob_loop input i (b'\'' ∷ rest) ≡ ok (i + 3, blob s)
unfolding blob_loop is_ascii_hexdigit is_ascii_digit
blob_loop_close input i rest s h e = rw (h, e)

-- The hexadecimal digits of a byte sequence between `x'` or `X'` and `'` are one token, a blob with
-- those digits.
pub get_token_blob :
    (x : ℕ) (u w : ℕ → Bool) (bs rest : Bytes)
    → (x ≡ b'x') ⊎ (x ≡ b'X')
    → IsBytes bs
    → get_token (x ∷ b'\'' ∷ (encode u w bs ++ (b'\'' ∷ rest)))
      ≡ ok (some (length (encode u w bs) + 3, blob (encode u w bs)))
unfolding get_token
get_token_blob x u w bs rest k h =
    let ds = encode u w bs in
    let input = x ∷ b'\'' ∷ (ds ++ (b'\'' ∷ rest)) in
    let n : 2 + length ds ≡ 0 + length ds + 2 = omega arith in
    let z : 0 + length ds ≡ length ds = omega arith in
    let cut : slice input 2 (0 + length ds + 2) ≡ ok ds =
      rw n at (slice-append (x ∷ b'\'' ∷ []) ds (b'\'' ∷ rest)) in
    let even : (0 + length ds) % 2 ≡ 0 = omega (arith, even-encode u w bs) in
    let token : x_token input ≡ ok (length ds + 3, blob ds) =
      unfold x_token in
      (blob_loop-digits input 0 ds rest (hex_digits-encode u w bs h)
        ∙ blob_loop_close input (0 + length ds) rest ds even cut
        ∙ rw z) in
    let code : char_code x ≡ char_x = elim k [
      | inl e ↦ unfold char_code in rw e
      | inr e ↦ unfold char_code in rw e
    ] in
    rw (code, token)

-- What follows an integer literal: not a digit, a point, an e or an E.
abbrev pub EndsInteger : Bytes → Type 0
EndsInteger [] = Unit
EndsInteger (c ∷ cs) = (is_ascii_digit c ≡ false) × (c ≢ b'.') × (c ≢ b'e') × (c ≢ b'E')

no_float : (rest : Bytes) → EndsInteger rest → len_float rest ≡ (0, true)
unfolding len_float len_fraction len_tail
no_float [] h = refl
no_float (c ∷ cs) h = ground arith

digit_code : (c : ℕ) → is_ascii_digit c ≡ true → char_code c ≡ char_digit
digit_code c h =
    (==_iff (char_code c) char_digit).0 (one c h (all_below_sound 256 test c table (range c h)))
  where
    test : ℕ → Bool
    test c = not (is_ascii_digit c) || char_code c == char_digit

    table : all_below test 256 ≡ true
    table = unfold all_below is_ascii_digit char_code in refl

    range : (c : ℕ) → is_ascii_digit c ≡ true → c < 256
    range c h = unfold is_ascii_digit in ground arith

    one : (c : ℕ) → is_ascii_digit c ≡ true → test c ≡ true → (char_code c == char_digit) ≡ true
    one c p q = ground arith

-- A run of digits, up to a byte that can continue neither an integer nor a float, is an integer token
-- with those digits.
pub get_token_integer :
    (c : ℕ) (cs rest : Bytes)
    → every is_ascii_digit (c ∷ cs) ≡ true
    → EndsInteger rest
    → get_token ((c ∷ cs) ++ rest) ≡ ok (some (length (c ∷ cs), integer (c ∷ cs)))
unfolding get_token
get_token_integer c cs rest h ends =
    let this : is_ascii_digit c ≡ true = ground arith in
    let others : every is_ascii_digit cs ≡ true = ground arith in
    let count : count_while is_ascii_digit (cs ++ rest) ≡ length cs =
      count_while-append is_ascii_digit cs rest others (stops rest ends) in
    let n : 1 + length cs ≡ suc (length cs) = omega arith in
    let room : leb (suc (length cs)) (suc (length (cs ++ rest))) ≡ true =
      ground (arith, length-append cs rest) in
    let low : leb 0 (suc (length cs)) ≡ true = ground arith in
    let width : suc (length cs) - 0 ≡ suc (length cs) = omega arith in
    let token : digit_token ((c ∷ cs) ++ rest) ≡ ok (suc (length cs), integer (c ∷ cs)) =
      unfold digit_token in
      rw (
        count,
        n,
        room,
        drop-append cs rest,
        no_float rest ends,
        low,
        width,
        take-append cs rest,
      ) in
    rw (digit_code c this, token)
  where
    stops : (rest : Bytes) → EndsInteger rest → Stops is_ascii_digit rest
    stops [] h = tt
    stops (c ∷ cs) h = h.0

bracket_loop-append :
    (input : Bytes) (i : ℕ) (s rest : Bytes)
    → every (λ b. not (b == b']')) s ≡ true
    → bracket_loop input i (s ++ (b']' ∷ rest)) ≡ bracket_loop input (i + length s) (b']' ∷ rest)
bracket_loop-append input i [] rest h =
    ap (λ (t : ℕ). bracket_loop input t (b']' ∷ rest)) (omega arith)
bracket_loop-append input i (b ∷ s) rest h =
    let n : i + 1 + length s ≡ i + suc (length s) = omega arith in
    step b (s ++ (b']' ∷ rest)) (ground arith)
    ∙ rw (← n) (bracket_loop-append input (i + 1) s rest (ground arith))
  where
    step :
        (b : ℕ) (xs : Bytes)
        → (b == b']') ≡ false
        → bracket_loop input i (b ∷ xs) ≡ bracket_loop input (i + 1) xs
    step b xs h = unfold bracket_loop in rw h

-- A text in square brackets is an identifier with the bytes between them.
pub get_token_bracket :
    (s rest : Bytes)
    → every (λ b. not (b == b']')) s ≡ true
    → get_token (b'[' ∷ (s ++ (b']' ∷ rest))) ≡ ok (some (length s + 2, identifier s))
unfolding get_token char_code
get_token_bracket s rest h =
    let input = b'[' ∷ (s ++ (b']' ∷ rest)) in
    let n : 1 + length s + 1 ≡ length s + 2 = omega arith in
    let close : bracket_loop input (1 + length s) (b']' ∷ rest) ≡ ok (length s + 2, identifier s) =
      unfold bracket_loop in rw (slice-append (b'[' ∷ []) s (b']' ∷ rest), n) in
    rw (bracket_loop-append input 1 s rest h ∙ close)

-- A text in square brackets that begins with a quote and does not end with it is an identifier token
-- whose bytes make `dequote` panic.
pub get_token_bracket_quote :
    (d c : ℕ) (s rest : Bytes)
    → is_delimiter d ≡ true
    → (c == d) ≡ false
    → every (λ b. not (b == b']')) (d ∷ (s ++ (c ∷ []))) ≡ true
    → (get_token (b'[' ∷ ((d ∷ (s ++ (c ∷ []))) ++ (b']' ∷ rest)))
        ≡ ok (some (length (d ∷ (s ++ (c ∷ []))) + 2, identifier (d ∷ (s ++ (c ∷ []))))))
      × (dequote (d ∷ (s ++ (c ∷ []))) ≡ panic)
get_token_bracket_quote d c s rest h ne plain = (
  get_token_bracket (d ∷ (s ++ (c ∷ []))) rest plain,
  unfold dequote in rw (h, long, index_last d c s, ne),
)
  where
    long : leb 2 (suc (length (s ++ (c ∷ [])))) ≡ true
    long = ground (arith, length-append s (c ∷ []))
