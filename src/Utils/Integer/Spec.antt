-- ===== src/Utils/Integer/Spec.antt =====
-- What `parse_integer` returns on every input, by the shape of the input.
use prsqlite.Prelude.{
  ℕ, zero, suc, ◌+◌, ◌-◌, ◌*◌, ◌%◌, ◌^◌, ◌≤◌, ◌<◌, ◌≡◌, refl, ap, ◌∙◌, ◌≢◌, Bool, true, false, [],
  ◌∷◌, ◌++◌, append_assoc, arith,
}
use prsqlite.Prelude.{ltb, leb, ◌==◌, if◌then◌else◌}
use prsqlite.Prelude.{
  length, get_elem?, drop, replicate, count_while, every, length-append, length-replicate,
  drop-append, Stops, count_while-append, Bytes,
}
use prsqlite.Prelude.{pos, neg_ℕ}
use prsqlite.Utils.Ascii.{is_space, is_ascii_digit}
use prsqlite.Utils.Integer.{
  ParseIntegerResult, integer, max_plus_one, too_big, empty, sign_at, digits_loop, finish,
  parse_integer,
}
use native.Mathlib.Nat.{pow-suc, pow-le-pow_right}

-- The number that a run of digits denotes, behind the digits of `u`.
unfoldable pub decimal : ℕ → Bytes → ℕ
decimal u [] = u
decimal u (c ∷ cs) = decimal (u * 10 + (c - b'0')) cs

-- What an integer literal of that sign and magnitude denotes.
unfoldable pub classify : Bool → ℕ → ParseIntegerResult
classify true n =
    if ltb n (2 ^ 63) then integer (pos n) else if n == 2 ^ 63 then max_plus_one else too_big true
classify false n = if leb n (2 ^ 63) then integer (neg_ℕ n) else too_big false

pub data Sign : Type 0 where
  unsigned plus minus : Sign

abbrev pub sign_text : Sign → Bytes
sign_text unsigned = []
sign_text plus = b'+' ∷ []
sign_text minus = b'-' ∷ []

abbrev pub is_positive : Sign → Bool
is_positive unsigned = true
is_positive plus = true
is_positive minus = false

-- No leading zero.
abbrev pub IsTrimmed : Bytes → Type 0
IsTrimmed [] = Unit
IsTrimmed (c ∷ cs) = c ≢ b'0'

digit_range : (c : ℕ) → is_ascii_digit c ≡ true → (b'0' ≤ c) × (c ≤ b'9')
unfolding is_ascii_digit
digit_range c h = ground arith

digit-ne-space : (c : ℕ) → is_ascii_digit c ≡ true → is_space c ≡ false
unfolding is_ascii_digit is_space
digit-ne-space c h = ground arith

decimal_bounds :
    (ds : Bytes) (u : ℕ)
    → every is_ascii_digit ds ≡ true
    → (u * 10 ^ length ds ≤ decimal u ds) × (decimal u ds < (u + 1) * 10 ^ length ds)
unfolding decimal
decimal_bounds [] u h = omega arith
decimal_bounds (c ∷ cs) u h =
    let hc : is_ascii_digit c ≡ true = ground arith in
    let hs : every is_ascii_digit cs ≡ true = ground arith in
    let d = c - b'0' in
    let p = 10 ^ length cs in
    let (lo, hi) = decimal_bounds cs (u * 10 + d) hs in
    let low : u * 10 * p ≤ (u * 10 + d) * p = grind arith in
    let high : (u * 10 + d + 1) * p ≤ (u + 1) * 10 * p = grind (arith, digit_range c hc) in
    (
      omega (arith, low, ap (λ (t : ℕ). u * t) (pow-suc 10 (length cs))),
      omega (arith, high, ap (λ (t : ℕ). (u + 1) * t) (pow-suc 10 (length cs))),
    )

-- The value of the loop's word.
wrapped : ℕ → Bytes → ℕ
wrapped u [] = u
wrapped u (c ∷ cs) = wrapped ((u * 10 % 2 ^ 64 + (c - b'0')) % 2 ^ 64) cs

digits_loop-append :
    (ds rest : Bytes) (u k : ℕ)
    → every is_ascii_digit ds ≡ true
    → Stops is_ascii_digit rest
    → digits_loop u k (ds ++ rest) ≡ (wrapped u ds, k + length ds)
unfolding digits_loop wrapped
digits_loop-append [] [] u k h s = ground arith
digits_loop-append [] (c ∷ rest) u k h s = rw s (ground arith)
digits_loop-append (c ∷ ds) rest u k h s =
    let u' = (u * 10 % 2 ^ 64 + (c - b'0')) % 2 ^ 64 in
    let hc : is_ascii_digit c ≡ true = ground arith in
    let hs : every is_ascii_digit ds ≡ true = ground arith in
    let ends : k + 1 + length ds ≡ k + suc (length ds) = omega arith in
    rw (hc, ← ends) (digits_loop-append ds rest u' (k + 1) hs s)

decimal-ge : (ds : Bytes) (u : ℕ) → u ≤ decimal u ds
unfolding decimal
decimal-ge [] u = omega arith
decimal-ge (c ∷ cs) u = omega (arith, decimal-ge cs (u * 10 + (c - b'0')))

-- Where the number fits, the loop does not wrap.
wrapped-decimal : (ds : Bytes) (u : ℕ) → decimal u ds < 2 ^ 64 → wrapped u ds ≡ decimal u ds
unfolding wrapped decimal
wrapped-decimal [] u h = refl
wrapped-decimal (c ∷ cs) u h =
    let fits : (u * 10 % 2 ^ 64 + (c - b'0')) % 2 ^ 64 ≡ u * 10 + (c - b'0') =
      omega (arith, decimal-ge cs (u * 10 + (c - b'0'))) in
    rw fits (wrapped-decimal cs (u * 10 + (c - b'0')) h)

finish-classify :
    (valid positive : Bool) (z d u v : ℕ)
    → 0 < z + d
    → (d < 19 → v < 2 ^ 63)
    → (d ≤ 19 → u ≡ v)
    → (19 < d → 2 ^ 63 < v)
    → finish valid positive z d u ≡ (valid, classify positive v)
unfolding finish classify
finish-classify valid true z d u v h p q r = ground arith
finish-classify valid false z d u v h p q r = ground arith

-- Behind the sign stands nothing that the scan for spaces or the sign would take.
abbrev pub Begins : Sign → Bytes → Type 0
Begins unsigned [] = Unit
Begins unsigned (c ∷ cs) = (is_space c ≡ false) × (c ≢ b'-') × (c ≢ b'+')
Begins _ cs = Unit

scan-Stops : (s : Sign) (number : Bytes) → Begins s number → Stops is_space (sign_text s ++ number)
scan-Stops unsigned [] h = tt
scan-Stops unsigned (c ∷ cs) h = h.0
scan-Stops plus cs h = unfold is_space in refl
scan-Stops minus cs h = unfold is_space in refl

sign_found :
    (s : Sign) (number : Bytes)
    → Begins s number
    → sign_at (get_elem? (sign_text s ++ number) 0) ≡ (is_positive s, length (sign_text s))
unfolding sign_at
sign_found unsigned [] h = refl
sign_found unsigned (c ∷ cs) h = ground arith
sign_found plus cs h = refl
sign_found minus cs h = refl

get_elem?-drop : (n : ℕ) (xs : Bytes) → get_elem? xs n ≡ get_elem? (drop n xs) 0
get_elem?-drop zero [] = refl
get_elem?-drop zero (x ∷ xs) = refl
get_elem?-drop (suc n) [] = refl
get_elem?-drop (suc n) (x ∷ xs) = get_elem?-drop n xs

every-replicate : (z : ℕ) → every (λ c. c == b'0') (replicate z b'0') ≡ true
every-replicate zero = refl
every-replicate (suc z) = every-replicate z

zeros_stop :
    (ds back : Bytes)
    → every is_ascii_digit ds ≡ true
    → IsTrimmed ds
    → Stops is_ascii_digit back
    → Stops (λ c. c == b'0') (ds ++ back)
zeros_stop [] [] h t s = tt
zeros_stop [] (c ∷ back) h t s = unfold is_ascii_digit in ground arith
zeros_stop (c ∷ ds) back h t s = ground arith

module _ (front : Bytes) (s : Sign) (z : ℕ) (ds back : Bytes) (spaces : every is_space front ≡ true)
    (begins : Begins s (replicate z b'0' ++ (ds ++ back))) (digits : every is_ascii_digit ds ≡ true)
    (trimmed : IsTrimmed ds) (ends : Stops is_ascii_digit back) where
  parse_integer-finish :
      parse_integer (front ++ (sign_text s ++ (replicate z b'0' ++ (ds ++ back))))
      ≡ finish (every is_space back) (is_positive s) z (length ds) (wrapped 0 ds)
  unfolding parse_integer
  parse_integer-finish =
      let zeros = replicate z b'0' in
      let tail = ds ++ back in
      let number = zeros ++ tail in
      let input = front ++ (sign_text s ++ number) in
      let scanned : count_while is_space input ≡ length front =
        count_while-append is_space front _ spaces (scan-Stops s number begins) in
      let found : sign_at (get_elem? input (length front)) ≡ (is_positive s, length (sign_text s)) =
        rw (get_elem?-drop (length front) input, drop-append front (sign_text s ++ number))
          (sign_found s number begins) in
      let behind : drop (length front + length (sign_text s)) input ≡ number =
        rw (← append_assoc front (sign_text s) number, ← length-append front (sign_text s))
          (drop-append (front ++ sign_text s) number) in
      let zero_count : count_while (λ c. c == b'0') number ≡ z =
        count_while-append (λ c. c == b'0') zeros tail (every-replicate z)
          (zeros_stop ds back digits trimmed ends)
        ∙ length-replicate {A = ℕ} z b'0' in
      let no_zeros : drop z number ≡ tail =
        rw (length-replicate {A = ℕ} z b'0') at (drop-append zeros tail) in
      let last : drop (z + length ds) number ≡ back =
        rw (← append_assoc zeros ds back)
          (rw (length-append, length-replicate) at (drop-append (zeros ++ ds) back)) in
      rw (scanned, found, behind, zero_count, no_zeros, digits_loop-append ds back 0 0 digits ends)
        (let len : 0 + length ds ≡ length ds = omega arith in rw (len, last))

Begins-digits :
    (s : Sign) (z : ℕ) (ds back : Bytes)
    → every is_ascii_digit ds ≡ true
    → 0 < z + length ds
    → Begins s (replicate z b'0' ++ (ds ++ back))
Begins-digits unsigned zero [] back h p = absurd (omega arith)
Begins-digits unsigned zero (c ∷ ds) back h p = unfold is_ascii_digit is_space in ground arith
Begins-digits unsigned (suc z) ds back h p = unfold is_space in ground arith
Begins-digits plus z ds back h p = tt
Begins-digits minus z ds back h p = tt

decimal-small :
    (ds : Bytes) → every is_ascii_digit ds ≡ true → length ds ≤ 18 → decimal 0 ds < 2 ^ 63
decimal-small ds h l =
    omega (arith, (decimal_bounds ds 0 h).1, pow-le-pow_right {n = 10} (omega arith) l)

decimal-medium :
    (ds : Bytes) → every is_ascii_digit ds ≡ true → length ds ≤ 19 → decimal 0 ds < 2 ^ 64
decimal-medium ds h l =
    omega (arith, (decimal_bounds ds 0 h).1, pow-le-pow_right {n = 10} (omega arith) l)

le-mul_pos : (d p : ℕ) → 1 ≤ d → p ≤ d * p
le-mul_pos d p h = grind arith

decimal-large :
    (ds : Bytes)
    → every is_ascii_digit ds ≡ true
    → IsTrimmed ds
    → 19 < length ds
    → 2 ^ 63 < decimal 0 ds
decimal-large [] h t l = absurd (omega arith)
decimal-large (c ∷ cs) h t l =
    let hc : is_ascii_digit c ≡ true = ground arith in
    let hs : every is_ascii_digit cs ≡ true = ground arith in
    let d = 0 * 10 + (c - b'0') in
    let one : 1 ≤ d = omega (arith, digit_range c hc) in
    let power : 10 ^ 19 ≤ 10 ^ length cs =
      pow-le-pow_right {n = 10} (omega arith) {i = 19} {j = length cs} (omega arith) in
    let scaled : 10 ^ length cs ≤ d * 10 ^ length cs = le-mul_pos d (10 ^ length cs) one in
    unfold decimal in omega (arith, (decimal_bounds cs d hs).0, scaled, power)

-- An input of spaces, an optional sign, zeros and further digits, at least one in all, and what comes
-- behind the last digit: the result is the decimal number by its range (an integer within the `i64`
-- range, 2 ^ 63 by itself, too big beyond), and it is valid exactly if only spaces come behind.
pub parse_integer_digits :
    (front : Bytes) (s : Sign) (z : ℕ) (ds back : Bytes)
    → every is_space front ≡ true
    → every is_ascii_digit ds ≡ true
    → IsTrimmed ds
    → Stops is_ascii_digit back
    → 0 < z + length ds
    → parse_integer (front ++ (sign_text s ++ (replicate z b'0' ++ (ds ++ back))))
      ≡ (every is_space back, classify (is_positive s) (decimal 0 ds))
parse_integer_digits front s z ds back spaces digits trimmed ends some_digit =
    parse_integer-finish front s z ds back spaces (Begins-digits s z ds back digits some_digit)
      digits trimmed ends
    ∙ finish-classify (every is_space back) (is_positive s) z (length ds) (wrapped 0 ds)
        (decimal 0 ds) some_digit (λ l. decimal-small ds digits (omega arith))
        (λ l. wrapped-decimal ds 0 (decimal-medium ds digits l)) (decimal-large ds digits trimmed)

-- An input with no digit behind the spaces and the sign is empty, and never valid.
pub parse_integer_empty :
    (front : Bytes) (s : Sign) (back : Bytes)
    → every is_space front ≡ true
    → Begins s back
    → Stops is_ascii_digit back
    → parse_integer (front ++ (sign_text s ++ back)) ≡ (false, empty)
parse_integer_empty front s back spaces begins ends =
    parse_integer-finish front s 0 [] back spaces begins refl tt ends ∙ unfold finish in refl
