-- ===== src/Utils/CaseInsensitive/Search.antt =====
-- `contains_lower_bytes` against containment.
use prsqlite.Prelude.{
  ℕ, zero, suc, ◌+◌, ◌-◌, ◌≤◌, ◌<◌, ◌≡◌, refl, sym, ap, ◌∙◌, inl, inr, false, some, [], ◌∷◌, ◌++◌,
  map, append_assoc, arith,
}
use prsqlite.Prelude.{ltb, Bool-cases}
use prsqlite.Prelude.{length, get_elem?, take, length-append, get_elem?-append, Bytes}
use prsqlite.Prelude.{ok}
use prsqlite.Prelude.{is_prefix, is_infix, is_infix-append}
use prsqlite.Utils.Ascii.{lower}
use prsqlite.Utils.CaseInsensitive.{inner_loop, main_loop, contains_lower_bytes}

inner_loop-is_prefix :
    (os front rest self : Bytes) (i j : ℕ)
    → self ≡ front ++ rest
    → i + 1 + j ≡ length front
    → length os ≤ length rest
    → inner_loop i j os self ≡ ok (is_prefix os (map lower rest))
unfolding inner_loop is_prefix
inner_loop-is_prefix [] front rest self i j e p h = refl
inner_loop-is_prefix (o ∷ os) front [] self i j e p h = absurd (omega arith)
inner_loop-is_prefix (o ∷ os) front (r ∷ rest) self i j e p h =
    let here : get_elem? self (i + 1 + j) ≡ some r = rw (e, p) (get_elem?-append front r rest) in
    let next =
      inner_loop-is_prefix os (front ++ (r ∷ [])) rest self i (j + 1)
        (e ∙ sym (append_assoc front (r ∷ []) rest)) (omega (arith, length-append front (r ∷ [])))
        (omega arith) in
    rw here (ground (arith, next))

-- Where the rest is shorter than the text, it cannot contain it.
is_prefix_long : (xs ys : Bytes) → length ys < length xs → is_prefix xs ys ≡ false
unfolding is_prefix
is_prefix_long [] ys h = absurd (omega arith)
is_prefix_long (x ∷ xs) [] h = refl
is_prefix_long (x ∷ xs) (y ∷ ys) h = ground (arith, is_prefix_long xs ys)

is_infix_long : (xs ys : Bytes) → length ys < length xs → is_infix xs ys ≡ false
unfolding is_infix
is_infix_long xs [] h = is_prefix_long xs [] h
is_infix_long xs (y ∷ ys) h = ground (arith, is_prefix_long xs (y ∷ ys) h, is_infix_long xs ys)

length-map : (f : ℕ → ℕ) (xs : Bytes) → length (map f xs) ≡ length xs
length-map f [] = refl
length-map f (x ∷ xs) = ap suc (length-map f xs)

-- `n` positions are left, and they are those where the text has room.
main_loop-is_infix :
    (rest front self os : Bytes) (i o n : ℕ)
    → self ≡ front ++ rest
    → i ≡ length front
    → n ≡ length rest - length os
    → main_loop i (take n rest) o os self ≡ ok (is_infix (o ∷ os) (map lower rest))
unfolding main_loop is_infix
main_loop-is_infix [] front self os i o zero e p h = unfold is_prefix in refl
main_loop-is_infix [] front self os i o (suc n) e p h = unfold is_prefix in refl
main_loop-is_infix (r ∷ rest) front self os i o zero e p h =
    let short : is_infix (o ∷ os) (lower r ∷ map lower rest) ≡ false =
      is_infix_long (o ∷ os) (map lower (r ∷ rest)) (omega (arith, length-map lower rest)) in
    ap ok (sym short)
main_loop-is_infix (r ∷ rest) front self os i o (suc n) e p h =
    let e' : self ≡ (front ++ (r ∷ [])) ++ rest = e ∙ sym (append_assoc front (r ∷ []) rest) in
    let p' : i + 1 ≡ length (front ++ (r ∷ [])) = omega (arith, length-append front (r ∷ [])) in
    let inner =
      inner_loop-is_prefix os (front ++ (r ∷ [])) rest self i 0 e' (omega arith) (omega arith) in
    let later =
      main_loop-is_infix rest (front ++ (r ∷ [])) self os (i + 1) o n e' p' (omega arith) in
    unfold is_prefix in ground (arith, inner, later)

-- `contains_lower_bytes` never reads out of range, and answers whether the bytes in lower case contain
-- the other bytes, at any place.
pub contains_lower_bytes-is_infix :
    (self other : Bytes) → contains_lower_bytes self other ≡ ok (is_infix other (map lower self))
unfolding contains_lower_bytes
contains_lower_bytes-is_infix self [] = ap ok (sym (is_infix-append [] [] (map lower self)))
contains_lower_bytes-is_infix self (o ∷ os) =
    elim (Bool-cases (ltb (length self) (suc (length os)))) [
      | inl short ↦
          rw
            (short, is_infix_long (o ∷ os) (map lower self) (ground (arith, length-map lower self)))
      | inr room ↦ rw room (
          main_loop-is_infix self [] self os 0 o (length self - suc (length os) + 1) refl refl
            (ground arith))
    ]
