-- ===== src/Prelude/Slices.antt =====
-- The standard library's equality and order of byte slices, and containment of one in another.
use Prim.Native.Nat.{ℕ, suc, ◌+◌, ◌-◌, ◌≤◌, compare, Ordering}
use mathlib.Core.Path.{◌≡◌, refl, ap, sym, ◌∙◌}
use mathlib.Core.Logic.{◌≢◌, ◌↔◌, inl, inr}
use mathlib.Core.Bool.{Bool, true, false, ◌&&◌, ◌||◌}
use mathlib.Core.List.{List, [], ◌∷◌, ◌++◌}
use native.Mathlib.Omega.{arith}
use prsqlite.Prelude.Tests.{Bool-cases, leb, ◌==◌, reverse_ordering}
use prsqlite.Prelude.Lists.{
  Bytes, length, take, drop, length-append, length-take, length-drop, drop-append, take-append,
}
use prsqlite.Prelude.Results.{ok, err, panic, slice, slice_from}

unfoldable pub bytes_eq : Bytes → Bytes → Bool
bytes_eq [] [] = true
bytes_eq (x ∷ xs) (y ∷ ys) = x == y && bytes_eq xs ys
bytes_eq _ _ = false

pub bytes_eq_iff : (xs ys : Bytes) → (bytes_eq xs ys ≡ true) ↔ (xs ≡ ys)
unfolding bytes_eq
bytes_eq_iff (x ∷ xs) (y ∷ ys) = ground (arith, bytes_eq_iff xs ys)
bytes_eq_iff _ _ = ground arith

pub bytes_eq_refl : (xs : Bytes) → bytes_eq xs xs ≡ true
bytes_eq_refl xs = (bytes_eq_iff xs xs).1 refl

pub bytes_eq-length_ne : (xs ys : Bytes) → length xs ≢ length ys → bytes_eq xs ys ≡ false
unfolding bytes_eq
bytes_eq-length_ne [] [] h = absurd (h refl)
bytes_eq-length_ne [] (y ∷ ys) h = refl
bytes_eq-length_ne (x ∷ xs) [] h = refl
bytes_eq-length_ne (x ∷ xs) (y ∷ ys) h =
    ground (arith, bytes_eq-length_ne xs ys (λ e. h (ap suc e)))

unfoldable pub bytes_cmp : Bytes → Bytes → Ordering
bytes_cmp [] [] = Ordering.eq
bytes_cmp [] (y ∷ ys) = Ordering.lt
bytes_cmp (x ∷ xs) [] = Ordering.gt
bytes_cmp (x ∷ xs) (y ∷ ys) = elim (compare x y) [ Ordering.eq ↦ bytes_cmp xs ys | o ↦ o ]

pub bytes_cmp-reverse : (xs ys : Bytes) → bytes_cmp xs ys ≡ reverse_ordering (bytes_cmp ys xs)
unfolding bytes_cmp
bytes_cmp-reverse [] [] = refl
bytes_cmp-reverse [] (y ∷ ys) = refl
bytes_cmp-reverse (x ∷ xs) [] = refl
bytes_cmp-reverse (x ∷ xs) (y ∷ ys) = ground (arith, bytes_cmp-reverse xs ys)

pub bytes_cmp-eq_iff : (xs ys : Bytes) → (bytes_cmp xs ys ≡ Ordering.eq) ↔ (xs ≡ ys)
unfolding bytes_cmp
bytes_cmp-eq_iff [] [] = ground arith
bytes_cmp-eq_iff [] (y ∷ ys) = ground arith
bytes_cmp-eq_iff (x ∷ xs) [] = ground arith
bytes_cmp-eq_iff (x ∷ xs) (y ∷ ys) = ground (arith, bytes_cmp-eq_iff xs ys)

pub bytes_cmp_trans :
    (xs ys zs : Bytes)
    → bytes_cmp xs ys ≡ Ordering.lt
    → bytes_cmp ys zs ≡ Ordering.lt
    → bytes_cmp xs zs ≡ Ordering.lt
unfolding bytes_cmp
bytes_cmp_trans [] [] zs h k = cc
bytes_cmp_trans [] (y ∷ ys) [] h k = cc
bytes_cmp_trans [] (y ∷ ys) (z ∷ zs) h k = refl
bytes_cmp_trans (x ∷ xs) [] zs h k = cc
bytes_cmp_trans (x ∷ xs) (y ∷ ys) [] h k = cc
bytes_cmp_trans (x ∷ xs) (y ∷ ys) (z ∷ zs) h k = ground (arith, bytes_cmp_trans xs ys zs)

-- Whether the second sequence begins with the first, and whether it contains it.
unfoldable pub is_prefix : Bytes → Bytes → Bool
is_prefix [] ys = true
is_prefix (x ∷ xs) [] = false
is_prefix (x ∷ xs) (y ∷ ys) = x == y && is_prefix xs ys

unfoldable pub is_infix : Bytes → Bytes → Bool
unfolding is_prefix
is_infix xs [] = is_prefix xs []
is_infix xs (y ∷ ys) = is_prefix xs (y ∷ ys) || is_infix xs ys

is_prefix-append : (xs back : Bytes) → is_prefix xs (xs ++ back) ≡ true
unfolding is_prefix
is_prefix-append [] back = refl
is_prefix-append (x ∷ xs) back = ground (arith, is_prefix-append xs back)

is_prefix_rest : (xs ys : Bytes) → is_prefix xs ys ≡ true → (back : Bytes) × (ys ≡ xs ++ back)
unfolding is_prefix
is_prefix_rest [] ys h = (ys, refl)
is_prefix_rest (x ∷ xs) [] h = absurd (cc)
is_prefix_rest (x ∷ xs) (y ∷ ys) h =
    let (back, e) = is_prefix_rest xs ys (ground arith) in (back, ground arith)

is_infix_of_prefix : (xs ys : Bytes) → is_prefix xs ys ≡ true → is_infix xs ys ≡ true
unfolding is_infix
is_infix_of_prefix xs [] h = h
is_infix_of_prefix xs (y ∷ ys) h = ground arith

pub is_infix-append : (front xs back : Bytes) → is_infix xs (front ++ (xs ++ back)) ≡ true
is_infix-append [] xs back = is_infix_of_prefix xs (xs ++ back) (is_prefix-append xs back)
is_infix-append (y ∷ front) xs back =
    later y (front ++ (xs ++ back)) (is_infix-append front xs back)
  where
    later : (y : ℕ) (zs : Bytes) → is_infix xs zs ≡ true → is_infix xs (y ∷ zs) ≡ true
    later y zs h = unfold is_infix in ground arith

-- Containment by a place in the sequence.
pub is_infix_at :
    (xs ys : Bytes)
    → is_infix xs ys ≡ true
    → (front : Bytes) × (back : Bytes) × (ys ≡ front ++ (xs ++ back))
unfolding is_infix
is_infix_at xs [] h = let (back, e) = is_prefix_rest xs [] h in ([], back, e)
is_infix_at xs (y ∷ ys) h = elim (Bool-cases (is_prefix xs (y ∷ ys))) [
  | inl here ↦ let (back, e) = is_prefix_rest xs (y ∷ ys) here in ([], back, e)
  | inr later ↦
      let (front, back, e) = is_infix_at xs ys (ground arith) in (y ∷ front, back, ap (◌∷◌ y) e)
]

pub slice-ok {ℓ} :
    {A : Type ℓ} (xs : List A) (i j : ℕ)
    → i ≤ j
    → j ≤ length xs
    → slice xs i j ≡ ok (take (j - i) (drop i xs))
slice-ok xs i j h k =
    let t1 : leb i j ≡ true = ground arith in
    let t2 : leb j (length xs) ≡ true = ground arith in rw (t1, t2)

pub slice_from-ok {ℓ} :
    {A : Type ℓ} (xs : List A) (i : ℕ) → i ≤ length xs → slice_from xs i ≡ ok (drop i xs)
slice_from-ok xs i h = let t : leb i (length xs) ≡ true = ground arith in rw t

pub length-slice {ℓ} :
    {A : Type ℓ} (xs ys : List A) (i j : ℕ)
    → slice xs i j ≡ ok ys
    → (i ≤ j) × (j ≤ length xs) × (length ys + i ≡ j)
length-slice xs ys i j h = elim (Bool-cases (leb i j && leb j (length xs))) [
  | inl e ↦
      let i_j : i ≤ j = ground arith in
      let j_n : j ≤ length xs = ground arith in
      let same : ok ys ≡ ok (take (j - i) (drop i xs)) = sym h ∙ slice-ok xs i j i_j j_n in
      let len : length ys ≡ length (take (j - i) (drop i xs)) =
        ap (λ r. elim r [ ok zs ↦ length zs | err x ↦ 0 | panic ↦ 0 ]) same in
      (i_j, j_n, omega (arith, len, length-take (j - i) (drop i xs), length-drop i xs))
  | inr e ↦ absurd (ground arith)
]

-- A slice between two parts of the input.
pub slice-append :
    (xs ys zs : Bytes) → slice (xs ++ (ys ++ zs)) (length xs) (length xs + length ys) ≡ ok ys
slice-append xs ys zs =
    let n : length xs + length ys - length xs ≡ length ys = omega arith in
    slice-ok (xs ++ (ys ++ zs)) (length xs) (length xs + length ys) (omega arith)
      (omega (arith, length-append xs (ys ++ zs), length-append ys zs))
    ∙ rw (n, drop-append xs (ys ++ zs), take-append ys zs)
