-- ===== src/Value/Sees.antt =====
-- What a collation sees of a text, and the bytes that `compare_text` has of it.
use prsqlite.Prelude.{
  ℕ, zero, suc, ◌+◌, ◌-◌, ◌≤◌, ◌<◌, ◌≡◌, refl, ap, ◌≢◌, ◌⊎◌, inl, inr, [], ◌∷◌, ◌++◌, map, arith,
}
use mathlib.Core.Path.{subst}
use prsqlite.Prelude.{ltb, ◌==◌, if◌then◌else◌, Bool-cases, length-take}
use prsqlite.Prelude.{length, take, replicate, Bytes, IsBytes}
use prsqlite.Utils.Ascii.{lower, is_upper, lower_lem}
use prsqlite.Value.{Collation, binary, no_case, r_trim, tail_of}

-- What the code compares.
unfoldable pub key : Collation → Bytes → Bytes
key binary t = t
key no_case t = map lower t
key r_trim t = take (tail_of t) t

blank_tail : (n : ℕ) → tail_of (replicate n b' ') ≡ 0
unfolding tail_of
blank_tail zero = refl
blank_tail (suc n) = rw (blank_tail n) refl

pub tail_of-append : (t : Bytes) (n : ℕ) → tail_of (t ++ replicate n b' ') ≡ tail_of t
unfolding tail_of
tail_of-append [] n = blank_tail n
tail_of-append (b ∷ t) n = rw (tail_of-append t n) refl

pub tail_of-le-length : (t : Bytes) → tail_of t ≤ length t
unfolding tail_of
tail_of-le-length [] = omega arith
tail_of-le-length (b ∷ t) = ground (arith, tail_of-le-length t)

-- The letters of the alphabet in lower case, and all other bytes as they are.
abbrev pub small_letter : ℕ → ℕ
small_letter b = if is_upper b then b + 32 else b

lower-small_letter : (t : Bytes) → IsBytes t → map lower t ≡ map small_letter t
lower-small_letter [] h = refl
lower-small_letter (b ∷ t) h = rw (lower_lem b h.0, lower-small_letter t h.1) refl

-- What a collation sees of a text: all of it, its bytes in lower case, or the text without the spaces at
-- its end.
pub data Sees : Collation → Bytes → Bytes → Type 0 where
  sees_all : (t : Bytes) → Sees binary t t
  sees_lower : (t : Bytes) → Sees no_case t (map small_letter t)
  sees_front :
      (s : Bytes) (n : ℕ)
      → ((front : Bytes) → s ≢ front ++ (b' ' ∷ []))
      → Sees r_trim (s ++ replicate n b' ') s

abbrev head_byte : Bytes → ℕ
head_byte [] = 0
head_byte (b ∷ bs) = b

abbrev tail_list : Bytes → Bytes
tail_list [] = []
tail_list (b ∷ bs) = bs

nil_ne : (front : Bytes) → [] ≢ front ++ (b' ' ∷ [])
nil_ne [] e = cc
nil_ne (b ∷ front) e = cc

tail_of-cases :
    (b : ℕ) (bs : Bytes)
    → ((tail_of bs ≡ 0) × (b ≡ b' ') × (tail_of (b ∷ bs) ≡ 0))
      ⊎ ((tail_of (b ∷ bs) ≡ suc (tail_of bs)) × ((0 < tail_of bs) ⊎ (b ≢ b' ')))
unfolding tail_of
tail_of-cases b bs = elim (Bool-cases (ltb 0 (tail_of bs))) [
  | inl more ↦ inr (ground arith, inl (ground arith))
  | inr none_behind ↦ elim (Bool-cases (b == b' ')) [
    | inl space ↦ inl (ground arith, ground arith, ground arith)
    | inr other ↦ inr (ground arith, inr (ground arith))
  ]
]

-- A text is the bytes up to its tail and spaces behind.
spaces_behind : (t : Bytes) → take (tail_of t) t ++ replicate (length t - tail_of t) b' ' ≡ t
unfolding tail_of
spaces_behind [] = refl
spaces_behind (b ∷ bs) = elim (tail_of-cases b bs) [
  | inl (none_behind, space, ends) ↦
      let zero_off : length bs - 0 ≡ length bs = omega arith in
      let before : replicate (length bs) b' ' ≡ bs =
        rw zero_off at (rw none_behind at (spaces_behind bs)) in
      let all_off : suc (length bs) - 0 ≡ suc (length bs) = omega arith in
      rw (ends, space, all_off) (ap (◌∷◌ b' ') before)
  | inr (goes, some_behind) ↦
      let size : suc (length bs) - suc (tail_of bs) ≡ length bs - tail_of bs = omega arith in
      rw (goes, size) (ap (◌∷◌ b) (spaces_behind bs))
]

take-tail_of-end : (t front : Bytes) → take (tail_of t) t ≢ front ++ (b' ' ∷ [])
unfolding tail_of
take-tail_of-end [] front = nil_ne front
take-tail_of-end (b ∷ bs) front = elim (tail_of-cases b bs) [
  | inl (none_behind, space, ends) ↦ rw ends (nil_ne front)
  | inr (goes, some_behind) ↦ rw goes (cons (λ ys. take-tail_of-end bs ys) front some_behind)
]
  where
    cons :
        ((ys : Bytes) → take (tail_of bs) bs ≢ ys ++ (b' ' ∷ []))
        → (front : Bytes) → (0 < tail_of bs) ⊎ (b ≢ b' ')
        → b ∷ take (tail_of bs) bs ≢ front ++ (b' ' ∷ [])
    cons IH [] (inl more) e =
        let rest : take (tail_of bs) bs ≡ [] = ap tail_list e in
        let size : length (take (tail_of bs) bs) ≡ 0 = ap length rest in
        absurd (omega (arith, size, more, length-take (tail_of bs) bs, tail_of-le-length bs))
    cons IH [] (inr other) e = other (ap head_byte e)
    cons IH (y ∷ ys) some_behind e = IH ys (ap tail_list e)

pub key-Sees : (c : Collation) (t : Bytes) → IsBytes t → Sees c t (key c t)
unfolding key
key-Sees binary t h = sees_all t
key-Sees no_case t h = rw (lower-small_letter t h) (sees_lower t)
key-Sees r_trim t h =
    subst (λ u. Sees r_trim u (take (tail_of t) t)) (spaces_behind t)
      (sees_front (take (tail_of t) t) (length t - tail_of t) (take-tail_of-end t))
