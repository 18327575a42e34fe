-- ===== src/Prelude/Ints.antt =====
-- Signed integers over the native numbers, and the two's complement reading of a word.
use Prim.Native.Nat.{ℕ, ◌+◌, ◌-◌, ◌*◌, ◌^◌, ◌<◌, compare, Ordering}
use mathlib.Core.Path.{◌≡◌, refl}
use mathlib.Core.Option.{Option, none, some}
use native.Mathlib.Omega.{arith}
use prsqlite.Prelude.Tests.{ltb, if◌then◌else◌, reverse_ordering}

-- `negsuc n` is -(n + 1).
pub data ℤ : Type 0 where
  pos : ℕ → ℤ
  negsuc : ℕ → ℤ

-- -n.
abbrev pub neg_ℕ : ℕ → ℤ
neg_ℕ n = if ltb 0 n then negsuc (n - 1) else pos 0

-- The number that a word of width w stands for, where `half` is 2 ^ (w - 1).
abbrev pub signed : ℕ → ℕ → ℤ
signed half x = if ltb x half then pos x else negsuc (2 * half - 1 - x)

abbrev pub i64_min : ℤ
i64_min = negsuc (2 ^ 63 - 1)

abbrev pub i64_max : ℤ
i64_max = pos (2 ^ 63 - 1)

-- Membership in the range of the signed word whose sign bit counts `half`.
abbrev pub IsSigned : ℕ → ℤ → Type 0
IsSigned half (pos n) = n < half
IsSigned half (negsuc n) = n < half

pub signed-IsSigned : (half x : ℕ) → x < 2 * half → IsSigned half (signed half x)
signed-IsSigned half x h = ground arith

-- `i64::cmp`.
abbrev pub compare_ℤ : ℤ → ℤ → Ordering
compare_ℤ (pos a) (pos b) = compare a b
compare_ℤ (pos a) (negsuc b) = Ordering.gt
compare_ℤ (negsuc a) (pos b) = Ordering.lt
compare_ℤ (negsuc a) (negsuc b) = compare b a

-- `i32::try_from` and `u32::try_from`, by the least number too large.
abbrev pub to_unsigned : ℕ → ℤ → Option ℕ
to_unsigned bound (pos n) = if ltb n bound then some n else none
to_unsigned bound (negsuc n) = none

pub compare-reverse : (a b : ℕ) → compare a b ≡ reverse_ordering (compare b a)
compare-reverse a b = ground arith

pub compare_ℤ-reverse : (a b : ℤ) → compare_ℤ a b ≡ reverse_ordering (compare_ℤ b a)
compare_ℤ-reverse (pos a) (pos b) = compare-reverse a b
compare_ℤ-reverse (pos a) (negsuc b) = refl
compare_ℤ-reverse (negsuc a) (pos b) = refl
compare_ℤ-reverse (negsuc a) (negsuc b) = compare-reverse b a

-- a - b.
abbrev pub diff : ℕ → ℕ → ℤ
diff a b = if ltb a b then negsuc (b - a - 1) else pos (a - b)

abbrev pub ◌+ℤ◌ : ℤ → ℤ → ℤ
pos a +ℤ pos b = pos (a + b)
pos a +ℤ negsuc b = diff a (b + 1)
negsuc a +ℤ pos b = diff b (a + 1)
negsuc a +ℤ negsuc b = negsuc (a + b + 1)

infixl 60 ◌+ℤ◌
