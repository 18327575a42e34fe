-- ===== src/Prelude/Bits.antt =====
-- Masks of a byte as arithmetic, and `x << k | y` as a sum.
use Prim.Native.Nat.{ℕ, suc, zero, max, digits, bit_and, bit_or, bit_or-bitwise}
use Prim.Native.Nat.{◌≤◌, ◌<◌, ◌^◌, ◌%◌, ◌/◌, ◌*◌, ◌+◌}
use mathlib.Core.Path.{◌≡◌, refl, ap, ◌∙◌}
use native.Mathlib.Omega.{arith}
use native.Mathlib.Nat.{pow-suc}
use prsqlite.Prelude.Tests.{all_below, agree_below}

pub low_seven : (b : ℕ) → b < 256 → bit_and b 0x7f ≡ b % 128
unfolding all_below
low_seven = agree_below 256 (λ b. bit_and b 0x7f) (λ b. b % 128) refl

pub top_bit : (b : ℕ) → b < 256 → bit_and b 0x80 ≡ b / 128 * 128
unfolding all_below
top_bit = agree_below 256 (λ b. bit_and b 0x80) (λ b. b / 128 * 128) refl

-- The law for the lowest digit, from the definition that the native operation stands for.
abbrev or_digits : ℕ → ℕ → ℕ → ℕ
or_digits n a b = digits (λ b. b) max n a b

bit_or-zero_left : (b : ℕ) → bit_or 0 b ≡ b
bit_or-zero_left b = bit_or-bitwise 0 b

or_digits_fuel : (n m a b : ℕ) → a ≤ n → a ≤ m → or_digits n a b ≡ or_digits m a b
or_digits_fuel (suc n) (suc m) (suc a) b p q =
    let half : suc a / 2 ≤ n = omega arith in
    let half' : suc a / 2 ≤ m = omega arith in
    omega (arith, or_digits_fuel n m (suc a / 2) (b / 2) half half')
or_digits_fuel (suc n) (suc m) zero b p q = refl
or_digits_fuel zero (suc m) (suc a) b p q = absurd (omega arith)
or_digits_fuel (suc n) zero (suc a) b p q = absurd (omega arith)
or_digits_fuel zero zero zero b p q = refl
or_digits_fuel zero zero (suc a) b p q = absurd (omega arith)
or_digits_fuel zero (suc m) zero b p q = refl
or_digits_fuel (suc n) zero zero b p q = refl

bit_or_step : (x y : ℕ) → bit_or x y ≡ bit_or (x / 2) (y / 2) * 2 + max (x % 2) (y % 2)
bit_or_step zero y = omega (arith, bit_or-zero_left y, bit_or-zero_left (y / 2))
bit_or_step (suc x) y =
    let half = suc x / 2 in
    let same = or_digits_fuel x half half (y / 2) (omega arith) (omega arith) in
    omega (arith, bit_or-bitwise (suc x) y, bit_or-bitwise half (y / 2), same)

bit_or-zero_fuel : (n a : ℕ) → a ≤ n → bit_or a 0 ≡ a
bit_or-zero_fuel n zero h = refl
bit_or-zero_fuel zero (suc a) h = absurd (omega arith)
bit_or-zero_fuel (suc n) (suc a) h =
    omega (arith, bit_or_step (suc a) 0, bit_or-zero_fuel n (suc a / 2) (omega arith))

-- Or with the low bits of a number that ends in k zeros is addition.
pub bit_or-shifted : (k a b : ℕ) → b < 2 ^ k → bit_or (a * 2 ^ k) b ≡ a * 2 ^ k + b
bit_or-shifted zero a b h = none_left b (omega arith)
  where
    whole : a * 2 ^ 0 ≡ a
    whole = omega arith

    none_left : (c : ℕ) → c ≡ 0 → bit_or (a * 2 ^ 0) c ≡ a * 2 ^ 0 + c
    none_left c e = rw (whole, e) (bit_or-zero_fuel a a (omega arith) ∙ omega arith)
bit_or-shifted (suc k) a b h = omega (
  arith,
  bit_or_step (a * 2 ^ suc k) b,
  bit_or-shifted k a (b / 2) (omega (arith, pow-suc 2 k)),
  ap (λ (t : ℕ). bit_or t (b / 2))
      (halved (a * 2 ^ k) (a * 2 ^ suc k) (omega (arith, ap (λ (t : ℕ). a * t) (pow-suc 2 k)))),
  ap (λ (t : ℕ). a * t) (pow-suc 2 k),
)
  where
    halved : (x y : ℕ) → y ≡ x * 2 → y / 2 ≡ x
    halved x y e = omega arith
