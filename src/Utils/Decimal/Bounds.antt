-- ===== src/Utils/Decimal/Bounds.antt =====
-- The 64-bit bounds of what `parse_float` reads.
use prsqlite.Prelude.{
  ℕ, zero, suc, ◌+◌, ◌-◌, ◌*◌, ◌/◌, ◌%◌, ◌^◌, ◌<◌, inl, inr, Bool, true, false, ◌∷◌, arith, [],
}
use prsqlite.Prelude.{ltb, ◌==◌, if◌then◌else◌, Bool-cases}
use prsqlite.Prelude.{get_elem?, drop, count_while, Bytes}
use prsqlite.Prelude.{ℤ, pos, negsuc, diff, ◌+ℤ◌}
use prsqlite.Utils.Ascii.{is_space, is_ascii_digit}
use prsqlite.Utils.Integer.{sign_at}
use prsqlite.Utils.Decimal.{
  room_for_digit, room_for_factor, integer_loop, fraction_loop, grow, shrink, reduce, is_point,
  parse_exponent, scan,
}

integer_loop_bound : (cs : Bytes) (u k : ℕ) → u < room_for_digit → (integer_loop u k cs).0 < 2 ^ 63
unfolding integer_loop is_ascii_digit
integer_loop_bound [] u k h = omega arith
integer_loop_bound (c ∷ cs) u k h =
    let u' = u * 10 + (c - b'0') in
    elim (Bool-cases (is_ascii_digit c)) [
      | inl e ↦ elim (Bool-cases (ltb u' room_for_digit)) [
        | inl f ↦ rw (e, f) (integer_loop_bound cs u' (k + 1) (ground arith))
        | inr f ↦ rw (e, f) (ground arith)
      ]
      | inr e ↦ rw e (omega arith)
    ]

fraction_loop_bound : (cs : Bytes) (u k : ℕ) → u < 2 ^ 63 → (fraction_loop u k cs).0 < 2 ^ 63
unfolding fraction_loop is_ascii_digit
fraction_loop_bound [] u k h = h
fraction_loop_bound (c ∷ cs) u k h =
    let u' = u * 10 + (c - b'0') in
    elim (Bool-cases (is_ascii_digit c)) [
      | inl e ↦ elim (Bool-cases (ltb u room_for_digit)) [
        | inl f ↦ rw (e, f) (fraction_loop_bound cs u' (k + 1) (ground arith))
        | inr f ↦ rw (e, f) (fraction_loop_bound cs u k h)
      ]
      | inr e ↦ rw e h
    ]

grow_bound : (k u : ℕ) → u < 2 ^ 63 → (grow u k).0 < 2 ^ 63
unfolding grow
grow_bound zero u h = h
grow_bound (suc k) u h = elim (Bool-cases (ltb u room_for_factor)) [
  | inl f ↦ rw f (grow_bound k (u * 10) (ground arith))
  | inr f ↦ rw f h
]

shrink_bound : (k u : ℕ) → u < 2 ^ 63 → (shrink u k).0 < 2 ^ 63
unfolding shrink
shrink_bound zero u h = h
shrink_bound (suc k) u h = elim (Bool-cases (u % 10 == 0)) [
  | inl f ↦ rw f (shrink_bound k (u / 10) (omega arith))
  | inr f ↦ rw f h
]

reduce_bound : (u : ℕ) (p : ℤ) → u < 2 ^ 63 → (reduce u p).0 < 2 ^ 63
unfolding reduce
reduce_bound u (pos k) h = grow_bound k u h
reduce_bound u (negsuc k) h = shrink_bound (suc k) u h

chosen_bound : (b : Bool) (u v : ℕ) → u < 2 ^ 63 → v < 2 ^ 63 → (if b then u else v) < 2 ^ 63
chosen_bound true u v h k = h
chosen_bound false u v h k = k

-- On every input the significand that `parse_float` computes, after its integer part, its fractional
-- part and the reduction of the exponent, is below 2 ^ 63, so that it fits the `i64`.
pub scan_significand_bound : (input : Bytes) → (scan input).significand < 2 ^ 63
unfolding scan
scan_significand_bound input =
    let spaces = count_while is_space input in
    let signs = (sign_at (get_elem? input spaces)).1 in
    let number = drop (spaces + signs) input in
    let n_zero = count_while (λ c. c == b'0') number in
    let whole = integer_loop 0 0 (drop n_zero number) in
    let small : whole.0 < 2 ^ 63 = integer_loop_bound (drop n_zero number) 0 0 (omega arith) in
    let after_whole = drop (n_zero + whole.1) number in
    let skipped = count_while is_ascii_digit after_whole in
    let at_point = drop skipped after_whole in
    let pointed = is_point (get_elem? at_point 0) in
    let fraction = drop 1 at_point in
    let part = fraction_loop whole.0 0 fraction in
    let at_exponent =
      if pointed then drop (count_while is_ascii_digit fraction) fraction else at_point in
    let point =
      (if pointed then diff skipped part.1 else pos skipped)
      +ℤ (parse_exponent at_exponent).exponent in
    reduce_bound (if pointed then part.0 else whole.0) point
      (chosen_bound pointed part.0 whole.0 (fraction_loop_bound fraction whole.0 0 small) small)
