-- ===== src/Utils/Varint.antt =====
-- The variable-length integers of utils.rs: `parse_varint` and the functions that it calls.
pub mod Rounds
pub mod Encoding
pub mod Total
use prsqlite.Prelude.{
  ℕ, zero, suc, ◌+◌, ◌*◌, ◌%◌, ◌^◌, bit_and, bit_or, Bool, true, false, ◌||◌, Option, none, some,
  [], ◌∷◌,
}
use prsqlite.Prelude.{◌==◌, if◌then◌else◌}
use prsqlite.Prelude.{Bytes}
use prsqlite.Prelude.{ℤ, signed}
use prsqlite.Prelude.{Result, ok, ◌>>=◌, ◌>>◌, index}

-- `valid_varint_buffer`: the count of bytes seen so far, and the bytes that follow.
valid_loop : ℕ → Bytes → Bool
valid_loop count [] = false
valid_loop count (b ∷ bs) =
    let rest = valid_loop (count + 1) bs in
    if count + 1 == 9 || bit_and b 0x80 == 0 then true else rest

unfoldable pub valid_varint_buffer : Bytes → Bool
unfolding valid_loop
valid_varint_buffer = valid_loop 0

-- `v <<= 7; v |= b & 0x7f` and `v <<= 8; v |= b`, on the bits of the 64-bit word.
abbrev pub add_group : ℕ → ℕ → ℕ
add_group v b = bit_or (v * 2 ^ 7 % 2 ^ 64) (bit_and b 0x7f)

abbrev pub add_byte : ℕ → ℕ → ℕ
add_byte v b = bit_or (v * 2 ^ 8 % 2 ^ 64) b

-- The loop over 1..8 with `k` rounds left, at index `i`, and the ninth byte behind it.
unfoldable pub parse_loop : ℕ → ℕ → ℕ → Bytes → Result (ℕ × ℕ)
parse_loop zero i v buf = do b ← index buf 8; ok (add_byte v b, 9)
parse_loop (suc k) i v buf = do
  b ← index buf i
  let v' = add_group v b
  let rest = parse_loop k (i + 1) v' buf
  if bit_and b 0x80 == 0 then ok (v', i + 1) else rest

-- The value as a 64-bit word and the bytes consumed; an index out of range panics.
unfoldable pub parse_word : Bytes → Result (ℕ × ℕ)
unfolding parse_loop
parse_word buf = do
  b ← index buf 0
  if bit_and b 0x80 == 0 then ok (b, 1) else parse_loop 7 1 (bit_and b 0x7f) buf

-- The word read as an `i64`.
unfoldable pub unsafe_parse_varint : Bytes → Result (ℤ × ℕ)
unfolding parse_word
unsafe_parse_varint buf = do (v, n) ← parse_word buf; ok (signed (2 ^ 63) v, n)

-- `none` for a buffer that is not valid.
unfoldable pub parse_varint : Bytes → Result (Option (ℤ × ℕ))
unfolding unsafe_parse_varint valid_varint_buffer
parse_varint buf =
    if valid_varint_buffer buf then (do r ← unsafe_parse_varint buf; ok (some r)) else ok none
