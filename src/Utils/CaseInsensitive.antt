-- ===== src/Utils/CaseInsensitive.antt =====
-- `CaseInsensitiveBytes` of utils.rs.
pub mod Laws
pub mod Search
use prsqlite.Prelude.{ℕ, ◌+◌, ◌-◌, compare, Ordering, Bool, true, false, [], ◌∷◌}
use prsqlite.Prelude.{ltb, ◌==◌, if◌then◌else◌}
use prsqlite.Prelude.{length, take, Bytes}
use prsqlite.Prelude.{Result, ok, ◌>>=◌, ◌>>◌, index}
use prsqlite.Utils.Ascii.{lower}

-- The loop of `equal_to_lower_bytes` and of `eq`: `g` is what is done to the other side's byte.
unfoldable pub eq_loop : (ℕ → ℕ) → ℕ → Bytes → Bytes → Result Bool
eq_loop g i [] other = ok true
eq_loop g i (b ∷ bs) other = do
  c ← index other i
  let rest = eq_loop g (i + 1) bs other
  if lower b == g c then rest else ok false

unfoldable pub equal_to_lower_bytes : Bytes → Bytes → Result Bool
unfolding eq_loop
equal_to_lower_bytes self other =
    if length self == length other then eq_loop (λ c. c) 0 self other else ok false

-- `PartialEq::eq`.
unfoldable pub eq : Bytes → Bytes → Result Bool
unfolding eq_loop
eq self other = if length self == length other then eq_loop lower 0 self other else ok false

-- The loop over what follows the first byte of `other`: `i` is the position of that byte in `self`.
unfoldable pub inner_loop : ℕ → ℕ → Bytes → Bytes → Result Bool
inner_loop i j [] self = ok true
inner_loop i j (o ∷ os) self = do
  b ← index self (i + 1 + j)
  let rest = inner_loop i (j + 1) os self
  if lower b == o then rest else ok false

-- `'main_loop`, over the positions that leave room for `other`, which is not empty.
unfoldable pub main_loop : ℕ → Bytes → ℕ → Bytes → Bytes → Result Bool
unfolding inner_loop
main_loop i [] o os self = ok false
main_loop i (b ∷ bs) o os self =
    let rest = main_loop (i + 1) bs o os self in
    if lower b == o
    then (do found ← inner_loop i 0 os self; if found then ok true else rest)
    else rest

unfoldable pub contains_lower_bytes : Bytes → Bytes → Result Bool
unfolding main_loop
contains_lower_bytes self [] = ok true
contains_lower_bytes self (o ∷ os) =
    let room = take (length self - length (o ∷ os) + 1) self in
    if ltb (length self) (length (o ∷ os)) then ok false else main_loop 0 room o os self

-- The first difference of the zipped sequences.
unfoldable pub zip_cmp : Bytes → Bytes → Ordering
zip_cmp (a ∷ xs) (b ∷ ys) = elim (compare (lower a) (lower b)) [
  | Ordering.eq ↦ zip_cmp xs ys
  | o ↦ o
]
zip_cmp _ _ = Ordering.eq

-- `Ord::cmp`.
unfoldable pub cmp : Bytes → Bytes → Ordering
unfolding zip_cmp
cmp self other = elim (zip_cmp self other) [
  | Ordering.eq ↦ compare (length self) (length other)
  | o ↦ o
]

-- The bytes that `Hash::hash` writes.
unfoldable pub hash_bytes : Bytes → Bytes
hash_bytes [] = []
hash_bytes (b ∷ bs) = lower b ∷ hash_bytes bs
