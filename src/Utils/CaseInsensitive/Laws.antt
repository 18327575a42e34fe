-- ===== src/Utils/CaseInsensitive/Laws.antt =====
-- Equality, order and hash of `CaseInsensitiveBytes`, against those of the bytes in lower case.
use prsqlite.Prelude.{
  ℕ, suc, ◌+◌, Ordering, ◌≡◌, refl, ap, ◌≢◌, ◌↔◌, inl, inr, Bool, true, false, ◌&&◌, some, [], ◌∷◌,
  ◌++◌, map, append_assoc, arith,
}
use prsqlite.Prelude.{◌==◌, if◌then◌else◌, ==_iff, Bool-cases, reverse_ordering}
use prsqlite.Prelude.{length, get_elem?, length-append, get_elem?-append, Bytes}
use prsqlite.Prelude.{ok, IsSafe}
use prsqlite.Prelude.{
  bytes_eq, bytes_eq_iff, bytes_eq-length_ne, bytes_cmp, bytes_cmp-reverse, bytes_cmp-eq_iff,
}
use prsqlite.Utils.Ascii.{lower}
use prsqlite.Utils.CaseInsensitive.{eq_loop, equal_to_lower_bytes, eq, cmp, hash_bytes}

-- Byte by byte, with `g` on the other side.
same : (ℕ → ℕ) → Bytes → Bytes → Bool
same g [] cs = true
same g (b ∷ bs) [] = true
same g (b ∷ bs) (c ∷ cs) = lower b == g c && same g bs cs

eq_loop-same :
    (g : ℕ → ℕ) (bs front cs : Bytes) (i : ℕ)
    → i ≡ length front
    → length bs ≡ length cs
    → eq_loop g i bs (front ++ cs) ≡ ok (same g bs cs)
unfolding eq_loop same
eq_loop-same g [] front cs i hi h = refl
eq_loop-same g (b ∷ bs) front [] i hi h = absurd (omega arith)
eq_loop-same g (b ∷ bs) front (c ∷ cs) i hi h =
    let here : get_elem? (front ++ (c ∷ cs)) i ≡ some c = rw hi (get_elem?-append front c cs) in
    let moved : (front ++ (c ∷ [])) ++ cs ≡ front ++ (c ∷ cs) = append_assoc front (c ∷ []) cs in
    let rest : eq_loop g (i + 1) bs (front ++ (c ∷ cs)) ≡ ok (same g bs cs) = rw moved at (
      eq_loop-same g bs (front ++ (c ∷ [])) cs (i + 1) (omega (arith, length-append front (c ∷ [])))
        (omega arith)) in
    rw here (ground (arith, rest))

same-bytes_eq :
    (g : ℕ → ℕ) (bs cs : Bytes)
    → length bs ≡ length cs
    → same g bs cs ≡ bytes_eq (map lower bs) (map g cs)
unfolding same bytes_eq
same-bytes_eq g [] [] h = refl
same-bytes_eq g [] (c ∷ cs) h = absurd (omega arith)
same-bytes_eq g (b ∷ bs) [] h = absurd (omega arith)
same-bytes_eq g (b ∷ bs) (c ∷ cs) h = ground (arith, same-bytes_eq g bs cs (omega arith))

length-map : (f : ℕ → ℕ) (xs : Bytes) → length (map f xs) ≡ length xs
length-map f [] = refl
length-map f (x ∷ xs) = ap suc (length-map f xs)

guarded :
    (g : ℕ → ℕ) (bs cs : Bytes)
    → (if length bs == length cs then eq_loop g 0 bs cs else ok false)
      ≡ ok (bytes_eq (map lower bs) (map g cs))
guarded g bs cs = elim (Bool-cases (length bs == length cs)) [
  | inl e ↦
      let h : length bs ≡ length cs = (==_iff (length bs) (length cs)).0 e in
      rw (e, eq_loop-same g bs [] cs 0 refl h, same-bytes_eq g bs cs h)
  | inr ne ↦
      let h : length (map lower bs) ≢ length (map g cs) =
        rw (length-map lower bs, length-map g cs) (λ e. ground arith) in
      rw (ne, bytes_eq-length_ne (map lower bs) (map g cs) h)
]

map-id : (xs : Bytes) → map (λ c. c) xs ≡ xs
map-id [] = refl
map-id (x ∷ xs) = ap (◌∷◌ x) (map-id xs)

-- `equal_to_lower_bytes` never reads out of range, and answers whether the bytes in lower case are the
-- other bytes.
pub equal_to_lower_bytes_lem :
    (bs cs : Bytes) → equal_to_lower_bytes bs cs ≡ ok (bytes_eq (map lower bs) cs)
unfolding equal_to_lower_bytes
equal_to_lower_bytes_lem bs cs = rw (map-id cs) at (guarded (λ c. c) bs cs)

pub eq_lem : (bs cs : Bytes) → eq bs cs ≡ ok (bytes_eq (map lower bs) (map lower cs))
unfolding eq
eq_lem bs cs = guarded lower bs cs

-- The order is the order of byte slices on the bytes in lower case.
pub cmp-bytes_cmp : (bs cs : Bytes) → cmp bs cs ≡ bytes_cmp (map lower bs) (map lower cs)
unfolding cmp bytes_cmp
cmp-bytes_cmp [] [] = refl
cmp-bytes_cmp [] (c ∷ cs) = ground arith
cmp-bytes_cmp (b ∷ bs) [] = ground arith
cmp-bytes_cmp (b ∷ bs) (c ∷ cs) = ground (arith, cmp-bytes_cmp bs cs)

pub hash_bytes-map : (bs : Bytes) → hash_bytes bs ≡ map lower bs
unfolding hash_bytes
hash_bytes-map [] = refl
hash_bytes-map (b ∷ bs) = ap (◌∷◌ (lower b)) (hash_bytes-map bs)

-- The traits agree with one another: `eq` is total, it holds exactly where `cmp` says equal and exactly
-- where the two write the same bytes to a hasher, and `cmp` with its sides exchanged is reversed.
pub eq-cmp_hash :
    (bs cs : Bytes)
    → ((eq bs cs ≡ ok true) ↔ (cmp bs cs ≡ Ordering.eq))
      × ((eq bs cs ≡ ok true) ↔ (hash_bytes bs ≡ hash_bytes cs))
      × IsSafe (eq bs cs)
      × (cmp bs cs ≡ reverse_ordering (cmp cs bs))
eq-cmp_hash bs cs =
    rw (eq_lem, cmp-bytes_cmp bs cs, cmp-bytes_cmp cs bs, hash_bytes-map bs, hash_bytes-map cs)
      (
        (
          λ h. (bytes_cmp-eq_iff xs ys).1 (same_bytes h),
          λ h. ap ok ((bytes_eq_iff xs ys).1 ((bytes_cmp-eq_iff xs ys).0 h)),
        ),
        (same_bytes, λ h. ap ok ((bytes_eq_iff xs ys).1 h)),
        tt,
        bytes_cmp-reverse xs ys,
      )
  where
    xs : Bytes
    xs = map lower bs

    ys : Bytes
    ys = map lower cs

    same_bytes : ok (bytes_eq (map lower bs) (map lower cs)) ≡ ok true → map lower bs ≡ map lower cs
    same_bytes h = (bytes_eq_iff (map lower bs) (map lower cs)).0 (ground arith)
