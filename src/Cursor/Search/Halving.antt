-- ===== src/Cursor/Search/Halving.antt =====
-- The binary search over the cells of a page.
use prsqlite.Prelude.{
  ℕ, zero, suc, ◌+◌, ◌/◌, ◌≤◌, ◌<◌, Ordering, ◌≡◌, refl, ◌≢◌, ◌⊎◌, inl, inr, Bool, true, false,
  some, arith,
}
use prsqlite.Prelude.{ltb, Bool-cases}
use prsqlite.Prelude.{ok, Run}
use prsqlite.Cursor.Search.{search_loop}

-- Where the cells up to `p` are too small, those behind it are not, and `found` tells whether the one
-- at `p` is the one sought.
pub record Lands (n : ℕ) (order : ℕ → Ordering) (found : Bool) (p : ℕ) : Type 0 where
  pub within : p ≤ n
  pub below : (i : ℕ) → i < p → order i ≡ Ordering.gt
  pub above : (i : ℕ) → p < i → i < n → order i ≡ Ordering.lt
  pub hit : found ≡ true → (p < n) × (order p ≡ Ordering.eq)
  pub missed : found ≡ false → p < n → order p ≡ Ordering.lt

-- Cells in strictly ascending order, as the key sought sees them.
pub record IsAscending (n : ℕ) (order : ℕ → Ordering) : Type 0 where
  pub behind : (i j : ℕ) → i < j → j < n → order i ≢ Ordering.gt → order j ≡ Ordering.lt
  pub before : (i j : ℕ) → i < j → j < n → order j ≢ Ordering.lt → order i ≡ Ordering.gt

Ordering-cases : (o : Ordering) → (o ≡ Ordering.lt) ⊎ ((o ≡ Ordering.eq) ⊎ (o ≡ Ordering.gt))
Ordering-cases Ordering.lt = inl refl
Ordering-cases Ordering.eq = inr (inl refl)
Ordering-cases Ordering.gt = inr (inr refl)

module _ (n : ℕ) (probe : ℕ → Run Ordering) (order : ℕ → Ordering)
    (reads : (i : ℕ) → i < n → probe i ≡ some (ok (order i))) (sorted : IsAscending n order) where
  Ends : Run (Bool × ℕ) → Type 0
  Ends r = (found : Bool) × (p : ℕ) × (r ≡ some (ok (found, p))) × Lands n order found p

  from_mid : (mid : ℕ) → order mid ≡ Ordering.lt → (i : ℕ) → mid ≤ i → i < n → order i ≡ Ordering.lt
  from_mid mid e i b c = elim (Bool-cases (ltb mid i)) [
    | inl t ↦ sorted.behind mid i (ground arith) c (rw e (λ f. cc))
    | inr t ↦ let same : i ≡ mid = ground arith in rw same e
  ]

  to_mid :
      (mid : ℕ) → mid < n → order mid ≡ Ordering.gt → (i : ℕ) → i < mid + 1 → order i ≡ Ordering.gt
  to_mid mid inside e i b = elim (Bool-cases (ltb i mid)) [
    | inl t ↦ sorted.before i mid (ground arith) inside (rw e (λ f. cc))
    | inr t ↦ let same : i ≡ mid = ground arith in rw same e
  ]

  search_loop-Ends :
      (fuel lo hi : ℕ)
      → lo ≤ hi
      → hi ≤ n
      → hi < lo + fuel
      → ((i : ℕ) → i < lo → order i ≡ Ordering.gt)
      → ((i : ℕ) → hi ≤ i → i < n → order i ≡ Ordering.lt)
      → Ends (search_loop probe fuel lo hi)
  unfolding search_loop Ends
  search_loop-Ends zero lo hi h k enough below above = absurd (omega arith)
  search_loop-Ends (suc fuel) lo hi h k enough below above =
      let mid = (lo + hi) / 2 in
      elim (Bool-cases (ltb lo hi)) [
        | inr stop ↦
            let same : lo ≡ hi = ground arith in
            rw stop (
              false,
              lo,
              refl,
              record {
                within = omega arith;
                below = below;
                above = λ i b c. above i (omega arith) c;
                hit = λ e. cc;
                missed = λ e c. above lo (omega arith) c;
              },
            )
        | inl go ↦
            let inside : mid < n = ground arith in
            let lo_mid : lo ≤ mid = ground arith in
            let mid_hi : mid < hi = ground arith in
            elim (Ordering-cases (order mid)) [
              | inl e ↦
                  rw (go, reads mid inside, e)
                    (search_loop-Ends fuel lo mid lo_mid (omega arith) (omega arith) below
                      (from_mid mid e))
              | inr (inl e) ↦
                  rw (go, reads mid inside, e)
                    (
                      true,
                      mid,
                      refl,
                      record {
                        within = omega arith;
                        below = λ i b. sorted.before i mid b inside (rw e (λ t. cc));
                        above = λ i b c. sorted.behind mid i b c (rw e (λ t. cc));
                        hit = λ t. (inside, e);
                        missed = λ t. cc;
                      },
                    )
              | inr (inr e) ↦
                  rw (go, reads mid inside, e)
                    (search_loop-Ends fuel (mid + 1) hi (omega arith) k (omega arith)
                      (to_mid mid inside e) above)
            ]
      ]

-- On cells in strictly ascending order, the search over all `n` cells of a page ends within its fuel at
-- the first cell that is not too small, or behind all cells, and says whether it is the one sought.
pub search_loop-Lands :
    (n : ℕ) (probe : ℕ → Run Ordering) (order : ℕ → Ordering)
    → ((i : ℕ) → i < n → probe i ≡ some (ok (order i)))
    → IsAscending n order
    → (found : Bool) × (p : ℕ) × (search_loop probe (n + 1) 0 n ≡ some (ok (found, p)))
      × Lands n order found p
unfolding Ends
search_loop-Lands n probe order reads sorted =
    search_loop-Ends n probe order reads sorted (n + 1) 0 n (omega arith) (omega arith)
      (omega arith) (λ i b. absurd (omega arith)) (λ i b c. absurd (omega arith))
