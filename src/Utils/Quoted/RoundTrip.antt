-- ===== src/Utils/Quoted/RoundTrip.antt =====
-- Texts put in quotes are read back by `dequote` and by `dequote_iter`.
use prsqlite.Prelude.{
  ℕ, zero, suc, ◌+◌, ◌-◌, ◌≤◌, ◌<◌, ◌≡◌, refl, inl, inr, true, false, [], ◌∷◌, ◌++◌, arith,
}
use prsqlite.Prelude.{leb, ◌==◌, if◌then◌else◌, ==_iff, Bool-cases}
use prsqlite.Prelude.{length, take, length-append, take-append, get_elem?-append, Bytes}
use prsqlite.Prelude.{ok, ◌>>=◌, index, slice}
use prsqlite.Utils.Quoted.{is_delimiter, dequote_loop, dequote, DequotedIter, dequote_iter, collect}

-- A text in quotes, with each delimiter in it doubled.
unfoldable pub escape : ℕ → Bytes → Bytes
escape d [] = []
escape d (b ∷ bs) = if b == d then d ∷ d ∷ escape d bs else b ∷ escape d bs

unfoldable pub quote : ℕ → Bytes → Bytes
unfolding escape
quote d s = d ∷ (escape d s ++ (d ∷ []))

dequote_loop_plain :
    (d b : ℕ) (rest : Bytes)
    → (b == d) ≡ false
    → dequote_loop d (b ∷ rest) ≡ (dequote_loop d rest >>= λ r. ok (b ∷ r))
unfolding dequote_loop
dequote_loop_plain d b [] h = rw h
dequote_loop_plain d b (c ∷ rest) h = rw h

dequote_loop-escape : (d : ℕ) (s : Bytes) → dequote_loop d (escape d s) ≡ ok s
unfolding escape
dequote_loop-escape d [] = unfold dequote_loop in refl
dequote_loop-escape d (b ∷ bs) = elim (Bool-cases (b == d)) [
  | inl e ↦ rw e (unfolded b (dequote_loop-escape d bs) ((==_iff b d).0 e))
  | inr ne ↦ rw (ne, dequote_loop_plain d b (escape d bs) ne, dequote_loop-escape d bs)
]
  where
    unfolded :
        (b : ℕ)
        → dequote_loop d (escape d bs) ≡ ok bs
        → b ≡ d
        → dequote_loop d (d ∷ d ∷ escape d bs) ≡ ok (b ∷ bs)
    unfolded b h e = unfold dequote_loop in ground (arith, h)

take_body : (body : Bytes) (d : ℕ) → take (length (body ++ (d ∷ [])) - 1) (body ++ (d ∷ [])) ≡ body
take_body body d =
    let e : length (body ++ (d ∷ [])) - 1 ≡ length body =
      omega (arith, length-append body (d ∷ [])) in
    rw e (take-append body (d ∷ []))

slice_body :
    (q d : ℕ) (body : Bytes)
    → slice (q ∷ (body ++ (d ∷ []))) 1 (suc (length (body ++ (d ∷ []))) - 1) ≡ ok body
slice_body q d body =
    let n = length (body ++ (d ∷ [])) in
    let len : n ≡ length body + 1 = length-append body (d ∷ []) in
    let t1 : leb 1 (suc n - 1) ≡ true = ground (arith, len) in
    let t2 : leb (suc n - 1) (suc n) ≡ true = ground arith in
    let t3 : suc n - 1 - 1 ≡ n - 1 = omega arith in rw (t1, t2, t3, take_body body d)

pub index_last :
    (q d : ℕ) (body : Bytes)
    → index (q ∷ (body ++ (d ∷ []))) (suc (length (body ++ (d ∷ []))) - 1) ≡ ok d
index_last q d body =
    let e : suc (length (body ++ (d ∷ []))) - 1 ≡ suc (length body) =
      omega (arith, length-append body (d ∷ [])) in
    rw (e, get_elem?-append body d [])

-- Dequoting a text that was put in quotes of one of the three kinds gives the text back.
pub dequote-quote : (d : ℕ) (s : Bytes) → is_delimiter d ≡ true → dequote (quote d s) ≡ ok s
unfolding dequote quote
dequote-quote d s h =
    let long : leb 2 (suc (length (escape d s ++ (d ∷ [])))) ≡ true =
      ground (arith, length-append (escape d s) (d ∷ [])) in
    let own : (d == d) ≡ true = ground arith in
    rw (h, long, index_last d d (escape d s), own, slice_body d d (escape d s))
      (dequote_loop-escape d s)

collect_loop :
    (d : ℕ) (s : Bytes) (n : ℕ)
    → length s < n
    → collect n (record { iter = escape d s; delimiter = d }) ≡ s
unfolding collect escape
collect_loop d s zero h = absurd (omega arith)
collect_loop d [] (suc n) h = refl
collect_loop d (b ∷ bs) (suc n) h = ground (arith, collect_loop d bs n)

length-escape : (d : ℕ) (s : Bytes) → length s ≤ length (escape d s)
unfolding escape
length-escape d [] = omega arith
length-escape d (b ∷ bs) = ground (arith, length-escape d bs)

-- The iterator over a text in quotes yields the text.
pub dequote_iter-quote :
    (d : ℕ) (s : Bytes)
    → is_delimiter d ≡ true
    → (it : DequotedIter) × (dequote_iter (quote d s) ≡ ok it)
      × (collect (length (quote d s)) it ≡ s)
unfolding dequote_iter quote
dequote_iter-quote d s h = (
  record { iter = escape d s; delimiter = d },
  rw (h, slice_body d d (escape d s)),
  collect_loop d s _ (omega (arith, length-escape d s, length-append (escape d s) (d ∷ []))),
)
