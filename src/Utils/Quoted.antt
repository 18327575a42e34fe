-- ===== src/Utils/Quoted.antt =====
-- `MaybeQuotedBytes` and `DequotedIter` of utils.rs.
pub mod RoundTrip
use prsqlite.Prelude.{ℕ, zero, suc, ◌-◌, Bool, ◌||◌, Option, none, some, [], ◌∷◌}
use prsqlite.Prelude.{leb, ◌==◌, if◌then◌else◌}
use prsqlite.Prelude.{length, Bytes}
use prsqlite.Prelude.{Result, ok, panic, ◌>>=◌, ◌>>◌, assert, index, slice}

abbrev pub is_delimiter : ℕ → Bool
is_delimiter c = c == b'\'' || c == b'"' || c == b'`'

-- `while let Some(&b) = iter.next()`: a delimiter has to be followed by another one.
unfoldable pub dequote_loop : ℕ → Bytes → Result Bytes
dequote_loop d [] = ok []
dequote_loop d (b ∷ []) = if b == d then panic else ok (b ∷ [])
dequote_loop d (b ∷ c ∷ rest) =
    let skip = dequote_loop d rest in
    let keep = dequote_loop d (c ∷ rest) in
    if b == d then (do assert (c == d); r ← skip; ok (b ∷ r)) else (do r ← keep; ok (b ∷ r))

-- `dequote`, on the bytes that the wrapper holds.
unfoldable pub dequote : Bytes → Result Bytes
unfolding dequote_loop
dequote [] = ok []
dequote (q ∷ cs) =
    if is_delimiter q
    then (do
      assert (leb 2 (length (q ∷ cs)))
      last ← index (q ∷ cs) (length (q ∷ cs) - 1)
      assert (last == q)
      body ← slice (q ∷ cs) 1 (length (q ∷ cs) - 1)
      dequote_loop q body)
    else ok (q ∷ cs)

pub record DequotedIter : Type 0 where
  pub iter : Bytes
  pub delimiter : ℕ

-- The delimiter is 0 for a text without quotes.
unfoldable pub dequote_iter : Bytes → Result DequotedIter
dequote_iter [] = ok (record { iter = []; delimiter = 0 })
dequote_iter (q ∷ cs) =
    if is_delimiter q
    then (do
      body ← slice (q ∷ cs) 1 (length (q ∷ cs) - 1)
      ok (record { iter = body; delimiter = q }))
    else ok (record { iter = q ∷ cs; delimiter = 0 })

-- `slice::Iter::next`.
abbrev pub next_byte : Bytes → Option ℕ × Bytes
next_byte [] = (none, [])
next_byte (b ∷ bs) = (some b, bs)

-- `DequotedIter::next`: a delimiter is passed over, and the byte behind it is the item.
unfoldable pub next_in : ℕ → Bytes → Option ℕ × Bytes
next_in d [] = (none, [])
next_in d (b ∷ bs) = if b == d then next_byte bs else (some b, bs)

unfoldable pub next : DequotedIter → Option ℕ × DequotedIter
unfolding next_in
next it = let (item, rest) = next_in it.delimiter it.iter in (item, record it { iter = rest })

-- The items that `for` sees, with a bound on their number.
unfoldable pub collect : ℕ → DequotedIter → Bytes
unfolding next
collect zero it = []
collect (suc n) it =
    let (item, it') = next it in elim item [ none ↦ [] | some b ↦ b ∷ collect n it' ]
