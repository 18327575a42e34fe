-- ===== src/Cursor/Load.antt =====
-- `load` against the bytes that the chain of overflow pages holds.
use prsqlite.Prelude.{
  ℕ, zero, suc, ◌+◌, ◌-◌, ◌≤◌, ◌<◌, min, ◌≡◌, refl, sym, ap, ◌∙◌, ◌⊎◌, inl, inr, true, false, ◌||◌,
  Option, none, some, [], ◌∷◌, ◌++◌, append_assoc, append-nil, arith,
}
use prsqlite.Prelude.{ltb, leb, ◌==◌, Bool-cases}
use prsqlite.Prelude.{
  length, take, drop, length-append, length-drop, drop-append_le, drop-append_ge, take-append_split,
  Bytes,
}
use prsqlite.Prelude.{pos}
use prsqlite.Prelude.{ok}
use prsqlite.Btree.Payload.{OverflowPage, overflow_parse}
use prsqlite.Cursor.Payload.{Pages, BtreePayload, buf, Progress, copy_part, load_loop, load}

-- The pages from `overflow` on, `k` of them, hold these bytes.
pub data Chain (pages : Pages) : ℕ → Option OverflowPage → Bytes → Type 0 where
  end : Chain pages 0 none []
  page :
      {k : ℕ} {o : OverflowPage} {next : Option OverflowPage} {rest : Bytes} (buffer part : Bytes)
      → pages o.page_id ≡ ok buffer
      → overflow_parse o buffer ≡ ok (part, next)
      → Chain pages k next rest
      → Chain pages (suc k) (some o) (part ++ rest)

-- Nothing is left to copy, or the place to copy from is not before the part at hand.
abbrev IsReady : Progress → ℕ → Type 0
IsReady s cur = (s.left ≡ 0) ⊎ (cur ≤ s.offset)

-- A copy takes what the part has, and the rest is to be copied from behind it.
abbrev Copied : Bytes → ℕ → Progress → Progress → Type 0
Copied payload cur s s' =
    (copy_part payload cur s ≡ ok s')
    × IsReady s' (cur + length payload)
    × ((rest : Bytes)
        → s'.copied ++ take s'.left (drop (s'.offset - (cur + length payload)) rest)
          ≡ s.copied ++ take s.left (drop (s.offset - cur) (payload ++ rest)))

copy_inside :
    (payload : Bytes) (cur : ℕ) (s : Progress)
    → cur ≤ s.offset
    → s.offset < cur + length payload
    → (s' : Progress) × Copied payload cur s s'
copy_inside payload cur s ready inside =
    let m = s.offset - cur in
    let n = min (length payload - m) s.left in
    let s' : Progress = record {
      copied = s.copied ++ take n (drop m payload);
      offset = s.offset + n;
      left = s.left - n;
    } in
    (
      s',
      (
        unfold copy_part in ground arith,
        done n refl,
        λ rest.
            let len : length (drop m payload) ≡ length payload - m = length-drop m payload in
            let zero_left : (take (s.left - n) (drop (s.offset + n - (cur + length payload)) rest))
                ≡ take (s.left - n) rest =
              past n rest refl in
            rw (
              zero_left,
              append_assoc s.copied (take n (drop m payload)) (take (s.left - n) rest),
              drop-append_le m payload rest (omega arith),
              take-append_split s.left (drop m payload) rest,
              len,
            ),
      ),
    )
  where
    done :
        (n : ℕ)
        → n ≡ min (length payload - (s.offset - cur)) s.left
        → (s.left - n ≡ 0) ⊎ (cur + length payload ≤ s.offset + n)
    done n e = elim (Bool-cases (leb s.left (length payload - (s.offset - cur)))) [
      | inl t ↦ inl (ground arith)
      | inr t ↦ inr (ground arith)
    ]

    past :
        (n : ℕ) (rest : Bytes)
        → n ≡ min (length payload - (s.offset - cur)) s.left
        → take (s.left - n) (drop (s.offset + n - (cur + length payload)) rest)
          ≡ take (s.left - n) rest
    past n rest e =
        let behind : s.offset + n - (cur + length payload) ≡ 0 = omega arith in rw behind

copy_outside :
    (payload : Bytes) (cur : ℕ) (s : Progress)
    → cur + length payload ≤ s.offset
    → Copied payload cur s s
copy_outside payload cur s behind = (
  unfold copy_part in ground arith,
  inr behind,
  λ rest.
      let gap : s.offset - cur - length payload ≡ s.offset - (cur + length payload) = omega arith in
      rw (drop-append_ge (s.offset - cur) payload rest (omega arith), gap),
)

copy_part-Copied :
    (payload : Bytes) (cur : ℕ) (s : Progress)
    → cur ≤ s.offset
    → (s' : Progress) × Copied payload cur s s'
copy_part-Copied payload cur s ready = elim (Bool-cases (ltb s.offset (cur + length payload))) [
  | inl inside ↦ copy_inside payload cur s ready (ground arith)
  | inr outside ↦ (s, copy_outside payload cur s (ground arith))
]

nothing_left : (n m : ℕ) (xs : Bytes) → (n ≡ 0) ⊎ (length xs ≡ 0) → take n (drop m xs) ≡ []
nothing_left zero m xs h = refl
nothing_left (suc n) zero [] h = refl
nothing_left (suc n) (suc m) [] h = refl
nothing_left (suc n) m (x ∷ xs) h = absurd (ground arith)

module _ (pages : Pages) (payload_size : ℕ) where
  load_loop_stop :
      (fuel cur : ℕ) (s : Progress) (overflow : Option OverflowPage)
      → (s.left == 0 || leb payload_size cur) ≡ true
      → load_loop pages (suc fuel) payload_size s cur overflow ≡ some (ok s.copied)
  unfolding load_loop
  load_loop_stop fuel cur s overflow h = rw h

  load_loop_page :
      (fuel cur : ℕ) (s s' : Progress) (o : OverflowPage) (next : Option OverflowPage)
      (buffer part : Bytes)
      → (s.left == 0 || leb payload_size cur) ≡ false
      → pages o.page_id ≡ ok buffer
      → overflow_parse o buffer ≡ ok (part, next)
      → copy_part part cur s ≡ ok s'
      → load_loop pages (suc fuel) payload_size s cur (some o)
        ≡ load_loop pages fuel payload_size s' (cur + length part) next
  unfolding load_loop
  load_loop_page fuel cur s s' o next buffer part h p q c = rw (h, p, q, c)

  load_loop-Chain :
      {k : ℕ} {overflow : Option OverflowPage} {rest : Bytes} (fuel cur : ℕ) (s : Progress)
      → Chain pages k overflow rest
      → k < fuel
      → cur + length rest ≡ payload_size
      → IsReady s cur
      → load_loop pages fuel payload_size s cur overflow
        ≡ some (ok (s.copied ++ take s.left (drop (s.offset - cur) rest)))
  load_loop-Chain zero cur s c enough sized ready = absurd (omega arith)
  load_loop-Chain (suc fuel) cur s end enough sized ready =
      let stops : (s.left == 0 || leb payload_size cur) ≡ true = ground arith in
      load_loop_stop fuel cur s none stops
      ∙ rw (nothing_left s.left (s.offset - cur) [] (inr refl), append-nil)
  load_loop-Chain (suc fuel) cur s (page {o = o} {next = next} {rest = rest} buffer part p q c)
        enough sized ready =
      elim (Bool-cases (s.left == 0 || leb payload_size cur)) [
        | inl stops ↦
            let gone : (s.left ≡ 0) ⊎ (length (part ++ rest) ≡ 0) = ground arith in
            load_loop_stop fuel cur s (some o) stops
            ∙ rw (nothing_left s.left (s.offset - cur) (part ++ rest) gone, append-nil)
        | inr goes ↦
            let at_part : cur ≤ s.offset = ground arith in
            let (s', step) = copy_part-Copied part cur s at_part in
            let (copied, ready', same) = step in
            load_loop_page fuel cur s s' o next buffer part goes p q copied
            ∙ load_loop-Chain fuel (cur + length part) s' c (omega arith)
                (omega (arith, length-append part rest)) ready'
            ∙ ap (λ (x : Bytes). some (ok x)) (same rest)
      ]

-- The payload of a cell: the local part, then what `k` overflow pages hold.
pub record Holds (pages : Pages) (k : ℕ) (p : BtreePayload) (content : Bytes) : Type 0 where
  pub local : Bytes
  pub rest : Bytes
  pub in_page : buf p ≡ ok local
  pub chained : Chain pages k p.payload_info.overflow rest
  pub whole : content ≡ local ++ rest
  pub sized : p.payload_info.payload_size ≡ length content

-- `load` copies exactly the bytes of the payload from `offset` on, as many as the buffer takes or the
-- payload has, across the local part and any number of overflow pages. Fuel above the number of
-- overflow pages is enough.
pub load-Holds :
    (pages : Pages) (k fuel offset n : ℕ) (p : BtreePayload) (content : Bytes)
    → Holds pages k p content
    → k < fuel
    → offset < length content
    → load pages fuel p (pos offset) n ≡ some (ok (take n (drop offset content)))
unfolding load
load-Holds pages k fuel offset n p content h enough inside =
    let start : Progress = record { copied = []; offset = offset; left = n } in
    let (s, step) = copy_part-Copied h.local 0 start (omega arith) in
    let (copied, ready, same) = step in
    let open_end : leb p.payload_info.payload_size offset ≡ false = ground (arith, h.sized) in
    let zero_on : 0 + length h.local ≡ length h.local = omega arith in
    let from_start : offset - 0 ≡ offset = omega arith in
    let loop =
      load_loop-Chain pages p.payload_info.payload_size fuel (length h.local) s h.chained enough
        (omega (arith, h.sized, ap length h.whole, length-append h.local h.rest))
        (rw zero_on at ready) in
    let parts : s.copied ++ take s.left (drop (s.offset - length h.local) h.rest)
        ≡ take n (drop offset (h.local ++ h.rest)) =
      rw (zero_on, from_start) at (same h.rest) in
    rw (open_end, h.in_page, copied, loop)
      (ap (λ (x : Bytes). some (ok x))
        (parts ∙ ap (λ (x : Bytes). take n (drop offset x)) (sym h.whole)))
