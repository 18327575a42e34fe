-- ===== src/Btree/Ranges.antt =====
-- The places that b-tree pages name lie in the page, and sizes add up.
use prsqlite.Prelude.{ℕ, ◌+◌, ◌-◌, ◌*◌, ◌%◌, ◌^◌, ◌≤◌, ◌<◌, ◌≡◌, Bool, Option, none, some, arith}
use prsqlite.Prelude.{length, drop, length-take, length-drop, Bytes}
use prsqlite.Prelude.{
  ok, IsSafe, Result, Error, err, ◌>>=◌, slice, take, ltb, leb, ◌==◌, if◌then◌else◌, if_true,
  if_false, Bool-cases, inl, inr, ap, sym, ◌∙◌, refl, [], ◌∷◌, zero, suc,
}
use prsqlite.Btree.Page.{from_be_bytes}
use prsqlite.Prelude.{slice-ok}
use prsqlite.Pager.{MemPage}
use prsqlite.Btree.Page.{get_cell_offset}
use prsqlite.Btree.Payload.{
  BtreeContext, n_local, OverflowPage, overflow_parse, PayloadInfo, payload_info_parse,
}
use prsqlite.Btree.Context.{IsSound, n_local_bounds}

-- A cell offset is in the range of the buffer and past its first byte.
pub get_cell_offset_range :
    (page : MemPage) (buffer : Bytes) (cell_idx size o : ℕ)
    → get_cell_offset page buffer cell_idx size ≡ ok o
    → (0 < o) × (o ≤ length buffer)
unfolding get_cell_offset
get_cell_offset_range page buffer cell_idx size o h = ground arith

pub get_cell_offset-IsSafe :
    (page : MemPage) (buffer : Bytes) (cell_idx size : ℕ)
    → IsSafe (get_cell_offset page buffer cell_idx size)
unfolding get_cell_offset
get_cell_offset-IsSafe page buffer cell_idx size = ground (
  arith,
  slice-ok {0} buffer (page.header_offset + size + cell_idx * 2 % 2 ^ 16)
      (page.header_offset + size + cell_idx * 2 % 2 ^ 16 + 2),
)

-- What is left for the pages behind.
abbrev pub remaining : Option OverflowPage → ℕ
remaining none = 0
remaining (some o) = o.remaining_size

-- The page behind, where 0 is none.
abbrev pub next_id : Option OverflowPage → ℕ
next_id none = 0
next_id (some o) = o.page_id

take-all : (xs : Bytes) → take (length xs) xs ≡ xs
take-all [] = refl
take-all (x ∷ xs) = ap (◌∷◌ x) (take-all xs)

take-length-take : (n : ℕ) (xs : Bytes) → take (length (take n xs)) xs ≡ take n xs
take-length-take zero xs = refl
take-length-take (suc n) [] = refl
take-length-take (suc n) (x ∷ xs) = ap (◌∷◌ x) (take-length-take n xs)

-- What a page holds for an overflow page: the id of the next one in its first four bytes, and a part of
-- the payload in those behind, which with what remains makes up what remained.
pub record IsPart (o : OverflowPage) (buffer payload : Bytes) (next : Option OverflowPage)
    : Type 0 where
  pub follows : next_id next ≡ from_be_bytes (take 4 buffer)
  pub bytes : payload ≡ take (length payload) (drop 4 buffer)
  pub inside : length payload + 4 ≤ length buffer
  pub complete : length payload + remaining next ≡ o.remaining_size

ok-pair :
    {A B : Type 0} (a c : A) (b d : B)
    → ◌≡◌ {A = Result (A × B)} (ok (a, b)) (ok (c, d))
    → (a ≡ c) × (b ≡ d)
ok-pair a c b d h = (cc, cc)

module _ (o : OverflowPage) (buffer payload : Bytes) (next : Option OverflowPage) where
  abbrev last_part : Result (Bytes × Option OverflowPage)
  last_part =
      if leb (4 + o.remaining_size) (length buffer)
      then (slice buffer 4 (4 + o.remaining_size) >>= λ tail. ok (tail, none))
      else err Error.overflow_payload_without_next_page

  abbrev inner_part : ℕ → Result (Bytes × Option OverflowPage)
  inner_part id =
      if ltb (length (drop 4 buffer)) o.remaining_size
      then ok (
        drop 4 buffer,
        some (record { page_id = id; remaining_size = o.remaining_size - length (drop 4 buffer) }),
      )
      else err Error.overflow_page_has_too_many_next_page

  last_part-IsPart :
      from_be_bytes (take 4 buffer) ≡ 0
      → last_part ≡ ok (payload, next)
      → IsPart o buffer payload next
  last_part-IsPart no_id h = elim (Bool-cases (leb (4 + o.remaining_size) (length buffer))) [
    | inr short ↦ absurd (cc (rw short at h))
    | inl room ↦
        let r = o.remaining_size in
        let found = take (4 + r - 4) (drop 4 buffer) in
        let whole = slice-ok buffer 4 (4 + r) (omega arith) (ground arith) in
        let (same, ends) =
          ok-pair found payload none next
            (sym (if_true _ _ _ room ∙ ap (λ q. q >>= λ tail. ok (tail, none)) whole) ∙ h) in
        let size : length found ≡ r =
          ground (arith, length-take (4 + r - 4) (drop 4 buffer), length-drop {A = ℕ} 4 buffer) in
        rw (sym same, sym ends)
          (record {
            follows = sym no_id;
            bytes = sym (take-length-take (4 + r - 4) (drop 4 buffer));
            inside = ground (arith, size);
            complete = omega (arith, size);
          })
  ]

  inner_part-IsPart :
      4 ≤ length buffer
      → inner_part (from_be_bytes (take 4 buffer)) ≡ ok (payload, next)
      → IsPart o buffer payload next
  inner_part-IsPart long h = elim (Bool-cases (ltb (length (drop 4 buffer)) o.remaining_size)) [
    | inr over ↦ absurd (cc (rw over at h))
    | inl more ↦
        let (same, goes) = ok-pair _ payload _ next (sym (if_true _ _ _ more) ∙ h) in
        rw (sym same, sym goes)
          (record {
            follows = refl;
            bytes = sym (take-all (drop 4 buffer));
            inside = omega (arith, length-drop {A = ℕ} 4 buffer);
            complete = ground arith;
          })
  ]

  -- Where an overflow page parses, the part of the payload is the bytes of the page behind the first four,
  -- as many as it has, those four are the id of the page behind or 0 where there is none, and the part and
  -- what remains behind it make up what remained before.
  pub overflow_parse-IsPart :
      overflow_parse o buffer ≡ ok (payload, next) → IsPart o buffer payload next
  unfolding overflow_parse
  overflow_parse-IsPart h = elim (Bool-cases (leb 4 (length buffer))) [
    | inr short ↦ absurd (cc (rw short at h))
    | inl long ↦
        let id = from_be_bytes (take 4 buffer) in
        let both : (if id == 0 then last_part else inner_part id) ≡ ok (payload, next) =
          rw long at h in
        elim (Bool-cases (id == 0)) [
          | inl none_behind ↦
              last_part-IsPart (ground arith) (sym (if_true _ _ _ none_behind) ∙ both)
          | inr more ↦ inner_part-IsPart (ground arith) (sym (if_false _ _ _ more) ∙ both)
        ]
  ]

-- The payload of a cell: the local part lies in the buffer, and with what remains for the overflow pages
-- it is as long as the payload.
pub record IsWithin (buffer : Bytes) (offset payload_size : ℕ) (info : PayloadInfo) : Type 0 where
  pub starts : info.start ≡ offset
  pub ordered : info.start ≤ info.end
  pub inside : info.end ≤ length buffer
  pub sized : info.payload_size ≡ payload_size
  pub complete : info.end - info.start + remaining info.overflow ≡ payload_size

-- In a sound context, wherever the parse of a payload succeeds, the local part lies in the buffer from
-- the given offset on, and the local part and what remains for the overflow pages add up to the size.
pub payload_info_parse-IsWithin :
    (ctx : BtreeContext) (table : Bool) (buffer : Bytes) (offset payload_size : ℕ)
    (info : PayloadInfo)
    → IsSound ctx
    → payload_info_parse ctx table buffer offset payload_size ≡ ok info
    → IsWithin buffer offset payload_size info
unfolding payload_info_parse
payload_info_parse-IsWithin ctx table buffer offset payload_size info s h =
    ground (arith, n_local_bounds ctx table payload_size s)

pub payload_info_parse-IsSafe :
    (ctx : BtreeContext) (table : Bool) (buffer : Bytes) (offset payload_size : ℕ)
    → IsSafe (payload_info_parse ctx table buffer offset payload_size)
unfolding payload_info_parse
payload_info_parse-IsSafe ctx table buffer offset payload_size =
    let tail = offset + n_local ctx table payload_size in
    ground (arith, slice-ok {0} buffer tail (tail + 4))
