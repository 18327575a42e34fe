-- ===== src/Btree/Cells.antt =====
-- The cells of well-formed and malformed pages.
use prsqlite.Prelude.{ok_before}
use prsqlite.Prelude.{
  ℕ, zero, suc, ◌+◌, ◌^◌, ◌≤◌, ◌<◌, ◌≡◌, refl, ap, ◌∙◌, inl, inr, true, false, Option, none, some,
  [], ◌∷◌, arith,
}
use prsqlite.Prelude.{leb, Bool-cases}
use prsqlite.Prelude.{length, drop, length-drop, Bytes, IsBytes}
use prsqlite.Prelude.{ℤ, pos, negsuc, IsSigned}
use prsqlite.Prelude.{
  Error, Result, ok, err, panic, ◌>>=◌, ok_or, IsSafe, Ensures, bind-IsSafe, bind-Ensures,
}
use prsqlite.Prelude.{slice_from-ok}
use prsqlite.Pager.{MemPage}
use prsqlite.Utils.Varint.{parse_varint}
use prsqlite.Utils.Varint.Total.{
  Outcome, unfinished, short, long, parse_varint-Outcome, parse_varint_bounds,
}
use prsqlite.Btree.Page.{get_cell_offset, varint_at, btree_page_leaf_header_size}
use prsqlite.Btree.Payload.{BtreeContext, PayloadInfo, payload_info_parse}
use prsqlite.Btree.Cell.{
  TableCellKeyParser, table_get_cell_key, payload_length, unwrap_ok, parse_btree_leaf_table_cell,
}
use prsqlite.Btree.Context.{IsSound}
use prsqlite.Btree.Ranges.{
  get_cell_offset_range, get_cell_offset-IsSafe, payload_info_parse-IsSafe,
  payload_info_parse-IsWithin, IsWithin,
}

IsBytes-drop : (n : ℕ) (xs : Bytes) → IsBytes xs → IsBytes (drop n xs)
IsBytes-drop zero xs h = h
IsBytes-drop (suc n) [] h = tt
IsBytes-drop (suc n) (x ∷ xs) h = IsBytes-drop n xs h.1

parse_varint_total : (buf : Bytes) → IsBytes buf → (r : Option (ℤ × ℕ)) × (parse_varint buf ≡ ok r)
parse_varint_total buf h = from (parse_varint-Outcome buf h)
  where
    from : {r : Result (Option (ℤ × ℕ))} → Outcome buf r → (o : Option (ℤ × ℕ)) × (r ≡ ok o)
    from (unfinished f l) = (none, refl)
    from (short gs b rest e f l k) = (some _, refl)
    from (long gs b rest e f l k) = (some _, refl)

-- A varint inside the buffer is read without a panic, and it ends inside the buffer.
pub varint_at-IsSafe :
    (buffer : Bytes) (offset : ℕ) (e : Error)
    → IsBytes buffer
    → offset ≤ length buffer
    → IsSafe (varint_at buffer offset e)
unfolding varint_at
varint_at-IsSafe buffer offset e bytes h =
    let (r, total) = parse_varint_total (drop offset buffer) (IsBytes-drop offset buffer bytes) in
    rw (slice_from-ok buffer offset h, total) (answered r)
  where
    answered : (r : Option (ℤ × ℕ)) → IsSafe (ok_or r e)
    answered none = tt
    answered (some p) = tt

pub varint_at_range :
    (buffer : Bytes) (offset : ℕ) (e : Error) (v : ℤ) (n : ℕ)
    → IsBytes buffer
    → varint_at buffer offset e ≡ ok (v, n)
    → (offset + n ≤ length buffer) × (1 ≤ n) × IsSigned (2 ^ 63) v
unfolding varint_at
varint_at_range buffer offset e v n bytes h = elim (Bool-cases (leb offset (length buffer))) [
  | inr out ↦ absurd (cc (rw out at h))
  | inl inside ↦
      let rest = drop offset buffer in
      let fits : offset ≤ length buffer = ground arith in
      let step : (parse_varint rest >>= λ r. ok_or r e) ≡ ok (v, n) = rw inside at h in
      let (r, total, answer) = ok_before (parse_varint rest) (λ r. ok_or r e) step in
      let found : r ≡ some (v, n) = answered r answer in
      let (one, nine, fit, word) =
        parse_varint_bounds rest v n (IsBytes-drop offset buffer bytes) (total ∙ ap ok found) in
      (omega (arith, length-drop offset buffer), one, word)
]
  where
    answered : (r : Option (ℤ × ℕ)) → ok_or r e ≡ ok (v, n) → r ≡ some (v, n)
    answered none a = cc
    answered (some p) a = ground arith

payload_length-IsSafe : (v : ℤ) → IsSafe (payload_length v)
payload_length-IsSafe (pos n) = ground arith
payload_length-IsSafe (negsuc n) = ground arith

-- The leaf cell of a table: an invalid cell pointer makes it panic, and nothing else does.
pub parse_btree_leaf_table_cell_panics :
    (ctx : BtreeContext) (page : MemPage) (buffer : Bytes) (cell_idx : ℕ)
    → IsBytes buffer
    → ((e : Error)
        → get_cell_offset page buffer cell_idx btree_page_leaf_header_size ≡ err e
        → parse_btree_leaf_table_cell ctx page buffer cell_idx ≡ panic)
      × ((o : ℕ)
          → get_cell_offset page buffer cell_idx btree_page_leaf_header_size ≡ ok o
          → IsSafe (parse_btree_leaf_table_cell ctx page buffer cell_idx))
unfolding parse_btree_leaf_table_cell
parse_btree_leaf_table_cell_panics ctx page buffer cell_idx bytes = (
  λ e h. rw h,
  λ o h. rw h (
      bind-IsSafe (varint_at buffer o Error.parse_payload_length_varint) _
        (varint_at-IsSafe buffer o _ bytes (get_cell_offset_range page buffer cell_idx _ o h).1)
        (λ r er. bind-IsSafe (payload_length r.0) _ (payload_length-IsSafe r.0) (λ n en.
          bind-IsSafe (varint_at buffer (o + r.1) Error.parse_key_varint) _
            (varint_at-IsSafe buffer (o + r.1) _ bytes
              (varint_at_range buffer o _ r.0 r.1 bytes er).0)
            (λ k ek.
              bind-IsSafe (payload_info_parse ctx true buffer (o + r.1 + k.1) n) _
                (payload_info_parse-IsSafe ctx true buffer (o + r.1 + k.1) n) (λ info ei. tt))))),
)

-- What a leaf cell promises: where its pointer leads, a varint with the size of the payload, behind it a
-- varint with the 64-bit key, and behind that the payload.
pub record IsGoodLeaf (page : MemPage) (buffer : Bytes) (cell_idx : ℕ) (key : ℤ)
    (info : PayloadInfo) : Type 0 where
  offset : ℕ
  size : ℕ
  size_length : ℕ
  key_length : ℕ
  pointed : get_cell_offset page buffer cell_idx btree_page_leaf_header_size ≡ ok offset
  size_read : parse_varint (drop offset buffer) ≡ ok (some (pos size, size_length))
  key_read : parse_varint (drop (offset + size_length) buffer) ≡ ok (some (key, key_length))
  signed : IsSigned (2 ^ 63) key
  within : IsWithin buffer (offset + size_length + key_length) size info

-- A varint that is read at an offset is the one that the bytes from there begin with.
varint_at-parse_varint :
    (buffer : Bytes) (offset : ℕ) (e : Error) (v : ℤ) (n : ℕ)
    → varint_at buffer offset e ≡ ok (v, n)
    → parse_varint (drop offset buffer) ≡ ok (some (v, n))
unfolding varint_at
varint_at-parse_varint buffer offset e v n h = elim (Bool-cases (leb offset (length buffer))) [
  | inr out ↦ absurd (cc (rw out at h))
  | inl inside ↦
      let rest = drop offset buffer in
      let step : (parse_varint rest >>= λ r. ok_or r e) ≡ ok (v, n) = rw inside at h in
      let (r, total, answer) = ok_before (parse_varint rest) (λ r. ok_or r e) step in
      total ∙ ap ok (answered r answer)
]
  where
    answered : (r : Option (ℤ × ℕ)) → ok_or r e ≡ ok (v, n) → r ≡ some (v, n)
    answered none a = cc
    answered (some p) a = ground arith

payload_length-eq_ok : (v : ℤ) (n : ℕ) → payload_length v ≡ ok n → v ≡ pos n
payload_length-eq_ok (pos m) n h = ground arith
payload_length-eq_ok (negsuc m) n h = ground arith

unwrap_ok-eq_ok {ℓ} : {A : Type ℓ} (m : Result A) (a : A) → unwrap_ok m ≡ ok a → m ≡ ok a
unwrap_ok-eq_ok (ok b) a h = h
unwrap_ok-eq_ok (err e) a h = cc
unwrap_ok-eq_ok panic a h = cc

module _ (ctx : BtreeContext) (page : MemPage) (buffer : Bytes) (cell_idx : ℕ)
    (bytes : IsBytes buffer) (s : IsSound ctx) where
  -- What holds of the key and the payload that were parsed.
  abbrev IsGood : ℤ × PayloadInfo → Type 0
  IsGood r = IsGoodLeaf page buffer cell_idx r.0 r.1

  leaf_Ensures : Ensures IsGood (parse_btree_leaf_table_cell ctx page buffer cell_idx)
  unfolding parse_btree_leaf_table_cell
  leaf_Ensures = bind-Ensures IsGood (unwrap_ok cell) _ λ o eo.
      bind-Ensures IsGood (varint_at buffer o Error.parse_payload_length_varint) _ λ r er.
        bind-Ensures IsGood (payload_length r.0) _ λ n en.
          bind-Ensures IsGood (varint_at buffer (o + r.1) Error.parse_key_varint) _ λ k ek.
            bind-Ensures IsGood (payload_info_parse ctx true buffer (o + r.1 + k.1) n) _ λ i ei.
              let (k_in, k_pos, k_word) = varint_at_range buffer (o + r.1) _ k.0 k.1 bytes ek in
              record {
                offset = o;
                size = n;
                size_length = r.1;
                key_length = k.1;
                pointed = unwrap_ok-eq_ok cell o eo;
                size_read =
                    varint_at-parse_varint buffer o _ r.0 r.1 er
                    ∙ ap (λ v. ok (some (v, r.1))) (payload_length-eq_ok r.0 n en);
                key_read = varint_at-parse_varint buffer (o + r.1) _ k.0 k.1 ek;
                signed = k_word;
                within = payload_info_parse-IsWithin ctx true buffer (o + r.1 + k.1) n i s ei;
              }
    where
      cell : Result ℕ
      cell = get_cell_offset page buffer cell_idx btree_page_leaf_header_size

  -- A leaf cell that parses is, from where its pointer leads, a varint with the size of the payload, a
  -- varint with the key, which fits 64 bits, and the payload: its local part begins right behind the two
  -- varints and lies in the page, and with what remains for overflow pages it is as long as the size says.
  pub parse_btree_leaf_table_cell_ranges :
      (key : ℤ) (info : PayloadInfo)
      → parse_btree_leaf_table_cell ctx page buffer cell_idx ≡ ok (key, info)
      → IsGoodLeaf page buffer cell_idx key info
  parse_btree_leaf_table_cell_ranges key info h = rw h at leaf_Ensures

-- On an interior page, a cell pointer less than four bytes before the end of the page makes the read of
-- a table key panic.
pub table_get_cell_key_panics :
    (p : TableCellKeyParser) (cell_idx o : ℕ)
    → p.leaf ≡ false
    → get_cell_offset p.page p.buffer cell_idx p.size ≡ ok o
    → length p.buffer < o + 4
    → table_get_cell_key p cell_idx ≡ panic
unfolding table_get_cell_key varint_at
table_get_cell_key_panics p cell_idx o interior e h =
    let out : leb (o + 4) (length p.buffer) ≡ false = ground arith in rw (e, interior, out)

-- On a leaf page the key of a table cell is read without a panic, whatever the bytes are.
pub table_get_cell_key-IsSafe :
    (p : TableCellKeyParser) (cell_idx : ℕ)
    → p.leaf ≡ true
    → IsBytes p.buffer
    → IsSafe (table_get_cell_key p cell_idx)
unfolding table_get_cell_key
table_get_cell_key-IsSafe p cell_idx leaf bytes =
    bind-IsSafe (get_cell_offset p.page p.buffer cell_idx p.size) _
      (get_cell_offset-IsSafe p.page p.buffer cell_idx p.size)
      λ o eo.
        let (o_pos, o_in) = get_cell_offset_range p.page p.buffer cell_idx p.size o eo in
        rw leaf (
          bind-IsSafe (varint_at p.buffer o Error.parse_payload_length_varint >>= λ r. ok r.1) _
            (bind-IsSafe (varint_at p.buffer o Error.parse_payload_length_varint) _
              (varint_at-IsSafe p.buffer o _ bytes o_in) (λ r er. tt))
            λ n en.
              let (r, er, same) =
                ok_before (varint_at p.buffer o Error.parse_payload_length_varint) (λ r. ok r.1)
                  en in
              let (r_in, r_pos, r_word) = varint_at_range p.buffer o _ r.0 r.1 bytes er in
              let n_r : n ≡ r.1 = ground arith in
              bind-IsSafe (varint_at p.buffer (o + n) Error.parse_key_varint) _
                (varint_at-IsSafe p.buffer (o + n) _ bytes (omega arith)) (λ k ek. tt))
