-- ===== src/Btree/Cell.antt =====
-- The cells of table and index pages of btree.rs.
use prsqlite.Prelude.{ℕ, ◌+◌, ◌^◌, Bool, true, false}
use prsqlite.Prelude.{ltb, leb, if◌then◌else◌}
use prsqlite.Prelude.{length, Bytes}
use prsqlite.Prelude.{ℤ, pos, negsuc}
use prsqlite.Prelude.{Error, Result, ok, err, panic, ◌>>=◌, ◌>>◌, guard, slice}
use prsqlite.Pager.{PageId, MemPage}
use prsqlite.Btree.Page.{
  from_be_bytes, btree_page_leaf_header_size, btree_page_interior_header_size, is_leaf, from_page,
  page_type, header_size, get_cell_offset, varint_at,
}
use prsqlite.Btree.Payload.{BtreeContext, PayloadInfo, payload_info_parse}

pub record TableCellKeyParser : Type 0 where
  pub page : MemPage
  pub buffer : Bytes
  pub leaf : Bool
  pub size : ℕ

unfoldable pub table_cell_key_parser : MemPage → Bytes → Result TableCellKeyParser
table_cell_key_parser page buffer = do
  header ← from_page page buffer
  t ← page_type header
  size ← header_size header
  ok (record { page = page; buffer = buffer; leaf = is_leaf t; size = size })

unfoldable pub table_get_cell_key : TableCellKeyParser → ℕ → Result ℤ
table_get_cell_key p cell_idx = do
  offset ← get_cell_offset p.page p.buffer cell_idx p.size
  in_cell ←
      (if p.leaf
        then (do r ← varint_at p.buffer offset Error.parse_payload_length_varint; ok r.1)
        else ok 4)
  r ← varint_at p.buffer (offset + in_cell) Error.parse_key_varint
  ok r.0

-- `payload_size.try_into()` into an `i32`, and the test for a negative size.
abbrev pub payload_length : ℤ → Result ℕ
payload_length (pos n) = if ltb n (2 ^ 31) then ok n else err Error.payload_length_too_large
payload_length (negsuc n) =
    if ltb n (2 ^ 31)
    then err Error.payload_length_is_negative
    else err Error.payload_length_too_large

pub record IndexCellKeyParser : Type 0 where
  pub ctx : BtreeContext
  pub page : MemPage
  pub buffer : Bytes
  pub offset_in_cell : ℕ
  pub size : ℕ

unfoldable pub index_cell_key_parser : BtreeContext → MemPage → Bytes → Result IndexCellKeyParser
index_cell_key_parser ctx page buffer = do
  header ← from_page page buffer
  t ← page_type header
  size ← header_size header
  ok (record {
    ctx = ctx;
    page = page;
    buffer = buffer;
    offset_in_cell = (if is_leaf t then 0 else 4);
    size = size;
  })

unfoldable pub index_get_cell_key : IndexCellKeyParser → ℕ → Result PayloadInfo
index_get_cell_key p cell_idx = do
  cell ← get_cell_offset p.page p.buffer cell_idx p.size
  let offset = cell + p.offset_in_cell
  r ← varint_at p.buffer offset Error.parse_payload_length_varint
  payload_size ← payload_length r.0
  payload_info_parse p.ctx false p.buffer (offset + r.1) payload_size

-- `.unwrap()` of a result.
abbrev pub unwrap_ok {ℓ} : {A : Type ℓ} → Result A → Result A
unwrap_ok (ok a) = ok a
unwrap_ok (err e) = panic
unwrap_ok panic = panic

unfoldable pub parse_btree_leaf_table_cell :
    BtreeContext → MemPage → Bytes → ℕ → Result (ℤ × PayloadInfo)
parse_btree_leaf_table_cell ctx page buffer cell_idx = do
  cell ← unwrap_ok (get_cell_offset page buffer cell_idx btree_page_leaf_header_size)
  r ← varint_at buffer cell Error.parse_payload_length_varint
  payload_size ← payload_length r.0
  k ← varint_at buffer (cell + r.1) Error.parse_key_varint
  payload ← payload_info_parse ctx true buffer (cell + r.1 + k.1) payload_size
  ok (k.0, payload)

unfoldable pub parse_btree_interior_cell_page_id : MemPage → Bytes → ℕ → Result PageId
parse_btree_interior_cell_page_id page buffer cell_idx = do
  cell ← get_cell_offset page buffer cell_idx btree_page_interior_header_size
  guard (leb (cell + 5) (length buffer)) Error.interior_cell_too_short
  bytes ← slice buffer cell (cell + 4)
  ok (from_be_bytes bytes)
