-- ===== src/Btree/Page.antt =====
-- Page headers and cell pointers of btree.rs. A buffer is the bytes of a page; a page type is a byte.
use prsqlite.Prelude.{ℕ, ◌+◌, ◌-◌, ◌*◌, ◌/◌, ◌%◌, ◌^◌, bit_and, Bool, not, [], ◌∷◌}
use prsqlite.Prelude.{leb, ◌==◌, if◌then◌else◌}
use prsqlite.Prelude.{length, Bytes}
use prsqlite.Prelude.{ℤ}
use prsqlite.Prelude.{Error, Result, ok, ◌>>=◌, ◌>>◌, guard, ok_or, index, slice_from, slice}
use prsqlite.Pager.{PageId, MemPage}
use prsqlite.Utils.Varint.{parse_varint}

-- `from_be_bytes`.
unfoldable pub be_from : ℕ → Bytes → ℕ
be_from v [] = v
be_from v (b ∷ bs) = be_from (v * 256 + b) bs

unfoldable pub from_be_bytes : Bytes → ℕ
unfolding be_from
from_be_bytes = be_from 0

abbrev pub btree_page_interior_header_size : ℕ
btree_page_interior_header_size = 12

abbrev pub btree_page_leaf_header_size : ℕ
btree_page_leaf_header_size = 8

abbrev pub btree_page_header_max_size : ℕ
btree_page_header_max_size = btree_page_interior_header_size

abbrev pub leaf_flag : ℕ
leaf_flag = 0x08

abbrev pub index_flag : ℕ
index_flag = 0x02

abbrev pub table_flag : ℕ
table_flag = 0x05

-- `BtreePageType`, a byte.
unfoldable pub is_leaf : ℕ → Bool
is_leaf t = not (bit_and t leaf_flag == 0)

unfoldable pub is_table : ℕ → Bool
is_table t = not (bit_and t table_flag == 0)

unfoldable pub is_index : ℕ → Bool
is_index t = not (bit_and t index_flag == 0)

-- `BtreePageHeader::from_page`: the twelve bytes of the header.
unfoldable pub from_page : MemPage → Bytes → Result Bytes
from_page page buffer =
    slice buffer page.header_offset (page.header_offset + btree_page_header_max_size)

-- Reads of the header, an array of twelve bytes.
unfoldable pub page_type : Bytes → Result ℕ
page_type header = index header 0

unfoldable pub n_cells : Bytes → Result ℕ
n_cells header = do b ← slice header 3 5; ok (from_be_bytes b)

unfoldable pub right_page_id : Bytes → Result PageId
right_page_id header = do b ← slice header 8 12; ok (from_be_bytes b)

-- `8 + ((!self.0[0] & LEAF_FLAG) >> 1)`.
unfoldable pub header_size : Bytes → Result ℕ
header_size header = do t ← index header 0; ok (8 + bit_and (255 - t) leaf_flag / 2)

-- `cell_idx << 1` is on 16 bits.
unfoldable pub get_cell_offset : MemPage → Bytes → ℕ → ℕ → Result ℕ
get_cell_offset page buffer cell_idx size = do
  let pointer = page.header_offset + size + cell_idx * 2 % 2 ^ 16
  guard (leb (pointer + 2) (length buffer)) Error.cell_pointer_out_of_range
  bytes ← slice buffer pointer (pointer + 2)
  let offset = if from_be_bytes bytes == 0 then 2 ^ 16 else from_be_bytes bytes
  guard (leb offset (length buffer)) Error.cell_offset_out_of_range
  ok offset

-- `parse_varint(&buffer[offset..]).ok_or(e)`.
unfoldable pub varint_at : Bytes → ℕ → Error → Result (ℤ × ℕ)
varint_at buffer offset e = do rest ← slice_from buffer offset; r ← parse_varint rest; ok_or r e
