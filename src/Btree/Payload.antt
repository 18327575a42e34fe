-- ===== src/Btree/Payload.antt =====
-- Where the payload of a cell lies: `BtreeContext`, `PayloadInfo` and `OverflowPage` of btree.rs.
use prsqlite.Prelude.{ℕ, ◌+◌, ◌-◌, ◌*◌, ◌/◌, ◌%◌, ◌^◌, min, Bool, ◌&&◌, Option, none, some}
use prsqlite.Prelude.{ltb, leb, ◌==◌, if◌then◌else◌}
use prsqlite.Prelude.{length, Bytes}
use prsqlite.Prelude.{Error, Result, ok, err, panic, ◌>>=◌, ◌>>◌, guard, assert, slice_from, slice}
use prsqlite.Pager.{PageId}
use prsqlite.Btree.Page.{from_be_bytes}

-- `BtreeContext`. The sizes are `u16`; `max_local` is for index pages and for table pages.
pub record BtreeContext : Type 0 where
  pub max_local_index : ℕ
  pub max_local_table : ℕ
  pub min_local : ℕ
  pub usable_minus_4 : ℕ

-- `(a - b).try_into().unwrap()` into a `u16`.
abbrev pub sub_u16 : ℕ → ℕ → Result ℕ
sub_u16 a b = if leb b a && ltb (a - b) (2 ^ 16) then ok (a - b) else panic

-- `BtreeContext::new`, on a usable size that is not negative; below 12 the first size is negative.
unfoldable pub new_context : ℕ → Result BtreeContext
new_context usable_size = do
  assert (leb usable_size 65536 && leb 12 usable_size)
  max_index ← sub_u16 ((usable_size - 12) * 64 / 255) 23
  max_table ← sub_u16 usable_size 35
  min ← sub_u16 ((usable_size - 12) * 32 / 255) 23
  minus_4 ← sub_u16 usable_size 4
  ok (record {
    max_local_index = max_index;
    max_local_table = max_table;
    min_local = min;
    usable_minus_4 = minus_4;
  })

abbrev pub max_local : BtreeContext → Bool → ℕ
max_local ctx table = if table then ctx.max_local_table else ctx.max_local_index

-- `surplus`, where the size is at least `min_local`, as it is where `n_local` is called.
abbrev pub surplus : BtreeContext → ℕ → ℕ
surplus ctx payload_size = ctx.min_local + (payload_size - ctx.min_local) % ctx.usable_minus_4

unfoldable pub n_local : BtreeContext → Bool → ℕ → ℕ
n_local ctx table payload_size =
    if leb (surplus ctx payload_size) (max_local ctx table)
    then surplus ctx payload_size
    else ctx.min_local

pub record OverflowPage : Type 0 where
  pub page_id : PageId
  pub remaining_size : ℕ

-- `OverflowPage::parse`: the part of the payload in this page, and the next page.
unfoldable pub overflow_parse : OverflowPage → Bytes → Result (Bytes × Option OverflowPage)
overflow_parse o buffer = do
  head ← slice buffer 0 4
  let next = from_be_bytes head
  payload ← slice_from buffer 4
  if next == 0
      then (if leb (4 + o.remaining_size) (length buffer)
          then (do tail ← slice buffer 4 (4 + o.remaining_size); ok (tail, none))
          else err Error.overflow_payload_without_next_page)
      else (if ltb (length payload) o.remaining_size
          then ok (
            payload,
            some (record { page_id = next; remaining_size = o.remaining_size - length payload }),
          )
          else err Error.overflow_page_has_too_many_next_page)

-- `local_range` is from `start` up to `end`.
pub record PayloadInfo : Type 0 where
  pub payload_size : ℕ
  pub start : ℕ
  pub end : ℕ
  pub overflow : Option OverflowPage

-- `PayloadInfo::parse`.
unfoldable pub payload_info_parse : BtreeContext → Bool → Bytes → ℕ → ℕ → Result PayloadInfo
payload_info_parse ctx table buffer offset payload_size =
    let in_cell = n_local ctx table payload_size in
    let tail = offset + in_cell in
    if leb payload_size (max_local ctx table)
    then (if leb (offset + payload_size) (length buffer)
        then ok (record {
          payload_size = payload_size;
          start = offset;
          end = offset + payload_size;
          overflow = none;
        })
        else err Error.payload_too_large_in_single_cell)
    else if ltb (length buffer) (tail + 4)
    then err Error.next_page_id_out_of_range
    else (do
      bytes ← slice buffer tail (tail + 4)
      let next = from_be_bytes bytes
      guard (ltb 0 next) Error.next_page_id_is_zero
      ok (record {
        payload_size = payload_size;
        start = offset;
        end = tail;
        overflow = some (record { page_id = next; remaining_size = payload_size - in_cell });
      }))
