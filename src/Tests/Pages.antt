-- ===== src/Tests/Pages.antt =====
-- Pages, cells and payloads: runs, and the theorems at concrete inputs.
use prsqlite.Prelude.{ℕ, ◌+◌, ◌-◌, ◌*◌, ◌/◌, ◌≡◌, refl, true, false, none, some, ◌∷◌, arith, []}
use prsqlite.Prelude.{◌==◌, if◌then◌else◌}
use prsqlite.Prelude.{length, take, drop, replicate, Bytes}
use prsqlite.Prelude.{pos}
use prsqlite.Prelude.{Error, ok, err, panic, IsSafe}
use prsqlite.Prelude.{List}
use prsqlite.Pager.{PageId, Reader, Pager, MemPage, header_offset_of, get_page, lookup_page}
use prsqlite.Pager.Coherence.{IsCoherent, file_page, get_page-file}
use prsqlite.Pager.Failure.{calls, get_page_after_failure}
use prsqlite.Btree.Page.{get_cell_offset, from_be_bytes, btree_page_leaf_header_size, varint_at}
use prsqlite.Btree.Payload.{
  BtreeContext, new_context, OverflowPage, overflow_parse, PayloadInfo, payload_info_parse,
}
use prsqlite.Btree.Cell.{TableCellKeyParser, table_get_cell_key, parse_btree_leaf_table_cell}
use prsqlite.Btree.Context.{IsSound, new_context-IsSound}
use prsqlite.Btree.Ranges.{IsPart, overflow_parse-IsPart, IsWithin, payload_info_parse-IsWithin}
use prsqlite.Btree.Cells.{
  IsGoodLeaf, parse_btree_leaf_table_cell_panics, parse_btree_leaf_table_cell_ranges,
  table_get_cell_key-IsSafe,
}
use prsqlite.Cursor.Payload.{Pages, BtreePayload, buf, load}
use prsqlite.Cursor.Load.{end, page, Holds, load-Holds}
use prsqlite.Utils.Varint.{parse_varint}

-- A file of three pages of four bytes, and a reader of it.
abbrev file : Bytes
file = 1 ∷ 2 ∷ 3 ∷ 4 ∷ 5 ∷ 6 ∷ 7 ∷ 8 ∷ 9 ∷ 10 ∷ 11 ∷ 12 ∷ []

abbrev read_file : Reader
read_file offset buffer = (take (length buffer) (drop offset file), true)

abbrev no_file : Reader
no_file offset buffer = (buffer, false)

abbrev pager : Pager
pager = record { n_pages = 3; cache = record { map = []; pagesize = 4 } }

get_page-file_example :
    ((get_page read_file 2 pager).0
      ≡ ok (record { page = file_page file 4 2; header_offset = header_offset_of 2 }))
    × IsCoherent file (get_page read_file 2 pager).1
    × ((get_page read_file 2 pager).1.n_pages ≡ 3)
    × ((get_page read_file 2 pager).1.cache.pagesize ≡ 4)
get_page-file_example =
    get_page-file file read_file (λ o b h. refl) pager (record { counted = refl; cached = tt }) 2
      (omega arith) (omega arith)

page_two :
    (get_page read_file 2 pager).0 ≡ ok (record { page = 5 ∷ 6 ∷ 7 ∷ 8 ∷ []; header_offset = 0 })
unfolding get_page lookup_page prsqlite.Pager.write_page
page_two = refl

-- Calls for another page, for the same page, and for one that does not exist.
abbrev history : List (Reader × PageId)
history = (read_file, 3) ∷ (no_file, 2) ∷ (no_file, 1) ∷ (read_file, 8) ∷ []

get_page_after_failure_example :
    ((get_page no_file 2 pager).0 ≡ err Error.io_error)
    × ((get_page read_file 2 (calls history (get_page no_file 2 pager).1)).0
        ≡ ok (record { page = replicate 4 0; header_offset = header_offset_of 2 }))
unfolding lookup_page
get_page_after_failure_example =
    get_page_after_failure no_file read_file 2 pager history (omega arith) (omega arith) refl
      (replicate 4 0) refl

abbrev context : BtreeContext
context = record {
  max_local_index = 102;
  max_local_table = 477;
  min_local = 39;
  usable_minus_4 = 508;
}

new_context-IsSound_example :
    (ctx : BtreeContext) × (new_context 512 ≡ ok ctx)
    × IsSound ctx
    × (ctx.max_local_table + 35 ≡ 512)
    × (ctx.max_local_index + 23 ≡ (512 - 12) * 64 / 255)
    × (ctx.min_local + 23 ≡ (512 - 12) * 32 / 255)
new_context-IsSound_example = new_context-IsSound 512 (omega arith) (omega arith)

abbrev overflow_three : OverflowPage
overflow_three = record { page_id = 3; remaining_size = 5 }

abbrev middle_page : Bytes
middle_page = 0 ∷ 0 ∷ 0 ∷ 9 ∷ 21 ∷ 22 ∷ 23 ∷ []

abbrev last_page : Bytes
last_page = 0 ∷ 0 ∷ 0 ∷ 0 ∷ 24 ∷ 25 ∷ 0 ∷ []

abbrev overflow_nine : OverflowPage
overflow_nine = record { page_id = 9; remaining_size = 2 }

middle_parses :
    overflow_parse overflow_three middle_page ≡ ok (21 ∷ 22 ∷ 23 ∷ [], some overflow_nine)
unfolding overflow_parse from_be_bytes
middle_parses = refl

last_parses : overflow_parse overflow_nine last_page ≡ ok (24 ∷ 25 ∷ [], none)
unfolding overflow_parse from_be_bytes
last_parses = refl

overflow_parse-IsPart_example :
    IsPart overflow_three middle_page (21 ∷ 22 ∷ 23 ∷ []) (some overflow_nine)
overflow_parse-IsPart_example =
    overflow_parse-IsPart overflow_three middle_page (21 ∷ 22 ∷ 23 ∷ []) (some overflow_nine)
      middle_parses

-- A leaf page with one cell: a payload of one byte under the key 5.
abbrev leaf_page : Bytes
leaf_page = 0x0d ∷ 0 ∷ 0 ∷ 0 ∷ 1 ∷ 0 ∷ 0 ∷ 0 ∷ 0 ∷ 12 ∷ 0 ∷ 0 ∷ 1 ∷ 5 ∷ 7 ∷ []

abbrev mem : MemPage
mem = record { page = leaf_page; header_offset = 0 }

abbrev cell_info : PayloadInfo
cell_info = record { payload_size = 1; start = 14; end = 15; overflow = none }

payload_parses : payload_info_parse context true leaf_page 14 1 ≡ ok cell_info
unfolding payload_info_parse
payload_parses = refl

payload_info_parse-IsWithin_example : IsWithin leaf_page 14 1 cell_info
payload_info_parse-IsWithin_example =
    payload_info_parse-IsWithin context true leaf_page 14 1 cell_info (omega arith) payload_parses

leaf_parses : parse_btree_leaf_table_cell context mem leaf_page 0 ≡ ok (pos 5, cell_info)
unfolding parse_btree_leaf_table_cell get_cell_offset from_be_bytes varint_at parse_varint
    payload_info_parse
leaf_parses = refl

parse_btree_leaf_table_cell_panics_example :
    ((e : Error)
      → get_cell_offset mem leaf_page 9 btree_page_leaf_header_size ≡ err e
      → parse_btree_leaf_table_cell context mem leaf_page 9 ≡ panic)
    × ((o : ℕ)
        → get_cell_offset mem leaf_page 9 btree_page_leaf_header_size ≡ ok o
        → IsSafe (parse_btree_leaf_table_cell context mem leaf_page 9))
parse_btree_leaf_table_cell_panics_example =
    parse_btree_leaf_table_cell_panics context mem leaf_page 9 (omega arith)

parse_btree_leaf_table_cell_ranges_example : IsGoodLeaf mem leaf_page 0 (pos 5) cell_info
parse_btree_leaf_table_cell_ranges_example =
    parse_btree_leaf_table_cell_ranges context mem leaf_page 0 (omega arith) (omega arith) (pos 5)
      cell_info leaf_parses

-- An interior page whose cell begins two bytes before its end.
abbrev interior_page : Bytes
interior_page = 0x05 ∷ 0 ∷ 0 ∷ 0 ∷ 1 ∷ 0 ∷ 0 ∷ 0 ∷ 0 ∷ 0 ∷ 0 ∷ 2 ∷ 0 ∷ 14 ∷ 1 ∷ 1 ∷ []

abbrev interior_parser : TableCellKeyParser
interior_parser = record {
  page = record { page = interior_page; header_offset = 0 };
  buffer = interior_page;
  leaf = false;
  size = 12;
}

interior_offset : get_cell_offset interior_parser.page interior_page 0 12 ≡ ok 14
unfolding get_cell_offset from_be_bytes
interior_offset = refl

table_get_cell_key-IsSafe_example :
    IsSafe (table_get_cell_key (record { page = mem; buffer = leaf_page; leaf = true; size = 8 }) 0)
table_get_cell_key-IsSafe_example =
    table_get_cell_key-IsSafe (record { page = mem; buffer = leaf_page; leaf = true; size = 8 }) 0
      refl (omega arith)

-- A payload of one local byte and two overflow pages.
abbrev pages : Pages
pages id =
    if id == 3
    then ok middle_page
    else if id == 9
    then ok last_page
    else err Error.page_id_exceeds_file_size

abbrev long_payload : BtreePayload
long_payload = record {
  local_payload_buffer = leaf_page;
  payload_info = record { payload_size = 6; start = 14; end = 15; overflow = some overflow_three };
}

long_payload-Holds : Holds pages 2 long_payload (7 ∷ 21 ∷ 22 ∷ 23 ∷ 24 ∷ 25 ∷ [])
unfolding buf
long_payload-Holds = record {
  local = 7 ∷ [];
  rest = 21 ∷ 22 ∷ 23 ∷ 24 ∷ 25 ∷ [];
  in_page = refl;
  chained =
      page middle_page (21 ∷ 22 ∷ 23 ∷ []) refl middle_parses
        (page last_page (24 ∷ 25 ∷ []) refl last_parses end);
  whole = refl;
  sized = refl;
}

load-Holds_example : load pages 3 long_payload (pos 2) 3 ≡ some (ok (22 ∷ 23 ∷ 24 ∷ []))
load-Holds_example =
    load-Holds pages 2 3 2 3 long_payload _ long_payload-Holds (omega arith) (omega arith)
