-- ===== src/Cursor/Search.antt =====
-- `table_move_to` and `index_move_to` of cursor.rs.
pub mod Halving
use prsqlite.Prelude.{
  ℕ, zero, suc, ◌+◌, ◌/◌, Ordering, Bool, true, false, not, none, some, List, ℤ, compare_ℤ, ◌>>=◌,
}
use prsqlite.Prelude.{ltb, ◌==◌, if◌then◌else◌}
use prsqlite.Prelude.{Error, Result, ok, err, Run, and_then}
use prsqlite.Btree.Page.{is_table, is_index}
use prsqlite.Btree.Payload.{BtreeContext}
use prsqlite.Btree.Cell.{
  TableCellKeyParser, IndexCellKeyParser, table_cell_key_parser, table_get_cell_key,
  index_cell_key_parser, index_get_cell_key,
}
use prsqlite.Utils.Decimal.{Floats}
use prsqlite.Value.{Value, Collation}
use prsqlite.Record.{compare_record}
use prsqlite.Cursor.Payload.{Pages}
use prsqlite.Cursor.Page.{
  MemPages, CursorPage, BtreeCursor, move_to_root, move_to_child, next_page_id,
}
use prsqlite.Cursor.Move.{index_climb}

-- The binary search over the cells from `lo` to before `hi`, on fuel, by the order of the key sought and
-- the key of a cell: whether a cell with the key was found, and where the search ended.
unfoldable pub search_loop : (ℕ → Run Ordering) → ℕ → ℕ → ℕ → Run (Bool × ℕ)
search_loop probe zero lo hi = none
search_loop probe (suc fuel) lo hi =
    let mid = (lo + hi) / 2 in
    if ltb lo hi
    then and_then (probe mid) (λ o. elim o [
      | Ordering.lt ↦ search_loop probe fuel lo mid
      | Ordering.eq ↦ some (ok (true, mid))
      | Ordering.gt ↦ search_loop probe fuel (mid + 1) hi
    ])
    else some (ok (false, lo))

-- The order of the key and the key of the table cell at `i`.
unfoldable pub table_probe : TableCellKeyParser → ℤ → ℕ → Run Ordering
unfolding table_get_cell_key
table_probe parser key i =
    some (do cell_key ← table_get_cell_key parser i; ok (compare_ℤ key cell_key))

-- The search in one table page.
unfoldable pub table_search : CursorPage → ℤ → Run ℕ
unfolding search_loop table_probe table_cell_key_parser
table_search p key = and_then (some (table_cell_key_parser p.mem p.mem.page)) λ parser.
    and_then (search_loop (table_probe parser key) (p.cells + 1) 0 p.cells)
      λ found. some (ok found.1)

-- The loop of `table_move_to` over the pages, on fuel.
unfoldable pub table_descend : MemPages → ℤ → ℕ → BtreeCursor → Run BtreeCursor
unfolding is_table table_search next_page_id move_to_child
table_descend pages key zero c = none
table_descend pages key (suc fuel) c =
    if not (is_table c.current_page.kind)
    then some (err Error.not_a_table_page)
    else and_then (table_search c.current_page key) λ i.
      let page = record (c.current_page) { idx_cell = i } in
      let there = record c { current_page = page } in
      if page.leaf
      then some (ok (record there { initialized = true }))
      else and_then (some (next_page_id page i)) λ id.
        and_then (some (move_to_child pages id there)) λ child. table_descend pages key fuel child

unfoldable pub table_move_to : MemPages → ℕ → ℤ → BtreeCursor → Run BtreeCursor
unfolding move_to_root table_descend
table_move_to pages fuel key c = table_descend pages key fuel (move_to_root c)

-- The bytes of the pages, as `load` asks for them.
abbrev pub bytes_of : MemPages → Pages
bytes_of pages id = do mem ← pages id; ok mem.page

module _ {F : Type 0} (fl : Floats F) (pages : MemPages) (ctx : BtreeContext) where
  -- The order of the keys and the record of the index cell at `i`.
  unfoldable pub index_probe :
      ℕ → CursorPage → IndexCellKeyParser → List (Value F × Collation) → ℕ → Run Ordering
  unfolding index_get_cell_key compare_record
  index_probe fuel p parser keys i = and_then (some (index_get_cell_key parser i)) λ info.
      compare_record fl (bytes_of pages) fuel keys
        (record { local_payload_buffer = p.mem.page; payload_info = info })

  -- The search in one index page.
  unfoldable pub index_search : ℕ → CursorPage → List (Value F × Collation) → Run (Bool × ℕ)
  unfolding search_loop index_probe index_cell_key_parser
  index_search fuel p keys =
      and_then (some (index_cell_key_parser ctx p.mem p.mem.page))
        λ parser. search_loop (index_probe fuel p parser keys) (p.cells + 1) 0 p.cells

  -- The end of the search in a leaf without the key: behind its last cell the cursor goes on to the
  -- cell of a parent.
  unfoldable pub index_settle : BtreeCursor → Result BtreeCursor
  unfolding index_climb
  index_settle c =
      if c.current_page.idx_cell == c.current_page.cells
      then index_climb c.current_page c.parent_pages
      else ok (record c { initialized = true })

  -- The loop of `index_move_to` over the pages, on fuel for the pages and for the payloads.
  unfoldable pub index_descend : List (Value F × Collation) → ℕ → ℕ → BtreeCursor → Run BtreeCursor
  unfolding is_index index_search index_settle next_page_id move_to_child
  index_descend keys load_fuel zero c = none
  index_descend keys load_fuel (suc fuel) c =
      if not (is_index c.current_page.kind)
      then some (err Error.not_an_index_page)
      else and_then (index_search load_fuel c.current_page keys) λ found.
        let page = record (c.current_page) { idx_cell = found.1 } in
        let there = record c { current_page = page } in
        if found.0
        then some (ok (record there { initialized = true }))
        else if page.leaf
        then some (index_settle there)
        else and_then (some (next_page_id page found.1)) λ id.
          and_then (some (move_to_child pages id there))
            λ child. index_descend keys load_fuel fuel child

  unfoldable pub index_move_to : ℕ → ℕ → List (Value F × Collation) → BtreeCursor → Run BtreeCursor
  unfolding move_to_root index_descend
  index_move_to load_fuel fuel keys c = index_descend keys load_fuel fuel (move_to_root c)
