-- ===== src/Tests/Cursor.antt =====
-- A table of three pages, and the theorems of the cursor on it.
use prsqlite.Prelude.{
  ℕ, zero, suc, ◌<◌, ◌≡◌, refl, ◌≢◌, inr, Bool, true, false, none, some, List, ◌∷◌, pos, arith,
  Ordering, [], ◌>>=◌,
}
use prsqlite.Prelude.{Bytes, and_then, Run}
use prsqlite.Prelude.{ok, panic, ◌>>=◌}
use prsqlite.Utils.Varint.{parse_varint}
use prsqlite.Pager.{MemPage}
use prsqlite.Btree.Page.{
  varint_at, get_cell_offset, from_be_bytes, is_table, from_page, right_page_id,
}
use prsqlite.Btree.Cell.{parse_btree_leaf_table_cell, parse_btree_interior_cell_page_id}
use prsqlite.Btree.Payload.{payload_info_parse, BtreeContext, PayloadInfo}
use prsqlite.Cursor.Page.{MemPages, CursorPage, BtreeCursor, new_page, new_cursor}
use prsqlite.Cursor.Move.{cursor_next, move_to_first}
use prsqlite.Cursor.Search.{search_loop}
use prsqlite.Cursor.Search.Halving.{Lands, search_loop-Lands}
use prsqlite.Cursor.Scan.Tree.{
  Slot, IsTablePage, Opens, Tree, leaf_page, interior_page, Children, last_child, more_children,
  no_parent, parent, some_more, At, on_cell, at_end,
}
use prsqlite.Cursor.Scan.Step.{cursor_next-At}
use prsqlite.Cursor.Scan.Whole.{Row, row_at, Hold, scan_rows, scan_rows-Tree}
use prsqlite.Cursor.Scan.End.{cursor_next_past_end}

abbrev ctx : BtreeContext
ctx = record { max_local_index = 102; max_local_table = 477; min_local = 39; usable_minus_4 = 508 }

-- An interior page with one cell, and two leaves with one row each.
abbrev root_page : Bytes
root_page = 5 ∷ 0 ∷ 0 ∷ 0 ∷ 1 ∷ 0 ∷ 0 ∷ 0 ∷ 0 ∷ 0 ∷ 0 ∷ 3 ∷ 0 ∷ 14 ∷ 0 ∷ 0 ∷ 0 ∷ 2 ∷ 7 ∷ []

abbrev left_page : Bytes
left_page = 0x0d ∷ 0 ∷ 0 ∷ 0 ∷ 1 ∷ 0 ∷ 0 ∷ 0 ∷ 0 ∷ 12 ∷ 0 ∷ 0 ∷ 1 ∷ 5 ∷ 7 ∷ []

abbrev right_page : Bytes
right_page = 0x0d ∷ 0 ∷ 0 ∷ 0 ∷ 1 ∷ 0 ∷ 0 ∷ 0 ∷ 0 ∷ 12 ∷ 0 ∷ 0 ∷ 1 ∷ 9 ∷ 8 ∷ []

abbrev mem_of : Bytes → MemPage
mem_of page = record { page = page; header_offset = 0 }

abbrev pages : MemPages
pages zero = panic
pages (suc zero) = ok (mem_of root_page)
pages (suc (suc zero)) = ok (mem_of left_page)
pages (suc (suc (suc zero))) = ok (mem_of right_page)
pages _ = panic

abbrev root : CursorPage
root = record { mem = mem_of root_page; idx_cell = 0; cells = 1; kind = 5; leaf = false }

abbrev left_leaf : CursorPage
left_leaf = record { mem = mem_of left_page; idx_cell = 0; cells = 1; kind = 13; leaf = true }

abbrev right_leaf : CursorPage
right_leaf = record { mem = mem_of right_page; idx_cell = 0; cells = 1; kind = 13; leaf = true }

root-Opens : Opens pages 1 root
unfolding new_page from_be_bytes
root-Opens = refl

left-Opens : Opens pages 2 left_leaf
unfolding new_page from_be_bytes
left-Opens = refl

right-Opens : Opens pages 3 right_leaf
unfolding new_page from_be_bytes
right-Opens = refl

root_right : (from_page (mem_of root_page) root_page >>= right_page_id) ≡ ok 3
unfolding from_page right_page_id from_be_bytes
root_right = refl

root_left : parse_btree_interior_cell_page_id (mem_of root_page) root_page 0 ≡ ok 2
unfolding parse_btree_interior_cell_page_id get_cell_offset from_be_bytes
root_left = refl

root_is : IsTablePage root
unfolding is_table
root_is = (refl, omega arith, omega arith)

leaf_is : IsTablePage left_leaf
unfolding is_table
leaf_is = (refl, omega arith, omega arith)

leaf_is' : IsTablePage right_leaf
unfolding is_table
leaf_is' = (refl, omega arith, omega arith)

abbrev cells : List Slot
cells = (mem_of left_page, 0) ∷ (mem_of right_page, 0) ∷ []

right_child_of : Children pages 0 (mem_of root_page) 1 1 ((mem_of right_page, 0) ∷ [])
right_child_of = last_child 3 refl root_right (leaf_page right_leaf right-Opens refl leaf_is')

tree : Tree pages 1 1 cells
tree = interior_page root root-Opens refl root_is (
    more_children 2 (omega arith) root_left (leaf_page left_leaf left-Opens refl leaf_is)
      right_child_of)

abbrev info : PayloadInfo
info = record { payload_size = 1; start = 14; end = 15; overflow = none }

abbrev rows : List Row
rows =
    (pos 5, record { local_payload_buffer = left_page; payload_info = info })
    ∷ (pos 9, record { local_payload_buffer = right_page; payload_info = info })
    ∷ []

rows-Hold : Hold ctx cells rows
unfolding row_at parse_btree_leaf_table_cell get_cell_offset from_be_bytes varint_at parse_varint
    payload_info_parse
rows-Hold = (refl, (refl, tt))

scan_rows-Tree_example :
    (do c ← new_cursor pages 1; ok (and_then (move_to_first pages 1 c) (scan_rows pages ctx 1 3)))
    ≡ ok (some (ok rows))
scan_rows-Tree_example = scan_rows-Tree pages ctx 1 1 1 cells rows tree (omega arith) rows-Hold

abbrev on_left : BtreeCursor
on_left = record { current_page = left_leaf; parent_pages = root ∷ []; initialized = true }

on_left-At : At pages 1 left_leaf (root ∷ []) cells
on_left-At =
    on_cell 0 refl leaf_is refl (omega arith)
      (parent refl root_is (some_more (omega arith) right_child_of) no_parent)

cursor_next-At_example :
    (c' : BtreeCursor) × (cursor_next pages 1 on_left ≡ some (ok c'))
    × At pages 1 c'.current_page c'.parent_pages ((mem_of right_page, 0) ∷ [])
    × (c'.initialized ≡ true)
cursor_next-At_example = cursor_next-At pages 1 1 on_left refl (omega arith) on_left-At

abbrev past_root : CursorPage
past_root = record root { idx_cell = 3 }

past_root-At : At pages 1 past_root [] []
unfolding is_table
past_root-At = at_end (refl, omega arith, inr (refl, refl), omega arith)

cursor_next_past_end_example :
    cursor_next pages 1 (record { current_page = past_root; parent_pages = []; initialized = true })
    ≡ some panic
cursor_next_past_end_example = cursor_next_past_end pages 1 1 past_root past_root-At (omega arith)

-- Three keys, the one in the middle of which is sought.
abbrev key_order : ℕ → Ordering
key_order zero = Ordering.gt
key_order (suc zero) = Ordering.eq
key_order (suc (suc i)) = Ordering.lt

abbrev key_probe : ℕ → Run Ordering
key_probe i = some (ok (key_order i))

behind_it : (i j : ℕ) → i < j → j < 3 → key_order i ≢ Ordering.gt → key_order j ≡ Ordering.lt
behind_it zero j b c low = elim (low refl) [ ]
behind_it (suc i) zero b c low = absurd (omega arith)
behind_it (suc i) (suc zero) b c low = absurd (omega arith)
behind_it (suc i) (suc (suc j)) b c low = refl

before_it : (i j : ℕ) → i < j → j < 3 → key_order j ≢ Ordering.lt → key_order i ≡ Ordering.gt
before_it zero j b c high = refl
before_it (suc i) zero b c high = absurd (omega arith)
before_it (suc i) (suc zero) b c high = absurd (omega arith)
before_it (suc i) (suc (suc j)) b c high = elim (high refl) [ ]

search_loop-Lands_example :
    (found : Bool) × (p : ℕ) × (search_loop key_probe 4 0 3 ≡ some (ok (found, p)))
    × Lands 3 key_order found p
search_loop-Lands_example =
    search_loop-Lands 3 key_probe key_order (λ i inside. refl)
      (record { behind = behind_it; before = before_it })
