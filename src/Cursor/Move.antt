-- ===== src/Cursor/Move.antt =====
-- `move_to_first`, `next` and the reads at the position of a `BtreeCursor`.
use prsqlite.Prelude.{◌>>◌, [], ◌>>=◌}
use prsqlite.Prelude.{
  ℕ, zero, suc, compare, Ordering, Bool, true, false, not, ◌&&◌, ◌||◌, Option, none, some, List,
  ◌∷◌, ℤ,
}
use prsqlite.Prelude.{ltb, leb, ◌==◌, if◌then◌else◌}
use prsqlite.Prelude.{Error, Result, ok, err, guard, assert, Run, and_then}
use prsqlite.Pager.{PageId}
use prsqlite.Btree.Page.{is_table, is_index}
use prsqlite.Btree.Payload.{BtreeContext}
use prsqlite.Btree.Cell.{parse_btree_leaf_table_cell, index_cell_key_parser, index_get_cell_key}
use prsqlite.Cursor.Payload.{BtreePayload}
use prsqlite.Cursor.Page.{
  MemPages, CursorPage, BtreeCursor, add_one, advance, move_to_root, move_to_child, right_child,
  cell_child,
}

-- The loop of `move_to_left_most`, on fuel: down the first cells to a leaf.
unfoldable pub left_loop : MemPages → ℕ → BtreeCursor → Run BtreeCursor
unfolding cell_child move_to_child
left_loop pages zero c = none
left_loop pages (suc fuel) c =
    if c.current_page.leaf
    then some (ok c)
    else and_then (some (cell_child c.current_page 0))
        λ id. and_then (some (move_to_child pages id c)) λ c'. left_loop pages fuel c'

-- The page at which `move_to_left_most` begins: none where the cells are used up.
unfoldable pub left_choice : CursorPage → Ordering → Result (Option PageId)
unfolding cell_child right_child
left_choice p Ordering.lt = do id ← cell_child p p.idx_cell; ok (some id)
left_choice p Ordering.eq = do id ← right_child p; ok (some id)
left_choice p Ordering.gt = ok none

unfoldable pub left_start : CursorPage → Result (Option PageId)
unfolding left_choice
left_start p = left_choice p (compare p.idx_cell p.cells)

-- Behind the choice of the page.
unfoldable pub left_from : MemPages → ℕ → BtreeCursor → Option PageId → Run (BtreeCursor × Bool)
unfolding left_loop move_to_child
left_from pages fuel c none = some (ok (c, false))
left_from pages fuel c (some id) = and_then (some (move_to_child pages id c)) λ child.
    and_then
      (left_loop pages fuel
        (record child { current_page = record child.current_page { idx_cell = 0 } }))
      λ c'. some (ok (c', true))

-- `move_to_left_most`: the cursor, and whether there was a page below.
unfoldable pub move_to_left_most : MemPages → ℕ → BtreeCursor → Run (BtreeCursor × Bool)
unfolding left_start left_from
move_to_left_most pages fuel c =
    and_then (some (assert (not c.current_page.leaf)))
      λ checked. and_then (some (left_start c.current_page)) λ start. left_from pages fuel c start

-- `move_to_first` behind the way to the first cell of the root.
unfoldable pub first_from : MemPages → ℕ → BtreeCursor → Run BtreeCursor
unfolding move_to_left_most
first_from pages fuel c =
    and_then (if c.current_page.leaf then some (ok (c, true)) else move_to_left_most pages fuel c)
      λ moved. some (ok (record (moved.0) { initialized = true }))

unfoldable pub move_to_first : MemPages → ℕ → BtreeCursor → Run BtreeCursor
unfolding move_to_root first_from
move_to_first pages fuel c =
    let root = move_to_root c in
    first_from pages fuel (record root { current_page = record root.current_page { idx_cell = 0 } })

-- The loop of `next` on a table page, over the parents of the page.
unfoldable pub table_climb : MemPages → ℕ → CursorPage → List CursorPage → Run BtreeCursor
unfolding move_to_left_most
table_climb pages fuel page [] =
    and_then (some (advance page))
      λ page'. some (ok (record { current_page = page'; parent_pages = []; initialized = true }))
table_climb pages fuel page (p ∷ ps) = and_then (some (advance p)) λ p'.
    and_then
      (move_to_left_most pages fuel
        (record { current_page = p'; parent_pages = ps; initialized = true }))
      λ moved. elim moved.1 [ true ↦ some (ok (moved.0)) | false ↦ table_climb pages fuel p' ps ]

-- The loop over the parents of an index page, to one with cells left.
unfoldable pub index_climb : CursorPage → List CursorPage → Result BtreeCursor
index_climb page [] = do
  page' ← advance page
  ok (record { current_page = page'; parent_pages = []; initialized = true })
index_climb page (p ∷ ps) =
    let further = index_climb p ps in
    let here : BtreeCursor = record { current_page = p; parent_pages = ps; initialized = true } in
    if p.idx_cell == p.cells then further else ok here

-- `next` behind the step to the next cell, by the kind of the page.
unfoldable pub next_table : MemPages → ℕ → BtreeCursor → Run BtreeCursor
unfolding table_climb
next_table pages fuel c = and_then (some (assert c.current_page.leaf)) λ checked.
    and_then (some (assert (c.current_page.idx_cell == c.current_page.cells)))
      λ checked'. table_climb pages fuel c.current_page c.parent_pages

unfoldable pub next_index : MemPages → ℕ → BtreeCursor → Run BtreeCursor
unfolding move_to_left_most index_climb
next_index pages fuel c =
    let p = c.current_page in
    if not p.leaf && leb p.idx_cell p.cells
    then (and_then (move_to_left_most pages fuel c)
        λ moved. and_then (some (assert moved.1)) λ checked. some (ok (moved.0)))
    else and_then (some (assert (p.leaf && p.idx_cell == p.cells)))
        λ checked. some (index_climb p c.parent_pages)

-- The test for a cursor that is completed.
unfoldable pub is_completed : BtreeCursor → Result Bool
is_completed c = elim c.parent_pages [
  | [] ↦ do
    after ← add_one c.current_page.cells
    ok (c.current_page.idx_cell == after || c.current_page.cells == 0)
  | p ∷ ps ↦ ok false
]

-- `next` of a cursor that is not completed.
unfoldable pub next_cell : MemPages → ℕ → BtreeCursor → Run BtreeCursor
unfolding next_table next_index is_table is_index
next_cell pages fuel c = and_then (some (advance c.current_page)) λ p.
    let c' = record c { current_page = p } in
    if p.leaf && ltb p.idx_cell p.cells
    then some (ok c')
    else if is_table p.kind
    then next_table pages fuel c'
    else if is_index p.kind
    then next_index pages fuel c'
    else some (err Error.not_a_btree_page)

unfoldable pub cursor_next : MemPages → ℕ → BtreeCursor → Run BtreeCursor
unfolding is_completed next_cell
cursor_next pages fuel c =
    if not c.initialized
    then some (err Error.cursor_is_not_initialized)
    else and_then (some (is_completed c))
        λ completed. if completed then some (ok c) else next_cell pages fuel c

unfoldable pub get_table_payload : BtreeContext → BtreeCursor → Result (Option (ℤ × BtreePayload))
unfolding is_table parse_btree_leaf_table_cell
get_table_payload ctx c = do
  let p = c.current_page
  guard c.initialized Error.cursor_is_not_initialized
  guard (is_table p.kind) Error.not_a_table_page
  if leb p.cells p.idx_cell then ok none else (do
    assert p.leaf
    (key, info) ← parse_btree_leaf_table_cell ctx p.mem p.mem.page p.idx_cell
    ok (some (key, record { local_payload_buffer = p.mem.page; payload_info = info })))

unfoldable pub get_index_payload : BtreeContext → BtreeCursor → Result (Option BtreePayload)
unfolding is_index index_cell_key_parser index_get_cell_key
get_index_payload ctx c = do
  let p = c.current_page
  guard c.initialized Error.cursor_is_not_initialized
  guard (is_index p.kind) Error.not_an_index_page
  if leb p.cells p.idx_cell then ok none else (do
    parser ← index_cell_key_parser ctx p.mem p.mem.page
    info ← index_get_cell_key parser p.idx_cell
    ok (some (record { local_payload_buffer = p.mem.page; payload_info = info })))
