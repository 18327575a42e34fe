-- ===== src/Cursor/Page.antt =====
-- The pages on the stack of a `BtreeCursor` of cursor.rs, and the moves between them. The pager is a
-- function from ids to pages, as `Pager` has it where the file can be read. What a failed move leaves
-- of the cursor is not modelled: an error ends the use of the cursor.
use prsqlite.Prelude.{ℕ, ◌+◌, ◌^◌, Bool, true, false, List, ◌∷◌, [], ◌>>=◌}
use prsqlite.Prelude.{ltb, ◌==◌, if◌then◌else◌}
use prsqlite.Prelude.{Result, ok, panic}
use prsqlite.Pager.{PageId, MemPage}
use prsqlite.Btree.Page.{from_page, page_type, n_cells, right_page_id, is_leaf}
use prsqlite.Btree.Cell.{parse_btree_interior_cell_page_id}

-- `Pager::get_page`, as the cursor uses it.
abbrev pub MemPages : Type 0
MemPages = PageId → Result MemPage

pub record CursorPage : Type 0 where
  pub mem : MemPage
  pub idx_cell : ℕ
  pub cells : ℕ
  pub kind : ℕ
  pub leaf : Bool

-- `CursorPage::new`.
unfoldable pub new_page : MemPage → Result CursorPage
unfolding from_page page_type n_cells is_leaf
new_page mem = do
  header ← from_page mem mem.page
  n ← n_cells header
  kind ← page_type header
  ok (record { mem = mem; idx_cell = 0; cells = n; kind = kind; leaf = is_leaf kind })

-- The stack has its top at the head.
pub record BtreeCursor : Type 0 where
  pub current_page : CursorPage
  pub parent_pages : List CursorPage
  pub initialized : Bool

-- `+ 1` on a `u16`.
abbrev pub add_one : ℕ → Result ℕ
add_one n = if ltb (n + 1) (2 ^ 16) then ok (n + 1) else panic

-- `idx_cell += 1`.
abbrev pub advance : CursorPage → Result CursorPage
advance p = do i ← add_one p.idx_cell; ok (record p { idx_cell = i })

-- `BtreeCursor::new`.
unfoldable pub new_cursor : MemPages → PageId → Result BtreeCursor
unfolding new_page
new_cursor pages root = do
  mem ← pages root
  page ← new_page mem
  ok (record { current_page = page; parent_pages = []; initialized = false })

-- The page at the bottom of a stack that is not empty.
abbrev pub bottom : CursorPage → List CursorPage → CursorPage
bottom p [] = p
bottom p (q ∷ qs) = bottom q qs

unfoldable pub move_to_root : BtreeCursor → BtreeCursor
move_to_root c = record c { current_page = bottom c.current_page c.parent_pages; parent_pages = [] }

unfoldable pub move_to_child : MemPages → PageId → BtreeCursor → Result BtreeCursor
unfolding new_page
move_to_child pages id c = do
  mem ← pages id
  page ← new_page mem
  ok (record c { current_page = page; parent_pages = c.current_page ∷ c.parent_pages })

-- The cursor, and whether there was a parent.
unfoldable pub back_to_parent : BtreeCursor → BtreeCursor × Bool
back_to_parent c = elim c.parent_pages [
  | [] ↦ (c, false)
  | p ∷ ps ↦ (record c { current_page = p; parent_pages = ps }, true)
]

-- The right page of an interior page.
unfoldable pub right_child : CursorPage → Result PageId
unfolding from_page right_page_id
right_child p = do header ← from_page p.mem p.mem.page; right_page_id header

-- The page below the cell at `i`.
unfoldable pub cell_child : CursorPage → ℕ → Result PageId
unfolding parse_btree_interior_cell_page_id
cell_child p i = parse_btree_interior_cell_page_id p.mem p.mem.page i

-- The page to search below position `i`: the right one behind the last cell.
unfoldable pub next_page_id : CursorPage → ℕ → Result PageId
unfolding right_child cell_child
next_page_id p i = if i == p.cells then right_child p else cell_child p i
