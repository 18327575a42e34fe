-- ===== src/Cursor/Scan/Tree.antt =====
-- The table B-tree that pages hold, with the cells of its leaves in order, and the position of a cursor
-- in one by the cells that are still to come.
use prsqlite.Prelude.{
  ℕ, zero, suc, ◌+◌, ◌^◌, ◌<◌, ◌≤◌, ◌≡◌, ◌⊎◌, true, false, List, ◌∷◌, ◌++◌, [], ◌>>=◌,
}
use prsqlite.Prelude.{length}
use prsqlite.Prelude.{ok, ◌>>=◌}
use prsqlite.Pager.{PageId, MemPage}
use prsqlite.Btree.Page.{is_table, from_page, right_page_id}
use prsqlite.Btree.Cell.{parse_btree_interior_cell_page_id}
use prsqlite.Cursor.Page.{MemPages, CursorPage, new_page}

-- A cell: its page and its index.
abbrev pub Slot : Type 0
Slot = MemPage × ℕ

-- The `k` cells of a page from `i` on.
abbrev pub slots : MemPage → ℕ → ℕ → List Slot
slots mem i zero = []
slots mem i (suc k) = (mem, i) ∷ slots mem (i + 1) k

-- A table page that is not empty, and small enough for its counters.
abbrev pub IsTablePage : CursorPage → Type 0
IsTablePage p = (is_table p.kind ≡ true) × (0 < p.cells) × (p.cells + 2 < 2 ^ 16)

module _ (pages : MemPages) where
  abbrev pub Opens : PageId → CursorPage → Type 0
  Opens id p = (pages id >>= new_page) ≡ ok p

  mutual
    -- A tree of that height at a page, with the cells of its leaves.
    pub data Tree : ℕ → PageId → List Slot → Type 0 where
      leaf_page :
          {id : PageId} (p : CursorPage)
          → Opens id p
          → p.leaf ≡ true
          → IsTablePage p
          → Tree 0 id (slots p.mem 0 p.cells)
      interior_page :
          {d : ℕ} {id : PageId} {cells : List Slot} (p : CursorPage)
          → Opens id p
          → p.leaf ≡ false
          → IsTablePage p
          → Children d p.mem p.cells 0 cells
          → Tree (suc d) id cells

    -- The trees below the cells of an interior page from `i` on, with the one at the right.
    pub data Children : ℕ → MemPage → ℕ → ℕ → List Slot → Type 0 where
      last_child :
          {d : ℕ} {mem : MemPage} {n i : ℕ} {cells : List Slot} (id : PageId)
          → i ≡ n
          → (from_page mem mem.page >>= right_page_id) ≡ ok id
          → Tree d id cells
          → Children d mem n i cells
      more_children :
          {d : ℕ} {mem : MemPage} {n i : ℕ} {cells more : List Slot} (id : PageId)
          → i < n
          → parse_btree_interior_cell_page_id mem mem.page i ≡ ok id
          → Tree d id cells
          → Children d mem n (i + 1) more
          → Children d mem n i (cells ++ more)

  -- What follows the child at `i`.
  pub data After (d : ℕ) (mem : MemPage) (n i : ℕ) : List Slot → Type 0 where
    no_more : i ≡ n → After d mem n i []
    some_more : {cells : List Slot} → i < n → Children d mem n (i + 1) cells → After d mem n i cells

  -- The parents of a page at height `d`, and the cells behind those below the page.
  pub data Frames : ℕ → List CursorPage → List Slot → Type 0 where
    no_parent : {d : ℕ} → Frames d [] []
    parent :
        {d : ℕ} {p : CursorPage} {ps : List CursorPage} {cells more : List Slot}
        → p.leaf ≡ false
        → IsTablePage p
        → After d p.mem p.cells p.idx_cell cells
        → Frames (suc d) ps more
        → Frames d (p ∷ ps) (cells ++ more)

  -- The last page of a scan: a leaf, or a page with pages below.
  abbrev pub IsEnd : CursorPage → Type 0
  IsEnd p =
      (is_table p.kind ≡ true)
      × (0 < p.cells)
      × (((p.leaf ≡ true) × (p.idx_cell ≡ p.cells + 1))
          ⊎ ((p.leaf ≡ false) × (p.idx_cell ≡ p.cells + 2)))
      × (p.idx_cell < 2 ^ 16)

  -- A page, its parents, no more than `h`, and the cells from the cursor on.
  pub data At (h : ℕ) : CursorPage → List CursorPage → List Slot → Type 0 where
    on_cell :
        {p : CursorPage} {ps : List CursorPage} {more : List Slot} (k : ℕ)
        → p.leaf ≡ true
        → IsTablePage p
        → p.idx_cell + suc k ≡ p.cells
        → length ps ≤ h
        → Frames 0 ps more
        → At h p ps ((p.mem, p.idx_cell) ∷ (slots p.mem (p.idx_cell + 1) k ++ more))
    at_end : {p : CursorPage} → IsEnd p → At h p [] []
