-- ===== src/Cursor/Scan/Down.antt =====
-- The way down to the first leaf of a tree.
use prsqlite.Prelude.{
  ℕ, zero, suc, ◌+◌, ◌<◌, ◌≤◌, compare, Ordering, ◌≡◌, refl, sym, ap, ◌∙◌, Bool, true, false, not,
  some, List, ◌∷◌, ◌++◌, append_assoc, arith, ◌>>=◌,
}
use prsqlite.Prelude.{length}
use prsqlite.Prelude.{ok, ◌>>=◌, and_then}
use prsqlite.Prelude.{ok_before, and_then-ok, assert, Ensures-ok, bind-Ensures}
use mathlib.Core.Path.{subst}
use prsqlite.Btree.Page.{from_page, n_cells, page_type, right_page_id}
use prsqlite.Btree.Cell.{parse_btree_interior_cell_page_id}
use prsqlite.Pager.{PageId, MemPage}
use prsqlite.Cursor.Page.{
  MemPages, CursorPage, BtreeCursor, new_page, move_to_child, right_child, cell_child,
}
use prsqlite.Cursor.Move.{left_loop, left_start, left_choice, left_from, move_to_left_most}
use prsqlite.Cursor.Scan.Tree.{
  Slot, slots, IsTablePage, Opens, Tree, leaf_page, interior_page, Children, last_child,
  more_children, After, no_more, some_more, Frames, parent, At, on_cell,
}

-- A new page is at its first cell.
new_page-idx_cell : (mem : MemPage) (p : CursorPage) → new_page mem ≡ ok p → p.idx_cell ≡ 0
unfolding new_page
new_page-idx_cell mem p h =
    Ensures-ok IsFirst
      (bind-Ensures IsFirst (from_page mem mem.page) _ (λ header e.
        bind-Ensures IsFirst (n_cells header) _
          (λ n f. bind-Ensures IsFirst (page_type header) _ (λ kind g. refl))))
      h
  where
    IsFirst : CursorPage → Type 0
    IsFirst q = q.idx_cell ≡ 0

module _ (pages : MemPages) (h : ℕ) where
  pub opened_first : (id : PageId) (p : CursorPage) → Opens pages id p → p.idx_cell ≡ 0
  opened_first id p o =
      let (mem, e, f) = ok_before (pages id) new_page o in new_page-idx_cell mem p f

  child_moves :
      (id : PageId) (p : CursorPage) (c : BtreeCursor)
      → Opens pages id p
      → move_to_child pages id c
        ≡ ok (record c { current_page = p; parent_pages = c.current_page ∷ c.parent_pages })
  unfolding move_to_child
  child_moves id p c o = let (mem, e, f) = ok_before (pages id) new_page o in rw (e, f)

  -- The first leaf below a page that opens, behind the parents of the page.
  Reaches : ℕ → BtreeCursor → PageId → List Slot → Type 0
  Reaches fuel c id cells =
      (c' : BtreeCursor) × ((and_then (some (move_to_child pages id c))
          λ child. left_loop pages fuel child)
        ≡ some (ok c'))
      × At pages h c'.current_page c'.parent_pages cells
      × (c'.initialized ≡ c.initialized)

  left_leaf :
      (fuel : ℕ) (c : BtreeCursor)
      → c.current_page.leaf ≡ true
      → left_loop pages (suc fuel) c ≡ some (ok c)
  unfolding left_loop
  left_leaf fuel c leaf = rw leaf

  left_interior :
      (fuel : ℕ) (c : BtreeCursor) (id : PageId)
      → c.current_page.leaf ≡ false
      → parse_btree_interior_cell_page_id c.current_page.mem c.current_page.mem.page 0 ≡ ok id
      → left_loop pages (suc fuel) c
        ≡ and_then (some (move_to_child pages id c)) (λ child. left_loop pages fuel child)
  unfolding left_loop cell_child
  left_interior fuel c id inner e = rw (inner, e)

  pub At-leaf :
      (p : CursorPage) (ps : List CursorPage) (more : List Slot)
      → p.leaf ≡ true
      → IsTablePage p
      → p.idx_cell ≡ 0
      → length ps ≤ h
      → Frames pages 0 ps more
      → At pages h p ps (slots p.mem 0 p.cells ++ more)
  At-leaf p ps more leaf t first low frames = from_zero p.cells refl
    where
      from_zero : (n : ℕ) → p.cells ≡ n → At pages h p ps (slots p.mem 0 n ++ more)
      from_zero zero e = absurd (omega (arith, t.1))
      from_zero (suc k) e =
          subst (λ (i : ℕ). At pages h p ps ((p.mem, i) ∷ (slots p.mem (i + 1) k ++ more))) first
            (on_cell k leaf t (omega arith) low frames)

  -- With fuel above its height, the way down a tree ends at its first cell.
  down :
      {d : ℕ} {id : PageId} {cells more : List Slot} (fuel : ℕ) (c : BtreeCursor)
      → Tree pages d id cells
      → d < fuel
      → d + suc (length c.parent_pages) ≤ h
      → Frames pages d (c.current_page ∷ c.parent_pages) more
      → Reaches fuel c id (cells ++ more)
  unfolding Reaches
  down zero c t enough low frames = absurd (omega arith)
  down {id} {more = more} (suc fuel) c (leaf_page p o leaf t) enough low frames = (
    record c { current_page = p; parent_pages = c.current_page ∷ c.parent_pages },
    rw (child_moves id p c o) (left_leaf fuel _ leaf),
    At-leaf p _ more leaf t (opened_first id p o) (omega arith) frames,
    refl,
  )
  down {id} (suc fuel) c (interior_page p o inner t (last_child id' e r tree)) enough low frames =
      absurd (omega arith)
  down {id = id} {more = more} (suc fuel) c
        (interior_page {d = d'} p o inner t
          (more_children {cells = first} {more = others} id' e r tree children))
        enough low frames =
      let c' : BtreeCursor = record c {
        current_page = p;
        parent_pages = c.current_page ∷ c.parent_pages;
      } in
      let zero_first : p.idx_cell ≡ 0 = opened_first id p o in
      let after : After pages d' p.mem p.cells p.idx_cell others =
        rw zero_first (some_more e children) in
      let (c'', same, there, kept) =
        down fuel c' tree (omega arith) (omega arith) (parent inner t after frames) in
      (
        c'',
        rw (child_moves id p c o) (left_interior fuel c' id' inner r ∙ same),
        rw (append_assoc first others more) there,
        kept,
      )

  pub first_index : (p : CursorPage) → p.idx_cell ≡ 0 → record p { idx_cell = 0 } ≡ p
  first_index p e = ap (λ (i : ℕ). record p { idx_cell = i }) (sym e)

  root-Opens :
      {d : ℕ} {id : PageId} {cells : List Slot}
      → Tree pages d id cells
      → (p : CursorPage) × Opens pages id p
  root-Opens (leaf_page p o leaf t) = (p, o)
  root-Opens (interior_page p o inner t children) = (p, o)

  left_from_down :
      {d : ℕ} {id : PageId} {cells more : List Slot} (fuel : ℕ) (c : BtreeCursor)
      → Tree pages d id cells
      → d < fuel
      → d + suc (length c.parent_pages) ≤ h
      → Frames pages d (c.current_page ∷ c.parent_pages) more
      → (c' : BtreeCursor) × (left_from pages fuel c (some id) ≡ some (ok (c', true)))
        × At pages h c'.current_page c'.parent_pages (cells ++ more)
        × (c'.initialized ≡ c.initialized)
  unfolding left_from Reaches
  left_from_down {id = id} fuel c t enough low frames =
      let (c', same, there, kept) = down fuel c t enough low frames in
      let (p, o) = root-Opens t in
      let same' = rw (child_moves id p c o) at same in
      (c', rw (child_moves id p c o, first_index p (opened_first id p o), same'), there, kept)

  -- Where a move to the left-most cell below a position ends.
  abbrev pub Arrives : ℕ → BtreeCursor → List Slot → Type 0
  Arrives fuel c cells =
      (c' : BtreeCursor) × (move_to_left_most pages fuel c ≡ some (ok (c', true)))
      × At pages h c'.current_page c'.parent_pages cells
      × (c'.initialized ≡ c.initialized)

  left_most_from :
      {d : ℕ} {id : PageId} {cells more : List Slot} (fuel : ℕ) (c : BtreeCursor)
      → c.current_page.leaf ≡ false
      → left_start c.current_page ≡ ok (some id)
      → Tree pages d id cells
      → d < fuel
      → d + suc (length c.parent_pages) ≤ h
      → Frames pages d (c.current_page ∷ c.parent_pages) more
      → Arrives fuel c (cells ++ more)
  unfolding move_to_left_most
  left_most_from fuel c inner start t enough low frames =
      let (c', same, there, kept) = left_from_down fuel c t enough low frames in
      let checked : assert (not c.current_page.leaf) ≡ ok tt =
        ap (λ (b : Bool). assert (not b)) inner in
      (
        c',
        and_then-ok (assert (not c.current_page.leaf)) _ checked
            ∙ (and_then-ok (left_start c.current_page) _ start ∙ same),
        there,
        kept,
      )

  left_start-right :
      (p : CursorPage) (id : PageId)
      → p.idx_cell ≡ p.cells
      → (from_page p.mem p.mem.page >>= right_page_id) ≡ ok id
      → left_start p ≡ ok (some id)
  unfolding left_start left_choice right_child
  left_start-right p id e r =
      let same : compare p.idx_cell p.cells ≡ Ordering.eq = ground arith in
      rw (same, left_choice, r)

  left_start-cell :
      (p : CursorPage) (id : PageId)
      → p.idx_cell < p.cells
      → parse_btree_interior_cell_page_id p.mem p.mem.page p.idx_cell ≡ ok id
      → left_start p ≡ ok (some id)
  unfolding left_start left_choice cell_child
  left_start-cell p id e r =
      let less : compare p.idx_cell p.cells ≡ Ordering.lt = ground arith in
      rw (less, left_choice, r)

  -- From a position in an interior page with trees behind it, the cursor goes to the first of their cells.
  pub move_to_left_most-Arrives :
      {d : ℕ} {cells more : List Slot} (fuel : ℕ) (c : BtreeCursor)
      → c.current_page.leaf ≡ false
      → IsTablePage c.current_page
      → Children pages d c.current_page.mem c.current_page.cells c.current_page.idx_cell cells
      → d < fuel
      → d + suc (length c.parent_pages) ≤ h
      → Frames pages (suc d) c.parent_pages more
      → Arrives fuel c (cells ++ more)
  move_to_left_most-Arrives {more = more} fuel c inner t (last_child id e r tree) enough low
        frames =
      left_most_from fuel c inner (left_start-right c.current_page id e r) tree enough low
        (parent inner t (no_more e) frames)
  move_to_left_most-Arrives {more = more} fuel c inner t
        (more_children {cells = first} {more = others} id e r tree children) enough low frames =
      rw (append_assoc first others more) (
        left_most_from fuel c inner (left_start-cell c.current_page id e r) tree enough low
          (parent inner t (some_more e children) frames))
