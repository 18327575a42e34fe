-- ===== src/Cursor/Scan/Whole.antt =====
-- The scan of a whole table, and the end of it.
use prsqlite.Prelude.{
  ℕ, zero, suc, ◌+◌, ◌<◌, ◌≤◌, ◌≡◌, refl, sym, ap, ◌∙◌, Bool, true, false, Option, none, some, List,
  ◌∷◌, append-nil, ℤ, arith, length, [], ◌>>=◌,
}
use prsqlite.Prelude.{leb, if_true, if_false}
use prsqlite.Prelude.{Error, Result, ok, ◌>>=◌, guard, Run, and_then, assert, bind-ok, bind_assoc}
use prsqlite.Pager.{PageId}
use prsqlite.Btree.Page.{is_table}
use prsqlite.Btree.Payload.{BtreeContext}
use prsqlite.Btree.Cell.{parse_btree_leaf_table_cell}
use prsqlite.Cursor.Payload.{BtreePayload}
use prsqlite.Cursor.Page.{MemPages, CursorPage, BtreeCursor, new_page, new_cursor, move_to_root}
use prsqlite.Cursor.Move.{
  move_to_left_most, first_from, move_to_first, cursor_next, get_table_payload,
}
use prsqlite.Cursor.Scan.Tree.{
  Slot, Opens, Tree, leaf_page, interior_page, Children, no_parent, At, on_cell, at_end,
}
use prsqlite.Cursor.Scan.Down.{At-leaf, opened_first, first_index, move_to_left_most-Arrives}
use prsqlite.Cursor.Scan.Step.{cursor_next-At}
use prsqlite.Prelude.{ok_before}

abbrev pub Row : Type 0
Row = ℤ × BtreePayload

-- The row that a cell of a leaf holds.
unfoldable pub row_at : BtreeContext → Slot → Result Row
row_at ctx (mem, i) = do
  (key, info) ← parse_btree_leaf_table_cell ctx mem mem.page i
  ok (key, record { local_payload_buffer = mem.page; payload_info = info })

-- The rows that the cells hold, each of which parses.
abbrev pub Hold : BtreeContext → List Slot → List Row → Type 0
Hold ctx [] [] = Unit
Hold ctx (s ∷ ss) (r ∷ rs) = (row_at ctx s ≡ ok r) × Hold ctx ss rs
Hold ctx _ _ = ⊥

module _ (pages : MemPages) where
  new_cursor-Opens :
      (id : PageId) (p : CursorPage)
      → Opens pages id p
      → new_cursor pages id
        ≡ ok (record { current_page = p; parent_pages = []; initialized = false })
  unfolding new_cursor
  new_cursor-Opens id p o = let (mem, e, f) = ok_before (pages id) new_page o in rw (e, f)

  -- A new cursor on a table whose tree is no higher than the fuel goes to its first cell.
  Begins : ℕ → ℕ → PageId → List Slot → Type 0
  Begins h fuel id cells =
      (c : BtreeCursor) × (c' : BtreeCursor) × (new_cursor pages id ≡ ok c)
      × (move_to_first pages fuel c ≡ some (ok c'))
      × At pages h c'.current_page c'.parent_pages cells
      × (c'.initialized ≡ true)

  from_root :
      (h fuel : ℕ) (p : CursorPage)
      → p.idx_cell ≡ 0
      → move_to_first pages fuel
          (record { current_page = p; parent_pages = []; initialized = false })
        ≡ first_from pages fuel
            (record { current_page = p; parent_pages = []; initialized = false })
  unfolding move_to_first move_to_root
  from_root h fuel p first =
      ap
        (λ (q : CursorPage).
          first_from pages fuel
            (record { current_page = q; parent_pages = []; initialized = false }))
        (first_index pages h p first)

  first_leaf :
      (fuel : ℕ) (c : BtreeCursor)
      → c.current_page.leaf ≡ true
      → first_from pages fuel c ≡ some (ok (record c { initialized = true }))
  unfolding first_from
  first_leaf fuel c leaf = ap (λ m. and_then m begun) (if_true c.current_page.leaf _ _ leaf)
    where
      begun : BtreeCursor × Bool → Run BtreeCursor
      begun moved = some (ok (record (moved.0) { initialized = true }))

  first_interior :
      (fuel : ℕ) (c c' : BtreeCursor)
      → c.current_page.leaf ≡ false
      → move_to_left_most pages fuel c ≡ some (ok (c', true))
      → first_from pages fuel c ≡ some (ok (record c' { initialized = true }))
  unfolding first_from
  first_interior fuel c c' inner e =
      ap (λ m. and_then m begun) (if_false c.current_page.leaf _ _ inner ∙ e)
    where
      begun : BtreeCursor × Bool → Run BtreeCursor
      begun moved = some (ok (record (moved.0) { initialized = true }))

  move_to_first-Tree :
      (h fuel : ℕ) (id : PageId) {cells : List Slot}
      → Tree pages h id cells
      → h ≤ fuel
      → Begins h fuel id cells
  unfolding Begins
  move_to_first-Tree h fuel id (leaf_page p o leaf t) enough =
      let first = opened_first pages h id p o in
      (
        record { current_page = p; parent_pages = []; initialized = false },
        record { current_page = p; parent_pages = []; initialized = true },
        new_cursor-Opens id p o,
        from_root h fuel p first ∙ first_leaf fuel _ leaf,
        rw append-nil at (At-leaf pages h p [] [] leaf t first (omega arith) no_parent),
        refl,
      )
  move_to_first-Tree h fuel id {cells} (interior_page {d = d} p o inner t children) enough =
      let first = opened_first pages h id p o in
      let c : BtreeCursor = record { current_page = p; parent_pages = []; initialized = false } in
      let below : Children pages d p.mem p.cells p.idx_cell cells = rw first children in
      let (c', same, there, kept) =
        move_to_left_most-Arrives pages h fuel c inner t below (omega arith) (omega arith)
          no_parent in
      (
        c,
        record c' { initialized = true },
        new_cursor-Opens id p o,
        from_root h fuel p first ∙ first_interior fuel c c' inner same,
        rw append-nil at there,
        refl,
      )

-- A cell to come is read at the cursor; at the end there is none.
payload_checks :
    (c : BtreeCursor)
    → c.initialized ≡ true
    → is_table c.current_page.kind ≡ true
    → (f : Result (Option Row))
    → (guard c.initialized Error.cursor_is_not_initialized >>= λ done.
        guard (is_table c.current_page.kind) Error.not_a_table_page >>= λ done'. f)
      ≡ f
payload_checks c started t f =
    bind-ok (guard c.initialized Error.cursor_is_not_initialized) _
      (ap (λ (b : Bool). guard b Error.cursor_is_not_initialized) started)
    ∙ bind-ok (guard (is_table c.current_page.kind) Error.not_a_table_page) _
        (ap (λ (b : Bool). guard b Error.not_a_table_page) t)

payload_there :
    (ctx : BtreeContext) (c : BtreeCursor)
    → c.initialized ≡ true
    → is_table c.current_page.kind ≡ true
    → c.current_page.leaf ≡ true
    → c.current_page.idx_cell < c.current_page.cells
    → get_table_payload ctx c
      ≡ (row_at ctx (c.current_page.mem, c.current_page.idx_cell) >>= λ r. ok (some r))
unfolding get_table_payload row_at
payload_there ctx c started t leaf inside =
    let p = c.current_page in
    let more : leb p.cells p.idx_cell ≡ false = ground arith in
    let cell = parse_btree_leaf_table_cell ctx p.mem p.mem.page p.idx_cell in
    payload_checks c started t _
    ∙ (if_false _ _ _ more
        ∙ (bind-ok (assert p.leaf) _ (ap assert leaf)
            ∙ sym (bind_assoc cell _ (λ (r : Row). ok (some r)))))

payload_none :
    (ctx : BtreeContext) (c : BtreeCursor)
    → c.initialized ≡ true
    → is_table c.current_page.kind ≡ true
    → c.current_page.cells ≤ c.current_page.idx_cell
    → get_table_payload ctx c ≡ ok none
unfolding get_table_payload
payload_none ctx c started t past =
    let over : leb c.current_page.cells c.current_page.idx_cell ≡ true = ground arith in
    payload_checks c started t _ ∙ if_true _ _ _ over

-- The rows from the cursor on: read, and go to the next, until there is none.
unfoldable pub scan_rows : MemPages → BtreeContext → ℕ → ℕ → BtreeCursor → Run (List Row)
scan_rows pages ctx fuel zero c = none
scan_rows pages ctx fuel (suc rounds) c =
    let more : Option Row → Run (List Row) = λ payload. elim payload [
      | none ↦ some (ok [])
      | some row ↦
          and_then (cursor_next pages fuel c)
            λ c'. and_then (scan_rows pages ctx fuel rounds c') λ rows. some (ok (row ∷ rows))
    ] in
    and_then (some (get_table_payload ctx c)) more

end_facts :
    {pages : MemPages} {h : ℕ} {p : CursorPage} {ps : List CursorPage}
    → At pages h p ps []
    → (is_table p.kind ≡ true) × (p.cells ≤ p.idx_cell)
end_facts (at_end e) = (e.0, ground arith)

cell_facts :
    {pages : MemPages} {h : ℕ} {p : CursorPage} {ps : List CursorPage} {s : Slot} {ss : List Slot}
    → At pages h p ps (s ∷ ss)
    → (is_table p.kind ≡ true)
      × (p.leaf ≡ true)
      × (p.idx_cell < p.cells)
      × (s ≡ (p.mem, p.idx_cell))
cell_facts (on_cell k leaf t inside low frames) = (t.0, leaf, omega arith, refl)

scan_rows-At :
    (pages : MemPages) (ctx : BtreeContext) (h fuel : ℕ) (cells : List Slot) (rows : List Row)
    (rounds : ℕ) (c : BtreeCursor)
    → h ≤ fuel
    → At pages h c.current_page c.parent_pages cells
    → c.initialized ≡ true
    → Hold ctx cells rows
    → length cells < rounds
    → scan_rows pages ctx fuel rounds c ≡ some (ok rows)
unfolding scan_rows
scan_rows-At pages ctx h fuel cells rows zero c enough there started holds short =
    absurd (omega arith)
scan_rows-At pages ctx h fuel [] [] (suc rounds) c enough there started holds short =
    let (t, past) = end_facts there in rw (payload_none ctx c started t past)
scan_rows-At pages ctx h fuel [] (r ∷ rs) (suc rounds) c enough there started holds short =
    elim holds [ ]
scan_rows-At pages ctx h fuel (s ∷ ss) [] (suc rounds) c enough there started holds short =
    elim holds [ ]
scan_rows-At pages ctx h fuel (s ∷ ss) (r ∷ rs) (suc rounds) c enough there started (this, others)
      short =
    let (c', same, there', on) = cursor_next-At pages h fuel c started enough there in
    let (t, leaf, inside, at_cell) = cell_facts there in
    let found : get_table_payload ctx c ≡ ok (some r) =
      payload_there ctx c started t leaf inside
      ∙ ap (λ (q : Result Row). q >>= λ x. ok (some x)) (ap (row_at ctx) (sym at_cell) ∙ this) in
    rw (
      found,
      same,
      scan_rows-At pages ctx h fuel ss rs rounds c' enough there' on others (omega arith),
    )

-- On a table whose pages form a B-tree no higher than the fuel, each page with at least one cell, and whose
-- cells all parse, a new cursor that is moved to the first cell and on returns exactly the rows of the
-- leaves, in their order, each once. A table without rows, whose root has no cell, is not covered.
pub scan_rows-Tree :
    (pages : MemPages) (ctx : BtreeContext) (h fuel : ℕ) (root : PageId) (cells : List Slot)
    (rows : List Row)
    → Tree pages h root cells
    → h ≤ fuel
    → Hold ctx cells rows
    → (do
      c ← new_cursor pages root
      ok (and_then (move_to_first pages fuel c) (scan_rows pages ctx fuel (length cells + 1))))
      ≡ ok (some (ok rows))
unfolding Begins
scan_rows-Tree pages ctx h fuel root cells rows tree enough holds =
    let (c, c', made, first, there, started) = move_to_first-Tree pages h fuel root tree enough in
    rw (
      made,
      first,
      scan_rows-At pages ctx h fuel cells rows (length cells + 1) c' enough there started holds
          (omega arith),
    )
