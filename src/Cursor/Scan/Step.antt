-- ===== src/Cursor/Scan/Step.antt =====
-- One step of a cursor in a table B-tree.
use prsqlite.Prelude.{
  ℕ, zero, suc, ◌+◌, ◌^◌, ◌<◌, ◌≤◌, compare, Ordering, ◌≡◌, refl, ap, ◌∙◌, ◌⊎◌, inl, inr, Bool,
  true, false, not, ◌&&◌, none, some, List, ◌∷◌, arith, length, [],
}
use prsqlite.Prelude.{ltb, ◌==◌, if◌then◌else◌, if_true, if_false}
use prsqlite.Prelude.{ok, and_then-ok, assert}
use prsqlite.Btree.Page.{is_table}
use prsqlite.Cursor.Page.{MemPages, CursorPage, BtreeCursor, advance}
use prsqlite.Cursor.Move.{
  left_start, left_choice, left_from, move_to_left_most, table_climb, next_table, is_completed,
  next_cell, cursor_next,
}
use prsqlite.Cursor.Scan.Tree.{
  Slot, IsTablePage, no_more, some_more, Frames, no_parent, parent, At, on_cell, at_end,
}
use prsqlite.Cursor.Scan.Down.{move_to_left_most-Arrives}

pub advance-ok :
    (p : CursorPage)
    → p.idx_cell + 1 < 2 ^ 16
    → advance p ≡ ok (record p { idx_cell = p.idx_cell + 1 })
advance-ok p h = let fits : ltb (p.idx_cell + 1) (2 ^ 16) ≡ true = ground arith in rw fits

-- A page whose cells, and the pages below them, are used up.
IsExhausted : CursorPage → Type 0
IsExhausted p =
    IsTablePage p
    × (((p.leaf ≡ true) × (p.idx_cell ≡ p.cells)) ⊎ ((p.leaf ≡ false) × (p.idx_cell ≡ p.cells + 1)))

module _ (pages : MemPages) (h : ℕ) where
  left_most_none :
      (fuel : ℕ) (c : BtreeCursor)
      → c.current_page.leaf ≡ false
      → c.current_page.cells < c.current_page.idx_cell
      → move_to_left_most pages fuel c ≡ some (ok (c, false))
  unfolding move_to_left_most left_start left_from
  left_most_none fuel c inner past =
      let checked : assert (not c.current_page.leaf) ≡ ok tt =
        ap (λ (b : Bool). assert (not b)) inner in
      let greater : compare c.current_page.idx_cell c.current_page.cells ≡ Ordering.gt =
        ground arith in
      let start : left_start c.current_page ≡ ok none = rw (greater, left_choice) in
      and_then-ok (assert (not c.current_page.leaf)) _ checked
      ∙ and_then-ok (left_start c.current_page) _ start

  climb_end :
      (fuel : ℕ) (page page' : CursorPage)
      → advance page ≡ ok page'
      → table_climb pages fuel page []
        ≡ some (ok (record { current_page = page'; parent_pages = []; initialized = true }))
  unfolding table_climb
  climb_end fuel page page' e = and_then-ok (advance page) _ e

  climb_on :
      (fuel : ℕ) (page p p' : CursorPage) (ps : List CursorPage) (c : BtreeCursor) (below : Bool)
      → advance p ≡ ok p'
      → move_to_left_most pages fuel
          (record { current_page = p'; parent_pages = ps; initialized = true })
        ≡ some (ok (c, below))
      → table_climb pages fuel page (p ∷ ps)
        ≡ (if below then some (ok c) else table_climb pages fuel p' ps)
  unfolding table_climb
  climb_on fuel page p p' ps c true a e = and_then-ok (advance p) _ a ∙ rw e
  climb_on fuel page p p' ps c false a e = and_then-ok (advance p) _ a ∙ rw e

  Climbs : ℕ → CursorPage → List CursorPage → List Slot → Type 0
  Climbs fuel page ps cells =
      (c : BtreeCursor) × (table_climb pages fuel page ps ≡ some (ok c))
      × At pages h c.current_page c.parent_pages cells
      × (c.initialized ≡ true)

  climb :
      {d : ℕ} {ps : List CursorPage} {cells : List Slot} (fuel : ℕ) (page : CursorPage)
      → Frames pages d ps cells
      → h ≤ fuel
      → d + length ps ≤ h
      → IsExhausted page
      → Climbs fuel page ps cells
  unfolding Climbs IsExhausted
  climb fuel page no_parent enough low (t, over) =
      let page' : CursorPage = record page { idx_cell = page.idx_cell + 1 } in
      (
        record { current_page = page'; parent_pages = []; initialized = true },
        climb_end fuel page page' (advance-ok page (ground arith)),
        at_end (t.0, t.1, ground arith, ground arith),
        refl,
      )
  climb fuel page (parent {p = p} {ps = ps} inner t (no_more last) frames) enough low over =
      let p' : CursorPage = record p { idx_cell = p.idx_cell + 1 } in
      let c : BtreeCursor = record { current_page = p'; parent_pages = ps; initialized = true } in
      let none_left = left_most_none fuel c inner (omega arith) in
      let (c', same, there, started) =
        climb fuel p' frames enough (omega arith) (t, inr (inner, omega arith)) in
      (
        c',
        climb_on fuel page p p' ps c false (advance-ok p (omega arith)) none_left ∙ same,
        there,
        started,
      )
  climb fuel page (parent {p = p} {ps = ps} inner t (some_more before children) frames) enough low
        over =
      let p' : CursorPage = record p { idx_cell = p.idx_cell + 1 } in
      let c : BtreeCursor = record { current_page = p'; parent_pages = ps; initialized = true } in
      let (c', same, there, started) =
        move_to_left_most-Arrives pages h fuel c inner t children (omega arith) (omega arith)
          frames in
      (c', climb_on fuel page p p' ps c' true (advance-ok p (omega arith)) same, there, started)

  not_completed :
      (c : BtreeCursor)
      → c.current_page.idx_cell < c.current_page.cells
      → c.current_page.cells + 2 < 2 ^ 16
      → is_completed c ≡ ok false
  unfolding is_completed
  not_completed c inside small = by_parents c.parent_pages refl
    where
      by_parents : (ps : List CursorPage) → c.parent_pages ≡ ps → is_completed c ≡ ok false
      by_parents [] e = rw e (ground arith)
      by_parents (p ∷ ps) e = rw e

  pub next_begins :
      (fuel : ℕ) (c : BtreeCursor)
      → c.initialized ≡ true
      → is_completed c ≡ ok false
      → cursor_next pages fuel c ≡ next_cell pages fuel c
  unfolding cursor_next
  next_begins fuel c started going =
      if_false (not c.initialized) _ _ (ap not started) ∙ and_then-ok (is_completed c) _ going

  next_inside :
      (fuel : ℕ) (c : BtreeCursor)
      → c.current_page.leaf ≡ true
      → c.current_page.idx_cell + 1 < c.current_page.cells
      → c.current_page.cells < 2 ^ 16
      → next_cell pages fuel c
        ≡ some (
            ok (record c {
              current_page = record (c.current_page) { idx_cell = c.current_page.idx_cell + 1 };
            }))
  unfolding next_cell
  next_inside fuel c leaf inside small =
      let more : (c.current_page.leaf && ltb (c.current_page.idx_cell + 1) c.current_page.cells)
          ≡ true =
        ground arith in
      and_then-ok (advance c.current_page) _ (advance-ok c.current_page (omega arith))
      ∙ if_true _ _ _ more

  next_over :
      (fuel : ℕ) (c : BtreeCursor)
      → c.current_page.leaf ≡ true
      → IsTablePage c.current_page
      → c.current_page.idx_cell + 1 ≡ c.current_page.cells
      → next_cell pages fuel c
        ≡ table_climb pages fuel
            (record (c.current_page) { idx_cell = c.current_page.idx_cell + 1 })
            c.parent_pages
  unfolding next_cell next_table
  next_over fuel c leaf t last =
      let p' : CursorPage = record (c.current_page) { idx_cell = c.current_page.idx_cell + 1 } in
      let over : (c.current_page.leaf && ltb (c.current_page.idx_cell + 1) c.current_page.cells)
          ≡ false =
        ground arith in
      let at_leaf : assert c.current_page.leaf ≡ ok tt = ap assert leaf in
      let at_last : assert (c.current_page.idx_cell + 1 == c.current_page.cells) ≡ ok tt =
        ground arith in
      and_then-ok (advance c.current_page) _ (advance-ok c.current_page (omega arith))
      ∙ (if_false _ _ _ over
          ∙ (if_true (is_table c.current_page.kind) _ _ t.0
              ∙ (and_then-ok (assert c.current_page.leaf) _ at_leaf
                  ∙ and_then-ok (assert (c.current_page.idx_cell + 1 == c.current_page.cells)) _
                      at_last)))

  -- A cursor in a table of pages whose stack is no higher than the fuel, with cells to come: `next` goes
  -- to the cell behind the first of them, and the cells to come are the others.
  pub cursor_next-At :
      (fuel : ℕ) (c : BtreeCursor) {slot : Slot} {rest : List Slot}
      → c.initialized ≡ true
      → h ≤ fuel
      → At pages h c.current_page c.parent_pages (slot ∷ rest)
      → (c' : BtreeCursor) × (cursor_next pages fuel c ≡ some (ok c'))
        × At pages h c'.current_page c'.parent_pages rest
        × (c'.initialized ≡ true)
  unfolding IsExhausted Climbs
  cursor_next-At fuel c started enough (on_cell zero leaf t last low frames) =
      let begins = next_begins fuel c started (not_completed c (omega arith) t.2) in
      let p' : CursorPage = record (c.current_page) { idx_cell = c.current_page.idx_cell + 1 } in
      let (c', same, there, on) =
        climb fuel p' frames enough (omega arith) (t, inl (leaf, omega arith)) in
      (c', begins ∙ (next_over fuel c leaf t (omega arith) ∙ same), there, on)
  cursor_next-At fuel c started enough (on_cell (suc k) leaf t inside low frames) =
      let begins = next_begins fuel c started (not_completed c (omega arith) t.2) in
      let p' : CursorPage = record (c.current_page) { idx_cell = c.current_page.idx_cell + 1 } in
      (
        record c { current_page = p' },
        begins ∙ next_inside fuel c leaf (omega arith) (omega (arith, t.2)),
        on_cell k leaf t (omega arith) low frames,
        started,
      )
