-- ===== src/Cursor/Scan/End.antt =====
-- What `next` does at the end of a scan.
use prsqlite.Prelude.{
  ℕ, ◌+◌, ◌<◌, ◌^◌, ◌≡◌, refl, sym, ap, ◌∙◌, inl, inr, Bool, true, false, ◌&&◌, ◌||◌, some, arith,
  [],
}
use prsqlite.Prelude.{ltb, ◌==◌, if◌then◌else◌, if_true, if_false, Bool-cases}
use prsqlite.Prelude.{ok, panic, and_then, and_then-ok, assert, Run}
use prsqlite.Btree.Page.{is_table}
use prsqlite.Cursor.Page.{MemPages, CursorPage, BtreeCursor, advance}
use prsqlite.Cursor.Move.{is_completed, next_cell, next_table, table_climb, cursor_next}
use prsqlite.Cursor.Scan.Tree.{At, at_end}
use prsqlite.Cursor.Scan.Step.{advance-ok, next_begins}

module _ (pages : MemPages) (h fuel : ℕ) where
  completed_is :
      (p : CursorPage) (on : Bool)
      → p.cells + 1 < 2 ^ 16
      → is_completed (record { current_page = p; parent_pages = []; initialized = on })
        ≡ ok (p.idx_cell == p.cells + 1 || p.cells == 0)
  unfolding is_completed
  completed_is p on small = let fits : ltb (p.cells + 1) (2 ^ 16) ≡ true = ground arith in rw fits

  next_leaf_end :
      (p : CursorPage)
      → At pages h p [] []
      → p.leaf ≡ true
      → cursor_next pages fuel (record { current_page = p; parent_pages = []; initialized = true })
        ≡ some (ok (record { current_page = p; parent_pages = []; initialized = true }))
  unfolding cursor_next
  next_leaf_end p (at_end e) leaf =
      let c : BtreeCursor = record { current_page = p; parent_pages = []; initialized = true } in
      let done : is_completed c ≡ ok true =
        completed_is p true (ground arith) ∙ ap ok (ground arith) in
      and_then-ok (is_completed c) _ done

  next_interior_end :
      (p : CursorPage)
      → At pages h p [] []
      → p.leaf ≡ false
      → p.idx_cell + 1 < 2 ^ 16
      → cursor_next pages fuel (record { current_page = p; parent_pages = []; initialized = true })
        ≡ some panic
  unfolding next_cell next_table
  next_interior_end p (at_end e) inner small =
      let c : BtreeCursor = record { current_page = p; parent_pages = []; initialized = true } in
      let over : (p.leaf && ltb (p.idx_cell + 1) p.cells) ≡ false = ground arith in
      let going : is_completed c ≡ ok false =
        completed_is p true (ground arith) ∙ ap ok (ground arith) in
      next_begins pages h fuel c refl going
      ∙ (and_then-ok (advance p) _ (advance-ok p small)
          ∙ (if_false _ _ _ over
              ∙ (if_true (is_table p.kind) _ _ e.0
                  ∙ ap (λ (b : Bool). and_then (some (assert b)) (λ checked. behind)) inner)))
    where
      behind : Run BtreeCursor
      behind =
          and_then (some (assert (p.idx_cell + 1 == p.cells)))
            λ checked. table_climb pages fuel (record p { idx_cell = p.idx_cell + 1 }) []

  -- The end of a scan of a table whose root has a cell, where the cursor has no row left: if the root is a
  -- leaf, a further `next` leaves the cursor as it is, but if the root is an interior page, a further `next`
  -- panics.
  pub cursor_next_past_end :
      (p : CursorPage)
      → At pages h p [] []
      → p.idx_cell + 1 < 2 ^ 16
      → cursor_next pages fuel (record { current_page = p; parent_pages = []; initialized = true })
        ≡ some (
            if p.leaf
            then ok (record { current_page = p; parent_pages = []; initialized = true })
            else panic)
  cursor_next_past_end p there small =
      let c : BtreeCursor = record { current_page = p; parent_pages = []; initialized = true } in
      elim (Bool-cases p.leaf) [
        | inl leaf ↦ next_leaf_end p there leaf ∙ ap some (sym (if_true p.leaf (ok c) panic leaf))
        | inr inner ↦
            next_interior_end p there inner small
            ∙ ap some (sym (if_false p.leaf (ok c) panic inner))
      ]
