-- ===== src/Cursor/Scan.antt =====
-- The scan of a table: a cursor moved to the first cell and on visits the cells of a B-tree in order.
pub mod Tree
pub mod Down
pub mod Step
pub mod Whole
pub mod End
