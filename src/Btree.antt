-- ===== src/Btree.antt =====
-- btree.rs: headers, cells, payloads and overflow pages, read from the bytes of a page.
pub mod Page
pub mod Payload
pub mod Cell
pub mod Context
pub mod Ranges
pub mod Cells
