-- ===== src/Cursor.antt =====
-- cursor.rs: the payload of a cell, which may go on in overflow pages, and the cursor over the pages.
pub mod Payload
pub mod Load
pub mod Page
pub mod Move
pub mod Search
pub mod Scan
