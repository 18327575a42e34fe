-- ===== src/Schema.antt =====
-- schema.rs: the tables and the indexes of a database, read from the SQL of their definitions.
pub mod Columns
pub mod Affinity
pub mod Definition
pub mod WellFormed
pub mod Catalog
pub mod Invariant
