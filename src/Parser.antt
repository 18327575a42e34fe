-- ===== src/Parser.antt =====
-- parser.rs: the statements and the expressions of SQL, read from the tokens of the input.
pub mod State
pub mod Names
pub mod Create
pub mod Expr
pub mod Select
pub mod Yields
pub mod Words
pub mod Expect
