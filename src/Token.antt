-- ===== src/Token.antt =====
-- token.rs: the tokens of SQL, and `get_token`, which takes one from the front of the input.
pub mod Chars
pub mod Defs
pub mod Progress
pub mod Keywords
pub mod Literals
