-- ===== src/Lib.antt =====
-- prsqlite: a reader of SQLite database files, with its SQL tokenizer and parser.
--
-- The program's parts and how they interact. A statement's text goes through the tokenizer, and the
-- parser reads a statement from the tokens; the schema is read from the SQL of the definitions of
-- tables and indexes; a table or an index is a B-tree of pages, which the pager reads from the file
-- and keeps in a cache, and a cursor moves over the cells of its leaves; a cell of a page holds a
-- payload, of which a part may lie on overflow pages; a payload is a record of columns, which are
-- values, compared under a collation.
--
-- Which file models which part:
--   Prelude          shared types: bytes, signed integers, results with errors and panics, slices.
--   Utils            src/utils.rs. Utils/Varint: parse_varint, valid_varint_buffer and
--                    unsafe_parse_varint. Utils/Integer: parse_integer. Utils/Decimal: parse_float.
--                    Utils/CaseInsensitive: CaseInsensitiveBytes. Utils/Quoted: MaybeQuotedBytes and
--                    DequotedIter. Utils/Hexed: HexedBytes. Utils/Ascii: the byte tables.
--   Token            src/token.rs. Token/Chars: CHAR_LOOKUP_TABLE. Token/Defs: Token and get_token,
--                    one function for each arm of the match.
--   Pager            src/pager.rs. get_page passes the state of the cache on; the file is a parameter.
--   Btree            src/btree.rs. Btree/Page: page headers and cell pointers. Btree/Payload:
--                    BtreeContext, OverflowPage and PayloadInfo. Btree/Cell: the two key parsers,
--                    parse_btree_leaf_table_cell and parse_btree_interior_cell_page_id.
--   Cursor           src/cursor.rs. Cursor/Payload: BtreePayload, its buf and load. Cursor/Page:
--                    CursorPage and the stack of a BtreeCursor. Cursor/Move: move_to_first, next and
--                    the payloads at the cursor. Cursor/Search: table_move_to and index_move_to.
--                    Cursor/Scan: a table B-tree as a tree of pages, and a scan of it.
--   Parser           src/parser.rs. Parser/State: Parser, its next and its errors. Parser/Names:
--                    parse_type_name. Parser/Create: parse_create_table and parse_create_index.
--                    Parser/Select: parse_select. Parser/Expr: the levels of parse_expr, and in
--                    Parser/Expr/Grammar a grammar of expressions. Parser/Yields: the tokens that are
--                    still to come.
--   Value            src/value.rs: Value, affinities, casts and ValueCmp.
--   Record           src/record.rs: SerialType, parse_record_header, Record and compare_record.
--   Schema           src/schema.rs. Schema/Columns: calc_type_affinity, calc_collation, Table and its
--                    columns by name. Schema/Definition: Table::parse and Index::parse.
--                    Schema/Catalog: Schema::generate, get_table and get_index.
--   Tests            runs of the definitions and the theorems at concrete inputs.
--
-- Conventions. A byte is a natural number below 256 and a machine word a natural number with its
-- wrap-around written out; an i64 that is negative is a `negsuc`. A function that can fail returns a
-- `Result`: `err` for each error of the code, `panic` for an index or a slice out of range, an
-- unwrap of none, a failed assertion or a content offset of a record that overflows. The context
-- that an error is given on its way up is left out.
--
-- Bounds and fuel. The loop of load over overflow pages takes fuel, and returns none without; fuel
-- above the number of overflow pages is enough. The moves of a cursor between pages take fuel for
-- the height of the tree, and a search in a page takes one more than its cells. The loops of the
-- parser take fuel for the number of tokens, and next takes fuel for the bytes of the input. The
-- loop over a record's header takes the size of the header and one as its fuel, and advances in each
-- round. All other loops are structural.
--
-- Parameters. The file is a function that may fail (`Reader`), the pages that load asks for are a
-- function (`Pages`, and `MemPages` for a cursor), the rows of sqlite_schema are a list, and the
-- target's floats are a record of operations (`Floats`).
--
-- Not modelled: src/lib.rs but for Columns::get, which builds on these parts; the text of a parser's
-- error with its marker line; what a failed move leaves of a cursor; src/main.rs, which only reads
-- lines and prints; src/test_utils.rs.
pub mod Prelude
pub mod Utils
pub mod Token
pub mod Pager
pub mod Btree
pub mod Cursor
pub mod Value
pub mod Record
pub mod Parser
pub mod Schema
mod Tests
