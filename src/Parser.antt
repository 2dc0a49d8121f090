-- ===== src/Parser.antt =====
-- src/hphpc/parser.c: the token vector that the parser reads (`lex_all`), the token stream, and the
-- parser of types.
pub mod Layout
pub mod Stream
pub mod Types
mod Tests
pub mod Expr
