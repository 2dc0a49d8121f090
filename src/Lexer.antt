-- ===== src/Lexer.antt =====
-- src/hphpc/lexer.c and src/hphpc/token.h: the lexer of HolyPHP.
-- `Token` and `Cursor` hold the data, `Trivia`, `Number`, `Quoted`, `Template` and `Operator` the parts
-- of `lex_next`, `Next` the whole function.
pub mod Token
pub mod Kind
pub mod Cursor
pub mod Trivia
pub mod Number
pub mod Quoted
pub mod Template
pub mod Operator
pub mod Next
pub mod Progress
mod Tests
