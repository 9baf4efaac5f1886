-- ===== src/Lex.antt =====
-- The lexer of src/lex and include/lex.
mod Tests
pub mod Token
pub mod Chars
pub mod Source
pub mod Buffer
pub mod Number
pub mod Text
pub mod Word
pub mod Next
pub mod Spans
