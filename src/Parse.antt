-- ===== src/Parse.antt =====
-- src/parse: the parser.
pub mod Tokens
pub mod Syntax
pub mod Input
pub mod Types
pub mod Runs
pub mod Expr
pub mod Stmt
pub mod Correct
pub mod Tests
