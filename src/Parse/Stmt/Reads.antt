-- ===== src/Parse/Stmt/Reads.antt =====
-- What a run of nextStmt and of the functions that it calls gives.
pub mod Parts
pub mod Loops
pub mod Decls
pub mod TypeDecls
pub mod Whole
use novus.Base.{◌≡◌, refl, List, Bool, true, false, if◌then◌else◌}
use novus.Lex.Token.{Token}
use novus.Parse.Syntax.{Stmt}
use novus.Parse.Input.{Input}
use novus.Parse.Types.Reads.{Progress}
use novus.Parse.Stmt.Print.{stmt_tokens, stmt_ok}

abbrev pub ReadsStmt : Input → Stmt → List Token → Type 0
ReadsStmt s x c = Progress s c × (stmt_ok x ≡ true → c ≡ stmt_tokens x)

-- A choice of a statement or an error node.
pub chosen_stmt :
    (b : Bool) (x y : Stmt)
    → stmt_ok y ≡ false
    → stmt_ok (if b then x else y) ≡ true
    → (b ≡ true) × (stmt_ok x ≡ true) × ((if b then x else y) ≡ x)
chosen_stmt true x y h v = (refl, v, refl)
chosen_stmt false x y h v = absurd cc
