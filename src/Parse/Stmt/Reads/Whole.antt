-- ===== src/Parse/Stmt/Reads/Whole.antt =====
-- nextStmt and parseAll: with enough fuel they end, and statements without error nodes are what has been
-- consumed.
use novus.Base.{
  ℕ, zero, suc, ◌+◌, ◌*◌, ◌≤◌, ◌≡◌, refl, sym, ◌∙◌, arith, List, [], ◌∷◌, ◌++◌, append-nil,
  length-append, and_true, Option, none, some, true, false, length,
}
use novus.Lex.Token.{Keyword, Token}
use mathlib.Core.Path.{subst}
use novus.Parse.Tokens.{is_end, get_kw, is_line_comment}
use novus.Parse.Syntax.{Stmt}
use novus.Parse.Input.{Input, peek_token}
use novus.Parse.Runs.{Runs, done, left, Runs-if, Runs-bind, consume_token-Runs, left-peek_token}
use novus.Parse.Expr.{next_expr}
use novus.Parse.Expr.Reads.{NextReads}
use novus.Parse.Expr.Reads.Primary.{next_expr_primary-Runs}
use novus.Parse.Expr.Reads.Calls.{next_expr_call-Runs}
use novus.Parse.Expr.Reads.Whole.{next_expr-Runs}
use novus.Parse.Stmt.{
  next_comment, next_import, next_stmt_func_decl, next_stmt_struct_decl, next_stmt_union_decl,
  next_stmt_enum_decl, next_stmt_exec, next_comment_or_exec, next_stmt_on, next_stmt, then_parse,
  parse_all,
}
use novus.Parse.Stmt.Print.{stmt_tokens, stmt_ok, stmts_tokens, stmts_ok}
use novus.Parse.Stmt.Reads.{ReadsStmt}
use novus.Parse.Stmt.Reads.Decls.{next_import-Runs, next_stmt_func_decl-Runs}
use novus.Parse.Stmt.Reads.TypeDecls.{
  next_stmt_struct_decl-Runs, next_stmt_union_decl-Runs, next_stmt_enum_decl-Runs,
}

next_comment-Runs :
    (s : Input) → is_end (peek_token s) ≡ false → Runs s (ReadsStmt s) (next_comment s)
unfolding next_comment stmt_ok stmt_tokens
next_comment-Runs s more = Runs-bind (consume_token-Runs s) λ t u c q k. done [] refl (
  λ m. omega (arith, k.counts m, length-append c []),
  λ g. rw (k.taken (subst (λ x. is_end x ≡ false) (sym k.peeked) more)) refl,
)

next_stmt_exec-Runs :
    (f : ℕ) (s : Input)
    → 1 ≤ left s
    → 8 * left s + 8 ≤ f
    → Runs s (ReadsStmt s) (next_stmt_exec f s)
unfolding next_stmt_exec stmt_ok stmt_tokens
next_stmt_exec-Runs f s m l =
    let reads : NextReads (next_expr f 0) (left s) =
      λ min max t y. next_expr-Runs f 0 min max t (omega (arith, l, y)) in
    Runs-bind
      (next_expr_primary-Runs (next_expr f 0) (left s) reads f s (omega (arith, l)) (omega arith))
      λ e t c q (progress, h).
        Runs-bind
          (next_expr_call-Runs (next_expr f 0) (left s) reads f e [] t m (omega (arith, l, q))
            (omega (arith, q)))
          λ r u d _ (_, i). done [] refl (
            λ m. omega (arith, progress m, length-append c (d ++ [])),
            λ g. let (ok, z) = i g in rw (append-nil d, h ok) (sym z),
          )

next_comment_or_exec-Runs :
    (f : ℕ) (s : Input)
    → is_end (peek_token s) ≡ false
    → 8 * left s + 8 ≤ f
    → Runs s (ReadsStmt s) (next_comment_or_exec f (peek_token s) s)
unfolding next_comment_or_exec
next_comment_or_exec-Runs f s more l =
    Runs-if (is_line_comment (peek_token s)) next_comment (next_stmt_exec f)
      (λ y. next_comment-Runs s more) (λ y. next_stmt_exec-Runs f s (left-peek_token s more) l)

next_stmt_on-Runs :
    (f : ℕ) (s : Input)
    → is_end (peek_token s) ≡ false
    → 8 * left s + 8 ≤ f
    → Runs s (ReadsStmt s) (next_stmt_on f (peek_token s) s)
unfolding next_stmt_on
next_stmt_on-Runs f s more l =
    let m = left-peek_token s more in
    elim (get_kw (peek_token s))
      as (λ kw. Runs s (ReadsStmt s) (elim kw [
        | some Keyword.kw_import ↦ next_import s
        | some Keyword.kw_fun ↦ next_stmt_func_decl f s
        | some Keyword.kw_act ↦ next_stmt_func_decl f s
        | some Keyword.kw_struct ↦ next_stmt_struct_decl f s
        | some Keyword.kw_union ↦ next_stmt_union_decl f s
        | some Keyword.kw_enum ↦ next_stmt_enum_decl f s
        | _ ↦ next_comment_or_exec f (peek_token s) s
      ])) [
        | some Keyword.kw_import ↦ next_import-Runs s
        | some Keyword.kw_fun ↦ next_stmt_func_decl-Runs f s m l
        | some Keyword.kw_act ↦ next_stmt_func_decl-Runs f s m l
        | some Keyword.kw_struct ↦ next_stmt_struct_decl-Runs f s l
        | some Keyword.kw_union ↦ next_stmt_union_decl-Runs f s l
        | some Keyword.kw_enum ↦ next_stmt_enum_decl-Runs f s l
        | _ ↦ next_comment_or_exec-Runs f s more l
      ]

-- The statement, if there is one, or the end.
abbrev pub ReadsNext : Input → Option Stmt → List Token → Type 0
ReadsNext s none c = (is_end (peek_token s) ≡ true) × (c ≡ [])
ReadsNext s (some x) c = (1 ≤ length c) × (stmt_ok x ≡ true → c ≡ stmt_tokens x)

pub next_stmt-Runs : (f : ℕ) (s : Input) → 8 * left s + 8 ≤ f → Runs s (ReadsNext s) (next_stmt f s)
unfolding next_stmt
next_stmt-Runs f s l =
    Runs-if (is_end (peek_token s)) _ _ (λ y. done [] refl (y, refl))
      (λ more. Runs-bind (next_stmt_on-Runs f s more l) λ x t c q (progress, h). done [] refl (
        omega (arith, progress (left-peek_token s more), length-append c []),
        λ g. append-nil c ∙ h g,
      ))

pub parse_all-Runs :
    (f : ℕ) (s : Input)
    → 8 * left s + 9 ≤ f
    → Runs s (λ xs c. stmts_ok xs ≡ true → c ≡ stmts_tokens xs) (parse_all f s)
unfolding parse_all then_parse stmts_ok stmts_tokens
parse_all-Runs zero s l = absurd (omega arith)
parse_all-Runs (suc f) s l =
    Runs-bind (next_stmt-Runs f s (omega (arith, l)))
      λ stmt t c q h. after (λ t b. parse_all-Runs f t b) stmt t c q h
  where
    after :
        ((t : Input)
          → 8 * left t + 9 ≤ f
          → Runs t (λ xs c. stmts_ok xs ≡ true → c ≡ stmts_tokens xs) (parse_all f t))
        → (stmt : Option Stmt) (t : Input) (c : List Token) → left s ≡ length c + left t
        → ReadsNext s stmt c
        → Runs t
            (λ xs d. stmts_ok xs ≡ true → c ++ d ≡ stmts_tokens xs)
            (then_parse (parse_all f) stmt t)
    after rest none t c q (ended, h) = done [] refl (λ g. append-nil c ∙ h)
    after rest (some x) t c q (fewer, h) =
        Runs-bind (rest t (omega (arith, l, q, fewer))) λ xs u d _ i.
          done {a = x ∷ xs} [] refl
            λ g. let (g1, g2) = and_true _ _ g in rw (append-nil d, h g1, i g2) refl
