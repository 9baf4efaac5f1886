-- ===== src/Parse/Stmt/Reads/Decls.antt =====
-- The imports and the functions.
use novus.Base.{
  ℕ, ◌+◌, ◌*◌, ◌≤◌, ◌≡◌, refl, ap, arith, List, [], ◌++◌, append-nil, length-append, and_true,
  Option, true, false, ◌&&◌,
}
use novus.Lex.Token.{Keyword, Token, Payload, end_of_input, lit_string}
use novus.Parse.Tokens.{is_kw, is_end, is_lit_string}
use novus.Parse.Syntax.{
  Node, ArgumentListDecl, TypeSubstitutionList, RetTypeSpec, import_stmt, err_import, func_decl,
  err_func_decl,
}
use novus.Parse.Input.{Input}
use novus.Parse.Runs.{Runs, done, left, Runs-bind, consume_token-Runs}
use novus.Parse.Expr.{next_expr}
use novus.Parse.Expr.Calls.{max_precedence}
use novus.Parse.Expr.Lambda.{validate_arg_list, validate_ret_type}
use novus.Parse.Expr.Print.{node_ok, arg_list_ok}
use novus.Parse.Expr.Reads.{NextReads, either_of, is_kw-not_end, is_identifier-not_end}
use novus.Parse.Expr.Reads.Kinds.{is_operator-not_end}
use novus.Parse.Expr.Reads.Args.{next_arg_decl_list-Runs}
use novus.Parse.Expr.Reads.Lambda.{next_ret_type-Runs}
use novus.Parse.Expr.Reads.Whole.{next_expr-Runs}
use novus.Parse.Stmt.{next_import, func_stmt, next_stmt_func_decl}
use novus.Parse.Stmt.Parts.{validate_type_subs}
use novus.Parse.Stmt.Print.{stmt_tokens, stmt_ok}
use novus.Parse.Stmt.Reads.{ReadsStmt, chosen_stmt}
use novus.Parse.Stmt.Reads.Parts.{next_type_subs-Runs, modifiers_loop-Runs}

is_lit_string-not_end : (t : Token) → is_lit_string t ≡ true → is_end t ≡ false
unfolding is_lit_string is_end
is_lit_string-not_end t h = by_payload t.payload h
  where
    by_payload :
        (p : Payload)
        → elim p [ lit_string s ↦ true | _ ↦ false ] ≡ true
        → elim p [ end_of_input ↦ true | _ ↦ false ] ≡ false
    by_payload end_of_input h = absurd cc
    by_payload _ h = refl

pub next_import-Runs : (s : Input) → Runs s (ReadsStmt s) (next_import s)
unfolding next_import stmt_ok stmt_tokens
next_import-Runs s = Runs-bind (consume_token-Runs s) λ kw t c e k.
    Runs-bind (consume_token-Runs t) λ path u d _ i. done [] refl (
      λ m. omega (arith, k.counts m, length-append c (d ++ [])),
      λ g.
          let (b, _, z) =
            chosen_stmt (is_kw Keyword.kw_import kw && is_lit_string path) (import_stmt kw path)
              (err_import kw path) refl g in
          let (b1, b2) = and_true _ _ b in
          rw
            (
              ap stmt_tokens z,
              k.taken (is_kw-not_end Keyword.kw_import kw b1),
              i.taken (is_lit_string-not_end path b2),
            )
            refl,
    )

func_stmt-ok :
    (kw : Token) (modifiers : List Token) (id : Token) (subs : Option TypeSubstitutionList)
    (args : ArgumentListDecl) (ret : Option RetTypeSpec) (body : Node)
    → let x = func_stmt kw modifiers id subs args ret body in
      stmt_ok x ≡ true
      → (is_end kw ≡ false)
        × (is_end id ≡ false)
        × (validate_type_subs subs ≡ true)
        × (validate_ret_type ret ≡ true)
        × (validate_arg_list args ≡ true)
        × (arg_list_ok args ≡ true)
        × (node_ok body ≡ true)
        × (stmt_tokens x ≡ stmt_tokens (func_decl kw modifiers id subs args ret body))
unfolding func_stmt stmt_ok
func_stmt-ok kw modifiers id subs args ret body v =
    let (b, ok, e) =
      chosen_stmt _ (func_decl kw modifiers id subs args ret body)
        (err_func_decl kw modifiers id subs args ret body) refl v in
    let (b1, b2) = and_true _ _ b in
    let (b3, b4) = and_true _ _ b2 in
    let (b5, b6) = and_true _ _ b4 in
    let (b7, b8) = and_true _ _ b6 in
    let (ok1, ok2) = and_true _ _ ok in
    (
      either_of _ _ b1 (is_kw-not_end Keyword.kw_fun kw) (is_kw-not_end Keyword.kw_act kw),
      either_of _ _ b3 (is_identifier-not_end id) (is_operator-not_end id),
      b5,
      b7,
      b8,
      ok1,
      ok2,
      ap stmt_tokens e,
    )

pub next_stmt_func_decl-Runs :
    (f : ℕ) (s : Input)
    → 1 ≤ left s
    → 8 * left s + 8 ≤ f
    → Runs s (ReadsStmt s) (next_stmt_func_decl f s)
unfolding next_stmt_func_decl stmt_tokens
next_stmt_func_decl-Runs f s m l = Runs-bind (consume_token-Runs s) λ kw t c q k.
    Runs-bind (modifiers_loop-Runs f t (omega (arith, l, q))) λ modifiers u d q2 h2.
      Runs-bind (consume_token-Runs u) λ id v a q3 k3.
        Runs-bind (next_type_subs-Runs f v (omega (arith, l, q, q2, q3))) λ subs w b q4 h4.
          let reads : NextReads (next_expr f 0) (left s) =
            λ min max t y. next_expr-Runs f 0 min max t (omega (arith, l, y)) in
          Runs-bind
            (next_arg_decl_list-Runs (next_expr f 0) (left s) reads f w
              (omega (arith, l, q, q2, q3, q4)) (omega (arith, q, q2, q3, q4)))
            λ args x g q5 h5.
              Runs-bind (next_ret_type-Runs f x (omega (arith, l, q, q2, q3, q4, q5)))
                λ ret y p q6 h6.
                  Runs-bind
                    (next_expr-Runs f 0 0 max_precedence y
                      (omega (arith, l, q, q2, q3, q4, q5, q6)))
                    λ body z r _ (_, h7). done [] refl (
                      λ m. omega (
                        arith,
                        k.counts m,
                        length-append c (d ++ (a ++ (b ++ (g ++ (p ++ (r ++ [])))))),
                      ),
                      λ o.
                          let (e1, e2, e3, e4, e5, e6, e7, e8) =
                            func_stmt-ok kw modifiers id subs args ret body o in
                          rw
                            (
                              e8,
                              k.taken e1,
                              h2,
                              k3.taken e2,
                              h4 e3,
                              h5 e5 e6,
                              h6 e4,
                              append-nil r,
                              h7 e7,
                            )
                            refl,
                    )
