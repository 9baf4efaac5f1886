-- ===== src/Parse/Expr/Reads/Rest.antt =====
-- The loop of nextExpr, behind a left hand side.
use novus.Base.{
  ℕ, zero, suc, ◌+◌, ◌*◌, ◌≤◌, ◌≡◌, refl, sym, arith, [], ◌++◌, append_assoc, append-nil,
  length-append, and_true, or_false, if◌then◌else◌, true, false, ◌||◌, ◌==◌,
}
use novus.Lex.Token.{TokenKind, Keyword, Payload, Token, end_of_input, basic, keyword}
use mathlib.Core.Path.{subst}
use novus.Parse.Tokens
use novus.Parse.Tokens.{
  is_kind, is_kw, is_end, is_operator, is_static_int, TokenCat, lookup_cat, kind_cat, get_kw,
  get_lhs_op_precedence, get_rhs_op_precedence, assignment_precedence, call_precedence,
}
use novus.Parse.Syntax.{Node}
use novus.Parse.Input.{Input, Parser, peek_token}
use novus.Parse.Runs.{
  Runs, done, left, Runs-if, Runs-imp, Runs-bind, consume_token-Runs, left-peek_token,
}
use novus.Parse.Expr.Print.{node_tokens, node_ok}
use novus.Parse.Expr.Reads.{ReadsAfter, NextReads}
use novus.Parse.Expr.Reads.Calls.{next_expr_call-Runs, next_expr_index-Runs}
use novus.Parse.Expr.Reads.Groups.{next_expr_group-Runs}
use novus.Parse.Expr.Reads.Plain.{
  next_expr_field-Runs, next_expr_is-Runs, next_expr_conditional-Runs,
}
use novus.Parse.Expr.Calls.{max_precedence, next_expr_call, next_expr_index, next_expr_group}
use novus.Parse.Expr.Plain.{next_expr_field, next_expr_is, next_expr_conditional}
use novus.Parse.Expr.{ends_expr, next_expr_binary, next_expr_rhs, expr_loop}

-- A token that does not end an expression is not the end.
ends_expr-not_end : (min max : ℕ) (t : Token) → ends_expr min max t ≡ false → is_end t ≡ false
unfolding ends_expr get_rhs_op_precedence is_end
ends_expr-not_end min max t h = by_payload t.payload (or_false _ _ h).0
  where
    by_payload :
        (p : Payload)
        → ((elim p [
          | basic k ↦ Tokens.rhs_precedence k
          | keyword k ↦ Tokens.keyword_precedence k
          | _ ↦ 0
        ])
            == 0)
          ≡ false
        → elim p [ end_of_input ↦ true | _ ↦ false ] ≡ false
    by_payload end_of_input h = absurd cc
    by_payload _ h = refl

module _ (next : ℕ → ℕ → Parser Node) (n : ℕ) (reads : NextReads next n) where
  next_expr_binary-Runs :
      (lhs : Node) (precedence : ℕ) (s : Input)
      → is_end (peek_token s) ≡ false
      → left s ≤ n
      → Runs s (ReadsAfter s [] lhs) (next_expr_binary next lhs precedence s)
  unfolding next_expr_binary node_tokens node_ok
  next_expr_binary-Runs lhs precedence s more b = Runs-bind (consume_token-Runs s) λ op t c q k.
      let one = k.counts (left-peek_token s more) in
      Runs-bind (reads precedence max_precedence t (omega (arith, b, q, one))) λ e u d _ (_, h).
        done [] refl (
          λ _. omega (arith, one, length-append c (d ++ [])),
          λ v.
              let (ok1, ok2) = and_true _ _ v in
              (
                ok1,
                rw
                    (
                      k.taken (subst (λ x. is_end x ≡ false) (sym k.peeked) more),
                      append-nil d,
                      h ok2,
                    )
                    refl,
              ),
        )

  next_expr_rhs-Runs :
      (f : ℕ) (lhs : Node) (s : Input)
      → is_end (peek_token s) ≡ false
      → 8 * left s + 3 ≤ f
      → left s ≤ n
      → Runs s (ReadsAfter s [] lhs) (next_expr_rhs next f lhs (peek_token s) s)
  unfolding next_expr_rhs
  next_expr_rhs-Runs f lhs s more l b =
      let m = left-peek_token s more in
      let t = peek_token s in
      let precedence = get_rhs_op_precedence t in
      let on_binary = next_expr_binary next lhs precedence in
      let on_is =
        if is_kw Keyword.kw_is t || is_kw Keyword.kw_as t then next_expr_is f lhs else on_binary in
      let on_index =
        if is_kind TokenKind.sep_open_square t then next_expr_index next f lhs else on_is in
      let on_field = if is_kind TokenKind.op_dot t then next_expr_field lhs else on_index in
      let on_conditional =
        if is_kind TokenKind.op_q_mark t then next_expr_conditional next lhs else on_field in
      let on_group =
        if is_kind TokenKind.op_semi t
        then next_expr_group next f lhs precedence
        else on_conditional in
      Runs-if (is_kind TokenKind.sep_open_paren t || is_kind TokenKind.op_paren_paren t)
        (next_expr_call next f lhs []) on_group
        (λ y.
          next_expr_call-Runs next n reads f lhs [] s (omega (arith, m, b)) (omega (arith, l)) b)
        (λ y.
          Runs-if (is_kind TokenKind.op_semi t) (next_expr_group next f lhs precedence)
            on_conditional
            (λ y. next_expr_group-Runs next n reads f lhs precedence s y (omega (arith, l)) b)
            (λ y.
              Runs-if (is_kind TokenKind.op_q_mark t) (next_expr_conditional next lhs) on_field
                (λ y. next_expr_conditional-Runs next n reads lhs s m b)
                (λ y.
                  Runs-if (is_kind TokenKind.op_dot t) (next_expr_field lhs) on_index
                    (λ y. next_expr_field-Runs lhs s)
                    (λ y.
                      Runs-if (is_kind TokenKind.sep_open_square t) (next_expr_index next f lhs)
                        on_is
                        (λ y. next_expr_index-Runs next n reads f lhs s m (omega (arith, l)) b)
                        (λ y.
                          Runs-if (is_kw Keyword.kw_is t || is_kw Keyword.kw_as t)
                            (next_expr_is f lhs) on_binary
                            (λ y. next_expr_is-Runs f lhs s (omega (arith, l)))
                            (λ y. next_expr_binary-Runs lhs precedence s more b))))))

  pub expr_loop-Runs :
      (f min max : ℕ) (lhs : Node) (s : Input)
      → 8 * left s + 4 ≤ f
      → left s ≤ n
      → Runs s
          (λ e c. node_ok e ≡ true → (node_ok lhs ≡ true) × (node_tokens e ≡ node_tokens lhs ++ c))
          (expr_loop next f min max lhs s)
  unfolding expr_loop
  expr_loop-Runs zero min max lhs s l b = absurd (omega arith)
  expr_loop-Runs (suc f) min max lhs s l b =
      Runs-if (ends_expr min max (peek_token s)) _ _
        (λ y. done [] refl λ v. (v, sym (append-nil (node_tokens lhs))))
        (λ y.
          let more = ends_expr-not_end min max (peek_token s) y in
          Runs-bind (next_expr_rhs-Runs f lhs s more (omega (arith, l)) b) λ e t c q (progress, h).
            let fewer = progress (left-peek_token s more) in
            Runs-imp
              (expr_loop-Runs f min max e t (omega (arith, l, q, fewer)) (omega (arith, b, q)))
              λ r d i v.
                let (v1, v2) = i v in
                let (v3, v4) = h v1 in (v3, rw (v2, v4, append_assoc (node_tokens lhs) c d) refl))
