-- ===== src/Parse/Expr/Reads/Groups.antt =====
-- The groups.
use novus.Base.{
  ℕ, zero, suc, ◌≤◌, ◌≡◌, refl, sym, arith, List, [], ◌++◌, append-nil, length-append, and_true,
  true, false, length,
}
use novus.Lex.Token.{TokenKind, Token}
use mathlib.Core.Path.{subst}
use novus.Parse.Tokens.{is_kind, is_end}
use novus.Parse.Syntax.{Node, Nodes, node_and}
use novus.Parse.Input.{Input, Parser, peek_token}
use novus.Parse.Runs.{Runs, done, left, Runs-if, Runs-bind, consume_token-Runs, is_kind-not_end}
use novus.Parse.Types.Reads.{left-is_kind}
use novus.Parse.Expr.Print.{node_tokens, nodes_tokens, node_ok, nodes_ok}
use novus.Parse.Expr.Reads.{ReadsAfter, NextReads}
use novus.Parse.Expr.Calls.{max_precedence, group_loop, next_expr_group}

-- The tokens behind the first expression of a group.
abbrev ReadsGroup : Input → Nodes × List Token → List Token → Type 0
ReadsGroup s r c =
    (is_kind TokenKind.op_semi (peek_token s) ≡ true → 1 ≤ length c)
    × (nodes_ok r.0 ≡ true
        → (lhs : Node) → node_tokens lhs ++ c ≡ nodes_tokens (node_and lhs r.0) r.1)

module _ (next : ℕ → ℕ → Parser Node) (n : ℕ) (reads : NextReads next n) where
  group_loop-Runs :
      (f precedence : ℕ) (s : Input)
      → suc (left s) ≤ f
      → left s ≤ n
      → Runs s (ReadsGroup s) (group_loop next f precedence s)
  unfolding group_loop nodes_tokens nodes_ok
  group_loop-Runs zero precedence s l b = absurd (omega arith)
  group_loop-Runs (suc f) precedence s l b =
      Runs-if (is_kind TokenKind.op_semi (peek_token s)) _ _
        (λ y.
          let m = left-is_kind TokenKind.op_semi s y in
          Runs-bind (consume_token-Runs s) λ semi t c q k.
            let one = k.counts m in
            Runs-bind (reads precedence max_precedence t (omega (arith, b, q, one)))
              λ e u d q2 (_, h).
                Runs-bind
                  (group_loop-Runs f precedence u (omega (arith, l, q, q2, one))
                    (omega (arith, b, q, q2)))
                  λ (es, semis) v a _ (_, i). done [] refl (
                    λ _. omega (arith, one, length-append c (d ++ (a ++ []))),
                    λ w lhs.
                        let (v1, v2) = and_true _ _ w in
                        rw
                          (
                            k.taken (
                                subst (λ x. is_end x ≡ false) (sym k.peeked)
                                  (is_kind-not_end TokenKind.op_semi _ y)),
                            h v1,
                            append-nil a,
                            i v2 e,
                          )
                          refl,
                  ))
        (λ y. done [] refl (λ x. absurd cc, λ w lhs. refl))

  pub next_expr_group-Runs :
      (f : ℕ) (lhs : Node) (precedence : ℕ) (s : Input)
      → is_kind TokenKind.op_semi (peek_token s) ≡ true
      → suc (left s) ≤ f
      → left s ≤ n
      → Runs s (ReadsAfter s [] lhs) (next_expr_group next f lhs precedence s)
  unfolding next_expr_group node_ok node_tokens nodes_ok
  next_expr_group-Runs f lhs precedence s y l b =
      Runs-bind (group_loop-Runs f precedence s l b) λ (es, semis) t c q (some_, h). done [] refl (
        λ _. omega (arith, some_ y, length-append c []),
        λ v. let (ok, oks) = and_true _ _ v in (ok, rw (append-nil c) (sym (h oks lhs))),
      )
