-- ===== src/Parse/Expr/Reads/Switch.antt =====
-- The switch.
use novus.Base.{
  ℕ, zero, suc, ◌≤◌, ◌≡◌, refl, ap, arith, [], ◌++◌, append-nil, length-append, and_true, true,
  ◌&&◌, length,
}
use novus.Lex.Token.{TokenKind, Keyword}
use novus.Parse.Tokens.{is_kind, is_kw}
use novus.Parse.Syntax.{Node, switch_if, switch_else, err_switch_if, err_switch_else}
use novus.Parse.Input.{Input, Parser, peek_token}
use novus.Parse.Runs.{
  Runs, done, left, Runs-if, Runs-bind, consume_token-Runs, is_kind-not_end, left-peek_token,
}
use novus.Parse.Expr.Print.{node_tokens, nodes_tokens, node_ok, nodes_ok}
use novus.Parse.Expr.Reads.{Reads, NextReads, chosen, is_kw-not_end}
use novus.Parse.Expr.Calls.{max_precedence}
use novus.Parse.Expr.Plain.{
  next_expr_switch_if, next_expr_switch_else, switch_loop, next_expr_switch,
}

module _ (next : ℕ → ℕ → Parser Node) (n : ℕ) (reads : NextReads next n) where
  next_expr_switch_if-Runs :
      (s : Input) → 1 ≤ left s → left s ≤ n → Runs s (Reads s) (next_expr_switch_if next s)
  unfolding next_expr_switch_if node_ok node_tokens
  next_expr_switch_if-Runs s m b = Runs-bind (consume_token-Runs s) λ kw t c l k.
      let one = k.counts m in
      Runs-bind (reads 0 max_precedence t (omega (arith, b, l, one))) λ x u d l2 (_, h).
        Runs-bind (consume_token-Runs u) λ arrow v a l3 k2.
          Runs-bind (reads 0 max_precedence v (omega (arith, b, l, l2, l3, one))) λ y w z _ (_, i).
            done [] refl (
              λ _. omega (arith, one, length-append c (d ++ (a ++ (z ++ [])))),
              λ g.
                  let (b1, ok, e) =
                    chosen (is_kw Keyword.kw_if kw && is_kind TokenKind.sep_arrow arrow)
                      (switch_if kw x arrow y) (err_switch_if kw x arrow y) refl g in
                  let (b2, b3) = and_true _ _ b1 in
                  let (ok1, ok2) = and_true _ _ ok in
                  rw
                    (
                      ap node_tokens e,
                      k.taken (is_kw-not_end Keyword.kw_if kw b2),
                      k2.taken (is_kind-not_end TokenKind.sep_arrow arrow b3),
                      h ok1,
                      append-nil z,
                      i ok2,
                    )
                    refl,
            )

  next_expr_switch_else-Runs :
      (s : Input) → 1 ≤ left s → left s ≤ n → Runs s (Reads s) (next_expr_switch_else next s)
  unfolding next_expr_switch_else node_ok node_tokens
  next_expr_switch_else-Runs s m b = Runs-bind (consume_token-Runs s) λ kw t c l k.
      let one = k.counts m in
      Runs-bind (consume_token-Runs t) λ arrow u a l2 k2.
        Runs-bind (reads 0 max_precedence u (omega (arith, b, l, l2, one))) λ y w z _ (_, i).
          done [] refl (
            λ _. omega (arith, one, length-append c (a ++ (z ++ []))),
            λ g.
                let (b1, ok, e) =
                  chosen (is_kw Keyword.kw_else kw && is_kind TokenKind.sep_arrow arrow)
                    (switch_else kw arrow y) (err_switch_else kw arrow y) refl g in
                let (b2, b3) = and_true _ _ b1 in
                rw
                  (
                    ap node_tokens e,
                    k.taken (is_kw-not_end Keyword.kw_else kw b2),
                    k2.taken (is_kind-not_end TokenKind.sep_arrow arrow b3),
                    append-nil z,
                    i ok,
                  )
                  refl,
          )

  left-is_kw : (k : Keyword) (s : Input) → is_kw k (peek_token s) ≡ true → 1 ≤ left s
  left-is_kw k s h = left-peek_token s (is_kw-not_end k (peek_token s) h)

  switch_loop-Runs :
      (f : ℕ) (s : Input)
      → 1 ≤ left s
      → left s ≤ f
      → left s ≤ n
      → Runs s
          (λ es c. (1 ≤ length c) × (nodes_ok es ≡ true → c ≡ nodes_tokens es []))
          (switch_loop next f s)
  unfolding switch_loop nodes_tokens nodes_ok
  switch_loop-Runs zero s m l b = absurd (omega (arith, m, l))
  switch_loop-Runs (suc f) s m l b =
      Runs-bind (next_expr_switch_if-Runs s m b) λ e t c q (progress, h).
        let fewer = progress m in
        Runs-if (is_kw Keyword.kw_if (peek_token t)) _ _
          (λ y.
            Runs-bind
              (switch_loop-Runs f t (left-is_kw Keyword.kw_if t y) (omega (arith, l, q, fewer))
                (omega (arith, b, q)))
              λ es u d _ (_, i). done [] refl (
                omega (arith, fewer, length-append c (d ++ [])),
                λ v. let (v1, v2) = and_true _ _ v in rw (h v1, append-nil d, i v2) refl,
              ))
          (λ y. done [] refl (
            omega (arith, fewer, length-append c []),
            λ v. let (v1, v2) = and_true _ _ v in rw (h v1) refl,
          ))

  pub next_expr_switch-Runs :
      (f : ℕ) (s : Input)
      → 1 ≤ left s
      → left s ≤ f
      → left s ≤ n
      → Runs s (Reads s) (next_expr_switch next f s)
  unfolding next_expr_switch node_tokens node_ok
  next_expr_switch-Runs f s m l b = Runs-bind (switch_loop-Runs f s m l b) λ es t c q (some_, h).
      Runs-if (is_kw Keyword.kw_else (peek_token t)) _ _
        (λ y.
          Runs-bind
            (next_expr_switch_else-Runs t (left-is_kw Keyword.kw_else t y) (omega (arith, b, q)))
            λ e u d _ (_, i). done [] refl (
              λ _. omega (arith, some_, length-append c (d ++ [])),
              λ v. let (v1, v2) = and_true _ _ v in rw (h v1, append-nil d, i v2) refl,
            ))
        (λ y.
          done [] refl
            (λ _. omega (arith, some_, length-append c []), λ v. rw (append-nil c, h v) refl))
