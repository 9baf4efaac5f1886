-- ===== src/Parse/Expr/Reads/Calls.antt =====
-- Calls and indices.
use novus.Base.{
  ℕ, zero, suc, ◌≤◌, ◌≡◌, refl, sym, ap, ◌∙◌, arith, List, [], ◌∷◌, ◌++◌, append-nil, length-append,
  and_true, or_false, not-true, not-false, Bool, true, false, ◌&&◌, ◌||◌, not, length,
}
use novus.Lex.Token.{TokenKind, Token}
use mathlib.Core.Path.{subst}
use novus.Parse.Tokens.{is_kind, is_end}
use novus.Parse.Syntax.{Node, call, err_call, index, err_index, Nodes, no_nodes, node_and}
use novus.Parse.Input.{Input, Parser, peek_token}
use novus.Parse.Runs.{
  Runs, done, left, Runs-if, Runs-bind, consume_token-Runs, is_kind-not_end, left-consumed,
}
use novus.Parse.Types.Reads.{left-not_closed}
use novus.Parse.Expr.Print.{node_tokens, nodes_tokens, node_ok, nodes_ok, parens_tokens}
use novus.Parse.Expr.Reads.{ReadsAfter, NextReads, chosen, parens-single, parens-pair}
use novus.Parse.Expr.Calls.{
  max_precedence, validate_parentheses, commas_of_args, commas_of_indices, call_node, index_node,
  args_loop, next_expr_call, next_expr_index,
}

-- A list ends at its closing token.
abbrev ReadsNodes : TokenKind → Input → Nodes × List Token × Bool → List Token → Type 0
ReadsNodes close s r c =
    (is_kind close (peek_token s) ≡ true → r ≡ (no_nodes, [], false))
    × (r.2 ≡ false → nodes_ok r.0 ≡ true → c ≡ nodes_tokens r.0 r.1)

last_node :
    (e : Node) (r : Nodes × List Token × Bool)
    → r ≡ (no_nodes, [], false)
    → node_tokens e ++ (nodes_tokens r.0 r.1 ++ []) ≡ nodes_tokens (node_and e r.0) r.1
unfolding nodes_tokens
last_node e r h =
    subst
      (λ (r : Nodes × List Token × Bool).
        node_tokens e ++ (nodes_tokens r.0 r.1 ++ []) ≡ nodes_tokens (node_and e r.0) r.1)
      (sym h) refl

pub closing_kind :
    (opening closing : Token)
    → is_kind TokenKind.op_paren_paren opening ≡ false
    → validate_parentheses opening closing ≡ true
    → (is_kind TokenKind.sep_open_paren opening ≡ true)
      × (is_kind TokenKind.sep_close_paren closing ≡ true)
unfolding validate_parentheses
closing_kind opening closing h v = ground arith

call_node-ok :
    (modifiers : List Token) (lhs : Node) (opening : Token) (args : Nodes) (commas : List Token)
    (closing : Token) (missing : Bool)
    → let e = call_node modifiers lhs opening args commas closing missing in
      node_ok e ≡ true
      → (validate_parentheses opening closing ≡ true)
        × (missing ≡ false)
        × (node_ok lhs ≡ true)
        × (nodes_ok args ≡ true)
        × (node_tokens e
            ≡ modifiers
              ++ (node_tokens lhs ++ parens_tokens opening (nodes_tokens args commas) closing))
unfolding call_node node_tokens node_ok nodes_ok
call_node-ok modifiers lhs opening args commas closing missing v =
    let (b, ok, e) =
      chosen (validate_parentheses opening closing && (not missing && commas_of_args commas args))
        (call modifiers lhs opening args commas closing)
        (err_call modifiers lhs opening args commas closing missing) refl v in
    let (b1, b2) = and_true _ _ b in
    let (ok1, ok2) = and_true _ _ ok in
    (b1, not-true missing (and_true _ _ b2).0, ok1, ok2, ap node_tokens e)

index_node-ok :
    (lhs : Node) (opening : Token) (args : Nodes) (commas : List Token) (closing : Token)
    (missing : Bool)
    → let e = index_node lhs opening args commas closing missing in
      node_ok e ≡ true
      → (is_kind TokenKind.sep_open_square opening ≡ true)
        × (is_kind TokenKind.sep_close_square closing ≡ true)
        × (missing ≡ false)
        × (node_ok lhs ≡ true)
        × (nodes_ok args ≡ true)
        × (node_tokens e
            ≡ node_tokens lhs ++ (opening ∷ (nodes_tokens args commas ++ (closing ∷ []))))
unfolding index_node node_tokens node_ok nodes_ok
index_node-ok lhs opening args commas closing missing v =
    let (b, ok, e) =
      chosen
        (is_kind TokenKind.sep_open_square opening
          && (is_kind TokenKind.sep_close_square closing
              && (not missing && commas_of_indices commas args)))
        (index lhs opening args commas closing) (err_index lhs opening args commas closing) refl
        v in
    let (b1, b2) = and_true _ _ b in
    let (b3, b4) = and_true _ _ b2 in
    let (ok1, ok2) = and_true _ _ ok in
    (b1, b3, not-true missing (and_true _ _ b4).0, ok1, ok2, ap node_tokens e)

module _ (next : ℕ → ℕ → Parser Node) (n : ℕ) (reads : NextReads next n) where
  pub args_loop-Runs :
      (f : ℕ) (close : TokenKind) (s : Input)
      → suc (left s) ≤ f
      → suc (left s) ≤ n
      → Runs s (ReadsNodes close s) (args_loop next f close s)
  unfolding args_loop nodes_tokens nodes_ok
  args_loop-Runs zero close s l b = absurd (omega arith)
  args_loop-Runs (suc f) close s l b =
      Runs-if (is_kind close (peek_token s) || is_end (peek_token s)) _ _
        (λ y. done [] refl (λ _. refl, λ _ _. refl))
        (λ n.
          let m = left-not_closed close s n in
          let not_closed = (or_false (is_kind close (peek_token s)) (is_end (peek_token s)) n).0 in
          Runs-bind (reads 0 max_precedence s b) λ e t c q (progress, h).
            let fewer = progress m in
            Runs-if (is_kind TokenKind.sep_comma (peek_token t)) _ _
              (λ y. Runs-bind (consume_token-Runs t) λ comma u d q2 k.
                Runs-bind
                  (args_loop-Runs f close u (omega (arith, l, q, q2, fewer))
                    (omega (arith, b, q, q2)))
                  λ (es, cs, missing) v _ _ (j, i). done [] refl (
                    λ x. absurd cc (sym not_closed ∙ x),
                    λ no w.
                        let (v1, v2) = and_true _ _ w in
                        rw
                          (
                            h v1,
                            k.taken (
                                subst (λ x. is_end x ≡ false) (sym k.peeked)
                                  (is_kind-not_end TokenKind.sep_comma _ y)),
                            i no v2,
                          )
                          (rw (append-nil (nodes_tokens es cs)) refl),
                  ))
              (λ y.
                Runs-bind
                  (args_loop-Runs f close t (omega (arith, l, q, fewer)) (omega (arith, b, q)))
                  λ (es, cs, missing) v _ _ (j, i). done [] refl (
                    λ x. absurd cc (sym not_closed ∙ x),
                    λ no w.
                        let (v1, v2) = and_true _ _ w in
                        let (q1, q2) = or_false _ _ no in
                        rw (h v1, i q2 v2) (last_node e (es, cs, missing) (j (not-false _ q1))),
                  )))

  pub next_expr_call-Runs :
      (f : ℕ) (lhs : Node) (modifiers : List Token) (s : Input)
      → 1 ≤ n
      → suc (left s) ≤ f
      → left s ≤ n
      → Runs s (ReadsAfter s modifiers lhs) (next_expr_call next f lhs modifiers s)
  unfolding next_expr_call nodes_tokens
  next_expr_call-Runs f lhs modifiers s m l b = Runs-bind (consume_token-Runs s) λ opening t c q k.
      let fewer = left-consumed (left s) (length c) (left t) n q k.counts m b in
      Runs-if (is_kind TokenKind.op_paren_paren opening) _ _
        (λ y. done [] refl (
          λ i. omega (arith, k.counts i, length-append c []),
          λ v.
              let (_, _, ok, _, tokens) =
                call_node-ok modifiers lhs opening no_nodes [] opening false v in
              (
                ok,
                rw
                    (
                      tokens,
                      parens-single opening opening [] y,
                      k.taken (is_kind-not_end TokenKind.op_paren_paren opening y),
                    )
                    refl,
              ),
        ))
        (λ y.
          Runs-bind (args_loop-Runs f TokenKind.sep_close_paren t (omega (arith, l, q)) fewer)
            λ (args, commas, missing) u d q2 (_, h).
              Runs-bind (consume_token-Runs u) λ closing v a q3 i. done [] refl (
                λ i. omega (arith, k.counts i, length-append c (d ++ (a ++ []))),
                λ v.
                    let (v1, v2, ok, oks, tokens) =
                      call_node-ok modifiers lhs opening args commas closing missing v in
                    let (k1, k2) = closing_kind opening closing y v1 in
                    (
                      ok,
                      rw
                          (
                            tokens,
                            parens-pair opening closing (nodes_tokens args commas) y,
                            k.taken (is_kind-not_end TokenKind.sep_open_paren opening k1),
                            i.taken (is_kind-not_end TokenKind.sep_close_paren closing k2),
                            h v2 oks,
                          )
                          refl,
                    ),
              ))

  pub next_expr_index-Runs :
      (f : ℕ) (lhs : Node) (s : Input)
      → 1 ≤ left s
      → left s ≤ f
      → left s ≤ n
      → Runs s (ReadsAfter s [] lhs) (next_expr_index next f lhs s)
  unfolding next_expr_index
  next_expr_index-Runs f lhs s m l b = Runs-bind (consume_token-Runs s) λ opening t c q k.
      let one = k.counts m in
      Runs-bind
        (args_loop-Runs f TokenKind.sep_close_square t (omega (arith, l, q, one))
          (omega (arith, b, q, one)))
        λ (args, commas, missing) u d q2 (_, h).
          Runs-bind (consume_token-Runs u) λ closing v a q3 i. done [] refl (
            λ _. omega (arith, one, length-append c (d ++ (a ++ []))),
            λ v.
                let (k1, k2, v2, ok, oks, tokens) =
                  index_node-ok lhs opening args commas closing missing v in
                (
                  ok,
                  rw
                      (
                        tokens,
                        k.taken (is_kind-not_end TokenKind.sep_open_square opening k1),
                        i.taken (is_kind-not_end TokenKind.sep_close_square closing k2),
                        h v2 oks,
                      )
                      refl,
                ),
          )
