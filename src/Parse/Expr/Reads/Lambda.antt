-- ===== src/Parse/Expr/Reads/Lambda.antt =====
-- The anonymous functions.
use novus.Base.{
  ℕ, ◌+◌, ◌*◌, ◌≤◌, ◌≡◌, refl, ap, ◌∙◌, arith, List, [], ◌∷◌, ◌++◌, append-nil, length-append,
  and_true, Option, some, true, false, ◌&&◌, length,
}
use novus.Lex.Token.{TokenKind, Keyword, Token}
use novus.Parse.Tokens.{is_kind, is_kw, is_end}
use novus.Parse.Syntax.{Node, RetTypeSpec, ArgumentListDecl, anon_func, err_anon_func}
use novus.Parse.Input.{Input, Parser, peek_token}
use novus.Parse.Runs.{
  Runs, done, left, Runs-if, Runs-bind, consume_token-Runs, is_kind-not_end, left-consumed,
}
use novus.Parse.Types.Reads.{Progress, next_type-Runs}
use novus.Parse.Expr.Print.{node_tokens, node_ok, ret_tokens, arg_list_tokens, arg_list_ok}
use novus.Parse.Expr.Reads.Args.{next_arg_decl_list-Runs}
use novus.Parse.Expr.Reads.{NextReads, chosen, is_kw-not_end}
use novus.Parse.Expr.Calls.{max_precedence}
use novus.Parse.Expr.Lambda.{
  validate_ret_type, validate_arg_list, next_ret_type_spec, next_ret_type, anon_func_node,
  next_expr_anon_func,
}

abbrev ReadsRet : Option RetTypeSpec → List Token → Type 0
ReadsRet r c = validate_ret_type r ≡ true → c ≡ ret_tokens r

next_ret_type_spec-Runs :
    (f : ℕ) (s : Input)
    → 8 * left s + 2 ≤ f
    → Runs s
        (λ r c. validate_ret_type (some r) ≡ true → c ≡ ret_tokens (some r))
        (next_ret_type_spec f s)
unfolding next_ret_type_spec validate_ret_type ret_tokens
next_ret_type_spec-Runs f s l = Runs-bind (consume_token-Runs s) λ arrow t c q k.
    Runs-bind (next_type-Runs f t (omega (arith, l, q))) λ p u d _ (_, h, _).
      done {a = record { arrow = arrow; ret_type = p }} [] refl λ v.
        let (v1, v2) = and_true _ _ v in
        rw (k.taken (is_kind-not_end TokenKind.sep_arrow arrow v1), append-nil d, h v2) refl

pub next_ret_type-Runs :
    (f : ℕ) (s : Input) → 8 * left s + 2 ≤ f → Runs s ReadsRet (next_ret_type f s)
unfolding next_ret_type validate_ret_type ret_tokens
next_ret_type-Runs f s l =
    Runs-if (is_kind TokenKind.sep_arrow (peek_token s)) _ _
      (λ y.
        Runs-bind (next_ret_type_spec-Runs f s l)
          λ r t c _ h. done [] refl (λ v. append-nil c ∙ h v))
      (λ y. done [] refl (λ v. refl))

anon_func_node-ok :
    (modifiers : List Token) (kw : Token) (args : ArgumentListDecl) (ret : Option RetTypeSpec)
    (body : Node)
    → let e = anon_func_node modifiers kw args ret body in
      node_ok e ≡ true
      → (is_end kw ≡ false)
        × (validate_arg_list args ≡ true)
        × (validate_ret_type ret ≡ true)
        × (arg_list_ok args ≡ true)
        × (node_ok body ≡ true)
        × (node_tokens e
            ≡ modifiers ++ (kw ∷ (arg_list_tokens args ++ (ret_tokens ret ++ node_tokens body))))
unfolding anon_func_node node_ok node_tokens
anon_func_node-ok modifiers kw args ret body v =
    let (b, ok, e) =
      chosen (is_kw Keyword.kw_lambda kw && (validate_arg_list args && validate_ret_type ret))
        (anon_func modifiers kw args ret body) (err_anon_func modifiers kw args ret body) refl v in
    let (b1, b2) = and_true _ _ b in
    let (b3, b4) = and_true _ _ b2 in
    let (ok1, ok2) = and_true _ _ ok in
    (is_kw-not_end Keyword.kw_lambda kw b1, b3, b4, ok1, ok2, ap node_tokens e)

module _ (next : ℕ → ℕ → Parser Node) (n : ℕ) (reads : NextReads next n) where
  pub next_expr_anon_func-Runs :
      (f : ℕ) (modifiers : List Token) (s : Input)
      → 1 ≤ n
      → 8 * left s + 3 ≤ f
      → left s ≤ n
      → Runs s
          (λ e c. Progress s c × (node_ok e ≡ true → modifiers ++ c ≡ node_tokens e))
          (next_expr_anon_func next f modifiers s)
  unfolding next_expr_anon_func
  next_expr_anon_func-Runs f modifiers s m l b = Runs-bind (consume_token-Runs s) λ kw t c q k.
      let fewer = left-consumed (left s) (length c) (left t) n q k.counts m b in
      Runs-bind
        (next_arg_decl_list-Runs next n reads f t (omega (arith, l, q)) (omega (arith, b, q)))
        λ args u d q2 h.
          Runs-bind (next_ret_type-Runs f u (omega (arith, l, q, q2))) λ ret v a q3 i.
            Runs-bind (reads 0 max_precedence v (omega (arith, fewer, q2, q3))) λ body w x _ (_, j).
              done [] refl (
                λ i. omega (arith, k.counts i, length-append c (d ++ (a ++ (x ++ [])))),
                λ g.
                    let (e1, e2, e3, e4, e5, e6) = anon_func_node-ok modifiers kw args ret body g in
                    rw (e6, k.taken e1, h e2 e4, i e3, append-nil x, j e5) refl,
              )
