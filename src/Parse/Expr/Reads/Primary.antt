-- ===== src/Parse/Expr/Reads/Primary.antt =====
-- The primary expressions and the unary operators.
use novus.Base.{
  ℕ, ◌+◌, ◌*◌, ◌≤◌, ◌≡◌, refl, sym, arith, [], ◌∷◌, ◌++◌, append-nil, length-append, if◌then◌else◌,
  Option, none, some, Bool, true, false, ◌==◌,
}
use novus.Lex.Token.{TokenKind, Keyword, Token}
use mathlib.Core.Path.{subst}
use novus.Parse.Tokens.{
  is_kind, is_end, is_operator, TokenCat, lookup_cat, get_kw, get_lhs_op_precedence,
  assignment_precedence, call_precedence,
}
use novus.Parse.Syntax.{Node, unary, err_unary_op}
use novus.Parse.Input.{Input, Parser, peek_token}
use novus.Parse.Runs.{
  Runs, done, reads_nullopt, left, Runs-if, Runs-imp, Runs-bind, consume_token-Runs,
  is_kind-not_end, left-peek_token,
}
use novus.Parse.Expr.Print.{node_tokens, node_ok}
use novus.Parse.Expr.Reads.Kinds.{
  lookup_cat-not_end, get_kw-static, HasStatic-peek, is_operator-not_end,
}
use novus.Parse.Expr.Reads.{Reads, NextReads}
use novus.Parse.Expr.Reads.Calls.{next_expr_call-Runs}
use novus.Parse.Expr.Reads.Plain.{next_expr_id-Runs, next_expr_intrinsic-Runs, next_expr_paren-Runs}
use novus.Parse.Expr.Reads.Switch.{next_expr_switch-Runs}
use novus.Parse.Expr.Reads.Lambda.{next_expr_anon_func-Runs}
use novus.Parse.Types.Reads.{left-is_kind}
use novus.Parse.Expr.Plain.{next_expr_paren}
use novus.Parse.Input.{undefined}
use novus.Parse.Expr.Calls.{max_precedence}
use novus.Parse.Expr.{
  next_expr_identifier, next_expr_impure, next_expr_modified_call, next_expr_self, invalid_primary,
  next_expr_keyword, next_lit, next_expr_primary, next_expr_lhs,
}

unary_ok :
    (invalid : Bool) (op : Token) (e : Node)
    → node_ok (if invalid then err_unary_op op e else unary op e) ≡ true
    → (node_ok e ≡ true)
      × (node_tokens (if invalid then err_unary_op op e else unary op e) ≡ op ∷ node_tokens e)
unfolding node_ok node_tokens
unary_ok true op e h = absurd cc
unary_ok false op e h = (h, refl)

module _ (next : ℕ → ℕ → Parser Node) (n : ℕ) (reads : NextReads next n) where
  next_expr_identifier-Runs :
      (f : ℕ) (s : Input)
      → is_end (peek_token s) ≡ false
      → 8 * left s + 1 ≤ f
      → left s ≤ n
      → Runs s (Reads s) (next_expr_identifier next f s)
  unfolding next_expr_identifier node_ok node_tokens
  next_expr_identifier-Runs f s more l b = Runs-bind (consume_token-Runs s) λ id t c q k.
      let one = k.counts (left-peek_token s more) in
      let taken = k.taken (subst (λ x. is_end x ≡ false) (sym k.peeked) more) in
      Runs-if (is_kind TokenKind.op_eq (peek_token t)) _ _
        (λ y. Runs-bind (consume_token-Runs t) λ eq u d q2 k2.
          Runs-bind (reads assignment_precedence max_precedence u (omega (arith, b, q, q2, one)))
            λ e v a _ (_, h). done [] refl (
              λ _. omega (arith, one, length-append c (d ++ (a ++ []))),
              λ g.
                  rw
                    (
                      taken,
                      k2.taken (
                          subst (λ x. is_end x ≡ false) (sym k2.peeked)
                            (is_kind-not_end TokenKind.op_eq _ y)),
                      append-nil a,
                      h g,
                    )
                    refl,
            ))
        (λ y.
          Runs-imp (next_expr_id-Runs f id t (omega (arith, l, q)))
            λ e a h. (λ _. omega (arith, one, length-append c a), λ g. rw taken (h g)))

  next_expr_impure-Runs :
      (f : ℕ) (s : Input)
      → is_end (peek_token s) ≡ false
      → 8 * left s + 3 ≤ f
      → left s ≤ n
      → Runs s (Reads s) (next_expr_impure next f s)
  unfolding next_expr_impure
  next_expr_impure-Runs f s more l b = Runs-bind (consume_token-Runs s) λ modifier t c q k.
      let m = left-peek_token s more in
      let taken = k.taken (subst (λ x. is_end x ≡ false) (sym k.peeked) more) in
      Runs-imp
        (next_expr_anon_func-Runs next n reads f (modifier ∷ []) t (omega (arith, m, b))
          (omega (arith, l, q)) (omega (arith, b, q)))
        λ e a (_, h). (λ _. omega (arith, k.counts m, length-append c a), λ g. rw taken (h g))

  next_expr_modified_call-Runs :
      (f : ℕ) (s : Input)
      → is_end (peek_token s) ≡ false
      → 8 * left s + 3 ≤ f
      → left s ≤ n
      → Runs s (Reads s) (next_expr_modified_call next f s)
  unfolding next_expr_modified_call
  next_expr_modified_call-Runs f s more l b = Runs-bind (consume_token-Runs s) λ modifier t c q k.
      let one = k.counts (left-peek_token s more) in
      let taken = k.taken (subst (λ x. is_end x ≡ false) (sym k.peeked) more) in
      Runs-bind (reads 0 call_precedence t (omega (arith, b, q, one))) λ lhs u d q2 (_, h).
        Runs-imp
          (next_expr_call-Runs next n reads f lhs (modifier ∷ []) u (omega (arith, b, q, one))
            (omega (arith, l, q, q2)) (omega (arith, b, q, q2)))
          λ e a (_, i). (
            λ _. omega (arith, one, length-append c (d ++ a)),
            λ g. let (ok, tokens) = i g in rw (taken, h ok) (sym tokens),
          )

  next_expr_self-Runs :
      (f : ℕ) (s : Input)
      → is_end (peek_token s) ≡ false
      → 8 * left s + 3 ≤ f
      → Runs s (Reads s) (next_expr_self next f s)
  unfolding next_expr_self
  next_expr_self-Runs f s more l = Runs-bind (consume_token-Runs s) λ id t c q k.
      let one = k.counts (left-peek_token s more) in
      let taken = k.taken (subst (λ x. is_end x ≡ false) (sym k.peeked) more) in
      Runs-imp (next_expr_id-Runs f id t (omega (arith, l, q)))
        λ e a h. (λ _. omega (arith, one, length-append c a), λ g. rw taken (h g))

  invalid_primary-Runs : (s : Input) → Runs s (Reads s) (invalid_primary next s)
  unfolding invalid_primary node_ok
  invalid_primary-Runs s =
      Runs-bind (consume_token-Runs s) λ t u c q k.
        done [] refl (λ m. omega (arith, k.counts m, length-append c []), λ g. absurd cc)

  next_lit-Runs : (s : Input) → is_end (peek_token s) ≡ false → Runs s (Reads s) (next_lit next s)
  unfolding next_lit node_ok node_tokens
  next_lit-Runs s more = Runs-bind (consume_token-Runs s) λ t u c q k. done [] refl (
    λ m. omega (arith, k.counts m, length-append c []),
    λ g. rw (k.taken (subst (λ x. is_end x ≡ false) (sym k.peeked) more)) refl,
  )

  next_expr_keyword-Runs :
      (f : ℕ) (kw : Keyword) (s : Input)
      → is_end (peek_token s) ≡ false
      → 8 * left s + 3 ≤ f
      → left s ≤ n
      → Runs s (Reads s) (next_expr_keyword next f kw s)
  unfolding next_expr_keyword
  next_expr_keyword-Runs f kw s more l b =
      let m = left-peek_token s more in
      elim kw as (λ kw. Runs s (Reads s) (next_expr_keyword next f kw s)) [
        | Keyword.kw_intrinsic ↦ next_expr_intrinsic-Runs f s (omega (arith, l)) m
        | Keyword.kw_if ↦ next_expr_switch-Runs next n reads f s m (omega (arith, l)) b
        | Keyword.kw_impure ↦ next_expr_impure-Runs f s more l b
        | Keyword.kw_lambda ↦
            Runs-imp (next_expr_anon_func-Runs next n reads f [] s (omega (arith, m, b)) l b)
              (λ e c h. h)
        | Keyword.kw_fork ↦ next_expr_modified_call-Runs f s more l b
        | Keyword.kw_lazy ↦ next_expr_modified_call-Runs f s more l b
        | Keyword.kw_self ↦ next_expr_self-Runs f s more l
        | _ ↦ invalid_primary-Runs s
      ]

  pub next_expr_primary-Runs :
      (f : ℕ) (s : Input)
      → 8 * left s + 3 ≤ f
      → left s ≤ n
      → Runs s (Reads s) (next_expr_primary next f (peek_token s) s)
  unfolding next_expr_primary
  next_expr_primary-Runs f s l b = by_cat (lookup_cat (peek_token s).payload) refl
    where
      by_kw :
          (kw : Option Keyword)
          → lookup_cat (peek_token s).payload ≡ TokenCat.keyword_cat
          → get_kw (peek_token s) ≡ kw
          → Runs s
              (Reads s)
              (elim kw [ some kw ↦ next_expr_keyword next f kw s | none ↦ undefined ])
      by_kw none e h = reads_nullopt (HasStatic-peek s (get_kw-static (peek_token s) e h))
      by_kw (some kw) e h =
          next_expr_keyword-Runs f kw s (lookup_cat-not_end (peek_token s) _ e refl) l b

      other : Runs s (Reads s) (
          (if is_kind TokenKind.sep_open_paren (peek_token s)
              then next_expr_paren next
              else invalid_primary next)
            s)
      other =
          Runs-if (is_kind TokenKind.sep_open_paren (peek_token s)) (next_expr_paren next)
            (invalid_primary next)
            (λ y. next_expr_paren-Runs next n reads s (left-is_kind TokenKind.sep_open_paren s y) b)
            (λ y. invalid_primary-Runs s)

      by_cat :
          (c : TokenCat)
          → lookup_cat (peek_token s).payload ≡ c
          → Runs s (Reads s) (elim c [
            | TokenCat.literal_cat ↦ next_lit next s
            | TokenCat.identifier_cat ↦ next_expr_identifier next f s
            | TokenCat.keyword_cat ↦ elim (get_kw (peek_token s)) [
              | some kw ↦ next_expr_keyword next f kw s
              | none ↦ undefined
            ]
            | _ ↦
                (if is_kind TokenKind.sep_open_paren (peek_token s)
                    then next_expr_paren next
                    else invalid_primary next)
                  s
          ])
      by_cat TokenCat.literal_cat e = next_lit-Runs s (lookup_cat-not_end (peek_token s) _ e refl)
      by_cat TokenCat.identifier_cat e =
          next_expr_identifier-Runs f s (lookup_cat-not_end (peek_token s) _ e refl)
            (omega (arith, l)) b
      by_cat TokenCat.keyword_cat e = by_kw (get_kw (peek_token s)) e refl
      by_cat TokenCat.operator_cat e = other
      by_cat TokenCat.seperator_cat e = other
      by_cat TokenCat.comment_cat e = other
      by_cat TokenCat.error_cat e = other
      by_cat TokenCat.unknown_cat e = other

  pub next_expr_lhs-Runs :
      (f : ℕ) (s : Input)
      → 8 * left s + 3 ≤ f
      → left s ≤ n
      → Runs s (Reads s) (next_expr_lhs next f (peek_token s) s)
  unfolding next_expr_lhs node_tokens node_ok
  next_expr_lhs-Runs f s l b =
      Runs-if (is_operator (peek_token s)) _ (next_expr_primary next f (peek_token s))
        (λ y.
          let more = is_operator-not_end (peek_token s) y in
          Runs-bind (consume_token-Runs s) λ op t c q k.
            let one = k.counts (left-peek_token s more) in
            let taken = k.taken (subst (λ x. is_end x ≡ false) (sym k.peeked) more) in
            Runs-bind (reads (get_lhs_op_precedence op) max_precedence t (omega (arith, b, q, one)))
              λ e u d _ (_, h). done [] refl (
                λ _. omega (arith, one, length-append c (d ++ [])),
                λ g.
                    let (ok, z) = unary_ok (get_lhs_op_precedence op == 0) op e g in
                    rw (z, taken, append-nil d, h ok) refl,
              ))
        (λ y. next_expr_primary-Runs f s l b)
