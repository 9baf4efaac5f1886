-- ===== src/Parse/Expr/Reads/Args.antt =====
-- The argument lists.
use novus.Base.{
  ℕ, zero, suc, ◌+◌, ◌*◌, ◌≤◌, ◌≡◌, refl, sym, arith, List, [], ◌++◌, append-nil, length-append,
  and_true, or_false, not-true, Bool, true, false, ◌||◌, not,
}
use novus.Lex.Token.{TokenKind, Token}
use mathlib.Core.Path.{subst}
use novus.Parse.Tokens.{
  is_kind, is_end, is_identifier, is_keyword, is_static_int, assignment_precedence,
}
use novus.Parse.Syntax.{Node, argument_list_decl, ArgSpecs, no_args, arg_and, ArgSpec}
use novus.Parse.Input.{Input, Parser, peek_token}
use novus.Parse.Runs.{
  Runs, done, left, Runs-if, Runs-bind, consume_token-Runs, is_kind-not_end, left-peek_token,
}
use novus.Parse.Types.{is_possible_type_token}
use novus.Parse.Types.Print.{starts_static}
use novus.Parse.Types.Reads.{Progress, is_possible_type_token-not_end, next_type-Runs}
use novus.Parse.Expr.Print.{
  node_ok, arg_list_tokens, args_tokens, arg_tokens, arg_list_ok, args_ok, arg_ok,
}
use novus.Parse.Expr.Reads.{NextReads, either_of, is_identifier-not_end, parens-single, parens-pair}
use novus.Parse.Expr.Calls.{max_precedence, validate_parentheses}
use novus.Parse.Expr.Reads.Calls.{closing_kind}
use novus.Parse.Expr.Lambda.{
  validate_arg, validate_args, validate_arg_list, next_arg, arg_decls_loop, next_arg_decl_list,
}

-- An argument. Where its type begins with a static int, `arg_ok` does not hold.
abbrev ReadsArg : Input → ArgSpec → List Token → Type 0
ReadsArg s a c =
    Progress s c
    × (validate_arg a ≡ true → arg_ok a ≡ true → c ≡ arg_tokens a)
    × (is_static_int (peek_token s) ≡ true → arg_ok a ≡ false)

-- A list ends where neither a type nor a comma is next. That one ends is known from the token only
-- where no argument begins with a static int.
abbrev ReadsArgs : Input → ArgSpecs × List Token × Bool → List Token → Type 0
ReadsArgs s r c =
    (is_identifier (peek_token s) ≡ false
      → is_keyword (peek_token s) ≡ false
      → is_kind TokenKind.sep_comma (peek_token s) ≡ false
      → args_ok r.0 ≡ true
      → r ≡ (no_args, [], false))
    × (r.2 ≡ false → validate_args r.0 ≡ true → args_ok r.0 ≡ true → c ≡ args_tokens r.0 r.1)

last_arg :
    (a : ArgSpec) (r : ArgSpecs × List Token × Bool)
    → r ≡ (no_args, [], false)
    → arg_tokens a ++ (args_tokens r.0 r.1 ++ []) ≡ args_tokens (arg_and a r.0) r.1
unfolding args_tokens
last_arg a r h =
    subst
      (λ (r : ArgSpecs × List Token × Bool).
        arg_tokens a ++ (args_tokens r.0 r.1 ++ []) ≡ args_tokens (arg_and a r.0) r.1)
      (sym h) refl

starts_list-static :
    (t : Token)
    → (is_possible_type_token t || is_kind TokenKind.sep_comma t) ≡ true
    → is_identifier t ≡ false
    → is_keyword t ≡ false
    → is_kind TokenKind.sep_comma t ≡ false
    → is_static_int t ≡ true
unfolding is_possible_type_token
starts_list-static t h i k c = ground arith

left-starts_list :
    (s : Input)
    → (is_possible_type_token (peek_token s) || is_kind TokenKind.sep_comma (peek_token s)) ≡ true
    → 1 ≤ left s
left-starts_list s h =
    left-peek_token s
      (either_of _ _ h (is_possible_type_token-not_end _) (is_kind-not_end TokenKind.sep_comma _))

arg_list-closing :
    (opening : Token) (args : ArgSpecs) (commas : List Token) (closing : Token) (missing : Bool)
    → validate_arg_list (argument_list_decl opening args commas closing missing) ≡ true
    → (validate_parentheses opening closing ≡ true)
      × (validate_args args ≡ true)
      × (missing ≡ false)
unfolding validate_arg_list
arg_list-closing opening args commas closing missing v =
    let (v1, v2) = and_true _ _ v in
    let (v3, v4) = and_true _ _ v2 in (v1, v3, not-true missing (and_true _ _ v4).0)

module _ (next : ℕ → ℕ → Parser Node) (n : ℕ) (reads : NextReads next n) where
  next_arg-Runs :
      (f : ℕ) (s : Input)
      → 1 ≤ left s
      → 8 * left s + 2 ≤ f
      → left s ≤ n
      → Runs s (ReadsArg s) (next_arg next f s)
  unfolding next_arg validate_arg arg_tokens arg_ok
  next_arg-Runs f s m l b = Runs-bind (next_type-Runs f s l) λ p t c q (progress, h, static).
      Runs-bind (consume_token-Runs t) λ id u d q2 k.
        Runs-if (is_kind TokenKind.op_eq (peek_token u)) _ _
          (λ y. Runs-bind (consume_token-Runs u) λ eq v a q3 k2.
            Runs-if
              (is_kind TokenKind.sep_comma (peek_token v)
                || is_kind TokenKind.sep_close_paren (peek_token v))
              _ _
              (λ z. done [] refl (
                λ i. omega (arith, progress i, length-append c (d ++ (a ++ []))),
                λ g. absurd cc,
                λ i. rw (static, i) refl,
              ))
              (λ z.
                Runs-bind
                  (reads assignment_precedence max_precedence v
                    (omega (arith, b, q, q2, q3, progress m)))
                  λ e w x _ (_, j). done [] refl (
                    λ i. omega (arith, progress i, length-append c (d ++ (a ++ (x ++ [])))),
                    λ g o.
                        let (g1, g2) = and_true _ _ g in
                        let (g3, g4) = and_true _ _ g2 in
                        rw
                          (
                            h g3,
                            k.taken (is_identifier-not_end id g1),
                            k2.taken (is_kind-not_end TokenKind.op_eq eq g4),
                            append-nil x,
                            j (and_true (not (starts_static p)) (node_ok e) o).1,
                          )
                          refl,
                    λ i. rw (static, i) refl,
                  )))
          (λ y. done [] refl (
            λ i. omega (arith, progress i, length-append c (d ++ [])),
            λ g o.
                let (g1, g2) = and_true _ _ g in
                rw (h g2, k.taken (is_identifier-not_end id g1)) refl,
            λ i. rw (static, i) refl,
          ))

  arg_decls_loop-Runs :
      (f : ℕ) (s : Input)
      → 8 * left s + 3 ≤ f
      → left s ≤ n
      → Runs s (ReadsArgs s) (arg_decls_loop next f s)
  unfolding arg_decls_loop validate_args args_tokens args_ok
  arg_decls_loop-Runs zero s l b = absurd (omega arith)
  arg_decls_loop-Runs (suc f) s l b =
      Runs-if (is_possible_type_token (peek_token s) || is_kind TokenKind.sep_comma (peek_token s))
        _ _
        (λ x.
          let m = left-starts_list s x in
          Runs-bind (next_arg-Runs f s m (omega (arith, l)) b) λ a t c q (progress, h, static).
            let fewer = progress m in
            Runs-if (is_kind TokenKind.sep_comma (peek_token t)) _ _
              (λ y. Runs-bind (consume_token-Runs t) λ comma u d q2 k.
                Runs-bind
                  (arg_decls_loop-Runs f u (omega (arith, l, q, q2, fewer))
                    (omega (arith, b, q, q2)))
                  λ (args, cs, missing) v z _ (j, i). done [] refl (
                    λ r1 r2 r3 o. absurd cc (
                      static (starts_list-static _ x r1 r2 r3),
                      (and_true (arg_ok a) (args_ok args) o).0,
                    ),
                    λ no w o.
                        let (v1, v2) = and_true _ _ w in
                        let (o1, o2) = and_true _ _ o in
                        rw
                          (
                            h v1 o1,
                            k.taken (
                                subst (λ x. is_end x ≡ false) (sym k.peeked)
                                  (is_kind-not_end TokenKind.sep_comma _ y)),
                            append-nil z,
                            i no v2 o2,
                          )
                          refl,
                  ))
              (λ y.
                Runs-bind
                  (arg_decls_loop-Runs f t (omega (arith, l, q, fewer)) (omega (arith, b, q)))
                  λ (args, cs, missing) v z _ (j, i). done [] refl (
                    λ r1 r2 r3 o. absurd cc (
                      static (starts_list-static _ x r1 r2 r3),
                      (and_true (arg_ok a) (args_ok args) o).0,
                    ),
                    λ no w o.
                        let (v1, v2) = and_true _ _ w in
                        let (o1, o2) = and_true _ _ o in
                        let (n1, n2) = or_false _ _ no in
                        let (n3, n4) = or_false _ _ n1 in
                        rw (h v1 o1, i n2 v2 o2) (last_arg a (args, cs, missing) (j n3 n4 y o2)),
                  )))
        (λ y. done [] refl (λ _ _ _ _. refl, λ _ _ _. refl))

  pub next_arg_decl_list-Runs :
      (f : ℕ) (s : Input)
      → 8 * left s + 3 ≤ f
      → left s ≤ n
      → Runs s
          (λ a c. validate_arg_list a ≡ true → arg_list_ok a ≡ true → c ≡ arg_list_tokens a)
          (next_arg_decl_list next f s)
  unfolding next_arg_decl_list arg_list_tokens arg_list_ok args_tokens
  next_arg_decl_list-Runs f s l b = Runs-bind (consume_token-Runs s) λ opening t c q k.
      Runs-if (is_kind TokenKind.op_paren_paren opening) _ _
        (λ y. done [] refl λ v o.
          rw
            (
              parens-single opening opening [] y,
              k.taken (is_kind-not_end TokenKind.op_paren_paren opening y),
            )
            refl)
        (λ y.
          Runs-bind (arg_decls_loop-Runs f t (omega (arith, l, q)) (omega (arith, b, q)))
            λ (args, commas, missing) u d q2 (_, h).
              Runs-bind (consume_token-Runs u) λ closing v a q3 i. done [] refl λ v o.
                let (v1, v2, v3) = arg_list-closing opening args commas closing missing v in
                let (k1, k2) = closing_kind opening closing y v1 in
                rw
                  (
                    parens-pair opening closing (args_tokens args commas) y,
                    k.taken (is_kind-not_end TokenKind.sep_open_paren opening k1),
                    i.taken (is_kind-not_end TokenKind.sep_close_paren closing k2),
                    h v3 v2 o,
                  )
                  refl)
