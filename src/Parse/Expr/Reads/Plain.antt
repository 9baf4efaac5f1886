-- ===== src/Parse/Expr/Reads/Plain.antt =====
-- The expressions without a loop of their own, and the switch.
use novus.Base.{
  ℕ, ◌+◌, ◌*◌, ◌≤◌, ◌≡◌, refl, sym, ap, arith, [], ◌∷◌, ◌++◌, append-nil, length-append, and_true,
  Option, none, some, true, false, ◌&&◌, ◌||◌,
}
use novus.Lex.Token.{TokenKind, Keyword, Token}
use novus.Parse.Tokens.{is_kind, is_kw, is_end, is_identifier, grouping_precedence}
use novus.Parse.Syntax.{
  ParseType, TypeParamList, Node, id_plain, id_with, intrinsic, field, is_expr, conditional, paren,
  err_id, err_id_plain, err_intrinsic, err_field, err_is, err_conditional, err_paren,
}
use novus.Parse.Input.{Input, Parser, peek_token}
use novus.Parse.Runs.{Runs, done, left, Runs-if, Runs-bind, consume_token-Runs, is_kind-not_end}
use novus.Parse.Types.{validate_type, validate_params}
use novus.Parse.Types.Print.{type_tokens}
use novus.Parse.Types.Reads.{left-is_kind, next_type-Runs, next_type_param_list-Runs}
use novus.Parse.Expr.Print.{node_tokens, node_ok, option_tokens, param_list_tokens}
use novus.Parse.Expr.Reads.{
  Reads, ReadsAfter, NextReads, chosen, either_of, is_kw-not_end, is_identifier-not_end,
}
use novus.Parse.Expr.Calls.{max_precedence}
use novus.Parse.Expr.Plain.{
  is_valid_id, next_expr_id, intrinsic_node, next_expr_intrinsic, next_expr_field, is_node,
  next_expr_is, next_expr_conditional, next_expr_paren,
}

pub next_expr_id-Runs :
    (f : ℕ) (id : Token) (s : Input)
    → 8 * left s + 1 ≤ f
    → Runs s (λ e c. node_ok e ≡ true → id ∷ c ≡ node_tokens e) (next_expr_id f id s)
unfolding next_expr_id node_ok node_tokens
next_expr_id-Runs f id s l =
    Runs-if (is_kind TokenKind.sep_open_curly (peek_token s)) _ _
      (λ y.
        Runs-bind (next_type_param_list-Runs f s l (left-is_kind TokenKind.sep_open_curly s y))
          λ params t c q h. done [] refl (λ v.
            let (b, _, e) =
              chosen (is_valid_id id && validate_params params) (id_with id params)
                (err_id id params) refl v in
            rw
              (
                ap node_tokens e,
                append-nil c,
                h (and_true (is_valid_id id) (validate_params params) b).1,
              )
              refl))
      (λ y. done [] refl (λ v.
        sym (ap node_tokens (chosen (is_valid_id id) (id_plain id) (err_id_plain id) refl v).2)))

intrinsic_node-ok :
    (kw opening id closing : Token) (params : Option TypeParamList)
    → let e = intrinsic_node kw opening id closing params in
      node_ok e ≡ true
      → (is_end kw ≡ false)
        × (is_end opening ≡ false)
        × (is_end id ≡ false)
        × (is_end closing ≡ false)
        × (elim params [ none ↦ true | some ps ↦ validate_params ps ] ≡ true)
        × (node_tokens e ≡ kw ∷ (opening ∷ (id ∷ (closing ∷ param_list_tokens params))))
unfolding intrinsic_node node_ok node_tokens
intrinsic_node-ok kw opening id closing params v =
    let (b, _, e) =
      chosen _ (intrinsic kw opening id closing params) (err_intrinsic kw opening id closing params)
        refl v in
    let (b1, b2) = and_true _ _ b in
    let (b3, b4) = and_true _ _ b2 in
    let (b5, b6) = and_true _ _ b4 in
    let (b7, b8) = and_true _ _ b6 in
    (
      is_kw-not_end Keyword.kw_intrinsic kw b1,
      is_kind-not_end TokenKind.sep_open_curly opening b7,
      is_identifier-not_end id b3,
      is_kind-not_end TokenKind.sep_close_curly closing b8,
      b5,
      ap node_tokens e,
    )

pub next_expr_intrinsic-Runs :
    (f : ℕ) (s : Input)
    → 8 * left s + 1 ≤ f
    → 1 ≤ left s
    → Runs s (Reads s) (next_expr_intrinsic f s)
unfolding next_expr_intrinsic param_list_tokens
next_expr_intrinsic-Runs f s l m = Runs-bind (consume_token-Runs s) λ kw t c q k.
    Runs-bind (consume_token-Runs t) λ opening u d q2 k2.
      Runs-bind (consume_token-Runs u) λ id v a q3 k3.
        Runs-bind (consume_token-Runs v) λ closing w b q4 k4.
          Runs-if (is_kind TokenKind.sep_open_curly (peek_token w)) _ _
            (λ y.
              Runs-bind
                (next_type_param_list-Runs f w (omega (arith, l, q, q2, q3, q4))
                  (left-is_kind TokenKind.sep_open_curly w y))
                λ params _ x _ h. done [] refl (
                  λ _. omega (arith, k.counts m, length-append c (d ++ (a ++ (b ++ (x ++ []))))),
                  λ g.
                      let (e1, e2, e3, e4, e5, e6) =
                        intrinsic_node-ok kw opening id closing (some params) g in
                      rw (e6, k.taken e1, k2.taken e2, k3.taken e3, k4.taken e4, append-nil x, h e5)
                        refl,
                ))
            (λ y. done [] refl (
              λ _. omega (arith, k.counts m, length-append c (d ++ (a ++ (b ++ [])))),
              λ g.
                  let (e1, e2, e3, e4, e5, e6) = intrinsic_node-ok kw opening id closing none g in
                  rw (e6, k.taken e1, k2.taken e2, k3.taken e3, k4.taken e4) refl,
            ))

pub next_expr_field-Runs :
    (lhs : Node) (s : Input) → Runs s (ReadsAfter s [] lhs) (next_expr_field lhs s)
unfolding next_expr_field node_ok node_tokens
next_expr_field-Runs lhs s = Runs-bind (consume_token-Runs s) λ dot t c q k.
    Runs-bind (consume_token-Runs t) λ id u d q2 k2. done [] refl (
      λ m. omega (arith, k.counts m, length-append c (d ++ [])),
      λ v.
          let (b, ok, e) =
            chosen (is_kind TokenKind.op_dot dot && is_identifier id) (field lhs dot id)
              (err_field lhs dot id) refl v in
          let (b1, b2) = and_true _ _ b in
          (
            ok,
            rw
                (
                  ap node_tokens e,
                  k.taken (is_kind-not_end TokenKind.op_dot dot b1),
                  k2.taken (is_identifier-not_end id b2),
                )
                refl,
          ),
    )

is_kw-or-not_end :
    (t : Token) → (is_kw Keyword.kw_is t || is_kw Keyword.kw_as t) ≡ true → is_end t ≡ false
is_kw-or-not_end t h =
    either_of _ _ h (is_kw-not_end Keyword.kw_is t) (is_kw-not_end Keyword.kw_as t)

name_or_discard-not_end :
    (t : Token) → (is_identifier t || is_kind TokenKind.discard t) ≡ true → is_end t ≡ false
name_or_discard-not_end t h =
    either_of _ _ h (is_identifier-not_end t) (is_kind-not_end TokenKind.discard t)

is_node-ok :
    (lhs : Node) (kw : Token) (p : ParseType) (id : Option Token)
    → let e = is_node lhs kw p id in
      node_ok e ≡ true
      → (is_end kw ≡ false)
        × (validate_type p ≡ true)
        × (elim id [ none ↦ true | some i ↦ is_identifier i || is_kind TokenKind.discard i ] ≡ true)
        × (node_ok lhs ≡ true)
        × (node_tokens e ≡ node_tokens lhs ++ (kw ∷ (type_tokens p ++ option_tokens id)))
unfolding is_node node_ok node_tokens
is_node-ok lhs kw p id v =
    let (b, ok, e) = chosen _ (is_expr lhs kw p id) (err_is lhs kw p id) refl v in
    let (b1, b2) = and_true _ _ b in
    let (b3, b4) = and_true _ _ b2 in (is_kw-or-not_end kw b1, b3, b4, ok, ap node_tokens e)

pub next_expr_is-Runs :
    (f : ℕ) (lhs : Node) (s : Input)
    → 8 * left s + 2 ≤ f
    → Runs s (ReadsAfter s [] lhs) (next_expr_is f lhs s)
unfolding next_expr_is option_tokens
next_expr_is-Runs f lhs s l = Runs-bind (consume_token-Runs s) λ kw t c q k.
    Runs-bind (next_type-Runs f t (omega (arith, l, q))) λ p u d q2 (_, h, _).
      Runs-if (is_kw Keyword.kw_as kw) _ _
        (λ y. Runs-bind (consume_token-Runs u) λ id v a q3 i. done [] refl (
          λ m. omega (arith, k.counts m, length-append c (d ++ (a ++ []))),
          λ g.
              let (e1, e2, e3, ok, e4) = is_node-ok lhs kw p (some id) g in
              (ok, rw (e4, k.taken e1, h e2, i.taken (name_or_discard-not_end id e3)) refl),
        ))
        (λ y. done [] refl (
          λ m. omega (arith, k.counts m, length-append c (d ++ [])),
          λ g.
              let (e1, e2, e3, ok, e4) = is_node-ok lhs kw p none g in
              (ok, rw (e4, k.taken e1, h e2) refl),
        ))

module _ (next : ℕ → ℕ → Parser Node) (n : ℕ) (reads : NextReads next n) where
  pub next_expr_conditional-Runs :
      (lhs : Node) (s : Input)
      → 1 ≤ left s
      → left s ≤ n
      → Runs s (ReadsAfter s [] lhs) (next_expr_conditional next lhs s)
  unfolding next_expr_conditional node_ok node_tokens
  next_expr_conditional-Runs lhs s m b = Runs-bind (consume_token-Runs s) λ q t c l k.
      let one = k.counts m in
      Runs-bind (reads grouping_precedence max_precedence t (omega (arith, b, l, one)))
        λ x u d l2 (_, h). Runs-bind (consume_token-Runs u) λ colon v a l3 k2.
          Runs-bind (reads grouping_precedence max_precedence v (omega (arith, b, l, l2, l3, one)))
            λ y w z _ (_, i). done [] refl (
              λ _. omega (arith, one, length-append c (d ++ (a ++ (z ++ [])))),
              λ g.
                  let (b1, ok, e) =
                    chosen (is_kind TokenKind.op_q_mark q && is_kind TokenKind.sep_colon colon)
                      (conditional lhs q x colon y) (err_conditional lhs q x colon y) refl g in
                  let (b2, b3) = and_true _ _ b1 in
                  let (ok1, oks) = and_true _ _ ok in
                  let (ok2, ok3) = and_true _ _ oks in
                  (
                    ok1,
                    rw
                        (
                          ap node_tokens e,
                          k.taken (is_kind-not_end TokenKind.op_q_mark q b2),
                          k2.taken (is_kind-not_end TokenKind.sep_colon colon b3),
                          h ok2,
                          append-nil z,
                          i ok3,
                        )
                        refl,
                  ),
            )

  pub next_expr_paren-Runs :
      (s : Input) → 1 ≤ left s → left s ≤ n → Runs s (Reads s) (next_expr_paren next s)
  unfolding next_expr_paren node_ok node_tokens
  next_expr_paren-Runs s m b = Runs-bind (consume_token-Runs s) λ opening t c q k.
      let one = k.counts m in
      Runs-bind (reads 0 max_precedence t (omega (arith, b, q, one))) λ e u d q2 (_, h).
        Runs-bind (consume_token-Runs u) λ closing v a q3 i. done [] refl (
          λ _. omega (arith, one, length-append c (d ++ (a ++ []))),
          λ g.
              let (b1, ok, z) =
                chosen
                  (is_kind TokenKind.sep_open_paren opening
                    && is_kind TokenKind.sep_close_paren closing)
                  (paren opening e closing) (err_paren opening e closing) refl g in
              let (b2, b3) = and_true _ _ b1 in
              rw
                (
                  ap node_tokens z,
                  k.taken (is_kind-not_end TokenKind.sep_open_paren opening b2),
                  i.taken (is_kind-not_end TokenKind.sep_close_paren closing b3),
                  h ok,
                )
                refl,
        )
