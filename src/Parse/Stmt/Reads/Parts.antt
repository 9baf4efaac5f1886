-- ===== src/Parse/Stmt/Reads/Parts.antt =====
-- The substitution lists and the loops of the declarations.
use novus.Base.{
  ℕ, zero, suc, ◌≤◌, ◌≡◌, refl, sym, ◌∙◌, arith, List, [], ◌∷◌, ◌++◌, append-nil, and_true,
  or_false, not-true, not-false, some, Bool, true, false, ◌||◌, not, length,
}
use novus.Lex.Token.{TokenKind, Keyword, Token}
use mathlib.Core.Path.{subst}
use novus.Parse.Tokens.{is_kind, is_kw, is_end, is_identifier}
use novus.Parse.Input.{Input, peek_token}
use novus.Parse.Runs.{
  Runs, done, left, Runs-if, Runs-bind, consume_token-Runs, is_kind-not_end, left-peek_token,
}
use novus.Parse.Types.{commas_fit}
use novus.Parse.Types.Reads.{left-not_closed}
use novus.Parse.Expr.Reads.{either_of, is_kw-not_end, is_identifier-not_end}
use novus.Parse.Stmt.Print.{with_commas, only, subs_tokens}
use novus.Parse.Stmt.Parts.{
  all_of, validate_subs, subs_loop, next_type_substitution_list, next_type_subs, validate_type_subs,
  modifiers_loop,
}

-- A list ends at its closing token.
abbrev ReadsSubs : Input → List Token × List Token × Bool → List Token → Type 0
ReadsSubs s r c =
    (is_kind TokenKind.sep_close_curly (peek_token s) ≡ true → r ≡ ([], [], false))
    × (r.2 ≡ false → all_of is_identifier r.0 ≡ true → c ≡ with_commas only r.0 r.1)

last_sub :
    (p : Token) (r : List Token × List Token × Bool)
    → r ≡ ([], [], false)
    → p ∷ (with_commas only r.0 r.1 ++ []) ≡ with_commas only (p ∷ r.0) r.1
unfolding with_commas
last_sub p r e =
    subst
      (λ (r : List Token × List Token × Bool).
        p ∷ (with_commas only r.0 r.1 ++ []) ≡ with_commas only (p ∷ r.0) r.1)
      (sym e) refl

subs_loop-Runs : (f : ℕ) (s : Input) → suc (left s) ≤ f → Runs s (ReadsSubs s) (subs_loop f s)
unfolding subs_loop with_commas all_of
subs_loop-Runs zero s l = absurd (omega arith)
subs_loop-Runs (suc f) s l =
    Runs-if (is_kind TokenKind.sep_close_curly (peek_token s) || is_end (peek_token s)) _ _
      (λ y. done [] refl (λ _. refl, λ _ _. refl))
      (λ n.
        let m = left-not_closed TokenKind.sep_close_curly s n in
        let not_closed =
          (or_false (is_kind TokenKind.sep_close_curly (peek_token s)) (is_end (peek_token s))
            n).0 in
        Runs-bind (consume_token-Runs s) λ p t c e k.
          let fewer = k.counts m in
          Runs-if (is_kind TokenKind.sep_comma (peek_token t)) _ _
            (λ y. Runs-bind (consume_token-Runs t) λ comma u d e2 i.
              Runs-bind (subs_loop-Runs f u (omega (arith, l, e, e2, fewer)))
                λ (ps, cs, missing) v a _ (_, j). done [] refl (
                  λ x. absurd cc (sym not_closed ∙ x),
                  λ q w.
                      let (v1, v2) = and_true (is_identifier p) _ w in
                      rw
                        (
                          k.taken (is_identifier-not_end p v1),
                          i.taken (
                              subst (λ x. is_end x ≡ false) (sym i.peeked)
                                (is_kind-not_end TokenKind.sep_comma _ y)),
                          append-nil a,
                          j q v2,
                        )
                        refl,
                ))
            (λ y.
              Runs-bind (subs_loop-Runs f t (omega (arith, l, e, fewer)))
                λ (ps, cs, missing) v a _ (i, j). done [] refl (
                  λ x. absurd cc (sym not_closed ∙ x),
                  λ q w.
                      let (v1, v2) = and_true (is_identifier p) _ w in
                      let (q1, q2) = or_false _ _ q in
                      rw (k.taken (is_identifier-not_end p v1), j q2 v2)
                        (last_sub p (ps, cs, missing) (i (not-false _ q1))),
                )))

next_type_substitution_list-Runs :
    (f : ℕ) (s : Input)
    → suc (left s) ≤ f
    → Runs s
        (λ l c. validate_subs l ≡ true → c ≡ subs_tokens (some l))
        (next_type_substitution_list f s)
unfolding next_type_substitution_list validate_subs subs_tokens
next_type_substitution_list-Runs f s l = Runs-bind (consume_token-Runs s) λ opening t c e k.
    Runs-bind (subs_loop-Runs f t (omega (arith, l, e))) λ (subs, commas, missing) u d e2 (_, h).
      Runs-bind (consume_token-Runs u) λ closing v a e3 i.
        done
          {a = record {
            open_curly = opening;
            subs = subs;
            commas = commas;
            close_curly = closing;
            missing_comma = missing;
          }}
          [] refl
          λ v.
            let (v1, v2) = and_true _ _ v in
            let (v3, v4) = and_true _ _ v2 in
            let (v5, v6) = and_true _ _ v4 in
            let (v7, v8) = and_true _ _ v6 in
            rw
              (
                k.taken (is_kind-not_end TokenKind.sep_open_curly opening v1),
                i.taken (is_kind-not_end TokenKind.sep_close_curly closing v8),
                h (not-true missing (and_true (not missing) (commas_fit commas (length subs)) v7).0)
                    v5,
              )
              refl

pub next_type_subs-Runs :
    (f : ℕ) (s : Input)
    → suc (left s) ≤ f
    → Runs s (λ l c. validate_type_subs l ≡ true → c ≡ subs_tokens l) (next_type_subs f s)
unfolding next_type_subs validate_type_subs subs_tokens
next_type_subs-Runs f s l =
    Runs-if (is_kind TokenKind.sep_open_curly (peek_token s)) _ _
      (λ y.
        Runs-bind (next_type_substitution_list-Runs f s l)
          λ r t c _ h. done [] refl (λ v. append-nil c ∙ h v))
      (λ y. done [] refl (λ v. refl))

pub modifiers_loop-Runs :
    (f : ℕ) (s : Input) → suc (left s) ≤ f → Runs s (λ ms c. c ≡ ms) (modifiers_loop f s)
unfolding modifiers_loop
modifiers_loop-Runs zero s l = absurd (omega arith)
modifiers_loop-Runs (suc f) s l =
    Runs-if (is_kw Keyword.kw_noinline (peek_token s) || is_kw Keyword.kw_implicit (peek_token s)) _
      _
      (λ y.
        let more =
          either_of _ _ y (is_kw-not_end Keyword.kw_noinline _)
            (is_kw-not_end Keyword.kw_implicit _) in
        Runs-bind (consume_token-Runs s) λ m t c e k.
          Runs-bind
            (modifiers_loop-Runs f t (omega (arith, l, e, k.counts (left-peek_token s more))))
            λ ms u d _ h. done [] refl (
              rw (k.taken (subst (λ x. is_end x ≡ false) (sym k.peeked) more), append-nil d, h)
                refl))
      (λ y. done [] refl refl)
