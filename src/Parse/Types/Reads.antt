-- ===== src/Parse/Types/Reads.antt =====
-- Reading a type ends, and a valid type is what has been consumed.
use novus.Base.{
  ℕ, zero, suc, ◌+◌, ◌*◌, ◌≤◌, ◌≡◌, refl, sym, ap, ◌∙◌, arith, List, [], ◌∷◌, ◌++◌, append-nil,
  length-append, Bool, true, false, ◌||◌, length,
}
use novus.Base.Tests.{and_true, or_false, not-true, not-false}
use mathlib.Core.Path.{subst}
use novus.Lex.Token.{TokenKind, Token, Payload, end_of_input, identifier, keyword, static_int}
use novus.Parse.Tokens.{is_kind, is_end, is_identifier, is_keyword, is_static_int}
use novus.Parse.Syntax.{
  ParseType, plain_type, type_with, TypeParamList, type_param_list, Types, no_types, type_and,
}
use novus.Parse.Input.{Input, peek_token}
use novus.Parse.Runs.{
  Runs, done, left, pure-Runs, Runs-if, Runs-bind, consume_token-Runs, is_kind-not_end,
  left-peek_token,
}
use novus.Parse.Types.{
  is_possible_type_token, validate_type, validate_params, validate_types, next_type,
  next_type_param_list, types_loop,
}
use novus.Parse.Types.Print.{starts_static, type_tokens, params_tokens, types_tokens}

-- Something is consumed where something is left.
abbrev pub Progress : Input → List Token → Type 0
Progress s c = 1 ≤ left s → 1 ≤ length c

abbrev pub ReadsType : Input → ParseType → List Token → Type 0
ReadsType s p c =
    Progress s c
    × (validate_type p ≡ true → c ≡ type_tokens p)
    × (starts_static p ≡ is_static_int (peek_token s))

abbrev pub ReadsParams : TypeParamList → List Token → Type 0
ReadsParams params c = validate_params params ≡ true → c ≡ params_tokens params

-- A list ends at its closing token.
abbrev ReadsTypes : Input → Types × List Token × Bool → List Token → Type 0
ReadsTypes s r c =
    (is_kind TokenKind.sep_close_curly (peek_token s) ≡ true → r ≡ (no_types, [], false))
    × (r.2 ≡ false → validate_types r.0 ≡ true → c ≡ types_tokens r.0 r.1)

last_type :
    (p : ParseType) (r : Types × List Token × Bool)
    → r ≡ (no_types, [], false)
    → type_tokens p ++ (types_tokens r.0 r.1 ++ []) ≡ types_tokens (type_and p r.0) r.1
unfolding types_tokens
last_type p r e =
    subst
      (λ (r : Types × List Token × Bool).
        type_tokens p ++ (types_tokens r.0 r.1 ++ []) ≡ types_tokens (type_and p r.0) r.1)
      (sym e) refl

pub is_possible_type_token-not_end :
    (t : Token) → is_possible_type_token t ≡ true → is_end t ≡ false
unfolding is_possible_type_token is_identifier is_keyword is_static_int is_end
is_possible_type_token-not_end t h = by_payload t.payload h
  where
    by_payload :
        (p : Payload)
        → (elim p [ identifier n ↦ true | _ ↦ false ])
            || ((elim p [ keyword k ↦ true | _ ↦ false ])
                || (elim p [ static_int n ↦ true | _ ↦ false ]))
          ≡ true
        → elim p [ end_of_input ↦ true | _ ↦ false ] ≡ false
    by_payload end_of_input h = absurd cc
    by_payload _ h = refl

pub left-is_kind : (k : TokenKind) (s : Input) → is_kind k (peek_token s) ≡ true → 1 ≤ left s
left-is_kind k s h = left-peek_token s (is_kind-not_end k (peek_token s) h)

pub left-not_closed :
    (k : TokenKind) (s : Input)
    → (is_kind k (peek_token s) || is_end (peek_token s)) ≡ false
    → 1 ≤ left s
left-not_closed k s h =
    left-peek_token s (or_false (is_kind k (peek_token s)) (is_end (peek_token s)) h).1

mutual
  unfolding next_type type_tokens validate_type starts_static

  pub next_type-Runs :
      (f : ℕ) (s : Input) → 8 * left s + 2 ≤ f → Runs s (ReadsType s) (next_type f s)
  next_type-Runs zero s l = absurd (omega arith)
  next_type-Runs (suc f) s l = Runs-bind (consume_token-Runs s) λ id t c e k.
      Runs-if (is_kind TokenKind.sep_open_curly (peek_token t)) _ _
        (λ y.
          Runs-bind (next_type_param_list-Runs f t (omega (arith, l, e)) (left-is_kind _ t y))
            λ params u d e2 h. pure-Runs (type_with id params) (
              λ m. omega (arith, k.counts m, length-append c (d ++ [])),
              λ v.
                  let (v1, v2) = and_true _ _ v in
                  rw (k.taken (is_possible_type_token-not_end id v1), h v2)
                    (ap (λ ts. id ∷ ts) (append-nil (params_tokens params))),
              ap is_static_int k.peeked,
            ))
        (λ n. pure-Runs (plain_type id) (
          λ m. omega (arith, k.counts m, length-append c []),
          λ v. rw (k.taken (is_possible_type_token-not_end id v)) refl,
          ap is_static_int k.peeked,
        ))

  pub next_type_param_list-Runs :
      (f : ℕ) (s : Input)
      → 8 * left s + 1 ≤ f
      → 1 ≤ left s
      → Runs s ReadsParams (next_type_param_list f s)
  next_type_param_list-Runs zero s l m = absurd (omega arith)
  next_type_param_list-Runs (suc f) s l m = Runs-bind (consume_token-Runs s) λ opening t c e k.
      Runs-bind (types_loop-Runs f t (omega (arith, l, e, k.counts m)))
        λ (ps, cs, missing) u d e2 (_, h). Runs-bind (consume_token-Runs u) λ closing v b e3 i.
          pure-Runs (type_param_list opening ps cs closing missing) λ v.
            let (v1, v2) = and_true _ _ v in
            let (v3, v4) = and_true _ _ v2 in
            let (v5, v6) = and_true _ _ v4 in
            let (v7, v8) = and_true _ _ v6 in
            let (v9, v10) = and_true _ _ v7 in
            rw
              (
                k.taken (is_kind-not_end TokenKind.sep_open_curly opening v1),
                h (not-true missing v9) v5,
                i.taken (is_kind-not_end TokenKind.sep_close_curly closing v8),
              )
              refl

  types_loop-Runs :
      (f : ℕ) (s : Input) → 8 * left s + 3 ≤ f → Runs s (ReadsTypes s) (types_loop f s)
  types_loop-Runs zero s l = absurd (omega arith)
  types_loop-Runs (suc f) s l =
      Runs-if (is_kind TokenKind.sep_close_curly (peek_token s) || is_end (peek_token s)) _ _
        (λ y. done [] refl (λ _. refl, λ _ _. refl))
        (λ n.
          let m = left-not_closed TokenKind.sep_close_curly s n in
          let not_closed =
            (or_false (is_kind TokenKind.sep_close_curly (peek_token s)) (is_end (peek_token s))
              n).0 in
          Runs-bind (next_type-Runs f s (omega (arith, l))) λ p t c e (progress, h, _).
            let fewer = progress m in
            Runs-if (is_kind TokenKind.sep_comma (peek_token t)) _ _
              (λ y. Runs-bind (consume_token-Runs t) λ comma u d e2 k.
                Runs-bind (types_loop-Runs f u (omega (arith, l, e, e2, fewer)))
                  λ (ps, cs, missing) v b e3 (j, i). done [] refl (
                    λ x. absurd cc (sym not_closed ∙ x),
                    λ q v.
                        let (v1, v2) = and_true _ _ v in
                        rw
                          (
                            h v1,
                            k.taken (
                                subst (λ x. is_end x ≡ false) (sym k.peeked)
                                  (is_kind-not_end TokenKind.sep_comma _ y)),
                            i q v2,
                          )
                          (rw (append-nil (types_tokens ps cs)) refl),
                  ))
              (λ y.
                Runs-bind (types_loop-Runs f t (omega (arith, l, e, fewer)))
                  λ (ps, cs, missing) v b e3 (j, i). done [] refl (
                    λ x. absurd cc (sym not_closed ∙ x),
                    λ q v.
                        let (v1, v2) = and_true _ _ v in
                        let (q1, q2) = or_false _ _ q in
                        rw (h v1, i q2 v2) (last_type p (ps, cs, missing) (j (not-false _ q1))),
                  )))
