-- ===== src/Parse/Stmt/Reads/Loops.antt =====
-- The fields, the types of a union and the entries of an enum.
use novus.Base.{
  ℕ, zero, suc, ◌+◌, ◌*◌, ◌≤◌, ◌≡◌, refl, sym, arith, [], ◌∷◌, ◌++◌, append_assoc, append-nil,
  and_true, none, some, true, false, ◌||◌,
}
use novus.Lex.Token.{TokenKind, Token, Payload, end_of_input, keyword, lit_int}
use mathlib.Core.Path.{subst}
use novus.Parse.Tokens.{is_kind, is_end, is_identifier, is_keyword, is_lit_int}
use novus.Parse.Syntax.{EntrySpec, FieldSpec}
use novus.Parse.Input.{Input, peek_token}
use novus.Parse.Runs.{
  Runs, done, left, Runs-if, Runs-bind, consume_token-Runs, is_kind-not_end, left-peek_token,
}
use novus.Parse.Types.{is_possible_type_token, validate_type, validate_types}
use novus.Parse.Types.Print.{type_tokens, types_tokens}
use novus.Parse.Types.Reads.{is_possible_type_token-not_end, next_type-Runs}
use novus.Parse.Expr.Print.{option_tokens}
use novus.Parse.Expr.Reads.{either_of, is_identifier-not_end}
use novus.Parse.Stmt.Print.{with_commas, field_tokens, value_tokens, entry_tokens}
use novus.Parse.Stmt.Parts.{
  all_of, fields_loop, union_types_loop, next_value_spec, entries_loop, validate_value,
  validate_entry, validate_field,
}

is_keyword-not_end : (t : Token) → is_keyword t ≡ true → is_end t ≡ false
unfolding is_keyword is_end
is_keyword-not_end t h = by_payload t.payload h
  where
    by_payload :
        (p : Payload)
        → elim p [ keyword k ↦ true | _ ↦ false ] ≡ true
        → elim p [ end_of_input ↦ true | _ ↦ false ] ≡ false
    by_payload end_of_input h = absurd cc
    by_payload _ h = refl

left-starts_type :
    (s : Input)
    → (is_possible_type_token (peek_token s) || is_keyword (peek_token s)) ≡ true
    → 1 ≤ left s
left-starts_type s y =
    left-peek_token s (either_of _ _ y (is_possible_type_token-not_end _) (is_keyword-not_end _))

pub fields_loop-Runs :
    (f : ℕ) (s : Input)
    → 8 * left s + 3 ≤ f
    → Runs s
        (λ (fs, cs) c. all_of validate_field fs ≡ true → c ≡ with_commas field_tokens fs cs)
        (fields_loop f s)
unfolding fields_loop with_commas all_of field_tokens validate_field
fields_loop-Runs zero s l = absurd (omega arith)
fields_loop-Runs (suc f) s l =
    Runs-if (is_possible_type_token (peek_token s) || is_keyword (peek_token s)) _ _
      (λ y. Runs-bind (next_type-Runs f s (omega (arith, l))) λ p t c e (progress, h, _).
        let fewer = progress (left-starts_type s y) in
        Runs-bind (consume_token-Runs t) λ id u d e2 k.
          let field : FieldSpec = record { field_type = p; field_id = id } in
          Runs-if (is_kind TokenKind.sep_comma (peek_token u)) _ _
            (λ z. Runs-bind (consume_token-Runs u) λ comma v a e3 i.
              Runs-bind (fields_loop-Runs f v (omega (arith, l, e, e2, e3, fewer)))
                λ (fs, cs) _ b _ j. done {a = (field ∷ fs, comma ∷ cs)} [] refl λ g.
                  let (g1, g2) = and_true _ _ g in
                  let (g3, g4) = and_true (is_identifier id) (validate_type p) g1 in
                  rw
                    (
                      h g4,
                      k.taken (is_identifier-not_end id g3),
                      i.taken (
                          subst (λ x. is_end x ≡ false) (sym i.peeked)
                            (is_kind-not_end TokenKind.sep_comma _ z)),
                      append-nil b,
                      j g2,
                    )
                    (sym (
                      append_assoc (type_tokens p) (id ∷ [])
                        (comma ∷ with_commas field_tokens fs cs))))
            (λ z. done {a = (field ∷ [], [])} [] refl λ g.
              let (g1, g2) = and_true _ _ g in
              let (g3, g4) = and_true (is_identifier id) (validate_type p) g1 in
              rw (h g4, k.taken (is_identifier-not_end id g3))
                (sym (append-nil (type_tokens p ++ (id ∷ []))))))
      (λ y. done [] refl (λ g. refl))

pub union_types_loop-Runs :
    (f : ℕ) (s : Input)
    → 8 * left s + 3 ≤ f
    → Runs s
        (λ (ps, cs) c. validate_types ps ≡ true → c ≡ types_tokens ps cs)
        (union_types_loop f s)
unfolding union_types_loop types_tokens validate_types
union_types_loop-Runs zero s l = absurd (omega arith)
union_types_loop-Runs (suc f) s l =
    Runs-if (is_possible_type_token (peek_token s) || is_keyword (peek_token s)) _ _
      (λ y. Runs-bind (next_type-Runs f s (omega (arith, l))) λ p t c e (progress, h, _).
        let fewer = progress (left-starts_type s y) in
        Runs-if (is_kind TokenKind.sep_comma (peek_token t)) _ _
          (λ z. Runs-bind (consume_token-Runs t) λ comma v a e3 i.
            Runs-bind (union_types_loop-Runs f v (omega (arith, l, e, e3, fewer)))
              λ (ps, cs) _ b _ j. done [] refl λ g.
                let (g1, g2) = and_true (validate_type p) (validate_types ps) g in
                rw
                  (
                    h g1,
                    i.taken (
                        subst (λ x. is_end x ≡ false) (sym i.peeked)
                          (is_kind-not_end TokenKind.sep_comma _ z)),
                    append-nil b,
                    j g2,
                  )
                  refl)
          (λ z. done [] refl λ g. rw (h (and_true (validate_type p) true g).0) refl))
      (λ y. done [] refl (λ g. refl))

is_lit_int-not_end : (t : Token) → is_lit_int t ≡ true → is_end t ≡ false
unfolding is_lit_int is_end
is_lit_int-not_end t h = by_payload t.payload h
  where
    by_payload :
        (p : Payload)
        → elim p [ lit_int n ↦ true | _ ↦ false ] ≡ true
        → elim p [ end_of_input ↦ true | _ ↦ false ] ≡ false
    by_payload end_of_input h = absurd cc
    by_payload _ h = refl

next_value_spec-Runs :
    (s : Input) → Runs s (λ v c. validate_value v ≡ true → c ≡ value_tokens v) (next_value_spec s)
unfolding next_value_spec validate_value value_tokens option_tokens
next_value_spec-Runs s =
    Runs-if (is_kind TokenKind.sep_colon (peek_token s) || is_kind TokenKind.op_eq (peek_token s)) _
      _
      (λ y. Runs-bind (consume_token-Runs s) λ colon t c e k.
        Runs-if (is_kind TokenKind.op_minus (peek_token t)) _ _
          (λ z. Runs-bind (consume_token-Runs t) λ minus u d e2 i.
            Runs-bind (consume_token-Runs u) λ value v a e3 j.
              done {a = some (record { colon = colon; minus = some minus; value = value })} [] refl
                λ g.
                  let (g1, g2) = and_true _ _ g in
                  rw
                    (
                      k.taken (is_kind-not_end TokenKind.sep_colon colon g1),
                      i.taken (
                          subst (λ x. is_end x ≡ false) (sym i.peeked)
                            (is_kind-not_end TokenKind.op_minus _ z)),
                      j.taken (is_lit_int-not_end value g2),
                    )
                    refl)
          (λ z. Runs-bind (consume_token-Runs t) λ value v a e3 j.
            done {a = some (record { colon = colon; minus = none; value = value })} [] refl λ g.
              let (g1, g2) = and_true _ _ g in
              rw
                (
                  k.taken (is_kind-not_end TokenKind.sep_colon colon g1),
                  j.taken (is_lit_int-not_end value g2),
                )
                refl))
      (λ y. done [] refl (λ g. refl))

pub entries_loop-Runs :
    (f : ℕ) (s : Input)
    → suc (left s) ≤ f
    → Runs s
        (λ (es, cs) c. all_of validate_entry es ≡ true → c ≡ with_commas entry_tokens es cs)
        (entries_loop f s)
unfolding entries_loop with_commas all_of entry_tokens validate_entry
entries_loop-Runs zero s l = absurd (omega arith)
entries_loop-Runs (suc f) s l =
    Runs-if (is_identifier (peek_token s)) _ _
      (λ y.
        let more = is_identifier-not_end (peek_token s) y in
        Runs-bind (consume_token-Runs s) λ id t c e k.
          let fewer = k.counts (left-peek_token s more) in
          let taken = k.taken (subst (λ x. is_end x ≡ false) (sym k.peeked) more) in
          Runs-bind (next_value_spec-Runs t) λ value u d e2 h.
            let entry : EntrySpec = record { entry_id = id; entry_value = value } in
            Runs-if (is_kind TokenKind.sep_comma (peek_token u)) _ _
              (λ z. Runs-bind (consume_token-Runs u) λ comma v a e3 i.
                Runs-bind (entries_loop-Runs f v (omega (arith, l, e, e2, e3, fewer)))
                  λ (es, cs) _ b _ j. done {a = (entry ∷ es, comma ∷ cs)} [] refl λ g.
                    let (g1, g2) = and_true _ _ g in
                    let (g3, g4) = and_true (is_identifier id) (validate_value value) g1 in
                    rw
                      (
                        taken,
                        h g4,
                        i.taken (
                            subst (λ x. is_end x ≡ false) (sym i.peeked)
                              (is_kind-not_end TokenKind.sep_comma _ z)),
                        append-nil b,
                        j g2,
                      )
                      refl)
              (λ z. done {a = (entry ∷ [], [])} [] refl λ g.
                let (g1, g2) = and_true _ _ g in
                let (g3, g4) = and_true (is_identifier id) (validate_value value) g1 in
                rw (taken, h g4) refl))
      (λ y. done [] refl (λ g. refl))
