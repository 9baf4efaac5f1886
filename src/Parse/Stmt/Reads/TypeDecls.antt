-- ===== src/Parse/Stmt/Reads/TypeDecls.antt =====
-- The structs, the unions and the enums.
use novus.Base.{
  ℕ, ◌+◌, ◌*◌, ◌≤◌, ◌≡◌, refl, sym, ap, arith, List, [], ◌++◌, append-nil, length-append, and_true,
  Option, none, some, true, false, length,
}
use novus.Lex.Token.{TokenKind, Keyword, Token}
use mathlib.Core.Path.{subst}
use novus.Parse.Tokens.{is_kind, is_end}
use novus.Parse.Syntax.{
  Types, TypeSubstitutionList, FieldSpec, EntrySpec, struct_decl, err_struct_decl, union_decl,
  err_union_decl, enum_decl, err_enum_decl,
}
use novus.Parse.Input.{Input, peek_token}
use novus.Parse.Runs.{Runs, done, left, Runs-if, Runs-bind, consume_token-Runs, is_kind-not_end}
use novus.Parse.Types.{validate_types, commas_fit}
use novus.Parse.Expr.Print.{option_tokens}
use novus.Parse.Expr.Reads.{is_kw-not_end, is_identifier-not_end}
use novus.Parse.Stmt.{
  fields_fit, struct_stmt, next_stmt_struct_decl, union_stmt, next_stmt_union_decl, enum_stmt,
  next_stmt_enum_decl,
}
use novus.Parse.Stmt.Parts.{all_of, validate_type_subs, validate_entry, validate_field}
use novus.Parse.Stmt.Print.{with_commas, stmt_tokens, stmt_ok}
use novus.Parse.Stmt.Reads.{ReadsStmt, chosen_stmt}
use novus.Parse.Stmt.Reads.Parts.{next_type_subs-Runs}
use novus.Parse.Stmt.Reads.Loops.{fields_loop-Runs, union_types_loop-Runs, entries_loop-Runs}

struct_stmt-ok :
    (kw id : Token) (subs : Option TypeSubstitutionList) (eq : Option Token)
    (fields : List FieldSpec) (commas : List Token)
    → let x = struct_stmt kw id subs eq fields commas in
      stmt_ok x ≡ true
      → (is_end kw ≡ false)
        × (is_end id ≡ false)
        × (validate_type_subs subs ≡ true)
        × (fields_fit eq fields commas ≡ true)
        × (stmt_tokens x ≡ stmt_tokens (struct_decl kw id subs eq fields commas))
unfolding struct_stmt stmt_ok
struct_stmt-ok kw id subs eq fields commas v =
    let (b, ok, e) =
      chosen_stmt _ (struct_decl kw id subs eq fields commas)
        (err_struct_decl kw id subs eq fields commas) refl v in
    let (b1, b2) = and_true _ _ b in
    let (b3, b4) = and_true _ _ b1 in
    let (b5, b6) = and_true _ _ b2 in
    (is_kw-not_end Keyword.kw_struct kw b3, is_identifier-not_end id b4, b5, b6, ap stmt_tokens e)

pub next_stmt_struct_decl-Runs :
    (f : ℕ) (s : Input) → 8 * left s + 8 ≤ f → Runs s (ReadsStmt s) (next_stmt_struct_decl f s)
unfolding next_stmt_struct_decl stmt_tokens fields_fit option_tokens with_commas
next_stmt_struct_decl-Runs f s l = Runs-bind (consume_token-Runs s) λ kw t c q k.
    Runs-bind (consume_token-Runs t) λ id u d q2 k2.
      Runs-bind (next_type_subs-Runs f u (omega (arith, l, q, q2))) λ subs v a q3 h.
        Runs-if (is_kind TokenKind.op_eq (peek_token v)) _ _
          (λ y. Runs-bind (consume_token-Runs v) λ eq w b q4 k4.
            Runs-bind (fields_loop-Runs f w (omega (arith, l, q, q2, q3, q4)))
              λ (fields, commas) _ x _ i. done [] refl (
                λ m. omega (arith, k.counts m, length-append c (d ++ (a ++ (b ++ (x ++ []))))),
                λ o.
                    let (e1, e2, e3, e4, e5) =
                      struct_stmt-ok kw id subs (some eq) fields commas o in
                    let (f1, f2) = and_true _ _ e4 in
                    rw
                      (
                        e5,
                        k.taken e1,
                        k2.taken e2,
                        h e3,
                        k4.taken (
                            subst (λ x. is_end x ≡ false) (sym k4.peeked)
                              (is_kind-not_end TokenKind.op_eq _ y)),
                        append-nil x,
                        i
                            (and_true (all_of validate_field fields)
                              (commas_fit commas (length fields)) f2).0,
                      )
                      refl,
              ))
          (λ y. done [] refl (
            λ m. omega (arith, k.counts m, length-append c (d ++ (a ++ []))),
            λ o.
                let (e1, e2, e3, e4, e5) = struct_stmt-ok kw id subs none [] [] o in
                rw (e5, k.taken e1, k2.taken e2, h e3) refl,
          ))

union_stmt-ok :
    (kw id : Token) (subs : Option TypeSubstitutionList) (eq : Token) (types : Types)
    (commas : List Token)
    → let x = union_stmt kw id subs eq types commas in
      stmt_ok x ≡ true
      → (is_end kw ≡ false)
        × (is_end id ≡ false)
        × (validate_type_subs subs ≡ true)
        × (is_end eq ≡ false)
        × (validate_types types ≡ true)
        × (stmt_tokens x ≡ stmt_tokens (union_decl kw id subs eq types commas))
unfolding union_stmt stmt_ok
union_stmt-ok kw id subs eq types commas v =
    let (b, ok, e) =
      chosen_stmt _ (union_decl kw id subs eq types commas)
        (err_union_decl kw id subs eq types commas) refl v in
    let (b1, b2) = and_true _ _ b in
    let (b3, b4) = and_true _ _ b2 in
    let (b5, b6) = and_true _ _ b4 in
    let (b7, b8) = and_true _ _ b6 in
    let (b9, b10) = and_true _ _ b8 in
    (
      is_kw-not_end Keyword.kw_union kw b1,
      is_identifier-not_end id b3,
      b5,
      is_kind-not_end TokenKind.op_eq eq b7,
      (and_true _ _ b10).0,
      ap stmt_tokens e,
    )

pub next_stmt_union_decl-Runs :
    (f : ℕ) (s : Input) → 8 * left s + 8 ≤ f → Runs s (ReadsStmt s) (next_stmt_union_decl f s)
unfolding next_stmt_union_decl stmt_tokens
next_stmt_union_decl-Runs f s l = Runs-bind (consume_token-Runs s) λ kw t c q k.
    Runs-bind (consume_token-Runs t) λ id u d q2 k2.
      Runs-bind (next_type_subs-Runs f u (omega (arith, l, q, q2))) λ subs v a q3 h.
        Runs-bind (consume_token-Runs v) λ eq w b q4 k4.
          Runs-bind (union_types_loop-Runs f w (omega (arith, l, q, q2, q3, q4)))
            λ (types, commas) _ x _ i. done [] refl (
              λ m. omega (arith, k.counts m, length-append c (d ++ (a ++ (b ++ (x ++ []))))),
              λ o.
                  let (e1, e2, e3, e4, e5, e6) = union_stmt-ok kw id subs eq types commas o in
                  rw (e6, k.taken e1, k2.taken e2, h e3, k4.taken e4, append-nil x, i e5) refl,
            )

enum_stmt-ok :
    (kw id eq : Token) (entries : List EntrySpec) (commas : List Token)
    → let x = enum_stmt kw id eq entries commas in
      stmt_ok x ≡ true
      → (is_end kw ≡ false)
        × (is_end id ≡ false)
        × (is_end eq ≡ false)
        × (all_of validate_entry entries ≡ true)
        × (stmt_tokens x ≡ stmt_tokens (enum_decl kw id eq entries commas))
unfolding enum_stmt stmt_ok
enum_stmt-ok kw id eq entries commas v =
    let (b, ok, e) =
      chosen_stmt _ (enum_decl kw id eq entries commas) (err_enum_decl kw id eq entries commas) refl
        v in
    let (b1, b2) = and_true _ _ b in
    let (b3, b4) = and_true _ _ b2 in
    let (b5, b6) = and_true _ _ b4 in
    let (b7, b8) = and_true _ _ b6 in
    (
      is_kw-not_end Keyword.kw_enum kw b1,
      is_identifier-not_end id b3,
      is_kind-not_end TokenKind.op_eq eq b5,
      (and_true _ _ b8).0,
      ap stmt_tokens e,
    )

pub next_stmt_enum_decl-Runs :
    (f : ℕ) (s : Input) → 8 * left s + 8 ≤ f → Runs s (ReadsStmt s) (next_stmt_enum_decl f s)
unfolding next_stmt_enum_decl stmt_tokens
next_stmt_enum_decl-Runs f s l = Runs-bind (consume_token-Runs s) λ kw t c q k.
    Runs-bind (consume_token-Runs t) λ id u d q2 k2.
      Runs-bind (consume_token-Runs u) λ eq v a q3 k3.
        Runs-bind (entries_loop-Runs f v (omega (arith, l, q, q2, q3))) λ (entries, commas) _ x _ i.
          done [] refl (
            λ m. omega (arith, k.counts m, length-append c (d ++ (a ++ (x ++ [])))),
            λ o.
                let (e1, e2, e3, e4, e5) = enum_stmt-ok kw id eq entries commas o in
                rw (e5, k.taken e1, k2.taken e2, k3.taken e3, append-nil x, i e4) refl,
          )
