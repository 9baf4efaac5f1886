-- ===== src/Parse/Correct.antt =====
-- src/parse/parser.cpp and parseAll: what is true of every run.
use novus.Base.{
  ◌⊎◌, inl, inr, ℕ, zero, suc, ◌+◌, ◌*◌, ◌≤◌, ◌≡◌, refl, ap, ◌∙◌, arith, List, ◌∷◌, ◌++◌,
  length-append, Option, none, some, Bool, true, false, length, leb, if◌then◌else◌,
}
use novus.Lex.Token.{Token, Payload, static_int, keyword}
use mathlib.Core.Path.{subst}
use novus.Parse.Tokens.{is_end, is_static_int, get_kw, is_operator, lookup_cat, TokenCat}
use novus.Parse.Syntax.{Node, Stmt}
use novus.Parse.Input.{
  Input, Result, ok, undefined, out_of_fuel, bind, Parser, pure, ◌>>=◌, peek_token,
}
use novus.Parse.Runs.{HasStatic, Runs, done, reads_nullopt, left}
use novus.Parse.Expr.{max_recursion_depth, next_expr, next_expr_lhs, next_expr_primary}
use novus.Parse.Expr.Print.{node_tokens, node_ok}
use novus.Parse.Expr.Reads.Whole.{next_expr-Runs}
use novus.Parse.Stmt.{next_stmt_on, next_stmt, then_parse, parse_all}
use novus.Parse.Stmt.Print.{stmts_tokens, stmts_ok}
use novus.Parse.Stmt.Reads.Whole.{parse_all-Runs}

-- Where parseAll returns, the next token is the end.
abbrev AtEnd : {A : Type 0} → Result (A × Input) → Type 0
AtEnd (ok (a, t)) = is_end (peek_token t) ≡ true
AtEnd undefined = true ≡ true
AtEnd out_of_fuel = true ≡ true

abbrev NoneAtEnd : Result (Option Stmt × Input) → Type 0
NoneAtEnd (ok (none, t)) = is_end (peek_token t) ≡ true
NoneAtEnd (ok (some x, t)) = true ≡ true
NoneAtEnd undefined = true ≡ true
NoneAtEnd out_of_fuel = true ≡ true

some-NoneAtEnd : (r : Result (Stmt × Input)) → NoneAtEnd (bind r (λ (x, t). ok (some x, t)))
some-NoneAtEnd (ok (x, t)) = refl
some-NoneAtEnd undefined = refl
some-NoneAtEnd out_of_fuel = refl

next_stmt-NoneAtEnd : (f : ℕ) (s : Input) → NoneAtEnd (next_stmt f s)
unfolding next_stmt
next_stmt-NoneAtEnd f s = by_end (is_end (peek_token s)) refl
  where
    by_end :
        (b : Bool)
        → is_end (peek_token s) ≡ b
        → NoneAtEnd (
            (if b then pure none else (do stmt ← next_stmt_on f (peek_token s); pure (some stmt)))
              s)
    by_end true h = h
    by_end false h = some-NoneAtEnd (next_stmt_on f (peek_token s) s)

cons-AtEnd :
    (x : Stmt) (r : Result (List Stmt × Input))
    → AtEnd r
    → AtEnd (bind r (λ (xs, t). ok (x ∷ xs, t)))
cons-AtEnd x (ok (xs, t)) h = h
cons-AtEnd x undefined h = refl
cons-AtEnd x out_of_fuel h = refl

then_parse-AtEnd :
    (rest : Parser (List Stmt)) (r : Result (Option Stmt × Input))
    → ((t : Input) → AtEnd (rest t))
    → NoneAtEnd r
    → AtEnd (bind r (λ (stmt, t). then_parse rest stmt t))
unfolding then_parse
then_parse-AtEnd rest (ok (none, t)) k h = h
then_parse-AtEnd rest (ok (some x, t)) k h = cons-AtEnd x (rest t) (k t)
then_parse-AtEnd rest undefined k h = refl
then_parse-AtEnd rest out_of_fuel k h = refl

parse_all-AtEnd : (f : ℕ) (s : Input) → AtEnd (parse_all f s)
unfolding parse_all
parse_all-AtEnd zero s = refl
parse_all-AtEnd (suc f) s =
    then_parse-AtEnd (parse_all f) (next_stmt f s) (λ t. parse_all-AtEnd f t)
      (next_stmt-NoneAtEnd f s)

Runs-Returns :
    {A : Type 0} {s : Input} {Y : A → List Token → Type 0} (r : Result (A × Input))
    → Runs s Y r
    → ¬ HasStatic s.tokens
    → (p : A × Input) × r ≡ ok p
Runs-Returns r (done {a} {t} c e y) none_static = ((a, t), refl)
Runs-Returns r (reads_nullopt h) none_static = absurd (none_static h)

-- With fuel for the tokens that are left, and no static int among them, parseAll returns, and then the
-- next token is the end.
pub parse_all-Returns :
    (f : ℕ) (s : Input)
    → 8 * left s + 9 ≤ f
    → ¬ HasStatic s.tokens
    → (r : List Stmt × Input) × (parse_all f s ≡ ok r) × (is_end (peek_token r.1) ≡ true)
parse_all-Returns f s l none_static =
    let (r, e) = Runs-Returns (parse_all f s) (parse_all-Runs f s l) none_static in
    (r, e, subst AtEnd e (parse_all-AtEnd f s))

abbrev Consumed : {A : Type 0} → Input → (A → List Token → Type 0) → Result (A × Input) → Type 0
Consumed s Y (ok (a, t)) = (c : List Token) × (s.tokens ≡ c ++ t.tokens) × Y a c
Consumed s Y undefined = HasStatic s.tokens
Consumed s Y out_of_fuel = ⊥

Runs-Consumed :
    {A : Type 0} {s : Input} {Y : A → List Token → Type 0} (r : Result (A × Input))
    → Runs s Y r
    → Consumed s Y r
Runs-Consumed r (done c e y) = (c, e, y)
Runs-Consumed r (reads_nullopt h) = h

-- With fuel for the tokens that are left: statements that parseAll gives, in which no node at any depth is
-- an error node and no argument of a function or a lambda has a type that begins with a static int, are,
-- written out again, the tokens that it has consumed. Other statements need not be.
pub parse_all-stmts_tokens :
    (f : ℕ) (s : Input) (xs : List Stmt) (t : Input)
    → 8 * left s + 9 ≤ f
    → parse_all f s ≡ ok (xs, t)
    → stmts_ok xs ≡ true
    → s.tokens ≡ stmts_tokens xs ++ t.tokens
parse_all-stmts_tokens f s xs t l e v =
    let (c, q, h) = subst (Consumed s _) e (Runs-Consumed (parse_all f s) (parse_all-Runs f s l)) in
    q ∙ ap (λ c. c ++ t.tokens) (h v)

-- With fuel for the tokens that are left, nextExpr returns or reads an empty optional; it reads one only
-- where a static int is among the tokens.
pub next_expr-Ends :
    (f depth min max : ℕ) (s : Input)
    → 8 * left s + 8 ≤ f
    → ((r : Node × Input) × next_expr f depth min max s ≡ ok r)
      ⊎ ((next_expr f depth min max s ≡ undefined) × HasStatic s.tokens)
next_expr-Ends f depth min max s l =
    ends (next_expr f depth min max s) (next_expr-Runs f depth min max s l)
  where
    ends :
        {Y : Node → List Token → Type 0} (r : Result (Node × Input))
        → Runs s Y r
        → ((p : Node × Input) × r ≡ ok p) ⊎ ((r ≡ undefined) × HasStatic s.tokens)
    ends r (done {a} {t} c e y) = inl ((a, t), refl)
    ends r (reads_nullopt h) = inr (refl, h)

-- With fuel for the tokens that are left, where nextExpr returns and a token was left, it has consumed one.
pub next_expr-left :
    (f depth min max : ℕ) (s : Input) (e : Node) (t : Input)
    → 8 * left s + 8 ≤ f
    → next_expr f depth min max s ≡ ok (e, t)
    → 1 ≤ left s
    → suc (left t) ≤ left s
next_expr-left f depth min max s e t l q m =
    let (c, z, (progress, h)) =
      subst (Consumed s _) q
        (Runs-Consumed (next_expr f depth min max s) (next_expr-Runs f depth min max s l)) in
    omega (arith, progress m, ap length z, length-append c t.tokens)

-- With fuel for the tokens that are left: a tree that nextExpr gives, in which no node at any depth is an
-- error node and no argument of a lambda has a type that begins with a static int, is, written out again,
-- the tokens that it has consumed. Other trees need not be.
pub next_expr-node_tokens :
    (f depth min max : ℕ) (s : Input) (e : Node) (t : Input)
    → 8 * left s + 8 ≤ f
    → next_expr f depth min max s ≡ ok (e, t)
    → node_ok e ≡ true
    → s.tokens ≡ node_tokens e ++ t.tokens
next_expr-node_tokens f depth min max s e t l q v =
    let (c, z, (_, h)) =
      subst (Consumed s _) q
        (Runs-Consumed (next_expr f depth min max s) (next_expr-Runs f depth min max s l)) in
    z ∙ ap (λ c. c ++ t.tokens) (h v)

leb-above : (a b : ℕ) → suc b ≤ a → leb a b ≡ false
leb-above a b l = ground arith

static_int_facts :
    (t : Token)
    → is_static_int t ≡ true
    → (is_operator t ≡ false) × (lookup_cat t.payload ≡ TokenCat.keyword_cat) × (get_kw t ≡ none)
unfolding is_static_int is_operator lookup_cat get_kw
static_int_facts t h = by_payload t.payload h
  where
    by_payload :
        (p : Payload)
        → elim p [ static_int n ↦ true | _ ↦ false ] ≡ true
        → ((elim (lookup_cat p) [ TokenCat.operator_cat ↦ true | _ ↦ false ]) ≡ false)
          × (lookup_cat p ≡ TokenCat.keyword_cat)
          × ((elim p [ keyword k ↦ some k | _ ↦ none ]) ≡ none)
    by_payload (static_int n) h = (refl, refl, refl)
    by_payload _ h = absurd cc

next_expr_primary-static_int :
    (next : ℕ → ℕ → Parser Node) (f : ℕ) (t : Token) (s : Input)
    → is_static_int t ≡ true
    → next_expr_primary next f t s ≡ undefined
unfolding next_expr_primary
next_expr_primary-static_int next f t s h =
    let (_, h2, h3) = static_int_facts t h in rw (next_expr_primary, h2, h3) refl

next_expr_lhs-static_int :
    (next : ℕ → ℕ → Parser Node) (f : ℕ) (s : Input)
    → is_static_int (peek_token s) ≡ true
    → next_expr_lhs next f (peek_token s) s ≡ undefined
unfolding next_expr_lhs
next_expr_lhs-static_int next f s h =
    rw ((static_int_facts (peek_token s) h).0)
      (next_expr_primary-static_int next f (peek_token s) s h)

-- Where a static int is next, and the depth is below 99, nextExpr reads an empty optional, whatever
-- follows.
pub next_expr-static_int :
    (f depth min max : ℕ) (s : Input)
    → depth + 2 ≤ 100
    → is_static_int (peek_token s) ≡ true
    → next_expr (suc f) depth min max s ≡ undefined
unfolding next_expr
next_expr-static_int f depth min max s l h =
    rw
      (
        leb-above max_recursion_depth (suc depth) (omega (arith, l)),
        next_expr_lhs-static_int (next_expr f (suc depth)) f s h,
      )
      refl
