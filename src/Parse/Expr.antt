-- ===== src/Parse/Expr.antt =====
-- src/parse/parser.cpp: nextExpr, nextExprLhs and nextExprPrimary. `depth` is m_exprRecursionDepth, which each
-- call puts back before it returns. Each call of nextExpr takes fuel, and so does each loop.
pub mod Calls
pub mod Plain
pub mod Lambda
pub mod Print
pub mod Reads
use novus.Base.{
  ℕ, zero, suc, List, [], ◌∷◌, Option, none, some, Bool, true, false, ◌&&◌, ◌||◌, not, ◌==◌, ltb,
  leb, if◌then◌else◌,
}
use novus.Lex.Token
use novus.Lex.Token.{TokenKind, Keyword, Token}
use novus.Parse.Tokens
use novus.Parse.Tokens.{
  is_kind, is_kw, is_operator, TokenCat, lookup_cat, get_kw, get_lhs_op_precedence,
  get_rhs_op_precedence, is_right_associative, assignment_precedence, call_precedence,
}
use novus.Parse.Syntax.{
  Node, lit, const_decl, unary, binary, err_max_expr_recursion_depth, err_primary, err_unary_op,
}
use novus.Parse.Input.{Parser, undefined, out_of_fuel, pure, ◌>>=◌, peek, consume_token}
use novus.Parse.Expr.Calls.{max_precedence, next_expr_call, next_expr_index, next_expr_group}
use novus.Parse.Expr.Plain.{
  next_expr_id, next_expr_intrinsic, next_expr_field, next_expr_is, next_expr_conditional,
  next_expr_paren, next_expr_switch,
}
use novus.Parse.Expr.Lambda.{next_expr_anon_func}

abbrev pub max_recursion_depth : ℕ
max_recursion_depth = 100

-- The test that ends the loop of nextExpr, on the next token.
unfoldable pub ends_expr : ℕ → ℕ → Token → Bool
ends_expr min max t =
    (get_rhs_op_precedence t == 0)
    || ((ltb (get_rhs_op_precedence t) min)
        || ((not (is_right_associative t) && (get_rhs_op_precedence t == min))
            || leb max (get_rhs_op_precedence t)))

module _ (next : ℕ → ℕ → Parser Node) where
  unfoldable pub next_expr_binary : Node → ℕ → Parser Node
  next_expr_binary lhs precedence s =
      (do op ← consume_token; rhs ← next precedence max_precedence; pure (binary lhs op rhs)) s

  -- The switch in the loop of nextExpr, on the next token.
  unfoldable pub next_expr_rhs : ℕ → Node → Token → Parser Node
  next_expr_rhs f lhs t =
      if is_kind TokenKind.sep_open_paren t || is_kind TokenKind.op_paren_paren t
      then next_expr_call next f lhs []
      else if is_kind TokenKind.op_semi t
      then next_expr_group next f lhs (get_rhs_op_precedence t)
      else if is_kind TokenKind.op_q_mark t
      then next_expr_conditional next lhs
      else if is_kind TokenKind.op_dot t
      then next_expr_field lhs
      else if is_kind TokenKind.sep_open_square t
      then next_expr_index next f lhs
      else if is_kw Keyword.kw_is t || is_kw Keyword.kw_as t
      then next_expr_is f lhs
      else next_expr_binary lhs (get_rhs_op_precedence t)

  unfoldable pub expr_loop : ℕ → ℕ → ℕ → Node → Parser Node
  expr_loop zero min max lhs s = out_of_fuel
  expr_loop (suc f) min max lhs s =
      (do
        t ← peek
        if ends_expr min max t
            then pure lhs
            else (do e ← next_expr_rhs f lhs t; expr_loop f min max e))
        s

  -- `const_decl` where a `=` follows, else nextExprId.
  unfoldable pub next_expr_identifier : ℕ → Parser Node
  next_expr_identifier f s =
      (do
        id ← consume_token
        t ← peek
        if is_kind TokenKind.op_eq t
            then (do
              eq ← consume_token
              e ← next assignment_precedence max_precedence
              pure (const_decl id eq e))
            else next_expr_id f id)
        s

  unfoldable pub next_expr_impure : ℕ → Parser Node
  next_expr_impure f s = (do modifier ← consume_token; next_expr_anon_func next f (modifier ∷ [])) s

  -- fork and lazy
  unfoldable pub next_expr_modified_call : ℕ → Parser Node
  next_expr_modified_call f s =
      (do
        modifier ← consume_token
        lhs ← next 0 call_precedence
        next_expr_call next f lhs (modifier ∷ []))
        s

  unfoldable pub next_expr_self : ℕ → Parser Node
  next_expr_self f s = (do id ← consume_token; next_expr_id f id) s

  unfoldable pub invalid_primary : Parser Node
  invalid_primary s = (do t ← consume_token; pure (err_primary t)) s

  unfoldable pub next_expr_keyword : ℕ → Keyword → Parser Node
  next_expr_keyword f Keyword.kw_intrinsic s = next_expr_intrinsic f s
  next_expr_keyword f Keyword.kw_if s = next_expr_switch next f s
  next_expr_keyword f Keyword.kw_impure s = next_expr_impure f s
  next_expr_keyword f Keyword.kw_lambda s = next_expr_anon_func next f [] s
  next_expr_keyword f Keyword.kw_fork s = next_expr_modified_call f s
  next_expr_keyword f Keyword.kw_lazy s = next_expr_modified_call f s
  next_expr_keyword f Keyword.kw_self s = next_expr_self f s
  next_expr_keyword f _ s = invalid_primary s

  unfoldable pub next_lit : Parser Node
  next_lit s = (do t ← consume_token; pure (lit t)) s

  -- nextExprPrimary, on the next token. `*getKw(…)` reads an empty optional where a token of the category of
  -- keywords is none.
  unfoldable pub next_expr_primary : ℕ → Token → Parser Node
  next_expr_primary f t s = elim (lookup_cat t.payload) [
    | TokenCat.literal_cat ↦ next_lit s
    | TokenCat.identifier_cat ↦ next_expr_identifier f s
    | TokenCat.keyword_cat ↦ elim (get_kw t) [
      | some kw ↦ next_expr_keyword f kw s
      | none ↦ undefined
    ]
    | _ ↦ (if is_kind TokenKind.sep_open_paren t then next_expr_paren next else invalid_primary) s
  ]

  -- nextExprLhs, on the next token
  unfoldable pub next_expr_lhs : ℕ → Token → Parser Node
  next_expr_lhs f t s =
      (if is_operator t
          then (do
            op ← consume_token
            e ← next (get_lhs_op_precedence op) max_precedence
            pure (if get_lhs_op_precedence op == 0 then err_unary_op op e else unary op e))
          else next_expr_primary f t)
        s

unfoldable pub next_expr : ℕ → ℕ → ℕ → ℕ → Parser Node
next_expr zero depth min max s = out_of_fuel
next_expr (suc f) depth min max s =
    (if leb max_recursion_depth (suc depth)
        then (do t ← consume_token; pure (err_max_expr_recursion_depth t))
        else (do
          t ← peek
          lhs ← next_expr_lhs (next_expr f (suc depth)) f t
          expr_loop (next_expr f (suc depth)) f min max lhs))
      s
