-- ===== src/Parse/Expr/Lambda.antt =====
-- src/parse/parser.cpp: nextArgDeclList and nextExprAnonFunc, with the tests that argument_list_decl.cpp
-- and ret_type_spec.cpp make. `next min max` is nextExpr, one level deeper than the expression that is
-- being parsed.
use novus.Base.{
  ℕ, zero, suc, List, [], ◌∷◌, Option, none, some, Bool, true, false, ◌&&◌, ◌||◌, not, length, ◌==◌,
  if◌then◌else◌,
}
use novus.Lex.Token.{TokenKind, Keyword, Token}
use novus.Parse.Tokens.{is_kind, is_kw, is_identifier, is_keyword, assignment_precedence}
use novus.Parse.Syntax.{
  RetTypeSpec, Node, anon_func, err_anon_func, ArgumentListDecl, argument_list_decl, ArgSpecs,
  no_args, arg_and, ArgSpec, arg, arg_initialized, arg_without_expr,
}
use novus.Parse.Input.{Parser, out_of_fuel, pure, ◌>>=◌, peek, consume_token}
use novus.Parse.Types.{is_possible_type_token, validate_type, next_type}
use novus.Parse.Expr.Calls.{max_precedence, validate_parentheses}

unfoldable pub validate_ret_type : Option RetTypeSpec → Bool
validate_ret_type none = true
validate_ret_type (some r) = is_kind TokenKind.sep_arrow r.arrow && validate_type r.ret_type

unfoldable pub validate_arg : ArgSpec → Bool
validate_arg (arg p id) = is_identifier id && validate_type p
validate_arg (arg_initialized p id eq e) =
    is_identifier id && (validate_type p && is_kind TokenKind.op_eq eq)
validate_arg (arg_without_expr p id eq) = false

unfoldable pub validate_args : ArgSpecs → Bool
validate_args no_args = true
validate_args (arg_and a args) = validate_arg a && validate_args args

unfoldable pub arg_count : ArgSpecs → ℕ
arg_count no_args = 0
arg_count (arg_and a args) = suc (arg_count args)

-- commas.size() == (args.empty() ? 0 : args.size() - 1)
unfoldable pub commas_of_decls : List Token → ArgSpecs → Bool
commas_of_decls commas no_args = length commas == 0
commas_of_decls commas (arg_and a args) = length commas == arg_count args

unfoldable pub validate_arg_list : ArgumentListDecl → Bool
validate_arg_list (argument_list_decl opening args commas closing missing) =
    validate_parentheses opening closing
    && (validate_args args && (not missing && commas_of_decls commas args))

unfoldable pub next_ret_type_spec : ℕ → Parser RetTypeSpec
next_ret_type_spec f s =
    (do arrow ← consume_token; p ← next_type f; pure (record { arrow = arrow; ret_type = p })) s

-- The return type, where the next token is an arrow.
unfoldable pub next_ret_type : ℕ → Parser (Option RetTypeSpec)
next_ret_type f s =
    (do
      t ← peek
      if is_kind TokenKind.sep_arrow t
          then (do r ← next_ret_type_spec f; pure (some r))
          else pure none)
      s

unfoldable pub anon_func_node :
    List Token → Token → ArgumentListDecl → Option RetTypeSpec → Node → Node
anon_func_node modifiers kw args ret body =
    if is_kw Keyword.kw_lambda kw && (validate_arg_list args && validate_ret_type ret)
    then anon_func modifiers kw args ret body
    else err_anon_func modifiers kw args ret body

module _ (next : ℕ → ℕ → Parser Node) where
  unfoldable pub next_arg : ℕ → Parser ArgSpec
  next_arg f s =
      (do
        p ← next_type f
        id ← consume_token
        t ← peek
        if is_kind TokenKind.op_eq t
            then (do
              eq ← consume_token
              t ← peek
              if is_kind TokenKind.sep_comma t || is_kind TokenKind.sep_close_paren t
                  then pure (arg_without_expr p id eq)
                  else (do
                    e ← next assignment_precedence max_precedence
                    pure (arg_initialized p id eq e)))
            else pure (arg p id))
        s

  unfoldable pub arg_decls_loop : ℕ → Parser (ArgSpecs × List Token × Bool)
  arg_decls_loop zero s = out_of_fuel
  arg_decls_loop (suc f) s =
      (do
        t ← peek
        if is_possible_type_token t || is_kind TokenKind.sep_comma t
            then (do
              a ← next_arg f
              t ← peek
              if is_kind TokenKind.sep_comma t
                  then (do
                    c ← consume_token
                    (args, cs, missing) ← arg_decls_loop f
                    pure (arg_and a args, c ∷ cs, missing))
                  else (do
                    (args, cs, missing) ← arg_decls_loop f
                    pure (arg_and a args, cs, (is_identifier t || is_keyword t) || missing)))
            else pure (no_args, [], false))
        s

  unfoldable pub next_arg_decl_list : ℕ → Parser ArgumentListDecl
  next_arg_decl_list f s =
      (do
        opening ← consume_token
        if is_kind TokenKind.op_paren_paren opening
            then pure (argument_list_decl opening no_args [] opening false)
            else (do
              (args, commas, missing) ← arg_decls_loop f
              closing ← consume_token
              pure (argument_list_decl opening args commas closing missing)))
        s

  unfoldable pub next_expr_anon_func : ℕ → List Token → Parser Node
  next_expr_anon_func f modifiers s =
      (do
        kw ← consume_token
        args ← next_arg_decl_list f
        ret ← next_ret_type f
        body ← next 0 max_precedence
        pure (anon_func_node modifiers kw args ret body))
        s
