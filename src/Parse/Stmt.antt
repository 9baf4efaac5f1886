-- ===== src/Parse/Stmt.antt =====
-- src/parse/parser.cpp: nextStmt and the statements, and parseAll of include/parse/parser.hpp. Each loop and
-- each expression takes fuel.
pub mod Parts
pub mod Print
pub mod Reads
use novus.Base.{
  ℕ, zero, suc, List, [], ◌∷◌, Option, none, some, Bool, true, false, ◌&&◌, ◌||◌, not, length, ◌==◌,
  leb, if◌then◌else◌,
}
use novus.Lex.Token
use novus.Lex.Token.{TokenKind, Keyword, Token}
use novus.Parse.Tokens.{
  is_kind, is_kw, is_identifier, is_lit_string, is_line_comment, is_operator, is_end, get_kw,
}
use novus.Parse.Syntax.{
  Node, Types, ArgumentListDecl, TypeSubstitutionList, RetTypeSpec, FieldSpec, EntrySpec, Stmt,
  comment, import_stmt, err_import, func_decl, err_func_decl, struct_decl, err_struct_decl,
  union_decl, err_union_decl, enum_decl, err_enum_decl, exec_stmt,
}
use novus.Parse.Input.{Input, Result, Parser, out_of_fuel, pure, ◌>>=◌, peek, consume_token}
use novus.Parse.Types.{validate_types, type_count, commas_fit}
use novus.Parse.Expr.{next_expr, next_expr_primary}
use novus.Parse.Expr.Calls.{max_precedence, next_expr_call}
use novus.Parse.Expr.Lambda.{
  validate_arg_list, validate_ret_type, next_arg_decl_list, next_ret_type,
}
use novus.Parse.Stmt.Parts.{
  all_of, next_type_subs, validate_type_subs, modifiers_loop, fields_loop, union_types_loop,
  entries_loop, validate_entry, validate_field,
}

unfoldable pub next_comment : Parser Stmt
next_comment s = (do t ← consume_token; pure (comment t)) s

unfoldable pub next_import : Parser Stmt
next_import s =
    (do
      kw ← consume_token
      path ← consume_token
      pure (
          if is_kw Keyword.kw_import kw && is_lit_string path
          then import_stmt kw path
          else err_import kw path))
      s

unfoldable pub func_stmt :
    Token
    → List Token
    → Token
    → Option TypeSubstitutionList
    → ArgumentListDecl
    → Option RetTypeSpec
    → Node
    → Stmt
func_stmt kw modifiers id subs args ret body =
    if (is_kw Keyword.kw_fun kw || is_kw Keyword.kw_act kw)
      && ((is_identifier id || is_operator id)
          && (validate_type_subs subs && (validate_ret_type ret && validate_arg_list args)))
    then func_decl kw modifiers id subs args ret body
    else err_func_decl kw modifiers id subs args ret body

unfoldable pub next_stmt_func_decl : ℕ → Parser Stmt
next_stmt_func_decl f s =
    (do
      kw ← consume_token
      modifiers ← modifiers_loop f
      id ← consume_token
      subs ← next_type_subs f
      args ← next_arg_decl_list (next_expr f 0) f
      ret ← next_ret_type f
      body ← next_expr f 0 0 max_precedence
      pure (func_stmt kw modifiers id subs args ret body))
      s

unfoldable pub fields_fit : Option Token → List FieldSpec → List Token → Bool
fields_fit none fields commas = true
fields_fit (some eq) fields commas =
    not (length fields == 0) && (all_of validate_field fields && commas_fit commas (length fields))

unfoldable pub struct_stmt :
    Token → Token → Option TypeSubstitutionList → Option Token → List FieldSpec → List Token → Stmt
struct_stmt kw id subs eq fields commas =
    if (is_kw Keyword.kw_struct kw && is_identifier id)
      && (validate_type_subs subs && fields_fit eq fields commas)
    then struct_decl kw id subs eq fields commas
    else err_struct_decl kw id subs eq fields commas

unfoldable pub next_stmt_struct_decl : ℕ → Parser Stmt
next_stmt_struct_decl f s =
    (do
      kw ← consume_token
      id ← consume_token
      subs ← next_type_subs f
      t ← peek
      if is_kind TokenKind.op_eq t
          then (do
            eq ← consume_token
            (fields, commas) ← fields_loop f
            pure (struct_stmt kw id subs (some eq) fields commas))
          else pure (struct_stmt kw id subs none [] []))
      s

unfoldable pub union_stmt :
    Token → Token → Option TypeSubstitutionList → Token → Types → List Token → Stmt
union_stmt kw id subs eq types commas =
    if is_kw Keyword.kw_union kw
      && (is_identifier id
          && (validate_type_subs subs
              && (is_kind TokenKind.op_eq eq
                  && (leb 2 (type_count types)
                      && (validate_types types && commas_fit commas (type_count types))))))
    then union_decl kw id subs eq types commas
    else err_union_decl kw id subs eq types commas

unfoldable pub next_stmt_union_decl : ℕ → Parser Stmt
next_stmt_union_decl f s =
    (do
      kw ← consume_token
      id ← consume_token
      subs ← next_type_subs f
      eq ← consume_token
      (types, commas) ← union_types_loop f
      pure (union_stmt kw id subs eq types commas))
      s

unfoldable pub enum_stmt : Token → Token → Token → List EntrySpec → List Token → Stmt
enum_stmt kw id eq entries commas =
    if is_kw Keyword.kw_enum kw
      && (is_identifier id
          && (is_kind TokenKind.op_eq eq
              && (not (length entries == 0)
                  && (all_of validate_entry entries && commas_fit commas (length entries)))))
    then enum_decl kw id eq entries commas
    else err_enum_decl kw id eq entries commas

unfoldable pub next_stmt_enum_decl : ℕ → Parser Stmt
next_stmt_enum_decl f s =
    (do
      kw ← consume_token
      id ← consume_token
      eq ← consume_token
      (entries, commas) ← entries_loop f
      pure (enum_stmt kw id eq entries commas))
      s

unfoldable pub next_stmt_exec : ℕ → Parser Stmt
next_stmt_exec f s =
    (do
      t ← peek
      e ← next_expr_primary (next_expr f 0) f t
      e ← next_expr_call (next_expr f 0) f e []
      pure (exec_stmt e))
      s

unfoldable pub next_comment_or_exec : ℕ → Token → Parser Stmt
next_comment_or_exec f t = if is_line_comment t then next_comment else next_stmt_exec f

-- nextStmt, where the next token is not the end, on that token.
unfoldable pub next_stmt_on : ℕ → Token → Parser Stmt
next_stmt_on f t s = elim (get_kw t) [
  | some Keyword.kw_import ↦ next_import s
  | some Keyword.kw_fun ↦ next_stmt_func_decl f s
  | some Keyword.kw_act ↦ next_stmt_func_decl f s
  | some Keyword.kw_struct ↦ next_stmt_struct_decl f s
  | some Keyword.kw_union ↦ next_stmt_union_decl f s
  | some Keyword.kw_enum ↦ next_stmt_enum_decl f s
  | _ ↦ next_comment_or_exec f t s
]

unfoldable pub next_stmt : ℕ → Parser (Option Stmt)
next_stmt f s =
    (do t ← peek; if is_end t then pure none else (do stmt ← next_stmt_on f t; pure (some stmt))) s

-- The loop of parseAll, behind a call of next.
unfoldable pub then_parse : Parser (List Stmt) → Option Stmt → Parser (List Stmt)
then_parse rest none s = pure [] s
then_parse rest (some x) s = (do xs ← rest; pure (x ∷ xs)) s

unfoldable pub parse_all : ℕ → Parser (List Stmt)
parse_all zero s = out_of_fuel
parse_all (suc f) s = (do stmt ← next_stmt f; then_parse (parse_all f) stmt) s
