-- ===== src/Parse/Expr/Plain.antt =====
-- src/parse/parser.cpp: the expressions without a loop of their own, and the switch. `next min max` is
-- nextExpr, one level deeper than the expression that is being parsed.
use novus.Base.{ℕ, zero, suc, Option, none, some, Bool, true, ◌&&◌, ◌||◌, if◌then◌else◌}
use novus.Lex.Token.{TokenKind, Keyword, Token}
use novus.Parse.Tokens.{is_kind, is_kw, is_identifier, grouping_precedence}
use novus.Parse.Syntax.{
  ParseType, TypeParamList, Node, id_plain, id_with, intrinsic, field, is_expr, conditional, paren,
  switch, switch_without_else, switch_if, switch_else, err_id, err_id_plain, err_intrinsic,
  err_field, err_is, err_conditional, err_paren, err_switch_if, err_switch_else, Nodes, no_nodes,
  node_and,
}
use novus.Parse.Input.{Parser, out_of_fuel, pure, ◌>>=◌, peek, consume_token}
use novus.Parse.Types.{validate_type, validate_params, next_type, next_type_param_list}
use novus.Parse.Expr.Calls.{max_precedence}

unfoldable pub is_valid_id : Token → Bool
is_valid_id id = is_identifier id || is_kw Keyword.kw_self id

unfoldable pub next_expr_id : ℕ → Token → Parser Node
next_expr_id f id s =
    (do
      t ← peek
      if is_kind TokenKind.sep_open_curly t
          then (do
            params ← next_type_param_list f
            pure (
                if is_valid_id id && validate_params params
                then id_with id params
                else err_id id params))
          else pure (if is_valid_id id then id_plain id else err_id_plain id))
      s

unfoldable pub intrinsic_node : Token → Token → Token → Token → Option TypeParamList → Node
intrinsic_node kw opening id closing params =
    if is_kw Keyword.kw_intrinsic kw
      && (is_identifier id
          && ((elim params [ none ↦ true | some ps ↦ validate_params ps ])
              && (is_kind TokenKind.sep_open_curly opening
                  && is_kind TokenKind.sep_close_curly closing)))
    then intrinsic kw opening id closing params
    else err_intrinsic kw opening id closing params

unfoldable pub next_expr_intrinsic : ℕ → Parser Node
next_expr_intrinsic f s =
    (do
      kw ← consume_token
      opening ← consume_token
      id ← consume_token
      closing ← consume_token
      t ← peek
      if is_kind TokenKind.sep_open_curly t
          then (do
            params ← next_type_param_list f
            pure (intrinsic_node kw opening id closing (some params)))
          else pure (intrinsic_node kw opening id closing none))
      s

unfoldable pub next_expr_field : Node → Parser Node
next_expr_field lhs s =
    (do
      dot ← consume_token
      id ← consume_token
      pure (
          if is_kind TokenKind.op_dot dot && is_identifier id
          then field lhs dot id
          else err_field lhs dot id))
      s

unfoldable pub is_node : Node → Token → ParseType → Option Token → Node
is_node lhs kw p id =
    if (is_kw Keyword.kw_is kw || is_kw Keyword.kw_as kw)
      && (validate_type p
          && (elim id [ none ↦ true | some i ↦ is_identifier i || is_kind TokenKind.discard i ]))
    then is_expr lhs kw p id
    else err_is lhs kw p id

unfoldable pub next_expr_is : ℕ → Node → Parser Node
next_expr_is f lhs s =
    (do
      kw ← consume_token
      p ← next_type f
      if is_kw Keyword.kw_as kw
          then (do id ← consume_token; pure (is_node lhs kw p (some id)))
          else pure (is_node lhs kw p none))
      s

module _ (next : ℕ → ℕ → Parser Node) where
  unfoldable pub next_expr_conditional : Node → Parser Node
  next_expr_conditional condition s =
      (do
        q ← consume_token
        x ← next grouping_precedence max_precedence
        colon ← consume_token
        y ← next grouping_precedence max_precedence
        pure (
            if is_kind TokenKind.op_q_mark q && is_kind TokenKind.sep_colon colon
            then conditional condition q x colon y
            else err_conditional condition q x colon y))
        s

  unfoldable pub next_expr_paren : Parser Node
  next_expr_paren s =
      (do
        opening ← consume_token
        e ← next 0 max_precedence
        closing ← consume_token
        pure (
            if is_kind TokenKind.sep_open_paren opening && is_kind TokenKind.sep_close_paren closing
            then paren opening e closing
            else err_paren opening e closing))
        s

  unfoldable pub next_expr_switch_if : Parser Node
  next_expr_switch_if s =
      (do
        kw ← consume_token
        condition ← next 0 max_precedence
        arrow ← consume_token
        e ← next 0 max_precedence
        pure (
            if is_kw Keyword.kw_if kw && is_kind TokenKind.sep_arrow arrow
            then switch_if kw condition arrow e
            else err_switch_if kw condition arrow e))
        s

  unfoldable pub next_expr_switch_else : Parser Node
  next_expr_switch_else s =
      (do
        kw ← consume_token
        arrow ← consume_token
        e ← next 0 max_precedence
        pure (
            if is_kw Keyword.kw_else kw && is_kind TokenKind.sep_arrow arrow
            then switch_else kw arrow e
            else err_switch_else kw arrow e))
        s

  -- do { … } while (getKw(peekToken(0)) == lex::Keyword::If)
  unfoldable pub switch_loop : ℕ → Parser Nodes
  switch_loop zero s = out_of_fuel
  switch_loop (suc f) s =
      (do
        clause ← next_expr_switch_if
        t ← peek
        if is_kw Keyword.kw_if t
            then (do clauses ← switch_loop f; pure (node_and clause clauses))
            else pure (node_and clause no_nodes))
        s

  unfoldable pub next_expr_switch : ℕ → Parser Node
  next_expr_switch f s =
      (do
        clauses ← switch_loop f
        t ← peek
        if is_kw Keyword.kw_else t
            then (do e ← next_expr_switch_else; pure (switch clauses e))
            else pure (switch_without_else clauses))
        s
