-- ===== src/Parse/Expr/Calls.antt =====
-- src/parse/parser.cpp: nextExprCall, nextExprIndex and nextExprGroup. `next min max` is nextExpr, one level
-- deeper than the expression that is being parsed. A loop gives the elements, the commas, and whether a
-- comma was missing.
use novus.Base.{
  ℕ, zero, suc, List, [], ◌∷◌, Bool, false, ◌&&◌, ◌||◌, not, length, ◌==◌, if◌then◌else◌,
}
use novus.Lex.Token.{TokenKind, Token}
use novus.Parse.Tokens.{is_kind, is_end}
use novus.Parse.Syntax.{Node, call, err_call, index, err_index, group, Nodes, no_nodes, node_and}
use novus.Parse.Input.{Parser, out_of_fuel, pure, ◌>>=◌, peek, consume_token}

-- The default of nextExpr's maxPrecedence.
abbrev pub max_precedence : ℕ
max_precedence = 99

unfoldable pub validate_parentheses : Token → Token → Bool
validate_parentheses opening closing =
    (is_kind TokenKind.sep_open_paren opening && is_kind TokenKind.sep_close_paren closing)
    || (is_kind TokenKind.op_paren_paren opening && is_kind TokenKind.op_paren_paren closing)

unfoldable pub node_count : Nodes → ℕ
node_count no_nodes = 0
node_count (node_and e es) = suc (node_count es)

-- commas.size() == (args.empty() ? 0 : args.size() - 1)
unfoldable pub commas_of_args : List Token → Nodes → Bool
commas_of_args commas no_nodes = length commas == 0
commas_of_args commas (node_and e es) = length commas == node_count es

-- !args.empty() and commas.size() == args.size() - 1
unfoldable pub commas_of_indices : List Token → Nodes → Bool
commas_of_indices commas no_nodes = false
commas_of_indices commas (node_and e es) = length commas == node_count es

unfoldable pub call_node : List Token → Node → Token → Nodes → List Token → Token → Bool → Node
call_node modifiers lhs opening args commas closing missing =
    if validate_parentheses opening closing && (not missing && commas_of_args commas args)
    then call modifiers lhs opening args commas closing
    else err_call modifiers lhs opening args commas closing missing

unfoldable pub index_node : Node → Token → Nodes → List Token → Token → Bool → Node
index_node lhs opening args commas closing missing =
    if is_kind TokenKind.sep_open_square opening
      && (is_kind TokenKind.sep_close_square closing
          && (not missing && commas_of_indices commas args))
    then index lhs opening args commas closing
    else err_index lhs opening args commas closing

module _ (next : ℕ → ℕ → Parser Node) where
  -- The loop that nextExprCall and nextExprIndex each have, up to a closing token of the kind.
  unfoldable pub args_loop : ℕ → TokenKind → Parser (Nodes × List Token × Bool)
  args_loop zero close s = out_of_fuel
  args_loop (suc f) close s =
      (do
        t ← peek
        if is_kind close t || is_end t then pure (no_nodes, [], false) else (do
          e ← next 0 max_precedence
          t ← peek
          if is_kind TokenKind.sep_comma t
              then (do
                c ← consume_token
                (es, cs, missing) ← args_loop f close
                pure (node_and e es, c ∷ cs, missing))
              else (do
                (es, cs, missing) ← args_loop f close
                pure (node_and e es, cs, not (is_kind close t) || missing))))
        s

  unfoldable pub next_expr_call : ℕ → Node → List Token → Parser Node
  next_expr_call f lhs modifiers s =
      (do
        opening ← consume_token
        if is_kind TokenKind.op_paren_paren opening
            then pure (call_node modifiers lhs opening no_nodes [] opening false)
            else (do
              (args, commas, missing) ← args_loop f TokenKind.sep_close_paren
              closing ← consume_token
              pure (call_node modifiers lhs opening args commas closing missing)))
        s

  unfoldable pub next_expr_index : ℕ → Node → Parser Node
  next_expr_index f lhs s =
      (do
        opening ← consume_token
        (args, commas, missing) ← args_loop f TokenKind.sep_close_square
        closing ← consume_token
        pure (index_node lhs opening args commas closing missing))
        s

  unfoldable pub group_loop : ℕ → ℕ → Parser (Nodes × List Token)
  group_loop zero precedence s = out_of_fuel
  group_loop (suc f) precedence s =
      (do
        t ← peek
        if is_kind TokenKind.op_semi t
            then (do
              semi ← consume_token
              e ← next precedence max_precedence
              (es, semis) ← group_loop f precedence
              pure (node_and e es, semi ∷ semis))
            else pure (no_nodes, []))
        s

  unfoldable pub next_expr_group : ℕ → Node → ℕ → Parser Node
  next_expr_group f first precedence s =
      (do (es, semis) ← group_loop f precedence; pure (group (node_and first es) semis)) s
