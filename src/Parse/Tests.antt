-- ===== src/Parse/Tests.antt =====
-- Runs of the parser on tokens, and the theorems at them.
use novus.Base.{suc, ◌≤◌, ◌≡◌, refl, arith, ◌⊎◌, inl, inr, List, [], ◌∷◌, ◌++◌, true, false}
use novus.Lex.Token.{Token, TokenKind, Payload, span, basic, identifier, lit_int, static_int}
use novus.Parse.Tokens.{
  is_end, is_static_int, kind_index, keyword_index, is_kind, get_kw, is_kw, is_keyword,
  is_identifier, is_lit_int, is_lit_string, is_line_comment, kind_cat, lookup_cat, is_operator,
  lhs_precedence, get_lhs_op_precedence, rhs_precedence, keyword_precedence, get_rhs_op_precedence,
  is_right_associative,
}
use novus.Parse.Types.{
  validate_type, validate_params, validate_types, next_type, next_type_param_list, types_loop,
  is_possible_type_token, type_count, is_empty,
}
use novus.Parse.Expr.Calls.{
  validate_parentheses, node_count, commas_of_args, commas_of_indices, call_node, index_node,
  args_loop, next_expr_call, next_expr_index, group_loop, next_expr_group,
}
use novus.Parse.Expr.Plain.{
  is_valid_id, next_expr_id, intrinsic_node, next_expr_intrinsic, next_expr_field, is_node,
  next_expr_is, next_expr_conditional, next_expr_paren, next_expr_switch_if, next_expr_switch_else,
  switch_loop, next_expr_switch,
}
use novus.Parse.Stmt.Parts.{
  all_of, validate_subs, subs_loop, next_type_substitution_list, next_type_subs, validate_type_subs,
  modifiers_loop, fields_loop, union_types_loop, next_value_spec, entries_loop, validate_value,
  validate_entry, validate_field,
}
use novus.Parse.Syntax.{
  Node, lit, id_plain, binary, call, no_nodes, node_and, Stmt, exec_stmt, plain_type,
  ArgumentListDecl, argument_list_decl, no_args, arg_and, arg,
}
use novus.Parse.Input.{Input, ok, undefined, peek_token, peek_of, consume_of, consume_token}
use novus.Parse.Runs.{HasStatic, left}
use novus.Parse.Expr.{
  next_expr, ends_expr, next_expr_binary, next_expr_rhs, expr_loop, next_expr_identifier,
  next_expr_impure, next_expr_modified_call, next_expr_self, invalid_primary, next_expr_keyword,
  next_lit, next_expr_primary, next_expr_lhs,
}
use novus.Parse.Expr.Lambda.{
  next_arg_decl_list, validate_arg_list, validate_ret_type, validate_arg, validate_args, arg_count,
  commas_of_decls, next_ret_type_spec, next_ret_type, anon_func_node, next_arg, arg_decls_loop,
  next_expr_anon_func,
}
use novus.Parse.Expr.Print.{node_tokens, node_ok}
use novus.Parse.Stmt.{
  parse_all, next_comment, next_import, func_stmt, next_stmt_func_decl, fields_fit, struct_stmt,
  next_stmt_struct_decl, union_stmt, next_stmt_union_decl, enum_stmt, next_stmt_enum_decl,
  next_stmt_exec, next_comment_or_exec, next_stmt_on, next_stmt, then_parse,
}
use novus.Parse.Stmt.Print.{stmts_tokens, stmts_ok, stmt_ok}
use novus.Parse.Correct.{
  parse_all-Returns, parse_all-stmts_tokens, next_expr-Ends, next_expr-left, next_expr-node_tokens,
  next_expr-static_int,
}

abbrev tok : Payload → Token
tok p = record { payload = p; at = span 0 0 }

abbrev input_of : List Token → Input
input_of ts = record { tokens = ts; last = span 0 0 }

abbrev name_token : Token
name_token = tok (identifier (97 ∷ []))

abbrev lit_one : Token
lit_one = tok (lit_int 1)

abbrev lit_two : Token
lit_two = tok (lit_int 2)

abbrev plus : Token
plus = tok (basic TokenKind.op_plus)

abbrev star : Token
star = tok (basic TokenKind.op_star)

abbrev opening : Token
opening = tok (basic TokenKind.sep_open_paren)

abbrev closing : Token
closing = tok (basic TokenKind.sep_close_paren)

abbrev comma : Token
comma = tok (basic TokenKind.sep_comma)

abbrev static : Token
static = tok (static_int 1)

-- a + 1 * 2
abbrev sum : Input
sum = input_of (name_token ∷ (plus ∷ (lit_one ∷ (star ∷ (lit_two ∷ [])))))

abbrev sum_node : Node
sum_node = binary (id_plain name_token) plus (binary (lit lit_one) star (lit lit_two))

abbrev at_end : Input
at_end = input_of []

-- a(1)
abbrev call_input : Input
call_input = input_of (name_token ∷ (opening ∷ (lit_one ∷ (closing ∷ []))))

abbrev call_stmts : List Stmt
call_stmts =
    exec_stmt (call [] (id_plain name_token) opening (node_and (lit lit_one) no_nodes) [] closing)
    ∷ []

call_input-HasStatic : ¬ HasStatic call_input.tokens
unfolding is_static_int
call_input-HasStatic (inl e) = absurd cc
call_input-HasStatic (inr (inl e)) = absurd cc
call_input-HasStatic (inr (inr (inl e))) = absurd cc
call_input-HasStatic (inr (inr (inr (inl e)))) = absurd cc
call_input-HasStatic (inr (inr (inr (inr x)))) = elim x [ ]

run_all : parse_all 48 call_input ≡ ok (call_stmts, at_end)
unfolding kind_index keyword_index is_kind get_kw is_kw is_keyword is_identifier is_static_int
    is_lit_int is_lit_string is_line_comment is_end kind_cat lookup_cat is_operator lhs_precedence
    get_lhs_op_precedence rhs_precedence keyword_precedence get_rhs_op_precedence
    is_right_associative peek_of peek_token consume_of consume_token validate_type validate_params
    validate_types next_type next_type_param_list types_loop is_possible_type_token type_count
    is_empty validate_parentheses node_count commas_of_args commas_of_indices call_node index_node
    args_loop next_expr_call next_expr_index group_loop next_expr_group is_valid_id next_expr_id
    intrinsic_node next_expr_intrinsic next_expr_field is_node next_expr_is next_expr_conditional
    next_expr_paren next_expr_switch_if next_expr_switch_else switch_loop next_expr_switch
    validate_ret_type validate_arg validate_args arg_count commas_of_decls validate_arg_list
    next_ret_type_spec next_ret_type anon_func_node next_arg arg_decls_loop next_arg_decl_list
    next_expr_anon_func ends_expr next_expr_binary next_expr_rhs expr_loop next_expr_identifier
    next_expr_impure next_expr_modified_call next_expr_self invalid_primary next_expr_keyword
    next_lit next_expr_primary next_expr_lhs next_expr all_of validate_subs subs_loop
    next_type_substitution_list next_type_subs validate_type_subs modifiers_loop fields_loop
    union_types_loop next_value_spec entries_loop validate_value validate_entry validate_field
    next_comment next_import func_stmt next_stmt_func_decl fields_fit struct_stmt
    next_stmt_struct_decl union_stmt next_stmt_union_decl enum_stmt next_stmt_enum_decl
    next_stmt_exec next_comment_or_exec next_stmt_on next_stmt then_parse parse_all
run_all = refl

run_expr : next_expr 48 0 0 99 sum ≡ ok (sum_node, at_end)
unfolding kind_index keyword_index is_kind get_kw is_kw is_keyword is_identifier is_static_int
    is_lit_int is_lit_string is_line_comment is_end kind_cat lookup_cat is_operator lhs_precedence
    get_lhs_op_precedence rhs_precedence keyword_precedence get_rhs_op_precedence
    is_right_associative peek_of peek_token consume_of consume_token validate_type validate_params
    validate_types next_type next_type_param_list types_loop is_possible_type_token type_count
    is_empty validate_parentheses node_count commas_of_args commas_of_indices call_node index_node
    args_loop next_expr_call next_expr_index group_loop next_expr_group is_valid_id next_expr_id
    intrinsic_node next_expr_intrinsic next_expr_field is_node next_expr_is next_expr_conditional
    next_expr_paren next_expr_switch_if next_expr_switch_else switch_loop next_expr_switch
    validate_ret_type validate_arg validate_args arg_count commas_of_decls validate_arg_list
    next_ret_type_spec next_ret_type anon_func_node next_arg arg_decls_loop next_arg_decl_list
    next_expr_anon_func ends_expr next_expr_binary next_expr_rhs expr_loop next_expr_identifier
    next_expr_impure next_expr_modified_call next_expr_self invalid_primary next_expr_keyword
    next_lit next_expr_primary next_expr_lhs next_expr all_of validate_subs subs_loop
    next_type_substitution_list next_type_subs validate_type_subs modifiers_loop fields_loop
    union_types_loop next_value_spec entries_loop validate_value validate_entry validate_field
    next_comment next_import func_stmt next_stmt_func_decl fields_fit struct_stmt
    next_stmt_struct_decl union_stmt next_stmt_union_decl enum_stmt next_stmt_enum_decl
    next_stmt_exec next_comment_or_exec next_stmt_on next_stmt then_parse parse_all
run_expr = refl

-- (a a #1 a,), where the comma stands behind the last argument, is taken.
abbrev misplaced : Input
misplaced =
    input_of
      (opening ∷ (name_token ∷ (name_token ∷ (static ∷ (name_token ∷ (comma ∷ (closing ∷ [])))))))

abbrev misplaced_list : ArgumentListDecl
misplaced_list =
    argument_list_decl opening
      (arg_and (arg (plain_type name_token) name_token)
        (arg_and (arg (plain_type static) name_token) no_args))
      (comma ∷ []) closing false

run_misplaced : next_arg_decl_list (next_expr 48 0) 48 misplaced ≡ ok (misplaced_list, at_end)
unfolding kind_index keyword_index is_kind get_kw is_kw is_keyword is_identifier is_static_int
    is_lit_int is_lit_string is_line_comment is_end kind_cat lookup_cat is_operator lhs_precedence
    get_lhs_op_precedence rhs_precedence keyword_precedence get_rhs_op_precedence
    is_right_associative peek_of peek_token consume_of consume_token validate_type validate_params
    validate_types next_type next_type_param_list types_loop is_possible_type_token type_count
    is_empty validate_parentheses node_count commas_of_args commas_of_indices call_node index_node
    args_loop next_expr_call next_expr_index group_loop next_expr_group is_valid_id next_expr_id
    intrinsic_node next_expr_intrinsic next_expr_field is_node next_expr_is next_expr_conditional
    next_expr_paren next_expr_switch_if next_expr_switch_else switch_loop next_expr_switch
    validate_ret_type validate_arg validate_args arg_count commas_of_decls validate_arg_list
    next_ret_type_spec next_ret_type anon_func_node next_arg arg_decls_loop next_arg_decl_list
    next_expr_anon_func ends_expr next_expr_binary next_expr_rhs expr_loop next_expr_identifier
    next_expr_impure next_expr_modified_call next_expr_self invalid_primary next_expr_keyword
    next_lit next_expr_primary next_expr_lhs next_expr all_of validate_subs subs_loop
    next_type_substitution_list next_type_subs validate_type_subs modifiers_loop fields_loop
    union_types_loop next_value_spec entries_loop validate_value validate_entry validate_field
    next_comment next_import func_stmt next_stmt_func_decl fields_fit struct_stmt
    next_stmt_struct_decl union_stmt next_stmt_union_decl enum_stmt next_stmt_enum_decl
    next_stmt_exec next_comment_or_exec next_stmt_on next_stmt then_parse parse_all
run_misplaced = refl

valid_misplaced : validate_arg_list misplaced_list ≡ true
unfolding kind_index keyword_index is_kind get_kw is_kw is_keyword is_identifier is_static_int
    is_lit_int is_lit_string is_line_comment is_end kind_cat lookup_cat is_operator lhs_precedence
    get_lhs_op_precedence rhs_precedence keyword_precedence get_rhs_op_precedence
    is_right_associative peek_of peek_token consume_of consume_token validate_type validate_params
    validate_types next_type next_type_param_list types_loop is_possible_type_token type_count
    is_empty validate_parentheses node_count commas_of_args commas_of_indices call_node index_node
    args_loop next_expr_call next_expr_index group_loop next_expr_group is_valid_id next_expr_id
    intrinsic_node next_expr_intrinsic next_expr_field is_node next_expr_is next_expr_conditional
    next_expr_paren next_expr_switch_if next_expr_switch_else switch_loop next_expr_switch
    validate_ret_type validate_arg validate_args arg_count commas_of_decls validate_arg_list
    next_ret_type_spec next_ret_type anon_func_node next_arg arg_decls_loop next_arg_decl_list
    next_expr_anon_func ends_expr next_expr_binary next_expr_rhs expr_loop next_expr_identifier
    next_expr_impure next_expr_modified_call next_expr_self invalid_primary next_expr_keyword
    next_lit next_expr_primary next_expr_lhs next_expr all_of validate_subs subs_loop
    next_type_substitution_list next_type_subs validate_type_subs modifiers_loop fields_loop
    union_types_loop next_value_spec entries_loop validate_value validate_entry validate_field
    next_comment next_import func_stmt next_stmt_func_decl fields_fit struct_stmt
    next_stmt_struct_decl union_stmt next_stmt_union_decl enum_stmt next_stmt_enum_decl
    next_stmt_exec next_comment_or_exec next_stmt_on next_stmt then_parse parse_all
valid_misplaced = refl

parse_all-Returns_example :
    (r : List Stmt × Input) × (parse_all 48 call_input ≡ ok r) × (is_end (peek_token r.1) ≡ true)
parse_all-Returns_example = parse_all-Returns 48 call_input (omega arith) call_input-HasStatic

parse_all-stmts_tokens_example : call_input.tokens ≡ stmts_tokens call_stmts ++ []
unfolding stmts_ok stmt_ok node_ok
parse_all-stmts_tokens_example =
    parse_all-stmts_tokens 48 call_input call_stmts at_end (omega arith) run_all refl

next_expr-Ends_example :
    ((r : Node × Input) × (next_expr 48 0 0 99 sum ≡ ok r))
    ⊎ ((next_expr 48 0 0 99 sum ≡ undefined) × HasStatic sum.tokens)
next_expr-Ends_example = next_expr-Ends 48 0 0 99 sum (omega arith)

next_expr-left_example : suc (left at_end) ≤ left sum
next_expr-left_example =
    next_expr-left 48 0 0 99 sum sum_node at_end (omega arith) run_expr (omega arith)

next_expr-node_tokens_example : sum.tokens ≡ node_tokens sum_node ++ []
unfolding node_ok
next_expr-node_tokens_example =
    next_expr-node_tokens 48 0 0 99 sum sum_node at_end (omega arith) run_expr refl

next_expr-static_int_example : next_expr 17 0 0 99 (input_of (static ∷ (plus ∷ []))) ≡ undefined
unfolding is_static_int peek_token peek_of
next_expr-static_int_example =
    next_expr-static_int 16 0 0 99 (input_of (static ∷ (plus ∷ []))) (omega arith) refl
