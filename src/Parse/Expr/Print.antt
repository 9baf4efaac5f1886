-- ===== src/Parse/Expr/Print.antt =====
-- The tokens of an expression without error nodes, in order.
use novus.Base.{
  List, [], ◌∷◌, ◌++◌, Option, none, some, Bool, true, false, ◌&&◌, not, if◌then◌else◌,
}
use novus.Lex.Token.{TokenKind, Token}
use novus.Parse.Tokens.{is_kind}
use novus.Parse.Syntax.{
  TypeParamList, RetTypeSpec, Node, lit, id_plain, id_with, const_decl, intrinsic, unary, binary,
  group, call, field, index, is_expr, conditional, paren, switch, switch_without_else, switch_if,
  switch_else, anon_func, Nodes, no_nodes, node_and, ArgumentListDecl, argument_list_decl, ArgSpecs,
  no_args, arg_and, ArgSpec, arg, arg_initialized, arg_without_expr,
}
use novus.Parse.Types.Print.{starts_static, type_tokens, params_tokens}

unfoldable pub option_tokens : Option Token → List Token
option_tokens none = []
option_tokens (some t) = t ∷ []

unfoldable pub ret_tokens : Option RetTypeSpec → List Token
ret_tokens none = []
ret_tokens (some r) = r.arrow ∷ type_tokens r.ret_type

unfoldable pub param_list_tokens : Option TypeParamList → List Token
param_list_tokens none = []
param_list_tokens (some params) = params_tokens params

-- `()` is one token, which opens and closes.
unfoldable pub parens_tokens : Token → List Token → Token → List Token
parens_tokens opening inner closing =
    if is_kind TokenKind.op_paren_paren opening
    then opening ∷ []
    else opening ∷ (inner ++ (closing ∷ []))

unfoldable mutual
  pub node_tokens : Node → List Token
  node_tokens (lit t) = t ∷ []
  node_tokens (id_plain t) = t ∷ []
  node_tokens (id_with t params) = t ∷ params_tokens params
  node_tokens (const_decl id eq e) = id ∷ (eq ∷ node_tokens e)
  node_tokens (intrinsic kw opening id closing params) =
      kw ∷ (opening ∷ (id ∷ (closing ∷ param_list_tokens params)))
  node_tokens (unary op e) = op ∷ node_tokens e
  node_tokens (binary l op r) = node_tokens l ++ (op ∷ node_tokens r)
  node_tokens (group es semis) = nodes_tokens es semis
  node_tokens (call modifiers lhs opening args commas closing) =
      modifiers ++ (node_tokens lhs ++ parens_tokens opening (nodes_tokens args commas) closing)
  node_tokens (field lhs dot id) = node_tokens lhs ++ (dot ∷ (id ∷ []))
  node_tokens (index lhs opening args commas closing) =
      node_tokens lhs ++ (opening ∷ (nodes_tokens args commas ++ (closing ∷ [])))
  node_tokens (is_expr lhs kw p id) = node_tokens lhs ++ (kw ∷ (type_tokens p ++ option_tokens id))
  node_tokens (conditional b q x colon y) =
      node_tokens b ++ (q ∷ (node_tokens x ++ (colon ∷ node_tokens y)))
  node_tokens (paren opening e closing) = opening ∷ (node_tokens e ++ (closing ∷ []))
  node_tokens (switch ifs e) = nodes_tokens ifs [] ++ node_tokens e
  node_tokens (switch_without_else ifs) = nodes_tokens ifs []
  node_tokens (switch_if kw b arrow e) = kw ∷ (node_tokens b ++ (arrow ∷ node_tokens e))
  node_tokens (switch_else kw arrow e) = kw ∷ (arrow ∷ node_tokens e)
  node_tokens (anon_func modifiers kw args ret body) =
      modifiers ++ (kw ∷ (arg_list_tokens args ++ (ret_tokens ret ++ node_tokens body)))
  node_tokens _ = []

  -- A comma or a semicolon behind each element, as long as there is one.
  pub nodes_tokens : Nodes → List Token → List Token
  nodes_tokens no_nodes commas = []
  nodes_tokens (node_and e es) [] = node_tokens e ++ nodes_tokens es []
  nodes_tokens (node_and e es) (c ∷ commas) = node_tokens e ++ (c ∷ nodes_tokens es commas)

  pub arg_list_tokens : ArgumentListDecl → List Token
  arg_list_tokens (argument_list_decl opening args commas closing missing) =
      parens_tokens opening (args_tokens args commas) closing

  pub args_tokens : ArgSpecs → List Token → List Token
  args_tokens no_args commas = []
  args_tokens (arg_and a as_) [] = arg_tokens a ++ args_tokens as_ []
  args_tokens (arg_and a as_) (c ∷ commas) = arg_tokens a ++ (c ∷ args_tokens as_ commas)

  pub arg_tokens : ArgSpec → List Token
  arg_tokens (arg p id) = type_tokens p ++ (id ∷ [])
  arg_tokens (arg_initialized p id eq e) = type_tokens p ++ (id ∷ (eq ∷ node_tokens e))
  arg_tokens (arg_without_expr p id eq) = type_tokens p ++ (id ∷ (eq ∷ []))

-- There is no error node, and no argument whose type begins with a static int.
unfoldable mutual
  pub node_ok : Node → Bool
  node_ok (lit t) = true
  node_ok (id_plain t) = true
  node_ok (id_with t params) = true
  node_ok (const_decl id eq e) = node_ok e
  node_ok (intrinsic kw opening id closing params) = true
  node_ok (unary op e) = node_ok e
  node_ok (binary l op r) = node_ok l && node_ok r
  node_ok (group es semis) = nodes_ok es
  node_ok (call modifiers lhs opening args commas closing) = node_ok lhs && nodes_ok args
  node_ok (field lhs dot id) = node_ok lhs
  node_ok (index lhs opening args commas closing) = node_ok lhs && nodes_ok args
  node_ok (is_expr lhs kw p id) = node_ok lhs
  node_ok (conditional b q x colon y) = node_ok b && (node_ok x && node_ok y)
  node_ok (paren opening e closing) = node_ok e
  node_ok (switch ifs e) = nodes_ok ifs && node_ok e
  node_ok (switch_without_else ifs) = nodes_ok ifs
  node_ok (switch_if kw b arrow e) = node_ok b && node_ok e
  node_ok (switch_else kw arrow e) = node_ok e
  node_ok (anon_func modifiers kw args ret body) = arg_list_ok args && node_ok body
  node_ok _ = false

  pub nodes_ok : Nodes → Bool
  nodes_ok no_nodes = true
  nodes_ok (node_and e es) = node_ok e && nodes_ok es

  pub arg_list_ok : ArgumentListDecl → Bool
  arg_list_ok (argument_list_decl opening args commas closing missing) = args_ok args

  pub args_ok : ArgSpecs → Bool
  args_ok no_args = true
  args_ok (arg_and a as_) = arg_ok a && args_ok as_

  pub arg_ok : ArgSpec → Bool
  arg_ok (arg p id) = not (starts_static p)
  arg_ok (arg_initialized p id eq e) = not (starts_static p) && node_ok e
  arg_ok (arg_without_expr p id eq) = not (starts_static p)
