-- ===== src/Parse/Tokens.antt =====
-- src/lex/token_cat.cpp, src/parse/op_precedence.{hpp,cpp} and getKw of src/parse/utilities.cpp: what the
-- parser asks of a token.
use novus.Base.{ℕ, Option, none, some, Bool, true, false, ◌==◌}
use novus.Lex.Token.{
  TokenKind, Keyword, Payload, Token, end_of_input, basic, lit_int, lit_long, lit_char, static_int,
  lit_float, lit_bool, lit_string, identifier, line_comment, keyword, error,
}

-- The places of the kinds and of the keywords in their enums, to compare them.
unfoldable pub kind_index : TokenKind → ℕ
kind_index TokenKind.op_plus = 0
kind_index TokenKind.op_plus_plus = 1
kind_index TokenKind.op_minus = 2
kind_index TokenKind.op_minus_minus = 3
kind_index TokenKind.op_star = 4
kind_index TokenKind.op_slash = 5
kind_index TokenKind.op_rem = 6
kind_index TokenKind.op_amp = 7
kind_index TokenKind.op_amp_amp = 8
kind_index TokenKind.op_pipe = 9
kind_index TokenKind.op_pipe_pipe = 10
kind_index TokenKind.op_hat = 11
kind_index TokenKind.op_tilde = 12
kind_index TokenKind.op_shift_l = 13
kind_index TokenKind.op_shift_r = 14
kind_index TokenKind.op_eq = 15
kind_index TokenKind.op_eq_eq = 16
kind_index TokenKind.op_bang = 17
kind_index TokenKind.op_bang_bang = 18
kind_index TokenKind.op_bang_eq = 19
kind_index TokenKind.op_le = 20
kind_index TokenKind.op_le_eq = 21
kind_index TokenKind.op_gt = 22
kind_index TokenKind.op_gt_eq = 23
kind_index TokenKind.op_semi = 24
kind_index TokenKind.op_q_mark = 25
kind_index TokenKind.op_q_mark_q_mark = 26
kind_index TokenKind.op_dot = 27
kind_index TokenKind.op_colon_colon = 28
kind_index TokenKind.op_square_square = 29
kind_index TokenKind.op_paren_paren = 30
kind_index TokenKind.sep_open_paren = 31
kind_index TokenKind.sep_close_paren = 32
kind_index TokenKind.sep_open_curly = 33
kind_index TokenKind.sep_close_curly = 34
kind_index TokenKind.sep_open_square = 35
kind_index TokenKind.sep_close_square = 36
kind_index TokenKind.sep_comma = 37
kind_index TokenKind.sep_colon = 38
kind_index TokenKind.sep_arrow = 39
kind_index TokenKind.discard = 40

unfoldable pub keyword_index : Keyword → ℕ
keyword_index Keyword.kw_intrinsic = 0
keyword_index Keyword.kw_import = 1
keyword_index Keyword.kw_fun = 2
keyword_index Keyword.kw_act = 3
keyword_index Keyword.kw_self = 4
keyword_index Keyword.kw_lambda = 5
keyword_index Keyword.kw_impure = 6
keyword_index Keyword.kw_fork = 7
keyword_index Keyword.kw_lazy = 8
keyword_index Keyword.kw_struct = 9
keyword_index Keyword.kw_union = 10
keyword_index Keyword.kw_enum = 11
keyword_index Keyword.kw_if = 12
keyword_index Keyword.kw_else = 13
keyword_index Keyword.kw_is = 14
keyword_index Keyword.kw_as = 15
keyword_index Keyword.kw_noinline = 16
keyword_index Keyword.kw_implicit = 17

-- getKind() == k, for a kind without a payload.
unfoldable pub is_kind : TokenKind → Token → Bool
is_kind k t = elim t.payload [ basic j ↦ kind_index j == kind_index k | _ ↦ false ]

unfoldable pub get_kw : Token → Option Keyword
get_kw t = elim t.payload [ keyword k ↦ some k | _ ↦ none ]

unfoldable pub is_kw : Keyword → Token → Bool
is_kw k t = elim t.payload [ keyword j ↦ keyword_index j == keyword_index k | _ ↦ false ]

unfoldable pub is_keyword : Token → Bool
is_keyword t = elim t.payload [ keyword j ↦ true | _ ↦ false ]

unfoldable pub is_identifier : Token → Bool
is_identifier t = elim t.payload [ identifier name ↦ true | _ ↦ false ]

unfoldable pub is_static_int : Token → Bool
is_static_int t = elim t.payload [ static_int n ↦ true | _ ↦ false ]

unfoldable pub is_lit_int : Token → Bool
is_lit_int t = elim t.payload [ lit_int n ↦ true | _ ↦ false ]

unfoldable pub is_lit_string : Token → Bool
is_lit_string t = elim t.payload [ lit_string s ↦ true | _ ↦ false ]

unfoldable pub is_line_comment : Token → Bool
is_line_comment t = elim t.payload [ line_comment s ↦ true | _ ↦ false ]

unfoldable pub is_end : Token → Bool
is_end t = elim t.payload [ end_of_input ↦ true | _ ↦ false ]

pub data TokenCat : Type 0 where
  operator_cat seperator_cat literal_cat keyword_cat identifier_cat : TokenCat
  comment_cat error_cat unknown_cat : TokenCat

unfoldable pub kind_cat : TokenKind → TokenCat
kind_cat TokenKind.op_plus = operator_cat
kind_cat TokenKind.op_plus_plus = operator_cat
kind_cat TokenKind.op_minus = operator_cat
kind_cat TokenKind.op_minus_minus = operator_cat
kind_cat TokenKind.op_star = operator_cat
kind_cat TokenKind.op_slash = operator_cat
kind_cat TokenKind.op_rem = operator_cat
kind_cat TokenKind.op_amp = operator_cat
kind_cat TokenKind.op_amp_amp = operator_cat
kind_cat TokenKind.op_pipe = operator_cat
kind_cat TokenKind.op_pipe_pipe = operator_cat
kind_cat TokenKind.op_hat = operator_cat
kind_cat TokenKind.op_tilde = operator_cat
kind_cat TokenKind.op_shift_l = operator_cat
kind_cat TokenKind.op_shift_r = operator_cat
kind_cat TokenKind.op_eq = operator_cat
kind_cat TokenKind.op_eq_eq = operator_cat
kind_cat TokenKind.op_bang = operator_cat
kind_cat TokenKind.op_bang_bang = operator_cat
kind_cat TokenKind.op_bang_eq = operator_cat
kind_cat TokenKind.op_le = operator_cat
kind_cat TokenKind.op_le_eq = operator_cat
kind_cat TokenKind.op_gt = operator_cat
kind_cat TokenKind.op_gt_eq = operator_cat
kind_cat TokenKind.op_semi = operator_cat
kind_cat TokenKind.op_q_mark = operator_cat
kind_cat TokenKind.op_q_mark_q_mark = operator_cat
kind_cat TokenKind.op_dot = operator_cat
kind_cat TokenKind.op_colon_colon = operator_cat
kind_cat TokenKind.op_square_square = operator_cat
kind_cat TokenKind.op_paren_paren = operator_cat
kind_cat TokenKind.sep_open_paren = seperator_cat
kind_cat TokenKind.sep_close_paren = seperator_cat
kind_cat TokenKind.sep_open_curly = seperator_cat
kind_cat TokenKind.sep_close_curly = seperator_cat
kind_cat TokenKind.sep_open_square = seperator_cat
kind_cat TokenKind.sep_close_square = seperator_cat
kind_cat TokenKind.sep_comma = seperator_cat
kind_cat TokenKind.sep_colon = seperator_cat
kind_cat TokenKind.sep_arrow = seperator_cat
kind_cat TokenKind.discard = identifier_cat

-- getCat. A static int is in the category of the keywords.
unfoldable pub lookup_cat : Payload → TokenCat
lookup_cat end_of_input = unknown_cat
lookup_cat (basic k) = kind_cat k
lookup_cat (lit_int n) = literal_cat
lookup_cat (lit_long n) = literal_cat
lookup_cat (lit_char n) = literal_cat
lookup_cat (static_int n) = keyword_cat
lookup_cat (lit_float a b) = literal_cat
lookup_cat (lit_bool b) = literal_cat
lookup_cat (lit_string s) = literal_cat
lookup_cat (identifier s) = identifier_cat
lookup_cat (line_comment s) = comment_cat
lookup_cat (keyword k) = keyword_cat
lookup_cat (error e) = error_cat

unfoldable pub is_operator : Token → Bool
is_operator t = elim (lookup_cat t.payload) [ operator_cat ↦ true | _ ↦ false ]

abbrev pub call_precedence : ℕ
call_precedence = 17

abbrev pub unary_precedence : ℕ
unary_precedence = 14

abbrev pub type_test_precedence : ℕ
type_test_precedence = 10

abbrev pub assignment_precedence : ℕ
assignment_precedence = 2

abbrev pub grouping_precedence : ℕ
grouping_precedence = 1

unfoldable pub lhs_precedence : TokenKind → ℕ
lhs_precedence TokenKind.op_plus = unary_precedence
lhs_precedence TokenKind.op_plus_plus = unary_precedence
lhs_precedence TokenKind.op_minus = unary_precedence
lhs_precedence TokenKind.op_minus_minus = unary_precedence
lhs_precedence TokenKind.op_bang = unary_precedence
lhs_precedence TokenKind.op_tilde = unary_precedence
lhs_precedence TokenKind.op_q_mark = unary_precedence
lhs_precedence _ = 0

unfoldable pub get_lhs_op_precedence : Token → ℕ
get_lhs_op_precedence t = elim t.payload [ basic k ↦ lhs_precedence k | _ ↦ 0 ]

unfoldable pub rhs_precedence : TokenKind → ℕ
rhs_precedence TokenKind.op_paren_paren = call_precedence
rhs_precedence TokenKind.sep_open_paren = call_precedence
rhs_precedence TokenKind.sep_open_square = call_precedence
rhs_precedence TokenKind.op_q_mark_q_mark = 15
rhs_precedence TokenKind.op_dot = 16
rhs_precedence TokenKind.op_star = 13
rhs_precedence TokenKind.op_slash = 13
rhs_precedence TokenKind.op_rem = 13
rhs_precedence TokenKind.op_plus = 12
rhs_precedence TokenKind.op_minus = 12
rhs_precedence TokenKind.op_colon_colon = 12
rhs_precedence TokenKind.op_tilde = 12
rhs_precedence TokenKind.op_shift_l = 11
rhs_precedence TokenKind.op_shift_r = 11
rhs_precedence TokenKind.op_le = 9
rhs_precedence TokenKind.op_le_eq = 9
rhs_precedence TokenKind.op_gt = 9
rhs_precedence TokenKind.op_gt_eq = 9
rhs_precedence TokenKind.op_eq_eq = 8
rhs_precedence TokenKind.op_bang_eq = 8
rhs_precedence TokenKind.op_amp = 7
rhs_precedence TokenKind.op_amp_amp = 7
rhs_precedence TokenKind.op_hat = 6
rhs_precedence TokenKind.op_pipe = 5
rhs_precedence TokenKind.op_pipe_pipe = 5
rhs_precedence TokenKind.op_bang = 4
rhs_precedence TokenKind.op_bang_bang = 4
rhs_precedence TokenKind.op_q_mark = 3
rhs_precedence TokenKind.op_semi = grouping_precedence
rhs_precedence _ = 0

unfoldable pub keyword_precedence : Keyword → ℕ
keyword_precedence Keyword.kw_is = type_test_precedence
keyword_precedence Keyword.kw_as = type_test_precedence
keyword_precedence _ = 0

unfoldable pub get_rhs_op_precedence : Token → ℕ
get_rhs_op_precedence t = elim t.payload [
  | basic k ↦ rhs_precedence k
  | keyword k ↦ keyword_precedence k
  | _ ↦ 0
]

unfoldable pub is_right_associative : Token → Bool
is_right_associative = is_kind TokenKind.op_colon_colon
