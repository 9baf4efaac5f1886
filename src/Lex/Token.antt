-- ===== src/Lex/Token.antt =====
-- include/lex/token.hpp, token_kind.hpp, error.hpp, keyword.hpp: tokens with their payloads.
use novus.Base.{ℕ, Bool, List}

-- input::Span: the positions of the first and the last character.
pub record Span : Type 0 where
  pub start : ℕ
  pub end : ℕ

abbrev pub span : ℕ → ℕ → Span
span s e = record { start = s; end = e }

-- The kinds of token that carry no payload.
pub data TokenKind : Type 0 where
  op_plus op_plus_plus op_minus op_minus_minus op_star op_slash op_rem op_amp : TokenKind
  op_amp_amp op_pipe op_pipe_pipe op_hat op_tilde op_shift_l op_shift_r op_eq : TokenKind
  op_eq_eq op_bang op_bang_bang op_bang_eq op_le op_le_eq op_gt op_gt_eq op_semi : TokenKind
  op_q_mark op_q_mark_q_mark op_dot op_colon_colon op_square_square : TokenKind
  op_paren_paren sep_open_paren sep_close_paren sep_open_curly sep_close_curly : TokenKind
  sep_open_square sep_close_square sep_comma sep_colon sep_arrow discard : TokenKind

pub data Keyword : Type 0 where
  kw_intrinsic kw_import kw_fun kw_act kw_self kw_lambda kw_impure kw_fork kw_lazy : Keyword
  kw_struct kw_union kw_enum kw_if kw_else kw_is kw_as kw_noinline kw_implicit : Keyword

-- One constructor for each err… function of error.hpp.
pub data LexError : Type 0 where
  invalid_char : ℕ → LexError
  lit_int_too_big lit_long_too_big lit_float_unrepresentable : LexError
  lit_number_invalid_char lit_hex_invalid_char lit_binary_invalid_char : LexError
  lit_number_ends_with_seperator lit_number_ends_with_decimal_point : LexError
  lit_str_unterminated lit_str_invalid_escape lit_char_empty lit_char_too_big : LexError
  lit_char_unterminated lit_char_invalid_escape static_int_no_digits : LexError
  static_int_too_big static_int_invalid_char identifier_illegal_character : LexError
  identifier_illegal_sequence : LexError

-- An int32_t or an int64_t is its bit pattern. A float literal is the two numbers whose quotient it
-- is, before the division in floating point.
pub data Payload : Type 0 where
  end_of_input : Payload
  basic : TokenKind → Payload
  lit_int lit_long lit_char static_int : ℕ → Payload
  lit_float : ℕ → ℕ → Payload
  lit_bool : Bool → Payload
  lit_string identifier line_comment : List ℕ → Payload
  keyword : Keyword → Payload
  error : LexError → Payload

pub record Token : Type 0 where
  pub payload : Payload
  pub at : Span
