-- ===== src/Lex/Next.antt =====
-- LexerImpl::next and lexAll: the dispatch on the next character, and the list of all tokens.
use novus.Base.{
  ℕ, zero, suc, ◌+◌, ◌-◌, Bool, true, false, List, [], ◌∷◌, Option, none, some, ◌||◌, ◌==◌,
  if◌then◌else◌, length,
}
use novus.Lex.Token.{
  Token, TokenKind, Payload, end_of_input, basic, invalid_char, op_plus, op_plus_plus, op_minus,
  op_minus_minus, op_star, op_slash, op_rem, op_amp, op_amp_amp, op_pipe, op_pipe_pipe, op_hat,
  op_tilde, op_shift_l, op_shift_r, op_eq, op_eq_eq, op_bang, op_bang_bang, op_bang_eq, op_le,
  op_le_eq, op_gt, op_gt_eq, op_semi, op_q_mark, op_q_mark_q_mark, op_dot, op_colon_colon,
  op_square_square, op_paren_paren, sep_open_paren, sep_close_paren, sep_open_curly,
  sep_close_curly, sep_open_square, sep_close_square, sep_comma, sep_colon, sep_arrow, discard,
}
use novus.Lex.Chars.{is_digit, is_word_start}
use novus.Lex.Source.{Source, source, advance, consume_char, peek_char, emit, fail}
use novus.Lex.Number.{next_lit_number, next_lit_number_hex, next_lit_number_binary}
use novus.Lex.Text.{next_lit_str, next_lit_char, next_static_int, next_line_comment}
use novus.Lex.Word.{next_word_token}

-- The result of LexerImpl::next.
abbrev pub Lexed : Type 0
Lexed = Token × Source

-- A token of the one character consumed.
unfoldable pub one : TokenKind → Source → Lexed
one kind s = emit (basic kind) (s.pos - 1) s

-- A token of two characters, the second of which has been peeked: Span{m_inputPos - 1, m_inputPos}.
unfoldable pub two : TokenKind → Source → Lexed
two kind s = let s1 = (consume_char s).1 in emit (basic kind) (s1.pos - 2) s1

-- The operator of two characters if `c` follows.
unfoldable pub one_or_two : ℕ → TokenKind → TokenKind → Source → Lexed
one_or_two c double single s = if peek_char s == c then two double s else one single s

-- The same with two operators of two characters.
unfoldable pub one_or_either : ℕ → TokenKind → ℕ → TokenKind → TokenKind → Source → Lexed
one_or_either c first d second single s =
    if peek_char s == c then two first s else one_or_two d second single s

-- The cases of `next` are grouped; `other` is what the cases below give.
unfoldable pub next_operator : ℕ → Source → Lexed → Lexed
next_operator c s other =
    if c == b'+'
    then one_or_two b'+' op_plus_plus op_plus s
    else if c == b'-'
    then one_or_either b'>' sep_arrow b'-' op_minus_minus op_minus s
    else if c == b'*'
    then one op_star s
    else if c == b'/'
    then if peek_char s == b'/' then next_line_comment s else one op_slash s
    else if c == b'%'
    then one op_rem s
    else if c == b'&'
    then one_or_two b'&' op_amp_amp op_amp s
    else if c == b'|'
    then one_or_two b'|' op_pipe_pipe op_pipe s
    else if c == b'^'
    then one op_hat s
    else if c == b'~'
    then one op_tilde s
    else if c == b'='
    then one_or_two b'=' op_eq_eq op_eq s
    else if c == b'!'
    then one_or_either b'!' op_bang_bang b'=' op_bang_eq op_bang s
    else if c == b'<'
    then one_or_either b'=' op_le_eq b'<' op_shift_l op_le s
    else if c == b'>'
    then one_or_either b'=' op_gt_eq b'>' op_shift_r op_gt s
    else other

unfoldable pub next_seperator : ℕ → Source → Lexed → Lexed
next_seperator c s other =
    if c == b';'
    then one op_semi s
    else if c == b'?'
    then one_or_two b'?' op_q_mark_q_mark op_q_mark s
    else if c == b'.'
    then if is_digit (peek_char s) then next_lit_number c s else one op_dot s
    else if c == b'('
    then one_or_two b')' op_paren_paren sep_open_paren s
    else if c == b')'
    then one sep_close_paren s
    else if c == b'{'
    then one sep_open_curly s
    else if c == b'}'
    then one sep_close_curly s
    else if c == b'['
    then one_or_two b']' op_square_square sep_open_square s
    else if c == b']'
    then one sep_close_square s
    else if c == b','
    then one sep_comma s
    else if c == b':'
    then one_or_two b':' op_colon_colon sep_colon s
    else other

-- '0' starts a hexadecimal or a binary literal before an x or a b.
unfoldable pub next_zero : Source → Lexed
next_zero s =
    if peek_char s == b'x' || peek_char s == b'X'
    then next_lit_number_hex (consume_char s).1
    else if peek_char s == b'b' || peek_char s == b'B'
    then next_lit_number_binary (consume_char s).1
    else next_lit_number b'0' s

-- '_' starts a word before a letter, a digit or another '_'.
unfoldable pub next_underscore : Source → Lexed
next_underscore s =
    let c = peek_char s in
    if is_word_start c || is_digit c || c == b'_' then next_word_token b'_' s else one discard s

unfoldable pub next_literal : ℕ → Source → Lexed
next_literal c s =
    if c == b'#'
    then next_static_int s
    else if c == b'0'
    then next_zero s
    else if is_digit c
    then next_lit_number c s
    else if c == b'"'
    then next_lit_str s
    else if c == b'\''
    then next_lit_char s
    else if c == b'_'
    then next_underscore s
    else if is_word_start c
    then next_word_token c s
    else fail (invalid_char c) (s.pos - 1) s

-- The switch on a character that has been consumed and is neither '\0' nor white space.
unfoldable pub dispatch : ℕ → Source → Lexed
dispatch c s = next_operator c s (next_seperator c s (next_literal c s))

-- Span{m_inputPos >= 0 ? m_inputPos : 0}
unfoldable pub end_token : Source → Lexed
end_token s = emit end_of_input (s.pos - 1) s

abbrev pub is_space : ℕ → Bool
is_space c = c == 32 || c == 9 || c == 10 || c == 13

-- The loop goes round for white space only.
unfoldable pub next_from : ℕ → List ℕ → Lexed
next_from pos [] = end_token (source pos [])
next_from pos (c ∷ cs) =
    let s = source (advance c pos) cs in
    let more = next_from s.pos cs in
    if c == 0 then end_token s else if is_space c then more else dispatch c s

unfoldable pub next : Source → Lexed
next s = next_from s.pos s.input

abbrev pub is_end : Payload → Bool
is_end end_of_input = true
is_end _ = false

-- lexAll: the tokens before the one that ends the input, which the token iterator stands for; none
-- where the fuel runs out.
unfoldable pub lex_from : ℕ → Source → Option (List Token)
lex_from zero s = none
lex_from (suc fuel) s =
    let rest = lex_from fuel (next s).1 in
    if is_end (next s).0.payload
    then some []
    else elim rest [ none ↦ none | some ts ↦ some ((next s).0 ∷ ts) ]

unfoldable pub lex_all : List ℕ → Option (List Token)
lex_all input = lex_from (length input + 1) (source 0 input)
