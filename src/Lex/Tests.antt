-- ===== src/Lex/Tests.antt =====
-- Runs of the lexer, and its theorems at concrete inputs.
use novus.Base.{
  ℕ, ◌≡◌, ◌↔◌, refl, true, false, List, [], ◌∷◌, ◌++◌, some, inl, inr, arith, codes, str_eq,
}
use novus.Input.CharEscape.{escape_str, unescape}
use novus.Lex.Token.{
  Token, Payload, lit_int, lit_long, lit_string, identifier, keyword, kw_if, basic, op_plus_plus,
  error, lit_int_too_big, lit_float, lit_bool,
}
use novus.Lex.Chars.{is_token_seperator, is_digit, is_word_start, is_word_continuation}
use novus.Lex.Source.{source, advance, consume_char, peek_char}
use novus.Lex.Buffer.{
  Lexer, Buffers, consume_buffered, peek_buffered, Buffers-start, consume_buffered-Buffers,
  peek_buffered-Buffers,
}
use novus.Lex.Number.{
  add_digit, number_step, number_loop, finish_number, start_number, next_lit_number, hex_step,
  add_nibble, radix_loop, finish_radix, next_lit_number_hex,
}
use novus.Lex.Number.Decimal.{value, last_of, int_token, next_lit_number_int, next_lit_number_long}
use novus.Lex.Text.{str_loop, next_lit_str}
use novus.Lex.Text.RoundTrip.{next_lit_str-escape}
use novus.Lex.Word.{find_keyword, get_keyword, word_step, word_loop, finish_word, next_word_token}
use novus.Lex.Word.Tokens.{
  get_keyword_iff, spelling, next_word_token_identifier, next_word_token_quote,
}
use novus.Lex.Next.{
  one, two, one_or_two, one_or_either, next_operator, next_seperator, next_zero, next_underscore,
  next_literal, dispatch, end_token, next_from, next, lex_all,
}
use novus.Lex.Spans.Next.{Ordered, lex_all-Ordered}

-- The payloads that the lexer finds.
lex : List ℕ → Payload
unfolding next next_from dispatch next_operator next_seperator next_literal one_or_two one_or_either
    one two next_zero next_underscore next_lit_number number_loop number_step add_digit
    finish_number start_number next_lit_number_hex radix_loop hex_step add_nibble finish_radix
    next_lit_str str_loop unescape next_word_token word_loop word_step finish_word get_keyword
    find_keyword str_eq is_token_seperator is_digit is_word_start is_word_continuation consume_char
    peek_char advance end_token
lex input = (next (source 0 input)).0.payload

lex_plus : lex (codes "  ++x") ≡ basic op_plus_plus
unfolding lex
lex_plus = refl

lex_number : lex (codes "1_000;") ≡ lit_int 1000
unfolding lex
lex_number = refl

lex_big : lex (codes "2147483648") ≡ error lit_int_too_big
unfolding lex
lex_big = refl

lex_float : lex (codes "4.25") ≡ lit_float 425 100
unfolding lex
lex_float = refl

lex_hex : lex (codes "0xFFL") ≡ lit_long 255
unfolding lex
lex_hex = refl

lex_string : lex (codes "\"a\\nb\" c") ≡ lit_string (97 ∷ 10 ∷ 98 ∷ [])
unfolding lex
lex_string = refl

lex_keyword : lex (codes "if (") ≡ keyword kw_if
unfolding lex
lex_keyword = refl

-- The illegal characters in these words are not reported.
lex_quotes : (lex (codes "i'f (") ≡ keyword kw_if) × (lex (codes "tr'ue") ≡ lit_bool true)
unfolding lex
lex_quotes = (refl, refl)

lex_all-Ordered_example : (ts : List Token) × (lex_all (codes "a + 1") ≡ some ts) × Ordered 0 5 ts
lex_all-Ordered_example = lex_all-Ordered (codes "a + 1")

next_lit_str-escape_example :
    ((next_lit_str (source 1 (escape_str (codes "a\t\"b") ++ (34 ∷ 59 ∷ [])))).0.payload
      ≡ lit_string (codes "a\t\"b"))
    × ((next_lit_str (source 1 (escape_str (codes "a\t\"b") ++ (34 ∷ 59 ∷ [])))).1.input ≡ 59 ∷ [])
next_lit_str-escape_example = next_lit_str-escape (codes "a\t\"b") (59 ∷ []) 1

next_lit_number_int_example :
    ((next_lit_number b'4' (source 1 (codes "_2;"))).0.payload
      ≡ int_token false (value 0 (codes "4_2")) (last_of b'4' (codes "_2")))
    × ((next_lit_number b'4' (source 1 (codes "_2;"))).1.input ≡ codes ";")
unfolding is_token_seperator
next_lit_number_int_example =
    next_lit_number_int b'4' (codes "_2") (codes ";") 1 (omega arith)
      (inr refl, (inl (omega arith), tt)) (refl, omega arith)

next_lit_number_long_example :
    ((next_lit_number b'4' (source 1 (codes "2L+"))).0.payload
      ≡ int_token true (value 0 (codes "42")) b'L')
    × ((next_lit_number b'4' (source 1 (codes "2L+"))).1.input ≡ codes "+")
next_lit_number_long_example =
    next_lit_number_long b'4' b'L' (codes "2") (codes "+") 1 (omega arith) (inl (omega arith), tt)
      (inr refl)

get_keyword_iff_example : (get_keyword (codes "if") ≡ some kw_if) ↔ (codes "if" ≡ spelling kw_if)
get_keyword_iff_example = get_keyword_iff (codes "if") kw_if

next_word_token_identifier_example :
    ((next_word_token b'a' (source 1 (codes "_1 "))).0.payload ≡ identifier (codes "a_1"))
    × ((next_word_token b'a' (source 1 (codes "_1 "))).1.input ≡ codes " ")
unfolding is_token_seperator is_word_continuation is_digit get_keyword find_keyword str_eq
next_word_token_identifier_example =
    next_word_token_identifier b'a' (codes "_1") (codes " ") 1
      (inl refl, (inr (refl, omega arith), (inl refl, tt))) refl (cc) (cc) refl

plain_if : (next_word_token b'i' (source 1 (codes "f "))).0.payload ≡ keyword kw_if
unfolding lex
plain_if = refl

next_word_token_quote_example :
    (next_word_token b'i' (source 1 (codes "'f "))).0.payload ≡ keyword kw_if
next_word_token_quote_example = next_word_token_quote b'i' 1 (codes "f ") kw_if plain_if

abbrev two_chars : Lexer
two_chars = record { input_pos = 0; read_buffer = []; input = codes "ab" }

consume_buffered-Buffers_example :
    ((consume_buffered two_chars).0 ≡ (consume_char (source 0 (codes "ab"))).0)
    × Buffers (consume_buffered two_chars).1 (consume_char (source 0 (codes "ab"))).1
consume_buffered-Buffers_example =
    consume_buffered-Buffers two_chars (source 0 (codes "ab")) (Buffers-start (codes "ab"))

peek_buffered-Buffers_example :
    ((peek_buffered 0 two_chars).0 ≡ peek_char (source 0 (codes "ab")))
    × Buffers (peek_buffered 0 two_chars).1 (source 0 (codes "ab"))
peek_buffered-Buffers_example =
    peek_buffered-Buffers two_chars (source 0 (codes "ab")) (Buffers-start (codes "ab"))
