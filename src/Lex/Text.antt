-- ===== src/Lex/Text.antt =====
-- LexerImpl::nextLitStr, nextLitChar, nextStaticInt and nextLineComment.
pub mod RoundTrip
use novus.Base.{
  ℕ, ◌+◌, ◌-◌, ◌*◌, ◌%◌, ◌^◌, Bool, true, false, List, [], ◌∷◌, ◌++◌, Option, none, some, ◌&&◌,
  ◌||◌, not, ltb, ◌==◌, if◌then◌else◌,
}
use novus.Input.CharEscape.{unescape}
use novus.Lex.Token.{
  Token, lit_string, lit_char, static_int, line_comment, lit_str_unterminated,
  lit_str_invalid_escape, lit_char_empty, lit_char_too_big, lit_char_unterminated,
  lit_char_invalid_escape, static_int_no_digits, static_int_too_big, static_int_invalid_char,
}
use novus.Lex.Chars.{is_token_seperator, is_digit}
use novus.Lex.Source.{Source, source, advance, consume_char, peek_char, emit, fail}

-- '\0', '\r' and '\n' end a literal that has not been closed.
abbrev pub is_break : ℕ → Bool
is_break c = c == 0 || c == 13 || c == 10

abbrev pub push_some : List ℕ → Option ℕ → List ℕ
push_some result none = result
push_some result (some c) = result ++ (c ∷ [])

abbrev pub is_none : Option ℕ → Bool
is_none none = true
is_none (some _) = false

-- The loop of nextLitStr. At the end of the input '\0' is read; behind a backslash there it is no
-- escape, and the next round ends.
unfoldable pub str_loop : ℕ → List ℕ → Bool → ℕ → List ℕ → Token × Source
str_loop first result invalid pos [] = fail lit_str_unterminated first (source pos [])
str_loop first result invalid pos (c ∷ []) =
    let s = source (advance c pos) [] in
    if is_break c
    then fail lit_str_unterminated first s
    else if c == b'"'
    then if invalid then fail lit_str_invalid_escape first s else emit (lit_string result) first s
    else fail lit_str_unterminated first s
str_loop first result invalid pos (c ∷ d ∷ cs) =
    let s = source (advance c pos) (d ∷ cs) in
    let escaped =
      str_loop first (push_some result (unescape d)) (invalid || is_none (unescape d))
        (advance d s.pos) cs in
    let plain = str_loop first (result ++ (c ∷ [])) invalid s.pos (d ∷ cs) in
    if is_break c
    then fail lit_str_unterminated first s
    else if c == b'\\'
    then escaped
    else if c == b'"'
    then if invalid then fail lit_str_invalid_escape first s else emit (lit_string result) first s
    else plain

unfoldable pub next_lit_str : Source → Token × Source
next_lit_str s = str_loop (s.pos - 1) [] false s.pos s.input

-- The loop of nextLitChar, behind the character itself.
unfoldable pub char_loop : ℕ → ℕ → Bool → Bool → ℕ → List ℕ → Token × Source
char_loop first c too_big invalid pos [] = fail lit_char_unterminated first (source pos [])
char_loop first c too_big invalid pos (x ∷ xs) =
    let s = source (advance x pos) xs in
    let more = char_loop first c true invalid s.pos xs in
    if is_break x
    then fail lit_char_unterminated first s
    else if x == b'\''
    then if too_big
      then fail lit_char_too_big first s
      else if invalid
      then fail lit_char_invalid_escape first s
      else emit (lit_char c) first s
    else more

abbrev pub or_else : Option ℕ → ℕ → ℕ
or_else none c = c
or_else (some d) c = d

unfoldable pub next_lit_char : Source → Token × Source
next_lit_char s =
    let first = s.pos - 1 in
    let (c, s1) = consume_char s in
    let (d, s2) = consume_char s1 in
    if c == b'\''
    then fail lit_char_empty first s1
    else if c == b'\\'
    then char_loop first (or_else (unescape d) c) false (is_none (unescape d)) s2.pos s2.input
    else char_loop first c false false s1.pos s1.input

-- The local variables of nextStaticInt.
pub record StaticInt : Type 0 where
  pub val : ℕ
  pub at_least_one_digit : Bool
  pub contains_invalid_char : Bool
  pub too_big : Bool

unfoldable pub static_step : StaticInt → ℕ → StaticInt
static_step n c =
    let val = (n.val * 10 + c - b'0') % 2 ^ 64 in
    if is_digit c
    then record n {
      val = val;
      at_least_one_digit = true;
      too_big = n.too_big || ltb (2 ^ 31 - 1) val;
    }
    else record n { contains_invalid_char = true }

unfoldable pub static_loop : StaticInt → ℕ → List ℕ → StaticInt × Source
static_loop n pos [] = (n, source pos [])
static_loop n pos (c ∷ cs) =
    let more = static_loop (static_step n c) (advance c pos) cs in
    if not (is_token_seperator c) || c == b'-' then more else (n, source pos (c ∷ cs))

-- static_cast<int32_t>(val) * (negative ? -1 : 1), as a bit pattern.
abbrev pub signed : Bool → ℕ → ℕ
signed negative val = if negative then (2 ^ 32 - val) % 2 ^ 32 else val

unfoldable pub finish_static_int : ℕ → Bool → StaticInt × Source → Token × Source
finish_static_int first negative (n, s) =
    if n.contains_invalid_char
    then fail static_int_invalid_char first s
    else if not n.at_least_one_digit
    then fail static_int_no_digits first s
    else if n.too_big
    then fail static_int_too_big first s
    else emit (static_int (signed negative n.val)) first s

unfoldable pub next_static_int : Source → Token × Source
next_static_int s =
    let negative = peek_char s == b'-' in
    let s1 = if negative then (consume_char s).1 else s in
    let start : StaticInt = record {
      val = 0;
      at_least_one_digit = false;
      contains_invalid_char = false;
      too_big = false;
    } in
    finish_static_int (s.pos - 1) negative (static_loop start s1.pos s1.input)

-- A line break or '\0' ends a comment and is consumed; '\r' is dropped.
unfoldable pub comment_loop : ℕ → List ℕ → ℕ → List ℕ → Token × Source
comment_loop first comment pos [] = emit (line_comment comment) first (source pos [])
comment_loop first comment pos (c ∷ cs) =
    let s = source (advance c pos) cs in
    let more = comment_loop first (if c == 13 then comment else comment ++ (c ∷ [])) s.pos cs in
    if c == 0 || c == 10 then emit (line_comment comment) first s else more

unfoldable pub next_line_comment : Source → Token × Source
next_line_comment s = let s1 = (consume_char s).1 in comment_loop (s.pos - 1) [] s1.pos s1.input
