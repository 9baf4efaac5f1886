-- ===== src/Lex/Number.antt =====
-- LexerImpl::nextLitNumber, nextLitNumberHex and nextLitNumberBinary.
pub mod Decimal
use novus.Base.{
  ℕ, ◌+◌, ◌-◌, ◌*◌, ◌/◌, ◌%◌, ◌^◌, Bool, true, false, List, [], ◌∷◌, ◌&&◌, ◌||◌, not, ltb, leb,
  ◌==◌, if◌then◌else◌,
}
use novus.Lex.Token.{
  Token, LexError, lit_int, lit_long, lit_float, lit_number_invalid_char,
  lit_number_ends_with_seperator, lit_number_ends_with_decimal_point, lit_float_unrepresentable,
  lit_long_too_big, lit_int_too_big, lit_hex_invalid_char, lit_binary_invalid_char,
}
use novus.Lex.Chars.{is_token_seperator, is_digit}
use novus.Lex.Source.{Source, source, advance, emit, fail}

abbrev pub u64_max : ℕ
u64_max = 2 ^ 64 - 1

-- The local variables of nextLitNumber. `is_long` is set only where the loop is left.
pub record Number : Type 0 where
  pub passed_dec_point : Bool
  pub result : ℕ
  pub too_big : Bool
  pub contains_invalid_char : Bool
  pub is_long : Bool
  pub divider : ℕ
  pub cur_char : ℕ

-- One more digit: the bounds are checked before the unsigned arithmetic.
unfoldable pub add_digit : ℕ → Number → Number
add_digit add n =
    let result = (n.result * 10 + add) % 2 ^ 64 in
    if ltb ((u64_max - add) / 10) n.result
    then record n { too_big = true }
    else if not n.passed_dec_point
    then record n { result = result }
    else if ltb (u64_max / 10) n.divider
    then record n { result = result; too_big = true }
    else record n { result = result; divider = n.divider * 10 % 2 ^ 64 }

-- The loop's body on the character that it has consumed.
unfoldable pub number_step : Number → ℕ → Number
number_step n c =
    let m = record n { cur_char = c } in
    if is_digit c
    then add_digit (c - b'0') m
    else if c == b'_'
    then m
    else if not n.passed_dec_point && c == b'.'
    then record m { passed_dec_point = true }
    else if not n.passed_dec_point && (c == b'l' || c == b'L')
    then record m { is_long = true }
    else record m { contains_invalid_char = true }

unfoldable pub number_loop : Number → ℕ → List ℕ → Number × Source
number_loop n pos [] = (n, source pos [])
number_loop n pos (c ∷ cs) =
    let more = number_loop (number_step n c) (advance c pos) cs in
    if not (is_token_seperator c) || c == b'.'
    then if (number_step n c).is_long then (number_step n c, source (advance c pos) cs) else more
    else (n, source pos (c ∷ cs))

-- What follows the loop.
unfoldable pub finish_number : ℕ → Number × Source → Token × Source
finish_number first (n, s) =
    if n.contains_invalid_char
    then fail lit_number_invalid_char first s
    else if n.cur_char == b'_'
    then fail lit_number_ends_with_seperator first s
    else if n.cur_char == b'.'
    then fail lit_number_ends_with_decimal_point first s
    else if n.passed_dec_point
    then if n.too_big
      then fail lit_float_unrepresentable first s
      else emit (lit_float n.result n.divider) first s
    else if n.is_long
    then if n.too_big || ltb (2 ^ 63 - 1) n.result
      then fail lit_long_too_big first s
      else emit (lit_long n.result) first s
    else if n.too_big || ltb (2 ^ 31 - 1) n.result
    then fail lit_int_too_big first s
    else emit (lit_int n.result) first s

-- The variables before the loop; `c` is a digit or the decimal point.
unfoldable pub start_number : ℕ → Number
start_number c = record {
  passed_dec_point = c == b'.';
  result = if c == b'.' then 0 else c - b'0';
  too_big = false;
  contains_invalid_char = false;
  is_long = false;
  divider = 1;
  cur_char = c;
}

unfoldable pub next_lit_number : ℕ → Source → Token × Source
next_lit_number c s = finish_number (s.pos - 1) (number_loop (start_number c) s.pos s.input)

-- The local variables of nextLitNumberHex and nextLitNumberBinary.
pub record Radix : Type 0 where
  pub result : ℕ
  pub cur_char : ℕ
  pub contains_invalid_char : Bool
  pub is_long : Bool
  pub too_big : Bool

abbrev pub start_radix : ℕ → Radix
start_radix c = record {
  result = 0;
  cur_char = c;
  contains_invalid_char = false;
  is_long = false;
  too_big = false;
}

-- The check for overflow, then a shift by a nibble.
unfoldable pub add_nibble : ℕ → Radix → Radix
add_nibble to_add n =
    if ltb ((u64_max - to_add) / 2 ^ 4) n.result
    then record n { too_big = true }
    else record n { result = (n.result * 2 ^ 4 + to_add) % 2 ^ 64 }

unfoldable pub hex_step : Radix → ℕ → Radix
hex_step n c =
    let m = record n { cur_char = c } in
    if is_digit c
    then add_nibble (c - b'0') m
    else if leb b'a' c && leb c b'f'
    then add_nibble (c - (b'a' - 10)) m
    else if leb b'A' c && leb c b'F'
    then add_nibble (c - (b'A' - 10)) m
    else if c == b'_'
    then m
    else if c == b'l' || c == b'L'
    then record m { is_long = true }
    else add_nibble 0 (record m { contains_invalid_char = true })

-- The wrapped shift is made also where the overflow has been noted.
unfoldable pub binary_step : Radix → ℕ → Radix
binary_step n c =
    let m = record n { cur_char = c } in
    if c == b'0' || c == b'1'
    then record m {
      too_big = n.too_big || ltb ((u64_max - (c - b'0')) / 2) n.result;
      result = (n.result * 2 + (c - b'0')) % 2 ^ 64;
    }
    else if c == b'_'
    then m
    else if c == b'l' || c == b'L'
    then record m { is_long = true }
    else record m { contains_invalid_char = true }

-- The loop that both share.
unfoldable pub radix_loop : (Radix → ℕ → Radix) → Radix → ℕ → List ℕ → Radix × Source
radix_loop step n pos [] = (n, source pos [])
radix_loop step n pos (c ∷ cs) =
    let more = radix_loop step (step n c) (advance c pos) cs in
    if not (is_token_seperator c)
    then if (step n c).is_long then (step n c, source (advance c pos) cs) else more
    else (n, source pos (c ∷ cs))

-- What follows the loop: the result is reinterpreted as a signed number of its width.
unfoldable pub finish_radix : LexError → ℕ → Radix × Source → Token × Source
finish_radix bad_char first (n, s) =
    if n.contains_invalid_char
    then fail bad_char first s
    else if n.cur_char == b'_'
    then fail lit_number_ends_with_seperator first s
    else if n.is_long
    then if n.too_big then fail lit_long_too_big first s else emit (lit_long n.result) first s
    else if n.too_big || ltb (2 ^ 32 - 1) n.result
    then fail lit_int_too_big first s
    else emit (lit_int n.result) first s

-- The span takes the prefix into account.
unfoldable pub next_lit_number_hex : Source → Token × Source
next_lit_number_hex s =
    finish_radix lit_hex_invalid_char (s.pos - 2)
      (radix_loop hex_step (start_radix b'x') s.pos s.input)

unfoldable pub next_lit_number_binary : Source → Token × Source
next_lit_number_binary s =
    finish_radix lit_binary_invalid_char (s.pos - 2)
      (radix_loop binary_step (start_radix b'b') s.pos s.input)
