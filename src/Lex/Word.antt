-- ===== src/Lex/Word.antt =====
-- LexerImpl::nextWordToken of src/lex/lexer.cpp and getKeyword of src/lex/keyword.cpp.
pub mod Tokens
use novus.Base.{
  ℕ, ◌+◌, ◌-◌, Bool, true, false, List, [], ◌∷◌, ◌++◌, Option, none, some, ◌&&◌, ◌||◌, not, ◌==◌,
  if◌then◌else◌, codes, str_eq,
}
use novus.Lex.Token.{
  Token, Keyword, kw_intrinsic, kw_import, kw_fun, kw_act, kw_self, kw_lambda, kw_impure, kw_fork,
  kw_lazy, kw_struct, kw_union, kw_enum, kw_if, kw_else, kw_is, kw_as, kw_noinline, kw_implicit,
  lit_bool, keyword, identifier, identifier_illegal_character, identifier_illegal_sequence,
}
use novus.Lex.Chars.{is_token_seperator, is_digit, is_word_continuation}
use novus.Lex.Source.{Source, source, advance, head_or_nul, peek_char, emit, fail}

abbrev pub keyword_table : List (List ℕ × Keyword)
keyword_table =
    (codes "intrinsic", kw_intrinsic)
    ∷ (codes "import", kw_import)
    ∷ (codes "fun", kw_fun)
    ∷ (codes "act", kw_act)
    ∷ (codes "self", kw_self)
    ∷ (codes "lambda", kw_lambda)
    ∷ (codes "impure", kw_impure)
    ∷ (codes "fork", kw_fork)
    ∷ (codes "lazy", kw_lazy)
    ∷ (codes "struct", kw_struct)
    ∷ (codes "union", kw_union)
    ∷ (codes "enum", kw_enum)
    ∷ (codes "if", kw_if)
    ∷ (codes "else", kw_else)
    ∷ (codes "is", kw_is)
    ∷ (codes "as", kw_as)
    ∷ (codes "noinline", kw_noinline)
    ∷ (codes "implicit", kw_implicit)
    ∷ []

unfoldable pub find_keyword : List ℕ → List (List ℕ × Keyword) → Option Keyword
find_keyword str [] = none
find_keyword str ((k, v) ∷ table) = if str_eq str k then some v else find_keyword str table

unfoldable pub get_keyword : List ℕ → Option Keyword
get_keyword str = find_keyword str keyword_table

-- The local variables of nextWordToken.
pub record Word : Type 0 where
  pub result : List ℕ
  pub invalid_character : Bool
  pub illegal_sequence : Bool

-- The loop's body on the character consumed and the one behind it.
unfoldable pub word_step : Word → ℕ → ℕ → Word
word_step w c behind =
    if is_word_continuation c || is_digit c
    then record w { result = w.result ++ (c ∷ []) }
    else if c == b'_'
    then if behind == b'_'
      then record w { illegal_sequence = true }
      else record w { result = w.result ++ (c ∷ []) }
    else record w { invalid_character = true }

unfoldable pub word_loop : Word → ℕ → List ℕ → Word × Source
word_loop w pos [] = (w, source pos [])
word_loop w pos (c ∷ cs) =
    let more = word_loop (word_step w c (head_or_nul cs)) (advance c pos) cs in
    if not (is_token_seperator c) then more else (w, source pos (c ∷ cs))

abbrev pub finish_identifier : ℕ → Word → Source → Token × Source
finish_identifier first w s =
    if w.invalid_character
    then fail identifier_illegal_character first s
    else if w.illegal_sequence
    then fail identifier_illegal_sequence first s
    else emit (identifier w.result) first s

-- Literals and keywords are looked for before the marks of an illegal word are.
unfoldable pub finish_word : ℕ → Word × Source → Token × Source
finish_word first (w, s) =
    if str_eq w.result (codes "true")
    then emit (lit_bool true) first s
    else if str_eq w.result (codes "false")
    then emit (lit_bool false) first s
    else elim (get_keyword w.result) [
      | some kw ↦ emit (keyword kw) first s
      | none ↦ finish_identifier first w s
    ]

unfoldable pub next_word_token : ℕ → Source → Token × Source
next_word_token c s =
    let start : Word = record {
      result = c ∷ [];
      invalid_character = false;
      illegal_sequence = c == b'_' && peek_char s == b'_';
    } in
    finish_word (s.pos - 1) (word_loop start s.pos s.input)
