-- ===== src/Lex/Spans/Text.antt =====
-- The spans of string, character, static integer and comment tokens, and of words.
use novus.Base.{
  ℕ, ◌+◌, ◌-◌, ◌≤◌, ◌<◌, Bool, true, false, List, [], ◌∷◌, ◌++◌, arith, if◌then◌else◌, ◌||◌, ◌==◌,
}
use novus.Input.CharEscape.{unescape}
use novus.Lex.Token.{Token}
use novus.Lex.Source.{Source, source, advance, consume_char, peek_char, head_or_nul}
use novus.Lex.Text.{
  push_some, is_none, str_loop, next_lit_str, char_loop, or_else, next_lit_char, StaticInt,
  static_step, static_loop, finish_static_int, next_static_int, comment_loop, next_line_comment,
}
use novus.Lex.Word.{Word, word_step, word_loop, finish_word, next_word_token}
use novus.Lex.Spans.{Spans, IsAfter, IsAfter-refl, IsAfter-cons, IsAfter-if}

advance-le : (c pos : ℕ) → (pos ≤ advance c pos) × (advance c pos ≤ pos + 1)
unfolding advance
advance-le c pos = ground arith

str_loop-Spans :
    (first : ℕ) (result : List ℕ) (invalid : Bool) (pos : ℕ) (cs : List ℕ)
    → first < pos
    → Spans first (source pos cs) (str_loop first result invalid pos cs)
unfolding str_loop
str_loop-Spans first result invalid pos [] h = omega arith
str_loop-Spans first result invalid pos (c ∷ []) h = ground (arith, advance-le c pos)
str_loop-Spans first result invalid pos (c ∷ d ∷ cs) h = ground (
  arith,
  advance-le c pos,
  advance-le d (advance c pos),
  str_loop-Spans first (push_some result (unescape d)) (invalid || is_none (unescape d))
      (advance d (advance c pos)) cs,
  str_loop-Spans first (result ++ (c ∷ [])) invalid (advance c pos) (d ∷ cs),
)

pub next_lit_str-Spans : (s : Source) → 0 < s.pos → Spans (s.pos - 1) s (next_lit_str s)
unfolding next_lit_str
next_lit_str-Spans s h = str_loop-Spans (s.pos - 1) [] false s.pos s.input (omega arith)

char_loop-Spans :
    (first c : ℕ) (too_big invalid : Bool) (pos : ℕ) (cs : List ℕ)
    → first < pos
    → Spans first (source pos cs) (char_loop first c too_big invalid pos cs)
unfolding char_loop
char_loop-Spans first c too_big invalid pos [] h = omega arith
char_loop-Spans first c too_big invalid pos (x ∷ xs) h =
    ground (arith, advance-le x pos, char_loop-Spans first c true invalid (advance x pos) xs)

pub consume_char-IsAfter : (s : Source) → IsAfter s (consume_char s).1
consume_char-IsAfter s = go s.pos s.input
  where
    go : (pos : ℕ) (cs : List ℕ) → IsAfter (source pos cs) (consume_char (source pos cs)).1
    go pos [] = unfold consume_char in IsAfter-refl (source pos [])
    go pos (c ∷ cs) = unfold consume_char in IsAfter-cons c pos cs _ (IsAfter-refl _)

-- A token that spans behind a later state spans behind an earlier one.
pub Spans-after :
    (first : ℕ) (s s' : Source) (r : Token × Source)
    → IsAfter s s'
    → Spans first s' r
    → Spans first s r
Spans-after first s s' r a h = omega arith

pub next_lit_char-Spans : (s : Source) → 0 < s.pos → Spans (s.pos - 1) s (next_lit_char s)
unfolding next_lit_char
next_lit_char-Spans s h =
    let (c, s1) = consume_char s in
    let (d, s2) = consume_char s1 in
    ground (
      arith,
      consume_char-IsAfter s,
      consume_char-IsAfter s1,
      char_loop-Spans (s.pos - 1) (or_else (unescape d) c) false (is_none (unescape d)) s2.pos
          s2.input,
      char_loop-Spans (s.pos - 1) c false false s1.pos s1.input,
    )

static_loop-IsAfter :
    (n : StaticInt) (pos : ℕ) (cs : List ℕ) → IsAfter (source pos cs) (static_loop n pos cs).1
unfolding static_loop
static_loop-IsAfter n pos [] = omega arith
static_loop-IsAfter n pos (c ∷ cs) =
    ground (arith, advance-le c pos, static_loop-IsAfter (static_step n c) (advance c pos) cs)

finish_static_int-Spans :
    (first : ℕ) (negative : Bool) (n : StaticInt) (s s' : Source)
    → first < s.pos
    → IsAfter s s'
    → Spans first s (finish_static_int first negative (n, s'))
unfolding finish_static_int
finish_static_int-Spans first negative n s s' h a = ground arith

IsAfter-trans : (s s1 s2 : Source) → IsAfter s s1 → IsAfter s1 s2 → IsAfter s s2
IsAfter-trans s s1 s2 a b = omega arith

pub next_static_int-Spans : (s : Source) → 0 < s.pos → Spans (s.pos - 1) s (next_static_int s)
unfolding next_static_int
next_static_int-Spans s h =
    let negative = peek_char s == b'-' in
    let s1 = if negative then (consume_char s).1 else s in
    let after : IsAfter s s1 = IsAfter-if negative (consume_char-IsAfter s) (IsAfter-refl s) in
    finish_static_int-Spans (s.pos - 1) negative _ s _ (omega arith)
      (IsAfter-trans s s1 _ after (static_loop-IsAfter _ s1.pos s1.input))

comment_loop-Spans :
    (first : ℕ) (comment : List ℕ) (pos : ℕ) (cs : List ℕ)
    → first < pos
    → Spans first (source pos cs) (comment_loop first comment pos cs)
unfolding comment_loop
comment_loop-Spans first comment pos [] h = omega arith
comment_loop-Spans first comment pos (c ∷ cs) h = ground (
  arith,
  advance-le c pos,
  comment_loop-Spans first comment (advance c pos) cs,
  comment_loop-Spans first (comment ++ (c ∷ [])) (advance c pos) cs,
)

pub next_line_comment-Spans : (s : Source) → 0 < s.pos → Spans (s.pos - 1) s (next_line_comment s)
unfolding next_line_comment
next_line_comment-Spans s h =
    let s1 = (consume_char s).1 in
    omega (
      arith,
      consume_char-IsAfter s,
      comment_loop-Spans (s.pos - 1) [] s1.pos s1.input (omega (arith, consume_char-IsAfter s)),
    )

word_loop-IsAfter :
    (w : Word) (pos : ℕ) (cs : List ℕ) → IsAfter (source pos cs) (word_loop w pos cs).1
unfolding word_loop
word_loop-IsAfter w pos [] = omega arith
word_loop-IsAfter w pos (c ∷ cs) =
    ground (
      arith,
      advance-le c pos,
      word_loop-IsAfter (word_step w c (head_or_nul cs)) (advance c pos) cs,
    )

finish_word-Spans :
    (first : ℕ) (w : Word) (s s' : Source)
    → first < s.pos
    → IsAfter s s'
    → Spans first s (finish_word first (w, s'))
unfolding finish_word
finish_word-Spans first w s s' h a = ground arith

pub next_word_token-Spans :
    (c : ℕ) (s : Source) → 0 < s.pos → Spans (s.pos - 1) s (next_word_token c s)
unfolding next_word_token
next_word_token-Spans c s h =
    finish_word-Spans (s.pos - 1) _ s _ (omega arith) (word_loop-IsAfter _ s.pos s.input)
