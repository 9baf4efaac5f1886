-- ===== src/Input/CharEscape.antt =====
-- src/input/char_escape.cpp: escaping of characters and strings. A char is its unsigned code.
mod Tests
use novus.Base.{
  ℕ, ◌≡◌, refl, sym, ◌∙◌, Bool, List, [], ◌∷◌, ◌++◌, append_assoc, append-nil, Option, none, some,
  ◌==◌, if◌then◌else◌, arith, ◌↔◌, ap,
}

-- A lookup in one of the static tables.
abbrev pub find : ℕ → List (ℕ × ℕ) → Option ℕ
find c [] = none
find c ((k, v) ∷ table) = if c == k then some v else find c table

-- The table of `escape`: quotes, backslash, and \0 \a \b \f \n \r \t \v.
abbrev escape_table : List (ℕ × ℕ)
escape_table =
    (34, 34)
    ∷ (39, 39)
    ∷ (92, 92)
    ∷ (0, 48)
    ∷ (7, 97)
    ∷ (8, 98)
    ∷ (12, 102)
    ∷ (10, 110)
    ∷ (13, 114)
    ∷ (9, 116)
    ∷ (11, 118)
    ∷ []

unfoldable pub escape : ℕ → Option ℕ
escape c = find c escape_table

-- The table of `unescape`.
abbrev unescape_table : List (ℕ × ℕ)
unescape_table =
    (34, 34)
    ∷ (39, 39)
    ∷ (92, 92)
    ∷ (48, 0)
    ∷ (97, 7)
    ∷ (98, 8)
    ∷ (102, 12)
    ∷ (110, 10)
    ∷ (114, 13)
    ∷ (116, 9)
    ∷ (118, 11)
    ∷ []

unfoldable pub unescape : ℕ → Option ℕ
unescape c = find c unescape_table

-- What the loop of `escape` pushes for one character.
unfoldable pub escape_char : ℕ → List ℕ
escape_char c = elim (escape c) [ none ↦ c ∷ [] | some e ↦ 92 ∷ e ∷ [] ]

unfoldable pub escape_loop : List ℕ → List ℕ → List ℕ
escape_loop [] result = result
escape_loop (c ∷ str) result = escape_loop str (result ++ escape_char c)

unfoldable pub escape_str : List ℕ → List ℕ
escape_str str = escape_loop str []

-- `escape` and `unescape` are inverse to one another, character by character.
pub unescape-escape_iff : (c e : ℕ) → (escape c ≡ some e) ↔ (unescape e ≡ some c)
unfolding escape unescape
unescape-escape_iff c e = (λ h. ground arith, λ h. ground arith)

-- The loop as a plain recursion.
pub escape_loop_lem : (str result : List ℕ) → escape_loop str result ≡ result ++ escape_loop str []
unfolding escape_loop
escape_loop_lem [] result = sym (append-nil result)
escape_loop_lem (c ∷ str) result =
    escape_loop_lem str (result ++ escape_char c)
    ∙ append_assoc result (escape_char c) (escape_loop str [])
    ∙ ap (λ (t : List ℕ). result ++ t) (sym (escape_loop_lem str (escape_char c)))

pub escape_str-cons :
    (c : ℕ) (str : List ℕ) → escape_str (c ∷ str) ≡ escape_char c ++ escape_str str
unfolding escape_str escape_loop
escape_str-cons c str = escape_loop_lem str (escape_char c)
