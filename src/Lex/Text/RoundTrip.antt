-- ===== src/Lex/Text/RoundTrip.antt =====
-- A string that input::escape has escaped, in quotes, is lexed back to the string.
use novus.Base.{
  ℕ, ◌-◌, ◌≡◌, refl, sym, ◌∙◌, ap, false, List, [], ◌∷◌, ◌++◌, append_assoc, append-nil, none, some,
  Option-cases, inl, inr, arith,
}
use mathlib.Core.Path.{subst}
use novus.Input.CharEscape.{
  escape, unescape, unescape-escape_iff, escape_char, escape_str, escape_loop, escape_str-cons,
}
use novus.Lex.Token.{Token, lit_string}
use novus.Lex.Source.{Source, source, advance}
use novus.Lex.Text.{str_loop, next_lit_str}

module _ (first : ℕ) (result : List ℕ) (pos : ℕ) where
  plain_round :
      (c d : ℕ) (cs : List ℕ)
      → escape c ≡ none
      → str_loop first result false pos (c ∷ d ∷ cs)
        ≡ str_loop first (result ++ (c ∷ [])) false (advance c pos) (d ∷ cs)
  unfolding escape str_loop
  plain_round c d cs h = ground arith

  escaped_round :
      (c e : ℕ) (cs : List ℕ)
      → unescape e ≡ some c
      → str_loop first result false pos (92 ∷ e ∷ cs)
        ≡ str_loop first (result ++ (c ∷ [])) false (advance e (advance 92 pos)) cs
  unfolding str_loop
  escaped_round c e cs h = rw h

-- The text of a literal from its characters on, up to the closing quote and what follows.
abbrev pub quoted : List ℕ → List ℕ → List ℕ
quoted str rest = escape_str str ++ (34 ∷ rest)

quoted_plain :
    (c : ℕ) (str rest : List ℕ) → escape c ≡ none → quoted (c ∷ str) rest ≡ c ∷ quoted str rest
unfolding escape_char
quoted_plain c str rest e = rw escape_str-cons (rw (e, escape_char))

quoted_escaped :
    (c x : ℕ) (str rest : List ℕ)
    → escape c ≡ some x
    → quoted (c ∷ str) rest ≡ 92 ∷ x ∷ quoted str rest
unfolding escape_char
quoted_escaped c x str rest e = rw escape_str-cons (rw (e, escape_char))

-- The closing quote stands behind whatever is left of the string.
quoted_cons : (str rest : List ℕ) → (d : ℕ) × (ds : List ℕ) × (quoted str rest ≡ d ∷ ds)
quoted_cons [] rest = unfold escape_str escape_loop in (34, rest, refl)
quoted_cons (c ∷ str) rest = elim (Option-cases (escape c)) [
  | inl e ↦ (c, quoted str rest, quoted_plain c str rest e)
  | inr (x, e) ↦ (92, x ∷ quoted str rest, quoted_escaped c x str rest e)
]

-- One character of the string, in one round of the loop.
round :
    (first : ℕ) (result : List ℕ) (pos c : ℕ) (str rest : List ℕ)
    → (pos' : ℕ) × (str_loop first result false pos (quoted (c ∷ str) rest)
        ≡ str_loop first (result ++ (c ∷ [])) false pos' (quoted str rest))
round first result pos c str rest = elim (Option-cases (escape c)) [
  | inl e ↦
      let (d, ds, q) = quoted_cons str rest in
      (
        advance c pos,
        ap (str_loop first result false pos)
              (quoted_plain c str rest e ∙ ap (λ (t : List ℕ). c ∷ t) q)
            ∙ plain_round first result pos c d ds e
            ∙ ap (str_loop first (result ++ (c ∷ [])) false (advance c pos)) (sym q),
      )
  | inr (x, e) ↦ (
    advance x (advance 92 pos),
    ap (str_loop first result false pos) (quoted_escaped c x str rest e)
        ∙ escaped_round first result pos c x (quoted str rest) ((unescape-escape_iff c x).0 e),
  )
]

-- What lexing a literal must give: its text, and the input behind it.
abbrev pub Reads : List ℕ → List ℕ → Token × Source → Type 0
Reads str rest r = (r.0.payload ≡ lit_string str) × (r.1.input ≡ rest)

closing :
    (first : ℕ) (result : List ℕ) (pos : ℕ) (rest : List ℕ)
    → Reads result rest (str_loop first result false pos (34 ∷ rest))
unfolding str_loop
closing first result pos [] = (refl, refl)
closing first result pos (d ∷ ds) = (refl, refl)

str_loop-escape :
    (str rest : List ℕ) (first : ℕ) (result : List ℕ) (pos : ℕ)
    → Reads (result ++ str) rest (str_loop first result false pos (quoted str rest))
str_loop-escape [] rest first result pos =
    rw append-nil (unfold escape_str escape_loop in closing first result pos rest)
str_loop-escape (c ∷ str) rest first result pos =
    let (pos', e) = round first result pos c str rest in
    subst (Reads (result ++ (c ∷ str)) rest) (sym e) (
      subst
        (λ (t : List ℕ).
          Reads t rest (str_loop first (result ++ (c ∷ [])) false pos' (quoted str rest)))
        (append_assoc result (c ∷ []) str)
        (str_loop-escape str rest first (result ++ (c ∷ [])) pos'))

-- A string literal that holds an escaped string is lexed to that string, whatever its characters
-- are, and the input behind the closing quote is left.
pub next_lit_str-escape :
    (str rest : List ℕ) (pos : ℕ)
    → ((next_lit_str (source pos (escape_str str ++ (34 ∷ rest)))).0.payload ≡ lit_string str)
      × ((next_lit_str (source pos (escape_str str ++ (34 ∷ rest)))).1.input ≡ rest)
unfolding next_lit_str
next_lit_str-escape str rest pos = str_loop-escape str rest (pos - 1) [] pos
