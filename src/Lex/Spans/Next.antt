-- ===== src/Lex/Spans/Next.antt =====
-- The spans of the tokens of `next`, and that lexing ends.
use novus.Base.{
  ℕ, zero, suc, ◌+◌, ◌-◌, ◌≤◌, ◌<◌, ◌≡◌, refl, sym, ◌∙◌, true, List, [], ◌∷◌, some, arith, length,
  ◌==◌, ◌≢◌, Bool-cases, inl, inr, ◌||◌, ◌⊎◌,
}
use mathlib.Core.Bool.{false≢true}
use novus.Lex.Token.{Token, TokenKind, basic}
use novus.Lex.Chars.{is_digit, is_word_start}
use novus.Lex.Source.{Source, source, advance, consume_char, peek_char}
use novus.Lex.Next.{
  Lexed, one, two, one_or_two, one_or_either, next_operator, next_seperator, next_zero,
  next_underscore, next_literal, dispatch, end_token, is_space, next_from, next, is_end, lex_from,
  lex_all,
}
use novus.Lex.Spans.{
  Spans, IsAfter-refl, if-Spans, emit-Spans, next_lit_number-Spans, next_lit_number_hex-Spans,
  next_lit_number_binary-Spans,
}
use novus.Lex.Spans.Text.{
  consume_char-IsAfter, next_lit_str-Spans, next_lit_char-Spans, next_static_int-Spans,
  next_line_comment-Spans, next_word_token-Spans,
}

-- A peeked character that is not '\0' is consumed by one step of the position.
consume_peeked : (s : Source) → peek_char s ≢ 0 → ((consume_char s).1).pos ≡ s.pos + 1
consume_peeked s h = go s.pos s.input h
  where
    go :
        (pos : ℕ) (cs : List ℕ)
        → peek_char (source pos cs) ≢ 0
        → ((consume_char (source pos cs)).1).pos ≡ pos + 1
    go pos [] p = absurd (p (unfold peek_char in refl))
    go pos (c ∷ cs) p = unfold peek_char consume_char advance in ground arith

module _ (s : Source) (started : 0 < s.pos) where
  one-Spans : (kind : TokenKind) → Spans (s.pos - 1) s (one kind s)
  unfolding one
  one-Spans kind = emit-Spans (basic kind) (s.pos - 1) s s (omega arith) (IsAfter-refl s)

  two-Spans : (kind : TokenKind) → peek_char s ≢ 0 → Spans (s.pos - 1) s (two kind s)
  unfolding two
  two-Spans kind h = omega (arith, consume_char-IsAfter s, consume_peeked s h)

  -- The test for a character other than '\0' shows that something is there.
  one_or_two-Spans : (k : ℕ) (a b : TokenKind) → 0 < k → Spans (s.pos - 1) s (one_or_two k a b s)
  unfolding one_or_two
  one_or_two-Spans k a b h = elim (Bool-cases (peek_char s == k)) [
    | inl e ↦ rw e (two-Spans a (ground arith))
    | inr e ↦ rw e (one-Spans b)
  ]

  one_or_either-Spans :
      (k l : ℕ) (a b d : TokenKind)
      → 0 < k
      → 0 < l
      → Spans (s.pos - 1) s (one_or_either k a l b d s)
  unfolding one_or_either
  one_or_either-Spans k l a b d hk hl = elim (Bool-cases (peek_char s == k)) [
    | inl e ↦ rw e (two-Spans a (ground arith))
    | inr e ↦ rw e (one_or_two-Spans l b d hl)
  ]

  module _ (c : ℕ) where
    next_operator-Spans :
        (other : Lexed) → Spans (s.pos - 1) s other → Spans (s.pos - 1) s (next_operator c s other)
    unfolding next_operator
    next_operator-Spans other h = if-Spans (c == b'+') (one_or_two-Spans _ _ _ (omega arith)) (
        if-Spans (c == b'-') (one_or_either-Spans _ _ _ _ _ (omega arith) (omega arith)) (
          if-Spans (c == b'*') (one-Spans _) (
            if-Spans (c == b'/')
              (if-Spans (peek_char s == b'/') (next_line_comment-Spans s started) (one-Spans _))
              (if-Spans (c == b'%') (one-Spans _) (
                if-Spans (c == b'&') (one_or_two-Spans _ _ _ (omega arith)) (
                  if-Spans (c == b'|') (one_or_two-Spans _ _ _ (omega arith)) (
                    if-Spans (c == b'^') (one-Spans _) (
                      if-Spans (c == b'~') (one-Spans _) (
                        if-Spans (c == b'=') (one_or_two-Spans _ _ _ (omega arith)) (
                          if-Spans (c == b'!')
                            (one_or_either-Spans _ _ _ _ _ (omega arith) (omega arith))
                            (if-Spans (c == b'<')
                              (one_or_either-Spans _ _ _ _ _ (omega arith) (omega arith))
                              (if-Spans (c == b'>')
                                (one_or_either-Spans _ _ _ _ _ (omega arith) (omega arith))
                                (h)))))))))))))

    next_seperator-Spans :
        (other : Lexed) → Spans (s.pos - 1) s other → Spans (s.pos - 1) s (next_seperator c s other)
    unfolding next_seperator
    next_seperator-Spans other h = if-Spans (c == b';') (one-Spans _) (
        if-Spans (c == b'?') (one_or_two-Spans _ _ _ (omega arith)) (
          if-Spans (c == b'.')
            (if-Spans (is_digit (peek_char s)) (next_lit_number-Spans c s started) (one-Spans _))
            (if-Spans (c == b'(') (one_or_two-Spans _ _ _ (omega arith)) (
              if-Spans (c == b')') (one-Spans _) (
                if-Spans (c == b'{') (one-Spans _) (
                  if-Spans (c == b'}') (one-Spans _) (
                    if-Spans (c == b'[') (one_or_two-Spans _ _ _ (omega arith)) (
                      if-Spans (c == b']') (one-Spans _) (
                        if-Spans (c == b',') (one-Spans _)
                          (if-Spans (c == b':') (one_or_two-Spans _ _ _ (omega arith)) (h)))))))))))

  -- The prefix of a hexadecimal or binary literal is two characters.
  next_zero-Spans : Spans (s.pos - 1) s (next_zero s)
  unfolding next_zero
  next_zero-Spans =
      let s1 = (consume_char s).1 in
      ground (
        arith,
        consume_char-IsAfter s,
        consume_peeked s,
        next_lit_number_hex-Spans s1,
        next_lit_number_binary-Spans s1,
        next_lit_number-Spans b'0' s started,
      )

  next_underscore-Spans : Spans (s.pos - 1) s (next_underscore s)
  unfolding next_underscore
  next_underscore-Spans =
      let c = peek_char s in
      if-Spans (is_word_start c || is_digit c || c == b'_') (next_word_token-Spans b'_' s started)
        (one-Spans _)

  next_literal-Spans : (c : ℕ) → Spans (s.pos - 1) s (next_literal c s)
  unfolding next_literal
  next_literal-Spans c = if-Spans (c == b'#') (next_static_int-Spans s started) (
      if-Spans (c == b'0') (next_zero-Spans) (
        if-Spans (is_digit c) (next_lit_number-Spans c s started) (
          if-Spans (c == b'"') (next_lit_str-Spans s started) (
            if-Spans (c == b'\'') (next_lit_char-Spans s started) (
              if-Spans (c == b'_') (next_underscore-Spans) (
                if-Spans (is_word_start c) (next_word_token-Spans c s started)
                  (emit-Spans _ (s.pos - 1) s s (omega arith) (IsAfter-refl s))))))))

  pub dispatch-Spans : (c : ℕ) → Spans (s.pos - 1) s (dispatch c s)
  unfolding dispatch
  dispatch-Spans c = next_operator-Spans c _ (next_seperator-Spans c _ (next_literal-Spans c))

-- A token that takes at least one character and stands behind the state it was read from.
pub record Covers (s : Source) (r : Lexed) : Type 0 where
  pub starts : s.pos ≤ r.0.at.start
  pub nonempty : r.0.at.start ≤ r.0.at.end
  pub ends : r.0.at.end + 1 ≡ r.1.pos
  pub shorter : length r.1.input < length s.input
  pub within : r.1.pos + length r.1.input ≤ s.pos + length s.input

advance_char : (c pos : ℕ) → c ≢ 0 → advance c pos ≡ pos + 1
unfolding advance
advance_char c pos h = ground arith

dispatch-Covers :
    (c pos : ℕ) (cs : List ℕ)
    → c ≢ 0
    → Covers (source pos (c ∷ cs)) (dispatch c (source (advance c pos) cs))
dispatch-Covers c pos cs h =
    rw (advance_char c pos h) (omega (arith, dispatch-Spans (source (pos + 1) cs) (omega arith) c))

Covers-skip :
    (c pos : ℕ) (cs : List ℕ) (r : Lexed)
    → Covers (source (advance c pos) cs) r
    → Covers (source pos (c ∷ cs)) r
unfolding advance
Covers-skip c pos cs r h = ground arith

-- `next` gives the token of the end, or one that covers what it has read.
next_from-Covers :
    (pos : ℕ) (cs : List ℕ)
    → (is_end (next_from pos cs).0.payload ≡ true) ⊎ Covers (source pos cs) (next_from pos cs)
unfolding next_from end_token
next_from-Covers pos [] = inl refl
next_from-Covers pos (c ∷ cs) = elim (Bool-cases (c == 0)) [
  | inl e ↦ inl (rw e refl)
  | inr e ↦ elim (Bool-cases (is_space c)) [
    | inl w ↦
        rw (e, w)
          (elim (next_from-Covers (advance c pos) cs) [
            | inl end ↦ inl end
            | inr h ↦ inr (Covers-skip c pos cs _ h)
          ])
    | inr w ↦ rw (e, w) (inr (dispatch-Covers c pos cs (ground arith)))
  ]
]

-- The spans of a list of tokens: in order, apart from one another, each one nonempty, all from `lo`
-- on and below `hi`.
abbrev pub Ordered : ℕ → ℕ → List Token → Type 0
Ordered lo hi [] = Unit
Ordered lo hi (t ∷ ts) =
    (lo ≤ t.at.start) × (t.at.start ≤ t.at.end) × (t.at.end < hi) × Ordered (t.at.end + 1) hi ts

Ordered-within : (ts : List Token) (lo hi hi' : ℕ) → hi ≤ hi' → Ordered lo hi ts → Ordered lo hi' ts
Ordered-within [] lo hi hi' h o = tt
Ordered-within (t ∷ ts) lo hi hi' h (a, b, c, o) =
    (a, b, omega arith, Ordered-within ts (t.at.end + 1) hi hi' h o)

lex_from-Ordered :
    (fuel : ℕ) (s : Source)
    → length s.input < fuel
    → (ts : List Token) × (lex_from fuel s ≡ some ts) × Ordered s.pos (s.pos + length s.input) ts
unfolding lex_from next
lex_from-Ordered zero s h = absurd (omega arith)
lex_from-Ordered (suc fuel) s h = elim (Bool-cases (is_end (next s).0.payload)) [
  | inl e ↦ ([], rw e, tt)
  | inr e ↦ elim (next_from-Covers s.pos s.input) [
    | inl end ↦ absurd (false≢true (sym e ∙ end))
    | inr c ↦
        let (ts, l, o) = lex_from-Ordered fuel (next s).1 (omega arith) in
        (
          (next s).0 ∷ ts,
          rw (e, l),
          (
            c.starts,
            c.nonempty,
            omega arith,
            rw c.ends (Ordered-within ts (next s).1.pos _ (s.pos + length s.input) c.within o),
          ),
        )
  ]
]

-- Lexing any input ends, and the spans of the tokens are valid, in the order of the text, disjoint,
-- and within the input.
pub lex_all-Ordered :
    (input : List ℕ) → (ts : List Token) × (lex_all input ≡ some ts) × Ordered 0 (length input) ts
unfolding lex_all
lex_all-Ordered input =
    let (ts, l, o) = lex_from-Ordered (length input + 1) (source 0 input) (omega arith) in
    (ts, l, Ordered-within ts 0 (0 + length input) (length input) (omega arith) o)
