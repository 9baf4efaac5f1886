-- ===== src/Lex/Buffer.antt =====
-- LexerImpl's read buffer: consumeChar and peekChar over m_readBuffer and the input iterator behave
-- as over the one list of `Lex.Source`, whose end stands for any number of '\0'.
use novus.Base.{
  ℕ, zero, suc, ◌-◌, ◌≡◌, refl, sym, ap, List, [], ◌∷◌, ◌++◌, append-nil, ◌⊎◌, inl, inr, arith,
  length, Option, none, some, get_elem?,
}
use mathlib.Core.Path.{subst}
use novus.Lex.Source.{Source, source, advance, consume_char, peek_char}

-- m_inputPos + 1, m_readBuffer, and what lies between m_input and m_inputEnd.
pub record Lexer : Type 0 where
  pub input_pos : ℕ
  pub read_buffer : List ℕ
  pub input : List ℕ

abbrev lexer : ℕ → List ℕ → List ℕ → Lexer
lexer pos buffer input = record { input_pos = pos; read_buffer = buffer; input = input }

-- Lexer::getFromInput
abbrev get_from_input : List ℕ → ℕ × List ℕ
get_from_input [] = (0, [])
get_from_input (c ∷ cs) = (c, cs)

abbrev consume : ℕ → List ℕ → List ℕ → ℕ × Lexer
consume pos (c ∷ buffer) input = (c, lexer (advance c pos) buffer input)
consume pos [] input = let (c, rest) = get_from_input input in (c, lexer (advance c pos) [] rest)

-- LexerImpl::consumeChar
unfoldable pub consume_buffered : Lexer → ℕ × Lexer
consume_buffered l = consume l.input_pos l.read_buffer l.input

-- The loop of peekChar, for the rounds that are left.
unfoldable pub fill : ℕ → Lexer → Lexer
fill zero l = l
fill (suc n) l =
    let (c, rest) = get_from_input l.input in
    fill n (record l { read_buffer = l.read_buffer ++ (c ∷ []); input = rest })

abbrev or_nul : Option ℕ → ℕ
or_nul none = 0
or_nul (some c) = c

-- LexerImpl::peekChar, with the state that it leaves.
unfoldable pub peek_buffered : ℕ → Lexer → ℕ × Lexer
peek_buffered ahead l =
    let filled = fill (suc ahead - length l.read_buffer) l in
    (or_nul (get_elem? filled.read_buffer ahead), filled)

unfoldable pub zeros : ℕ → List ℕ
zeros zero = []
zeros (suc n) = 0 ∷ zeros n

-- The buffer and the input together are the list, with '\0' behind it once the input is at its end.
pub record Buffers (l : Lexer) (s : Source) : Type 0 where
  pub same_pos : l.input_pos ≡ s.pos
  pub extra : ℕ
  pub same_chars : l.read_buffer ++ l.input ≡ s.input ++ zeros extra
  pub at_end : (extra ≡ 0) ⊎ (l.input ≡ [])

-- A lexer starts with an empty buffer.
pub Buffers-start : (input : List ℕ) → Buffers (lexer 0 [] input) (source 0 input)
unfolding zeros
Buffers-start input = record {
  same_pos = refl;
  extra = 0;
  same_chars = sym (append-nil input);
  at_end = inl refl;
}

abbrev Follows : ℕ × Lexer → ℕ × Source → Type 0
Follows r q = (r.0 ≡ q.0) × Buffers r.1 q.1

cons_inj : {x y : ℕ} {xs ys : List ℕ} → x ∷ xs ≡ y ∷ ys → (x ≡ y) × (xs ≡ ys)
cons_inj e = (cc, cc)

consume_lem :
    (pos : ℕ) (buffer input chars : List ℕ) (n : ℕ)
    → buffer ++ input ≡ chars ++ zeros n
    → (n ≡ 0) ⊎ (input ≡ [])
    → Follows (consume_buffered (lexer pos buffer input)) (consume_char (source pos chars))
unfolding consume_buffered consume_char zeros advance
consume_lem pos [] [] [] n e h =
    (refl, record { same_pos = refl; extra = 0; same_chars = refl; at_end = inr refl })
consume_lem pos [] [] (x ∷ xs) n e h = absurd (cc)
consume_lem pos [] (c ∷ cs) [] zero e h = absurd (cc)
consume_lem pos [] (c ∷ cs) [] (suc n) e h = absurd (ground arith)
consume_lem pos [] (c ∷ cs) (x ∷ xs) n e h =
    let (q, t) = cons_inj e in
    (
      q,
      record {
        same_pos = ap (λ (d : ℕ). advance d pos) q;
        extra = n;
        same_chars = t;
        at_end = elim h [ inl z ↦ inl z | inr bad ↦ absurd (cc) ];
      },
    )
consume_lem pos (b ∷ bs) input [] zero e h = absurd (cc)
consume_lem pos (b ∷ bs) input [] (suc n) e h =
    let (q, t) = cons_inj e in
    (
      q,
      record {
        same_pos = ap (λ (d : ℕ). advance d pos) q;
        extra = n;
        same_chars = t;
        at_end = elim h [ inl z ↦ absurd (omega arith) | inr i ↦ inr i ];
      },
    )
consume_lem pos (b ∷ bs) input (x ∷ xs) n e h =
    let (q, t) = cons_inj e in
    (
      q,
      record { same_pos = ap (λ (d : ℕ). advance d pos) q; extra = n; same_chars = t; at_end = h },
    )

-- Where the buffered lexer stands for a list of characters and a position, consumeChar on it gives
-- the same character as taking one from the list, and the two results correspond again.
pub consume_buffered-Buffers :
    (l : Lexer) (s : Source)
    → Buffers l s
    → ((consume_buffered l).0 ≡ (consume_char s).0)
      × Buffers (consume_buffered l).1 (consume_char s).1
consume_buffered-Buffers l s b =
    subst (λ (p : ℕ). Follows (consume_buffered l) (consume_char (source p s.input))) b.same_pos
      (consume_lem l.input_pos l.read_buffer l.input s.input b.extra b.same_chars b.at_end)

-- Nothing is fetched while the buffer holds a character.
filled : (bs : List ℕ) → suc 0 - suc (length bs) ≡ 0
filled bs = omega arith

first_zero : {b : ℕ} {cs : List ℕ} (n : ℕ) → b ∷ cs ≡ zeros n → b ≡ 0
unfolding zeros
first_zero zero e = cc
first_zero (suc n) e = (cons_inj e).0

peek_lem :
    (pos : ℕ) (buffer input chars : List ℕ) (n : ℕ)
    → buffer ++ input ≡ chars ++ zeros n
    → (n ≡ 0) ⊎ (input ≡ [])
    → ((peek_buffered 0 (lexer pos buffer input)).0 ≡ peek_char (source pos chars))
      × Buffers (peek_buffered 0 (lexer pos buffer input)).1 (source pos chars)
unfolding peek_buffered peek_char fill
peek_lem pos [] [] [] n e h = (
  refl,
  record { same_pos = refl; extra = 1; same_chars = unfold zeros in refl; at_end = inr refl },
)
peek_lem pos [] [] (x ∷ xs) n e h = absurd (cc)
peek_lem pos [] (c ∷ cs) [] n e h = absurd (unfold zeros in ground arith)
peek_lem pos [] (c ∷ cs) (x ∷ xs) n e h = (
  (cons_inj e).0,
  record {
    same_pos = refl;
    extra = n;
    same_chars = e;
    at_end = elim h [ inl z ↦ inl z | inr bad ↦ absurd (cc) ];
  },
)
peek_lem pos (b ∷ bs) input [] n e h =
    rw (filled bs)
      (first_zero n e, record { same_pos = refl; extra = n; same_chars = e; at_end = h })
peek_lem pos (b ∷ bs) input (x ∷ xs) n e h =
    rw (filled bs)
      ((cons_inj e).0, record { same_pos = refl; extra = n; same_chars = e; at_end = h })

-- Where the buffered lexer stands for a list of characters and a position, peekChar(0) gives the
-- list's first character, or 0 at its end, and the lexer with what it moved into the buffer stands
-- for the same list and position.
pub peek_buffered-Buffers :
    (l : Lexer) (s : Source)
    → Buffers l s
    → ((peek_buffered 0 l).0 ≡ peek_char s) × Buffers (peek_buffered 0 l).1 s
peek_buffered-Buffers l s b =
    subst
      (λ (p : ℕ).
        ((peek_buffered 0 l).0 ≡ peek_char (source p s.input))
        × Buffers (peek_buffered 0 l).1 (source p s.input))
      b.same_pos (peek_lem l.input_pos l.read_buffer l.input s.input b.extra b.same_chars b.at_end)
