-- ===== src/Lex/Word/Tokens.antt =====
-- Words: keywords and their spelling, identifiers, and words with illegal characters.
use mathlib.Core.Path.{subst}
use novus.Base.{
  ℕ, ◌-◌, ◌≡◌, refl, sym, ◌∙◌, ap, Bool, true, false, List, [], ◌∷◌, ◌++◌, append_assoc, append-nil,
  none, some, ◌&&◌, ◌||◌, ◌==◌, ◌↔◌, arith, All, codes, str_eq, str_eq→eq, inl, inr, Bool-cases,
  ◌≢◌, ◌⊎◌,
}
use mathlib.Core.Bool.{false≢true}
use novus.Lex.Token.{
  Keyword, kw_intrinsic, kw_import, kw_fun, kw_act, kw_self, kw_lambda, kw_impure, kw_fork, kw_lazy,
  kw_struct, kw_union, kw_enum, kw_if, kw_else, kw_is, kw_as, kw_noinline, kw_implicit, keyword,
  identifier,
}
use novus.Lex.Chars.{is_token_seperator, is_digit, is_word_continuation}
use novus.Lex.Source.{Source, source, advance, head_or_nul, peek_char}
use novus.Lex.Word.{
  keyword_table, find_keyword, get_keyword, Word, word_step, word_loop, finish_word,
  next_word_token,
}

-- The spelling that operator<< of keyword.cpp prints.
unfoldable pub spelling : Keyword → List ℕ
spelling kw_intrinsic = codes "intrinsic"
spelling kw_import = codes "import"
spelling kw_fun = codes "fun"
spelling kw_act = codes "act"
spelling kw_self = codes "self"
spelling kw_lambda = codes "lambda"
spelling kw_impure = codes "impure"
spelling kw_fork = codes "fork"
spelling kw_lazy = codes "lazy"
spelling kw_struct = codes "struct"
spelling kw_union = codes "union"
spelling kw_enum = codes "enum"
spelling kw_if = codes "if"
spelling kw_else = codes "else"
spelling kw_is = codes "is"
spelling kw_as = codes "as"
spelling kw_noinline = codes "noinline"
spelling kw_implicit = codes "implicit"

get_keyword-spelling : (kw : Keyword) → get_keyword (spelling kw) ≡ some kw
unfolding get_keyword find_keyword str_eq spelling
get_keyword-spelling kw_intrinsic = refl
get_keyword-spelling kw_import = refl
get_keyword-spelling kw_fun = refl
get_keyword-spelling kw_act = refl
get_keyword-spelling kw_self = refl
get_keyword-spelling kw_lambda = refl
get_keyword-spelling kw_impure = refl
get_keyword-spelling kw_fork = refl
get_keyword-spelling kw_lazy = refl
get_keyword-spelling kw_struct = refl
get_keyword-spelling kw_union = refl
get_keyword-spelling kw_enum = refl
get_keyword-spelling kw_if = refl
get_keyword-spelling kw_else = refl
get_keyword-spelling kw_is = refl
get_keyword-spelling kw_as = refl
get_keyword-spelling kw_noinline = refl
get_keyword-spelling kw_implicit = refl

-- Every entry of a table that is found there holds of what it is found for.
find_keyword-entry :
    (P : List ℕ → Keyword → Type 0) (str : List ℕ) (table : List (List ℕ × Keyword)) (kw : Keyword)
    → All (λ e. P e.0 e.1) table
    → find_keyword str table ≡ some kw
    → P str kw
unfolding find_keyword
find_keyword-entry P str [] kw h e = cc
find_keyword-entry P str ((k, v) ∷ table) kw (hk, ht) e = elim (Bool-cases (str_eq str k)) [
  | inl eq ↦
      let same : some v ≡ some kw = rw eq at e in
      let at_str : P str v = subst (λ s. P s v) (sym (str_eq→eq str k eq)) hk in
      subst (P str) (cc) at_str
  | inr ne ↦ find_keyword-entry P str table kw ht (rw ne at e)
]

table_spelling : All (λ (e : List ℕ × Keyword). e.0 ≡ spelling e.1) keyword_table
unfolding spelling
table_spelling = (
  refl,
  (
    refl,
    (
      refl,
      (
        refl,
        (
          refl,
          (
            refl,
            (
              refl,
              (
                refl,
                (refl, (refl, (refl, (refl, (refl, (refl, (refl, (refl, (refl, (refl, tt)))))))))),
              ),
            ),
          ),
        ),
      ),
    ),
  ),
)

-- A string is recognised as a keyword exactly if it is the keyword's printed form.
pub get_keyword_iff :
    (str : List ℕ) (kw : Keyword) → (get_keyword str ≡ some kw) ↔ (str ≡ spelling kw)
unfolding get_keyword
get_keyword_iff str kw = (
  λ h. find_keyword-entry (λ s k. s ≡ spelling k) str keyword_table kw table_spelling h,
  λ e. ap get_keyword e ∙ get_keyword-spelling kw,
)

-- The letters collected depend neither on the marks of an illegal word nor on the position.
word_step-result :
    (w w' : Word) (c behind : ℕ)
    → w.result ≡ w'.result
    → (word_step w c behind).result ≡ (word_step w' c behind).result
unfolding word_step
word_step-result w w' c behind h = ground arith

word_loop-result :
    (w w' : Word) (pos pos' : ℕ) (cs : List ℕ)
    → w.result ≡ w'.result
    → (word_loop w pos cs).0.result ≡ (word_loop w' pos' cs).0.result
unfolding word_loop
word_loop-result w w' pos pos' [] h = h
word_loop-result w w' pos pos' (c ∷ cs) h = ground (
  arith,
  h,
  word_loop-result (word_step w c (head_or_nul cs)) (word_step w' c (head_or_nul cs))
      (advance c pos) (advance c pos') cs (word_step-result w w' c (head_or_nul cs) h),
)

finish_word-keyword :
    (first first' : ℕ) (w w' : Word) (s s' : Source) (kw : Keyword)
    → w.result ≡ w'.result
    → (finish_word first (w, s)).0.payload ≡ keyword kw
    → (finish_word first' (w', s')).0.payload ≡ keyword kw
unfolding finish_word
finish_word-keyword first first' w w' s s' kw h e = ground arith

-- A quote is no seperator and no letter: the word is marked, and goes on.
quote_round :
    (w : Word) (pos : ℕ) (cs : List ℕ)
    → word_loop w pos (39 ∷ cs)
      ≡ word_loop (record w { invalid_character = true }) (advance 39 pos) cs
unfolding word_loop word_step is_token_seperator is_word_continuation is_digit
quote_round w pos cs = refl

-- Where a word is lexed as a keyword, the same word with a single quote put behind its first
-- character, which is no legal character of a word, is lexed as that keyword too.
pub next_word_token_quote :
    (c pos : ℕ) (cs : List ℕ) (kw : Keyword)
    → (next_word_token c (source pos cs)).0.payload ≡ keyword kw
    → (next_word_token c (source pos (39 ∷ cs))).0.payload ≡ keyword kw
unfolding next_word_token
next_word_token_quote c pos cs kw h =
    rw quote_round (finish_word-keyword _ _ _ _ _ _ kw (word_loop-result _ _ _ _ cs refl) h)

-- A letter or a digit, or a '_' that is not followed by another one.
abbrev pub WordChars : List ℕ → Type 0
WordChars [] = Unit
WordChars (d ∷ ds) =
    (((is_word_continuation d || is_digit d) ≡ true) ⊎ ((d ≡ b'_') × (head_or_nul ds ≢ b'_')))
    × WordChars ds

letter-not-seperator :
    (d : ℕ) → (is_word_continuation d || is_digit d) ≡ true → is_token_seperator d ≡ false
unfolding is_token_seperator is_word_continuation is_digit
letter-not-seperator d h = ground arith

line-not-seperator : is_token_seperator b'_' ≡ false
unfolding is_token_seperator
line-not-seperator = refl

line-not-letter : (is_word_continuation b'_' || is_digit b'_') ≡ false
unfolding is_word_continuation is_digit
line-not-letter = refl

-- The words end at a separator or at the end of the input.
abbrev pub Ends : List ℕ → Type 0
Ends rest = is_token_seperator (head_or_nul rest) ≡ true

head-append :
    (ds rest : List ℕ) → head_or_nul ds ≢ b'_' → Ends rest → head_or_nul (ds ++ rest) ≢ b'_'
head-append [] rest h e = λ p. false≢true (sym line-not-seperator ∙ rw p at e)
head-append (d ∷ ds) rest h e = h

letter_round :
    (w : Word) (pos d : ℕ) (cs : List ℕ)
    → ((is_word_continuation d || is_digit d) ≡ true) ⊎ ((d ≡ b'_') × (head_or_nul cs ≢ b'_'))
    → word_loop w pos (d ∷ cs)
      ≡ word_loop (record w { result = w.result ++ (d ∷ []) }) (advance d pos) cs
unfolding word_loop word_step
letter_round w pos d cs (inl h) = rw (letter-not-seperator d h, h)
letter_round w pos d cs (inr (e, h)) = ground (arith, line-not-seperator, line-not-letter)

abbrev word : List ℕ → Bool → Word
word result illegal = record {
  result = result;
  invalid_character = false;
  illegal_sequence = illegal;
}

-- The loop collects all characters of the word and stops behind it.
word_loop-append :
    (ds rest : List ℕ) (w : Word) (pos : ℕ)
    → WordChars ds
    → Ends rest
    → (pos' : ℕ) × (word_loop w pos (ds ++ rest)
        ≡ (record w { result = w.result ++ ds }, source pos' rest))
word_loop-append [] [] w pos h e = (pos, unfold word_loop in rw append-nil)
word_loop-append [] (c ∷ cs) w pos h e = (pos, unfold word_loop in rw (e, append-nil))
word_loop-append (d ∷ ds) rest w pos (hd, hs) e =
    let w' = record w { result = w.result ++ (d ∷ []) } in
    let (pos', l) = word_loop-append ds rest w' (advance d pos) hs e in
    (
      pos',
      letter_round w pos d (ds ++ rest) (follows hd)
          ∙ l
          ∙ ap (λ (t : List ℕ). (record w { result = t }, source pos' rest))
              (append_assoc w.result (d ∷ []) ds),
    )
  where
    follows :
        ((is_word_continuation d || is_digit d) ≡ true) ⊎ ((d ≡ b'_') × (head_or_nul ds ≢ b'_'))
        → ((is_word_continuation d || is_digit d) ≡ true)
          ⊎ ((d ≡ b'_') × (head_or_nul (ds ++ rest) ≢ b'_'))
    follows (inl h) = inl h
    follows (inr (q, h)) = inr (q, head-append ds rest h e)

finish_word-identifier :
    (first : ℕ) (w : Word) (s : Source)
    → w.result ≢ codes "true"
    → w.result ≢ codes "false"
    → get_keyword w.result ≡ none
    → w.invalid_character ≡ false
    → w.illegal_sequence ≡ false
    → (finish_word first (w, s)).0.payload ≡ identifier w.result
unfolding finish_word
finish_word-identifier first w s t f k a b =
    ground (arith, str_eq→eq w.result (codes "true"), str_eq→eq w.result (codes "false"))

finish_word_state : (first : ℕ) (w : Word) (s : Source) → (finish_word first (w, s)).1 ≡ s
unfolding finish_word
finish_word_state first w s = ground arith

-- The word does not begin with two '_'.
start_legal :
    (c pos : ℕ) (ds rest : List ℕ)
    → ((is_word_continuation c || is_digit c) ≡ true) ⊎ ((c ≡ b'_') × (head_or_nul ds ≢ b'_'))
    → Ends rest
    → (c == b'_' && peek_char (source pos (ds ++ rest)) == b'_') ≡ false
unfolding peek_char
start_legal c pos ds rest (inl h) e = ground (arith, line-not-letter)
start_legal c pos ds rest (inr (q, h)) e = ground (arith, head-append ds rest h e)

-- A word of letters, digits and single '_' that is neither a keyword nor a boolean literal is lexed
-- to the identifier of that name, and the input behind it is left.
pub next_word_token_identifier :
    (c : ℕ) (ds rest : List ℕ) (pos : ℕ)
    → WordChars (c ∷ ds)
    → Ends rest
    → (c ∷ ds) ≢ codes "true"
    → (c ∷ ds) ≢ codes "false"
    → get_keyword (c ∷ ds) ≡ none
    → ((next_word_token c (source pos (ds ++ rest))).0.payload ≡ identifier (c ∷ ds))
      × ((next_word_token c (source pos (ds ++ rest))).1.input ≡ rest)
unfolding next_word_token
next_word_token_identifier c ds rest pos (hc, hs) e t f k =
    let w = word (c ∷ []) false in
    let (pos', l) = word_loop-append ds rest w pos hs e in
    let whole = word (c ∷ ds) false in
    rw (start_legal c pos ds rest hc e, l)
      (
        finish_word-identifier (pos - 1) whole (source pos' rest) t f k refl refl,
        ap (λ (s : Source). s.input) (finish_word_state (pos - 1) whole (source pos' rest)),
      )
