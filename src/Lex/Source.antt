-- ===== src/Lex/Source.antt =====
-- LexerImpl's state and the two functions that read characters. `pos` is m_inputPos + 1, the number
-- of characters consumed; `input` is m_readBuffer followed by what getFromInput has not yet given.
-- `Lex.Buffer` shows that the two parts behave as the one list.
use novus.Base.{ℕ, ◌+◌, ◌-◌, List, [], ◌∷◌, ◌==◌, if◌then◌else◌}
use novus.Lex.Token.{Token, Payload, LexError, error, span}

pub record Source : Type 0 where
  pub pos : ℕ
  pub input : List ℕ

abbrev pub source : ℕ → List ℕ → Source
source pos input = record { pos = pos; input = input }

-- '\0' is no character: it does not move the position.
unfoldable pub advance : ℕ → ℕ → ℕ
advance c pos = if c == 0 then pos else pos + 1

-- getFromInput gives '\0' at the end of the input.
abbrev pub consume : ℕ → List ℕ → ℕ × Source
consume pos [] = (0, source pos [])
consume pos (c ∷ cs) = (c, source (advance c pos) cs)

unfoldable pub consume_char : Source → ℕ × Source
consume_char s = consume s.pos s.input

abbrev pub head_or_nul : List ℕ → ℕ
head_or_nul [] = 0
head_or_nul (c ∷ cs) = c

-- peekChar(0)
unfoldable pub peek_char : Source → ℕ
peek_char s = head_or_nul s.input

-- A token from the position `first` to the last character consumed, and the state after it.
abbrev pub emit : Payload → ℕ → Source → Token × Source
emit p first s = (record { payload = p; at = span first (s.pos - 1) }, s)

abbrev pub fail : LexError → ℕ → Source → Token × Source
fail e first s = emit (error e) first s
