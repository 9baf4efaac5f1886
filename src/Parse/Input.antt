-- ===== src/Parse/Input.antt =====
-- The tokens that the parser has not consumed yet, as include/parse/parser.hpp gives them.
use novus.Base.{List, [], ◌∷◌}
use novus.Lex.Token.{Token, Span, end_of_input}

-- The tokens of m_readBuffer and then of the input, and m_lastTokenSpan once those are read.
pub record Input : Type 0 where
  pub tokens : List Token
  pub last : Span

-- `undefined` is a read of an empty std::optional. `out_of_fuel` has no counterpart.
pub data Result {ℓ} (A : Type ℓ) : Type ℓ where
  ok : A → Result A
  undefined out_of_fuel : Result A

abbrev pub bind {ℓ κ} : {A : Type ℓ} {B : Type κ} → Result A → (A → Result B) → Result B
bind (ok a) f = f a
bind undefined f = undefined
bind out_of_fuel f = out_of_fuel

abbrev pub Parser {ℓ} : Type ℓ → Type ℓ
Parser A = Input → Result (A × Input)

abbrev pub pure {ℓ} : {A : Type ℓ} → A → Parser A
pure a s = ok (a, s)

infixl 1 ◌>>=◌
abbrev pub ◌>>=◌ {ℓ κ} : {A : Type ℓ} {B : Type κ} → Parser A → (A → Parser B) → Parser B
p >>= f = λ s. bind (p s) λ (a, t). f a t

-- endToken(m_lastTokenSpan)
abbrev pub end_of : Span → Token
end_of last = record { payload = end_of_input; at = last }

-- peekToken(0)
unfoldable pub peek_of : List Token → Span → Token
peek_of [] last = end_of last
peek_of (t ∷ ts) last = t

unfoldable pub peek_token : Input → Token
peek_token s = peek_of s.tokens s.last

abbrev pub peek : Parser Token
peek s = ok (peek_token s, s)

unfoldable pub consume_of : List Token → Span → Result (Token × Input)
consume_of [] last = ok (end_of last, record { tokens = []; last = last })
consume_of (t ∷ ts) last = ok (t, record { tokens = ts; last = t.at })

unfoldable pub consume_token : Parser Token
consume_token s = consume_of s.tokens s.last
