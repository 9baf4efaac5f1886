-- ===== src/Lex/Spans.antt =====
-- The spans of the tokens: where each function of the lexer leaves the state.
pub mod Text
pub mod Next
use novus.Base.{
  ℕ, zero, suc, ◌+◌, ◌-◌, ◌≤◌, ◌<◌, ◌≡◌, refl, Bool, true, false, List, [], ◌∷◌, Option, none, some,
  arith, length, if◌then◌else◌, ◌++◌,
}
use novus.Lex.Token.{Token, TokenKind, Payload, Keyword, LexError, span}
use novus.Lex.Source.{Source, source, advance, consume_char, emit, fail}
use novus.Lex.Number.{
  Number, Radix, number_step, number_loop, finish_number, start_number, next_lit_number, radix_loop,
  finish_radix, next_lit_number_hex, next_lit_number_binary,
}

-- `s'` is reached from `s` by consuming characters.
pub record IsAfter (s s' : Source) : Type 0 where
  pub forward : s.pos ≤ s'.pos
  pub shorter : length s'.input ≤ length s.input
  pub within : s'.pos + length s'.input ≤ s.pos + length s.input

-- The span of the token ends at the last character consumed, and begins at `first`.
pub record Spans (first : ℕ) (s : Source) (r : Token × Source) : Type 0 where
  pub begins : r.0.at.start ≡ first
  pub nonempty : first ≤ r.0.at.end
  pub ends : r.0.at.end + 1 ≡ r.1.pos
  pub shorter : length r.1.input ≤ length s.input
  pub within : r.1.pos + length r.1.input ≤ s.pos + length s.input

pub emit-Spans :
    (p : Payload) (first : ℕ) (s s' : Source)
    → first < s.pos
    → IsAfter s s'
    → Spans first s (emit p first s')
emit-Spans p first s s' h a = omega arith

pub if-Spans :
    (b : Bool) {first : ℕ} {s : Source} {x y : Token × Source}
    → Spans first s x
    → Spans first s y
    → Spans first s (if b then x else y)
if-Spans true hx hy = hx
if-Spans false hx hy = hy

pub IsAfter-refl : (s : Source) → IsAfter s s
IsAfter-refl s = omega arith

pub IsAfter-cons :
    (c pos : ℕ) (cs : List ℕ) (s' : Source)
    → IsAfter (source (advance c pos) cs) s'
    → IsAfter (source pos (c ∷ cs)) s'
unfolding advance
IsAfter-cons c pos cs s' a = ground arith

pub IsAfter-if :
    (b : Bool) {s x y : Source} → IsAfter s x → IsAfter s y → IsAfter s (if b then x else y)
IsAfter-if true hx hy = hx
IsAfter-if false hx hy = hy

number_loop-IsAfter :
    (n : Number) (pos : ℕ) (cs : List ℕ) → IsAfter (source pos cs) (number_loop n pos cs).1
unfolding number_loop
number_loop-IsAfter n pos [] = omega arith
number_loop-IsAfter n pos (c ∷ cs) = ground (
  arith,
  IsAfter-cons c pos cs (source (advance c pos) cs) (IsAfter-refl (source (advance c pos) cs)),
  IsAfter-cons c pos cs (number_loop (number_step n c) (advance c pos) cs).1
      (number_loop-IsAfter (number_step n c) (advance c pos) cs),
)

finish_number-Spans :
    (first : ℕ) (n : Number) (s s' : Source)
    → first < s.pos
    → IsAfter s s'
    → Spans first s (finish_number first (n, s'))
unfolding finish_number
finish_number-Spans first n s s' h a = ground arith

-- A decimal literal.
pub next_lit_number-Spans :
    (c : ℕ) (s : Source) → 0 < s.pos → Spans (s.pos - 1) s (next_lit_number c s)
unfolding next_lit_number
next_lit_number-Spans c s h =
    let (n, s') = number_loop (start_number c) s.pos s.input in
    finish_number-Spans (s.pos - 1) n s s' (omega arith)
      (number_loop-IsAfter (start_number c) s.pos s.input)

module _ (step : Radix → ℕ → Radix) where
  radix_loop-IsAfter :
      (n : Radix) (pos : ℕ) (cs : List ℕ) → IsAfter (source pos cs) (radix_loop step n pos cs).1
  unfolding radix_loop
  radix_loop-IsAfter n pos [] = omega arith
  radix_loop-IsAfter n pos (c ∷ cs) = ground (
    arith,
    IsAfter-cons c pos cs (source (advance c pos) cs) (IsAfter-refl (source (advance c pos) cs)),
    IsAfter-cons c pos cs (radix_loop step (step n c) (advance c pos) cs).1
        (radix_loop-IsAfter (step n c) (advance c pos) cs),
  )

finish_radix-Spans :
    (e : LexError) (first : ℕ) (n : Radix) (s s' : Source)
    → first < s.pos
    → IsAfter s s'
    → Spans first s (finish_radix e first (n, s'))
unfolding finish_radix
finish_radix-Spans e first n s s' h a = ground arith

pub next_lit_number_hex-Spans :
    (s : Source) → 0 < s.pos → Spans (s.pos - 2) s (next_lit_number_hex s)
unfolding next_lit_number_hex
next_lit_number_hex-Spans s h =
    finish_radix-Spans _ (s.pos - 2) _ s _ (omega arith) (radix_loop-IsAfter _ _ s.pos s.input)

pub next_lit_number_binary-Spans :
    (s : Source) → 0 < s.pos → Spans (s.pos - 2) s (next_lit_number_binary s)
unfolding next_lit_number_binary
next_lit_number_binary-Spans s h =
    finish_radix-Spans _ (s.pos - 2) _ s _ (omega arith) (radix_loop-IsAfter _ _ s.pos s.input)
