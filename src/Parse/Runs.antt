-- ===== src/Parse/Runs.antt =====
-- What a run of a parser consumes and gives.
use novus.Base.{
  ℕ, zero, suc, ◌+◌, ◌≤◌, ◌≡◌, refl, sym, ap, ◌∙◌, ◌⊎◌, inr, arith, List, [], ◌∷◌, ◌++◌,
  append_assoc, Bool, true, false, length, length-append, ◌==◌, if◌then◌else◌,
}
use mathlib.Core.Path.{subst}
use novus.Lex.Token.{TokenKind, Payload, Span, Token, end_of_input, basic}
use novus.Parse.Tokens.{kind_index, is_kind, is_end, is_static_int}
use novus.Parse.Input.{
  Input, Result, ok, undefined, Parser, bind, peek_of, peek_token, consume_of, consume_token,
}

-- A static int is among the tokens.
abbrev pub HasStatic : List Token → Type 0
HasStatic [] = ⊥
HasStatic (t ∷ ts) = (is_static_int t ≡ true) ⊎ HasStatic ts

HasStatic-append : (c ts : List Token) → HasStatic ts → HasStatic (c ++ ts)
HasStatic-append [] ts h = h
HasStatic-append (t ∷ c) ts h = inr (HasStatic-append c ts h)

-- The run ends within its fuel; it consumes some tokens, of which `Y` holds with the value, or it reads
-- an empty optional, with a static int among the tokens.
pub data Runs {A : Type 0} (s : Input) (Y : A → List Token → Type 0)
    : Result (A × Input) → Type 0 where
  done :
      {a : A} {t : Input}
      → (c : List Token) → s.tokens ≡ c ++ t.tokens
      → Y a c
      → Runs s Y (ok (a, t))
  reads_nullopt : HasStatic s.tokens → Runs s Y undefined

-- The number of tokens that are left.
abbrev pub left : Input → ℕ
left s = length s.tokens

Runs-after :
    {B : Type 0} {Z : B → List Token → Type 0} {s t : Input} {r : Result (B × Input)}
    → (c : List Token) → s.tokens ≡ c ++ t.tokens
    → Runs t (λ b d. Z b (c ++ d)) r
    → Runs s Z r
Runs-after {s} {t} c e (done {t = u} d q z) =
    done (c ++ d) (e ∙ ap (λ ts. c ++ ts) q ∙ sym (append_assoc c d u.tokens)) z
Runs-after {s} {t} c e (reads_nullopt h) =
    reads_nullopt (subst HasStatic (sym e) (HasStatic-append c t.tokens h))

module _ {A : Type 0} where
  pub pure-Runs : {s : Input} {Y : A → List Token → Type 0} (a : A) → Y a [] → Runs s Y (ok (a, s))
  pure-Runs a y = done [] refl y

  pub Runs-imp :
      {s : Input} {Y Z : A → List Token → Type 0} {r : Result (A × Input)}
      → Runs s Y r
      → ((a : A) (c : List Token) → Y a c → Z a c)
      → Runs s Z r
  Runs-imp (done {a} c e y) h = done c e (h a c y)
  Runs-imp (reads_nullopt n) h = reads_nullopt n

  pub Runs-if :
      {s : Input} {Y : A → List Token → Type 0} (b : Bool) (p q : Parser A)
      → (b ≡ true → Runs s Y (p s))
      → (b ≡ false → Runs s Y (q s))
      → Runs s Y ((if b then p else q) s)
  Runs-if true p q h k = h refl
  Runs-if false p q h k = k refl

  pub Runs-bind :
      {B : Type 0} {Y : A → List Token → Type 0} {Z : B → List Token → Type 0} {s : Input}
      {r : Result (A × Input)} {f : A → Parser B}
      → Runs s Y r
      → ((a : A) (t : Input) (c : List Token)
          → left s ≡ length c + left t
          → Y a c
          → Runs t (λ b d. Z b (c ++ d)) (f a t))
      → Runs s Z (bind r (λ (a, t). f a t))
  Runs-bind {B} {Y} {Z} {s} {r} {f} (done {a} {t} c e y) k =
      Runs-after c e (k a t c (ap length e ∙ length-append c t.tokens) y)
  Runs-bind (reads_nullopt h) k = reads_nullopt h

-- A token that is consumed: the next one, if one is left.
pub record Taken (s : Input) (a : Token) (c : List Token) : Type 0 where
  pub peeked : a ≡ peek_token s
  pub taken : is_end a ≡ false → c ≡ a ∷ []
  pub counts : 1 ≤ left s → length c ≡ 1

consume_of-Runs :
    (ts : List Token) (last : Span)
    → let s : Input = record { tokens = ts; last = last } in Runs s (Taken s) (consume_of ts last)
unfolding consume_of peek_token peek_of is_end
consume_of-Runs [] last =
    done [] refl
      (record { peeked = refl; taken = λ h. absurd cc; counts = λ h. absurd (omega arith) })
consume_of-Runs (t ∷ ts) last =
    done (t ∷ []) refl (record { peeked = refl; taken = λ h. refl; counts = λ h. omega arith })

pub consume_token-Runs : (s : Input) → Runs s (Taken s) (consume_token s)
unfolding consume_token
consume_token-Runs s = consume_of-Runs s.tokens s.last

-- A token of a kind is not the end.
pub is_kind-not_end : (k : TokenKind) (t : Token) → is_kind k t ≡ true → is_end t ≡ false
unfolding is_kind is_end
is_kind-not_end k t h = by_payload t.payload h
  where
    by_payload :
        (p : Payload)
        → elim p [ basic j ↦ kind_index j == kind_index k | _ ↦ false ] ≡ true
        → elim p [ end_of_input ↦ true | _ ↦ false ] ≡ false
    by_payload end_of_input h = absurd cc
    by_payload _ h = refl

left-peek_of : (ts : List Token) (last : Span) → is_end (peek_of ts last) ≡ false → 1 ≤ length ts
unfolding peek_of is_end
left-peek_of [] last h = absurd cc
left-peek_of (t ∷ ts) last h = omega arith

pub left-peek_token : (s : Input) → is_end (peek_token s) ≡ false → 1 ≤ left s
unfolding peek_token
left-peek_token s h = left-peek_of s.tokens s.last h

-- What is left behind a token that is consumed, where what was left is at most n.
pub left-consumed : (x y z n : ℕ) → x ≡ y + z → (1 ≤ x → y ≡ 1) → 1 ≤ n → x ≤ n → suc z ≤ n
left-consumed zero y z n e h some_ l = omega (arith, e, some_)
left-consumed (suc x) y z n e h some_ l = omega (arith, e, h (omega arith), l)
