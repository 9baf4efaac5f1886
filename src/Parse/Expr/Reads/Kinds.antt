-- ===== src/Parse/Expr/Reads/Kinds.antt =====
-- What the kind of a token says of its category, and of the end.
use novus.Base.{◌≡◌, refl, sym, ap, ◌∙◌, List, [], ◌∷◌, inl, none, some, Bool, true, false}
use novus.Lex.Token.{TokenKind, Payload, Token, end_of_input, basic, static_int, keyword}
use novus.Parse.Tokens.{is_end, is_operator, is_static_int, TokenCat, lookup_cat, kind_cat, get_kw}
use novus.Parse.Input.{Input, peek_of, peek_token}
use novus.Parse.Runs.{HasStatic}

-- A token of one of the categories is not the end.
abbrev pub known_cat : TokenCat → Bool
known_cat TokenCat.unknown_cat = false
known_cat _ = true

pub lookup_cat-not_end :
    (t : Token) (c : TokenCat) → lookup_cat t.payload ≡ c → known_cat c ≡ true → is_end t ≡ false
unfolding lookup_cat is_end
lookup_cat-not_end t c e h = by_payload t.payload (ap known_cat e ∙ h)
  where
    by_payload :
        (p : Payload)
        → known_cat (lookup_cat p) ≡ true
        → elim p [ end_of_input ↦ true | _ ↦ false ] ≡ false
    by_payload end_of_input h = absurd cc
    by_payload _ h = refl

pub is_operator-not_end : (t : Token) → is_operator t ≡ true → is_end t ≡ false
unfolding is_operator is_end lookup_cat
is_operator-not_end t h = by_payload t.payload h
  where
    by_payload :
        (p : Payload)
        → elim (lookup_cat p) [ TokenCat.operator_cat ↦ true | _ ↦ false ] ≡ true
        → elim p [ end_of_input ↦ true | _ ↦ false ] ≡ false
    by_payload end_of_input h = absurd cc
    by_payload _ h = refl

abbrev keyword_like : TokenCat → Bool
keyword_like TokenCat.keyword_cat = true
keyword_like _ = false

kind_cat-not_keyword : (k : TokenKind) → keyword_like (kind_cat k) ≡ false
unfolding kind_cat
kind_cat-not_keyword k = elim k as (λ k. keyword_like (kind_cat k) ≡ false) [
  | TokenKind.discard ↦ refl
  | _ ↦ refl
]

-- A token of the category of keywords that is none is a static int.
pub get_kw-static :
    (t : Token)
    → lookup_cat t.payload ≡ TokenCat.keyword_cat
    → get_kw t ≡ none
    → is_static_int t ≡ true
unfolding lookup_cat get_kw is_static_int kind_cat
get_kw-static t c h = by_payload t.payload c h
  where
    by_payload :
        (p : Payload)
        → lookup_cat p ≡ TokenCat.keyword_cat
        → elim p [ keyword k ↦ some k | _ ↦ none ] ≡ none
        → elim p [ static_int n ↦ true | _ ↦ false ] ≡ true
    by_payload (static_int n) c h = refl
    by_payload (basic k) c h = sym (kind_cat-not_keyword k) ∙ ap keyword_like c
    by_payload _ c h = absurd cc

pub HasStatic-peek : (s : Input) → is_static_int (peek_token s) ≡ true → HasStatic s.tokens
unfolding peek_token peek_of is_static_int
HasStatic-peek s h = of_list s.tokens h
  where
    of_list : (ts : List Token) → is_static_int (peek_of ts s.last) ≡ true → HasStatic ts
    of_list [] h = absurd cc
    of_list (t ∷ ts) h = inl h
