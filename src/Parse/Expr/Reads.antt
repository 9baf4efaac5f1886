-- ===== src/Parse/Expr/Reads.antt =====
-- What a run of nextExpr and of the functions that it calls gives, and lemmas on the tokens and the nodes.
pub mod Calls
pub mod Groups
pub mod Kinds
pub mod Args
pub mod Plain
pub mod Switch
pub mod Lambda
pub mod Rest
pub mod Primary
pub mod Whole
use novus.Base.{
  ℕ, zero, suc, ◌+◌, ◌≤◌, ◌≡◌, refl, arith, List, [], ◌∷◌, ◌++◌, Bool, true, false, ◌&&◌, ◌||◌, not,
  ◌==◌, if◌then◌else◌,
}
use novus.Lex.Token
use novus.Lex.Token.{TokenKind, Keyword, Payload, Token, end_of_input, identifier, keyword}
use novus.Parse.Tokens.{is_kind, is_kw, is_end, is_identifier, keyword_index}
use novus.Parse.Syntax.{Node}
use novus.Parse.Input.{Input, Parser}
use novus.Parse.Runs.{Runs, left}
use novus.Parse.Types.Reads.{Progress}
use novus.Parse.Expr.Print.{node_tokens, node_ok, parens_tokens}

abbrev pub Reads : Input → Node → List Token → Type 0
Reads s e c = Progress s c × (node_ok e ≡ true → c ≡ node_tokens e)

-- The tokens behind a left hand side.
abbrev pub ReadsAfter : Input → List Token → Node → Node → List Token → Type 0
ReadsAfter s modifiers lhs e c =
    Progress s c
    × (node_ok e ≡ true
        → (node_ok lhs ≡ true) × (node_tokens e ≡ modifiers ++ (node_tokens lhs ++ c)))

-- nextExpr, where fewer than n tokens are left.
abbrev pub NextReads : (ℕ → ℕ → Parser Node) → ℕ → Type 0
NextReads next n = (min max : ℕ) (t : Input) → suc (left t) ≤ n → Runs t (Reads t) (next min max t)

-- A choice of a node or an error node.
pub chosen :
    (b : Bool) (x y : Node)
    → node_ok y ≡ false
    → node_ok (if b then x else y) ≡ true
    → (b ≡ true) × (node_ok x ≡ true) × ((if b then x else y) ≡ x)
chosen true x y h v = (refl, v, refl)
chosen false x y h v = absurd cc

pub either_of : {P : Type 0} (a b : Bool) → (a || b) ≡ true → (a ≡ true → P) → (b ≡ true → P) → P
either_of true b h p q = p refl
either_of false b h p q = q h

pub is_kw-not_end : (k : Keyword) (t : Token) → is_kw k t ≡ true → is_end t ≡ false
unfolding is_kw is_end
is_kw-not_end k t h = by_payload t.payload h
  where
    by_payload :
        (p : Payload)
        → elim p [ keyword j ↦ keyword_index j == keyword_index k | _ ↦ false ] ≡ true
        → elim p [ end_of_input ↦ true | _ ↦ false ] ≡ false
    by_payload end_of_input h = absurd cc
    by_payload _ h = refl

pub is_identifier-not_end : (t : Token) → is_identifier t ≡ true → is_end t ≡ false
unfolding is_identifier is_end
is_identifier-not_end t h = by_payload t.payload h
  where
    by_payload :
        (p : Payload)
        → elim p [ identifier n ↦ true | _ ↦ false ] ≡ true
        → elim p [ end_of_input ↦ true | _ ↦ false ] ≡ false
    by_payload end_of_input h = absurd cc
    by_payload _ h = refl

pub parens-single :
    (opening closing : Token) (inner : List Token)
    → is_kind TokenKind.op_paren_paren opening ≡ true
    → parens_tokens opening inner closing ≡ opening ∷ []
unfolding parens_tokens
parens-single opening closing inner h = rw h refl

pub parens-pair :
    (opening closing : Token) (inner : List Token)
    → is_kind TokenKind.op_paren_paren opening ≡ false
    → parens_tokens opening inner closing ≡ opening ∷ (inner ++ (closing ∷ []))
unfolding parens_tokens
parens-pair opening closing inner h = rw h refl
