-- ===== src/Prog/Overload/Convertible.antt =====
-- Whether arguments can be converted, against overload resolution.
use novus.Base.{
  ℕ, suc, ◌≡◌, ◌≢◌, refl, arith, List, [], ◌∷◌, Option, none, some, Bool, true, false, ◌||◌, ◌==◌,
  if◌then◌else◌,
}
use novus.Prog.Funcs.{FuncDecl, OverloadOptions, default_options, is_excluded}
use novus.Prog.Overload.{
  Program, find_implicit_conv, is_at_limit, is_over, count_convs, is_skipped, conv_amount,
  all_convertible, is_implicit_convertible,
}

-- The options with a limit alone.
abbrev pub with_limit : ℕ → OverloadOptions
with_limit limit = record default_options { max_implicit_convs = limit }

-- Whether an overload is valid, without its number of conversions.
unfoldable pub is_valid : Option (Option ℕ) → Option Bool
is_valid none = none
is_valid (some none) = some false
is_valid (some (some n)) = some true

is_over-is_at_limit :
    (limit amount : ℕ) → limit ≢ 0 → is_over limit amount ≡ is_at_limit (with_limit limit) amount
is_over-is_at_limit limit amount h = ground arith

-- One round of each loop.
is_valid-round :
    (c over at_limit : Bool) (conv : Option (Option ℕ)) (same converted : Option Bool)
    (same_count converted_count : Option (Option ℕ))
    → over ≡ at_limit
    → same ≡ is_valid same_count
    → converted ≡ is_valid converted_count
    → (if c then same else if over then some false else elim conv [
      | none ↦ none
      | some conv ↦ elim conv [ none ↦ some false | some c ↦ converted ]
    ])
      ≡ is_valid (
          if c then same_count else if at_limit then some none else elim conv [
            | none ↦ none
            | some conv ↦ elim conv [ none ↦ some none | some c ↦ converted_count ]
          ])
unfolding is_valid
is_valid-round true o l conv s x t y e h k = h
is_valid-round false true true conv s x t y e h k = refl
is_valid-round false true false conv s x t y e h k = absurd cc
is_valid-round false false true conv s x t y e h k = absurd cc
is_valid-round false false false none s x t y e h k = refl
is_valid-round false false false (some none) s x t y e h k = refl
is_valid-round false false false (some (some c)) s x t y e h k = k

all_convertible-count_convs :
    (prog : Program) (limit amount : ℕ) (is_first : Bool) (is ts : List ℕ)
    → limit ≢ 0
    → all_convertible prog limit amount is ts
      ≡ is_valid (count_convs prog (with_limit limit) is_first amount is ts)
unfolding all_convertible count_convs is_valid
all_convertible-count_convs prog limit a f [] ts h = refl
all_convertible-count_convs prog limit a f (i ∷ is) [] h = refl
all_convertible-count_convs prog limit a f (i ∷ is) (t ∷ ts) h =
    is_valid-round (i == t) (is_over limit a) (is_at_limit (with_limit limit) a)
      (find_implicit_conv prog i t) _ _ _ _ (is_over-is_at_limit limit a h)
      (all_convertible-count_convs prog limit a false is ts h)
      (all_convertible-count_convs prog limit (suc a) false is ts h)

or_nothing : (b : Bool) → b ≡ (b || false)
or_nothing true = refl
or_nothing false = refl

is_valid-unless :
    (c d : Bool) (x : Option Bool) (y : Option (Option ℕ))
    → c ≡ d
    → x ≡ is_valid y
    → (if c then some false else x) ≡ is_valid (if d then some none else y)
unfolding is_valid
is_valid-unless true true x y e h = refl
is_valid-unless true false x y e h = absurd cc
is_valid-unless false true x y e h = absurd cc
is_valid-unless false false x y e h = h

-- For a limit on the conversions that is not zero, isImplicitConvertible says that arguments can be
-- converted to the parameters of a function exactly where overload resolution with that limit and no
-- other option accepts the function, and throws exactly where that throws.
pub is_implicit_convertible-conv_amount :
    (prog : Program) (d : FuncDecl) (input : List ℕ) (limit : ℕ)
    → limit ≢ 0
    → is_implicit_convertible prog d.input input limit d.num_opt_inputs
      ≡ is_valid (conv_amount prog (with_limit limit) input d)
unfolding is_implicit_convertible conv_amount is_skipped is_excluded
is_implicit_convertible-conv_amount prog d input limit h =
    is_valid-unless _ _ _ _ (or_nothing _)
      (all_convertible-count_convs prog limit 0 true input d.input h)
