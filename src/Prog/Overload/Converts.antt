-- ===== src/Prog/Overload/Converts.antt =====
-- What an overload has to fit, and what the loop over the arguments counts.
use novus.Base.{
  some_inj, ℕ, suc, ◌+◌, ◌^◌, ◌<◌, ◌≤◌, ◌≡◌, ◌≢◌, refl, sym, ap, ◌∙◌, ◌⊎◌, inl, inr, arith, List,
  [], ◌∷◌, Option, none, some, Bool, true, false, ◌&&◌, length, ◌==◌, ==_iff, Bool-cases,
  if◌then◌else◌,
}
use mathlib.Core.Path.{subst}
use novus.Prog.Funcs.{FuncDecl, OverloadOptions, min_input_count, is_excluded}
use novus.Prog.Overload.{Program, find_implicit_conv, is_at_limit, count_convs}

-- Each argument has the type of its parameter or is converted to it, with n conversions.
pub data Converts (prog : Program) : List ℕ → List ℕ → ℕ → Type 0 where
  all_given : {ts : List ℕ} → Converts prog [] ts 0
  same :
      {is ts : List ℕ} {n : ℕ} → (t : ℕ) → Converts prog is ts n → Converts prog (t ∷ is) (t ∷ ts) n
  converted :
      {is ts : List ℕ} {n : ℕ}
      → (i t conv : ℕ) → i ≢ t
      → find_implicit_conv prog i t ≡ some (some conv)
      → Converts prog is ts n
      → Converts prog (i ∷ is) (t ∷ ts) (suc n)

abbrev pub SameFirst : List ℕ → List ℕ → Type 0
SameFirst (i ∷ is) (t ∷ ts) = i ≡ t
SameFirst _ _ = Unit

-- An overload that takes the arguments, with n conversions.
pub record Fits (prog : Program) (o : OverloadOptions) (input : List ℕ) (d : FuncDecl) (n : ℕ)
    : Type 0 where
  pub enough : min_input_count d ≤ length input
  pub not_too_many : length input ≤ length d.input
  pub allowed : is_excluded o d ≡ false
  pub all_args : o.no_opt_args ≡ true → length input ≡ length d.input
  pub converts : Converts prog input d.input n
  pub first_arg : o.no_conv_on_first_arg ≡ true → SameFirst input d.input
  pub limit : o.max_implicit_convs < 2 ^ 31 → n ≤ o.max_implicit_convs

-- What the loop over the arguments finds, from a number of conversions on.
abbrev Counted : Program → OverloadOptions → Bool → ℕ → List ℕ → List ℕ → ℕ → Type 0
Counted prog o is_first amount is ts m =
    (n : ℕ) × (m ≡ amount + n)
    × Converts prog is ts n
    × (o.no_conv_on_first_arg ≡ true → is_first ≡ true → SameFirst is ts)
    × (o.max_implicit_convs < 2 ^ 31 → (n ≡ 0) ⊎ (m ≤ o.max_implicit_convs))

conv_some :
    (r : Option (Option ℕ)) (then_some : Option (Option ℕ)) (m : ℕ)
    → elim r [ none ↦ none | some conv ↦ elim conv [ none ↦ some none | some c ↦ then_some ] ]
      ≡ some (some m)
    → ((conv : ℕ) × (r ≡ some (some conv))) × (then_some ≡ some (some m))
conv_some none s m h = absurd cc
conv_some (some none) s m h = absurd cc
conv_some (some (some c)) s m h = ((c, refl), h)

if_some :
    (c : Bool) (x : Option (Option ℕ)) (m : ℕ)
    → (if c then some none else x) ≡ some (some m)
    → (c ≡ false) × (x ≡ some (some m))
if_some true x m h = absurd cc
if_some false x m h = (refl, h)

if_true : (c : Bool) (x y z : Option (Option ℕ)) → c ≡ true → (if c then x else y) ≡ z → x ≡ z
if_true true x y z e h = h
if_true false x y z e h = absurd cc

if_false : (c : Bool) (x y z : Option (Option ℕ)) → c ≡ false → (if c then x else y) ≡ z → y ≡ z
if_false true x y z e h = absurd cc
if_false false x y z e h = h

pub not_equal : (i t : ℕ) → (i == t) ≡ false → i ≢ t
not_equal i t h e = absurd cc (sym h ∙ (==_iff i t).1 e)

equal_not : (i t : ℕ) → i ≢ t → (i == t) ≡ false
equal_not i t h = elim (Bool-cases (i == t)) [ inl y ↦ absurd (h ((==_iff i t).0 y)) | inr n ↦ n ]

not_at_limit :
    (o : OverloadOptions) (amount : ℕ)
    → is_at_limit o amount ≡ false
    → o.max_implicit_convs < 2 ^ 31
    → amount < o.max_implicit_convs
not_at_limit o amount h k = ground arith

at_limit :
    (o : OverloadOptions) (amount : ℕ)
    → (o.max_implicit_convs < 2 ^ 31 → amount < o.max_implicit_convs)
    → is_at_limit o amount ≡ false
at_limit o amount h = ground arith

and_false : (a b : Bool) → (a && b) ≡ false → a ≡ true → b ≡ true → ⊥
and_false true true h i j = absurd cc
and_false true false h i j = absurd cc
and_false false b h i j = absurd cc

false_and : (a b : Bool) → (a ≡ true → b ≡ true → ⊥) → (a && b) ≡ false
false_and true true h = absurd (h refl refl)
false_and true false h = refl
false_and false b h = refl

pub count_convs-Counted :
    (prog : Program) (o : OverloadOptions) (is_first : Bool) (amount : ℕ) (is ts : List ℕ) (m : ℕ)
    → count_convs prog o is_first amount is ts ≡ some (some m)
    → Counted prog o is_first amount is ts m
unfolding count_convs
count_convs-Counted prog o f a [] ts m h =
    (0, omega (arith, some_inj (some_inj h)), all_given, λ _ _. tt, λ _. inl refl)
count_convs-Counted prog o f a (i ∷ is) [] m h = absurd cc
count_convs-Counted prog o f a (i ∷ is) (t ∷ ts) m h = elim (Bool-cases (i == t)) [
  | inl y ↦
      let e = (==_iff i t).0 y in
      let (n, q, c, g, l) =
        count_convs-Counted prog o false a is ts m (if_true (i == t) _ _ _ y h) in
      (n, q, subst (λ (x : ℕ). Converts prog (x ∷ is) (t ∷ ts) n) (sym e) (same t c), λ _ _. e, l)
  | inr d ↦
      let (x, h1) = if_some (o.no_conv_on_first_arg && f) _ m (if_false (i == t) _ _ _ d h) in
      let (y, h2) = if_some (is_at_limit o a) _ m h1 in
      let ((conv, e), h3) =
        conv_some (find_implicit_conv prog i t) (count_convs prog o false (suc a) is ts) m h2 in
      let (n, q, c, g, l) = count_convs-Counted prog o false (suc a) is ts m h3 in
      (
        suc n,
        omega (arith, q),
        converted i t conv (not_equal i t d) e c,
        λ p r. absurd (and_false o.no_conv_on_first_arg f x p r),
        λ k. inr (elim (l k) [ inl z ↦ omega (arith, q, z, not_at_limit o a y k) | inr z ↦ z ]),
      )
]

pub count_convs-Converts :
    (prog : Program) (o : OverloadOptions) (is_first : Bool) (amount n : ℕ) (is ts : List ℕ)
    → Converts prog is ts n
    → (o.no_conv_on_first_arg ≡ true → is_first ≡ true → SameFirst is ts)
    → (o.max_implicit_convs < 2 ^ 31 → amount + n ≤ o.max_implicit_convs)
    → count_convs prog o is_first amount is ts ≡ some (some (amount + n))
unfolding count_convs
count_convs-Converts prog o f a _ _ _ all_given g l = ap (λ (x : ℕ). some (some x)) (omega arith)
count_convs-Converts prog o f a _ _ _ (same {is} {ts} {n} t c) g l =
    rw ((==_iff t t).1 refl) (count_convs-Converts prog o false a n is ts c (λ _ z. absurd cc) l)
count_convs-Converts prog o f a _ _ _ (converted {is} {ts} {n} i t conv d e c) g l =
    rw
      (
        equal_not i t d,
        false_and o.no_conv_on_first_arg f (λ x y. d (g x y)),
        at_limit o a (λ k. omega (arith, l k)),
        e,
      )
      (count_convs-Converts prog o false (suc a) n is ts c (λ _ z. absurd cc)
          (λ k. omega (arith, l k))
        ∙ ap (λ (x : ℕ). some (some x)) (omega arith))
