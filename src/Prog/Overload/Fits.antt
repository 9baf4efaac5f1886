-- ===== src/Prog/Overload/Fits.antt =====
-- The tests of one overload, against what it has to fit.
use novus.Base.{
  ℕ, ◌≤◌, ◌≡◌, refl, ap, ◌∙◌, inl, inr, ◌↔◌, arith, List, Option, none, some, Bool, true, false,
  length, if◌then◌else◌,
}
use mathlib.Core.Path.{subst}
use novus.Prog.Funcs.{FuncDecl, OverloadOptions, min_input_count, is_excluded}
use novus.Prog.Overload.{Program, is_skipped, conv_amount, count_convs}
use novus.Prog.Overload.Converts.{Converts, Fits, count_convs-Counted, count_convs-Converts}

pub is_skipped-false :
    (o : OverloadOptions) (input : List ℕ) (d : FuncDecl)
    → is_skipped o input d ≡ false
    → (min_input_count d ≤ length input)
      × (length input ≤ length d.input)
      × (is_excluded o d ≡ false)
      × (o.no_opt_args ≡ true → length input ≡ length d.input)
unfolding is_skipped
is_skipped-false o input d h = ground arith

not_skipped :
    (o : OverloadOptions) (input : List ℕ) (d : FuncDecl)
    → min_input_count d ≤ length input
    → length input ≤ length d.input
    → is_excluded o d ≡ false
    → (o.no_opt_args ≡ true → length input ≡ length d.input)
    → is_skipped o input d ≡ false
unfolding is_skipped
not_skipped o input d h k e l = ground arith

skip_some :
    (c : Bool) (x : Option (Option ℕ)) (n : ℕ)
    → (if c then some none else x) ≡ some (some n)
    → (c ≡ false) × (x ≡ some (some n))
skip_some true x n h = absurd cc
skip_some false x n h = (refl, h)

-- One round of the loop over the overloads counts n conversions exactly for an overload that takes the
-- arguments with n conversions: enough arguments and not too many, none left to their defaults where
-- the options ask for all, not excluded by the options, each argument of its parameter's type or
-- implicitly converted to it, the first one not converted where the options forbid it, and no more
-- conversions than a limit that is not negative.
pub conv_amount-Fits :
    (prog : Program) (o : OverloadOptions) (input : List ℕ) (d : FuncDecl) (n : ℕ)
    → (conv_amount prog o input d ≡ some (some n)) ↔ Fits prog o input d n
unfolding conv_amount
conv_amount-Fits prog o input d n = (
  λ h.
      let (s, k) = skip_some (is_skipped o input d) _ n h in
      let (m, q, c, g, l) = count_convs-Counted prog o true 0 input d.input n k in
      let (a, b, e, f) = is_skipped-false o input d s in
      let m_is_n : m ≡ n = omega (arith, q) in
      record {
        enough = a;
        not_too_many = b;
        allowed = e;
        all_args = f;
        converts = subst (Converts prog input d.input) m_is_n c;
        first_arg = λ x. g x refl;
        limit = λ x. elim (l x) [ inl z ↦ omega (arith, z, m_is_n) | inr z ↦ z ];
      },
  λ f.
      let s = not_skipped o input d f.enough f.not_too_many f.allowed f.all_args in
      ap (λ (c : Bool). if c then some none else count_convs prog o true 0 input d.input) s
      ∙ count_convs-Converts prog o true 0 n input d.input f.converts (λ x _. f.first_arg x)
          (λ x. omega (arith, f.limit x))
      ∙ ap (λ (x : ℕ). some (some x)) (omega arith),
)
