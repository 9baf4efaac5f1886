-- ===== src/Prog/Overload/Best.antt =====
-- The overload that is chosen.
use novus.Base.{
  some_inj, ℕ, suc, ◌-◌, ◌^◌, ◌<◌, ◌≤◌, ◌≡◌, refl, sym, ap, ◌∙◌, ◌⊎◌, inl, inr, arith, List, [],
  ◌∷◌, ◌++◌, Option, none, some, Bool, true, false, length, ltb, Bool-cases, All, All-imp,
}
use mathlib.Core.Path.{subst}
use novus.Prog.Funcs.{FuncDecl, OverloadOptions, find_func}
use novus.Prog.Overload.{Program, conv_amount, best_overload, find_overload}
use novus.Prog.Overload.Converts.{Converts, all_given, same, converted, Fits}
use novus.Prog.Overload.Fits.{conv_amount-Fits}

bind_some {ℓ κ} :
    {A : Type ℓ} {B : Type κ} (o : Option A) (k : A → Option B) (r : B)
    → elim o [ none ↦ none | some x ↦ k x ] ≡ some r
    → (x : A) × (o ≡ some x) × (k x ≡ some r)
bind_some none k r h = absurd cc
bind_some (some x) k r h = (x, refl, h)

Converts-length : (prog : Program) (is ts : List ℕ) (n : ℕ) → Converts prog is ts n → n ≤ length is
Converts-length prog _ _ _ all_given = omega arith
Converts-length prog _ _ _ (same {is} {ts} {n} t c) = omega (arith, Converts-length prog is ts n c)
Converts-length prog _ _ _ (converted {is} {ts} {n} i t conv d e c) =
    omega (arith, Converts-length prog is ts n c)

module _ (prog : Program) (o : OverloadOptions) (input : List ℕ) where
  -- An overload takes the arguments with n conversions.
  abbrev pub Takes : ℕ → ℕ → Type 0
  Takes id n =
      (d : FuncDecl) × (find_func id prog.func_decls.funcs ≡ some d) × Fits prog o input d n

  abbrev pub NeedsAtLeast : ℕ → ℕ → Type 0
  NeedsAtLeast n id = (m : ℕ) → Takes id m → n ≤ m

  -- The first of the overloads that need the fewest conversions.
  pub record First (overloads : List ℕ) (id n : ℕ) : Type 0 where
    pub before : List ℕ
    pub after : List ℕ
    pub place : overloads ≡ before ++ (id ∷ after)
    pub takes : Takes id n
    pub more : All (NeedsAtLeast (suc n)) before
    pub no_less : All (NeedsAtLeast n) after

  -- The result of the loop with the best overload so far: that one, or one with fewer conversions.
  abbrev Chosen : List ℕ → Option ℕ → ℕ → Option ℕ → Type 0
  Chosen ids best amount r =
      ((r ≡ best) × All (NeedsAtLeast amount) ids)
      ⊎ ((id n : ℕ) × (r ≡ some id) × (n < amount) × First ids id n)

  only :
      (id n m : ℕ) (d : FuncDecl)
      → find_func id prog.func_decls.funcs ≡ some d
      → conv_amount prog o input d ≡ some (some n)
      → Takes id m
      → m ≡ n
  only id n m d e a (x, f, t) =
      let same : x ≡ d = some_inj (sym f ∙ e) in
      let b = (conv_amount-Fits prog o input x m).1 t in
      some_inj (some_inj (sym b ∙ ap (conv_amount prog o input) same ∙ a))

  Chosen-later :
      (id amount : ℕ) (ids : List ℕ) (best r : Option ℕ)
      → NeedsAtLeast amount id
      → Chosen ids best amount r
      → Chosen (id ∷ ids) best amount r
  Chosen-later id amount ids best r h (inl (e, a)) = inl (e, (h, a))
  Chosen-later id amount ids best r h (inr (c, n, e, l, f)) = inr (
    c,
    n,
    e,
    l,
    record {
      before = id ∷ f.before;
      after = f.after;
      place = ap (λ t. id ∷ t) f.place;
      takes = f.takes;
      more = (λ m t. omega (arith, l, h m t), f.more);
      no_less = f.no_less;
    },
  )

  Chosen-here :
      (id n amount : ℕ) (ids : List ℕ) (best r : Option ℕ)
      → Takes id n
      → ((m : ℕ) → Takes id m → m ≡ n)
      → n < amount
      → Chosen ids (some id) n r
      → Chosen (id ∷ ids) best amount r
  Chosen-here id n amount ids best r t u l (inl (e, a)) = inr (
    id,
    n,
    e,
    l,
    record { before = []; after = ids; place = refl; takes = t; more = tt; no_less = a },
  )
  Chosen-here id n amount ids best r t u l (inr (c, k, e, m, f)) = inr (
    c,
    k,
    e,
    omega (arith, l, m),
    record {
      before = id ∷ f.before;
      after = f.after;
      place = ap (λ t. id ∷ t) f.place;
      takes = f.takes;
      more = (λ x t. omega (arith, m, u x t), f.more);
      no_less = f.no_less;
    },
  )

  round-Chosen :
      (id amount : ℕ) (ids : List ℕ) (best r : Option ℕ) (d : FuncDecl) (valid : Option ℕ)
      → find_func id prog.func_decls.funcs ≡ some d
      → conv_amount prog o input d ≡ some valid
      → ((b : Option ℕ) (n : ℕ) → best_overload prog o input ids b n ≡ some r → Chosen ids b n r)
      → elim valid [
        | none ↦ best_overload prog o input ids best amount
        | some n ↦ elim (ltb n amount) [
          | true ↦ best_overload prog o input ids (some id) n
          | false ↦ best_overload prog o input ids best amount
        ]
      ]
        ≡ some r
      → Chosen (id ∷ ids) best amount r
  round-Chosen id amount ids best r d none e a k h =
      Chosen-later id amount ids best r
        (λ m t.
          let (x, f, fits) = t in
          let same : x ≡ d = some_inj (sym f ∙ e) in
          absurd cc (
            some_inj (
              sym ((conv_amount-Fits prog o input x m).1 fits)
              ∙ ap (conv_amount prog o input) same
              ∙ a)))
        (k best amount h)
  round-Chosen id amount ids best r d (some n) e a k h =
      let next : Bool → Option (Option ℕ) = λ b. elim b [
        | true ↦ best_overload prog o input ids (some id) n
        | false ↦ best_overload prog o input ids best amount
      ] in
      elim (Bool-cases (ltb n amount)) [
        | inl y ↦
            let l : n < amount = ground arith in
            Chosen-here id n amount ids best r (d, e, (conv_amount-Fits prog o input d n).0 a)
              (λ m t. only id n m d e a t) l (k (some id) n (sym (ap next y) ∙ h))
        | inr x ↦
            let l : amount ≤ n = ground arith in
            Chosen-later id amount ids best r (λ m t. omega (arith, l, only id n m d e a t))
              (k best amount (sym (ap next x) ∙ h))
      ]

  best_overload-Chosen :
      (ids : List ℕ) (best r : Option ℕ) (amount : ℕ)
      → best_overload prog o input ids best amount ≡ some r
      → Chosen ids best amount r
  unfolding best_overload
  best_overload-Chosen [] best r amount h = inl (sym (some_inj h), tt)
  best_overload-Chosen (id ∷ ids) best r amount h =
      let (d, e, h1) = bind_some (find_func id prog.func_decls.funcs) _ r h in
      let (valid, a, h2) = bind_some (conv_amount prog o input d) _ r h1 in
      round-Chosen id amount ids best r d valid e a (λ b n k. best_overload-Chosen ids b r n k) h2

  -- The result is the first overload with the fewest conversions; none only where no overload takes the
  -- arguments.
  abbrev pub IsBest : List ℕ → Option ℕ → Type 0
  IsBest overloads none = All (λ (id : ℕ). (n : ℕ) → Takes id n → ⊥) overloads
  IsBest overloads (some id) = (n : ℕ) × First overloads id n

  pub find_overload-IsBest :
      (overloads : List ℕ) (r : Option ℕ)
      → length input < 2 ^ 31 - 1
      → find_overload prog overloads input o ≡ some r
      → IsBest overloads r
  unfolding find_overload
  find_overload-IsBest overloads r l h =
      elim (best_overload-Chosen overloads none r (2 ^ 31 - 1) h) [
        | inl (e, a) ↦ subst (IsBest overloads) (sym e) (
            All-imp (NeedsAtLeast (2 ^ 31 - 1)) (λ (id : ℕ). (n : ℕ) → Takes id n → ⊥)
              (λ id k n t.
                omega (arith, k n t, l, Converts-length prog input t.0.input n t.2.converts))
              overloads a)
        | inr (id, n, e, m, f) ↦ subst (IsBest overloads) (sym e) (n, f)
      ]
