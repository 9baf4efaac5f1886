-- ===== src/Prog/Overload/Total.antt =====
-- The choice of an overload in a program whose functions take declared types has a result.
use novus.Base.{
  or_false, some_inj, ℕ, suc, ◌-◌, ◌^◌, ◌<◌, ◌≤◌, ◌≡◌, ◌≢◌, refl, ap, ◌∙◌, ◌⊎◌, inl, inr, arith,
  List, [], ◌∷◌, Option, none, some, Bool, true, false, ◌||◌, ◌&&◌, length, ltb, ◌==◌, ==_iff,
  if◌then◌else◌, All,
}
use mathlib.Core.Path.{subst}
use novus.Prog.Funcs.{Bytes, FuncDecl, OverloadOptions, find_func, lookup_by_name, default_options}
use novus.Prog.Funcs.Built.{Built}
use novus.Prog.Funcs.Lookup.{IsFound, lookup_by_name-IsFound}
use novus.Prog.Overload.{
  Program, find_type, is_conv, first_conv, find_implicit_conv, is_at_limit, count_convs, is_skipped,
  conv_amount, best_overload, find_overload, lookup_func,
}
use novus.Prog.Overload.Converts.{not_equal}
use novus.Prog.Overload.Fits.{is_skipped-false}
use novus.Prog.Overload.Best.{IsBest, find_overload-IsBest}

abbrev HasResult {ℓ} : {A : Type ℓ} → Option A → Type ℓ
HasResult {A} o = (r : A) × (o ≡ some r)

-- The type that is to be inferred, or a type that is declared.
abbrev pub Known : Program → ℕ → Type 0
Known prog t = (t ≡ 0) ⊎ ((name : Bytes) × (find_type t prog.type_names ≡ some name))

abbrev pub IsDeclared : List FuncDecl → ℕ → Type 0
IsDeclared ds id = (d : FuncDecl) × (find_func id ds ≡ some d)

HasResult-if {ℓ} :
    {A : Type ℓ} (c : Bool) (x y : Option A)
    → (c ≡ true → HasResult x)
    → (c ≡ false → HasResult y)
    → HasResult (if c then x else y)
HasResult-if true x y h k = h refl
HasResult-if false x y h k = k refl

HasResult-then {ℓ κ} :
    {A : Type ℓ} {B : Type κ} {o : Option A} (f : A → Option B) {x : A}
    → o ≡ some x
    → HasResult (f x)
    → HasResult (elim o [ none ↦ none | some x ↦ f x ])
HasResult-then f {x} e (r, h) = (r, ap (λ o. elim o [ none ↦ none | some x ↦ f x ]) e ∙ h)

first_conv-HasResult :
    (from to : ℕ) (ds : List FuncDecl) (ids : List ℕ)
    → All (IsDeclared ds) ids
    → HasResult (first_conv from to ds ids)
unfolding first_conv
first_conv-HasResult from to ds [] h = (none, refl)
first_conv-HasResult from to ds (id ∷ ids) ((d, e), hs) =
    HasResult-then
      (λ (d : FuncDecl). if is_conv from to d then some (some id) else first_conv from to ds ids) e
      (HasResult-if (is_conv from to d) _ _ (λ y. (some id, refl))
        (λ n. first_conv-HasResult from to ds ids hs))

IsFound-IsDeclared :
    (o : OverloadOptions) (name : Bytes) (b : Bool) (ds : List FuncDecl) (ids : List ℕ)
    → All (IsFound o name b ds) ids
    → All (IsDeclared ds) ids
IsFound-IsDeclared o name b ds [] h = tt
IsFound-IsDeclared o name b ds (id ∷ ids) ((d, e, _, _, _), hs) =
    ((d, e), IsFound-IsDeclared o name b ds ids hs)

All-found :
    (P : FuncDecl → Type 0) (c : Bool) (x d : FuncDecl) (o : Option FuncDecl)
    → (if c then some x else o) ≡ some d
    → P x
    → (o ≡ some d → P d)
    → P d
All-found P true x d o e h k = subst P (some_inj e) h
All-found P false x d o e h k = k e

find_func-All :
    (P : FuncDecl → Type 0) (id : ℕ) (d : FuncDecl) (ds : List FuncDecl)
    → All P ds
    → find_func id ds ≡ some d
    → P d
unfolding find_func
find_func-All P id d [] h e = absurd cc
find_func-All P id d (x ∷ ds) (h, hs) e =
    All-found P (x.id == id) x d (find_func id ds) e h (find_func-All P id d ds hs)

converted_or_not :
    (conv : Option ℕ) (r : Option (Option ℕ))
    → HasResult r
    → HasResult (elim conv [ none ↦ some none | some c ↦ r ])
converted_or_not none r h = (none, refl)
converted_or_not (some c) r h = h

chosen :
    (c : Bool) (x y : Option (Option ℕ))
    → HasResult x
    → HasResult y
    → HasResult (elim c [ true ↦ x | false ↦ y ])
chosen true x y h k = h
chosen false x y h k = k

better_or_not :
    (valid : Option ℕ) (keep : Option (Option ℕ)) (take : ℕ → Option (Option ℕ)) (amount : ℕ)
    → HasResult keep
    → ((n : ℕ) → HasResult (take n))
    → HasResult
        (elim valid [ none ↦ keep | some n ↦ elim (ltb n amount) [ true ↦ take n | false ↦ keep ] ])
better_or_not none keep take amount h k = h
better_or_not (some n) keep take amount h k = chosen (ltb n amount) (take n) keep (k n) h

module _ (multimap_insert : Bytes × ℕ → List (Bytes × ℕ) → List (Bytes × ℕ))
    (All-multimap_insert : (P : Bytes × ℕ → Type 0) (e : Bytes × ℕ) (l : List (Bytes × ℕ))
      → P e
      → All P l
      → All P (multimap_insert e l))
    (prog : Program) (built : Built multimap_insert prog.func_decls) where
  find_implicit_conv-HasResult :
      (from to : ℕ) → from ≢ to → Known prog to → HasResult (find_implicit_conv prog from to)
  unfolding find_implicit_conv
  find_implicit_conv-HasResult from to d k =
      let o : OverloadOptions = record default_options { excl_actions = true } in
      let ds = prog.func_decls.funcs in
      HasResult-if ((from == 0) || (to == 0)) _ _ (λ y. (none, refl))
        (λ n.
          HasResult-if (from == to) _ _ (λ y. absurd (d ((==_iff from to).0 y)))
            (λ m. elim k [
              | inl z ↦ absurd (not_equal to 0 (or_false (from == 0) (to == 0) n).1 z)
              | inr (name, e) ↦
                  let (ids, f, found) =
                    lookup_by_name-IsFound multimap_insert All-multimap_insert prog.func_decls built
                      name false o in
                  HasResult-then
                    (λ (x : Bytes). elim (lookup_by_name x false o prog.func_decls) [
                      | none ↦ none
                      | some ids ↦ first_conv from to ds ids
                    ])
                    e
                    (HasResult-then (first_conv from to ds) f (
                      first_conv-HasResult from to ds ids
                        (IsFound-IsDeclared o name false ds ids found)))
            ]))

  count_convs-HasResult :
      (o : OverloadOptions) (is_first : Bool) (amount : ℕ) (is ts : List ℕ)
      → length is ≤ length ts
      → All (Known prog) ts
      → HasResult (count_convs prog o is_first amount is ts)
  unfolding count_convs
  count_convs-HasResult o f a [] ts l k = (some a, refl)
  count_convs-HasResult o f a (i ∷ is) [] l k = absurd (omega (arith, l))
  count_convs-HasResult o f a (i ∷ is) (t ∷ ts) l (k, ks) =
      let shorter : length is ≤ length ts = omega (arith, l) in
      HasResult-if (i == t) _ _ (λ y. count_convs-HasResult o false a is ts shorter ks)
        (λ n.
          HasResult-if (o.no_conv_on_first_arg && f) _ _ (λ y. (none, refl))
            (λ x.
              HasResult-if (is_at_limit o a) _ _ (λ y. (none, refl))
                (λ z.
                  let (conv, e) = find_implicit_conv-HasResult i t (not_equal i t n) k in
                  HasResult-then
                    (λ (conv : Option ℕ). elim conv [
                      | none ↦ some none
                      | some c ↦ count_convs prog o false (suc a) is ts
                    ])
                    e
                    (converted_or_not conv (count_convs prog o false (suc a) is ts)
                      (count_convs-HasResult o false (suc a) is ts shorter ks)))))

  conv_amount-HasResult :
      (o : OverloadOptions) (input : List ℕ) (d : FuncDecl)
      → All (Known prog) d.input
      → HasResult (conv_amount prog o input d)
  unfolding conv_amount
  conv_amount-HasResult o input d k =
      HasResult-if (is_skipped o input d) _ _ (λ y. (none, refl))
        (λ n. count_convs-HasResult o true 0 input d.input (is_skipped-false o input d n).1 k)

  module _ (known : All (λ (d : FuncDecl). All (Known prog) d.input) prog.func_decls.funcs) where
    best_overload-HasResult :
        (o : OverloadOptions) (input ids : List ℕ) (best : Option ℕ) (amount : ℕ)
        → All (IsDeclared prog.func_decls.funcs) ids
        → HasResult (best_overload prog o input ids best amount)
    unfolding best_overload
    best_overload-HasResult o input [] best amount h = (best, refl)
    best_overload-HasResult o input (id ∷ ids) best amount ((d, e), hs) =
        let k =
          find_func-All (λ (d : FuncDecl). All (Known prog) d.input) id d prog.func_decls.funcs
            known e in
        let (valid, f) = conv_amount-HasResult o input d k in
        let next : Option ℕ → Option (Option ℕ) = λ valid. elim valid [
          | none ↦ best_overload prog o input ids best amount
          | some n ↦ elim (ltb n amount) [
            | true ↦ best_overload prog o input ids (some id) n
            | false ↦ best_overload prog o input ids best amount
          ]
        ] in
        HasResult-then
          (λ (d : FuncDecl). elim (conv_amount prog o input d) [
            | none ↦ none
            | some valid ↦ next valid
          ])
          e
          (HasResult-then next f (
            better_or_not valid _ _ amount (best_overload-HasResult o input ids best amount hs)
              (λ n. best_overload-HasResult o input ids (some id) n hs)))

    -- Where std::unordered_multimap inserts an entry anywhere among the others: in a program whose table of
    -- functions is made by insertFunc with ids below 2 ^ 31, registerFunc and updateFuncOutput, and in
    -- which every parameter's type is declared or to be inferred, a call with fewer than 2 ^ 31 - 1
    -- arguments gets a result, which is the first, among the functions that the lookup by name gives,
    -- of those that take the arguments with the fewest conversions, and none only where no function
    -- takes them.
    pub lookup_func-IsBest :
        (name : Bytes) (is_intrinsic : Bool) (input : List ℕ) (o : OverloadOptions)
        → length input < 2 ^ 31 - 1
        → (ids : List ℕ) × (r : Option ℕ) × (lookup_by_name name is_intrinsic o prog.func_decls
            ≡ some ids)
          × (lookup_func prog name is_intrinsic input o ≡ some r)
          × IsBest prog o input ids r
    unfolding lookup_func find_overload
    lookup_func-IsBest name b input o l =
        let (ids, f, found) =
          lookup_by_name-IsFound multimap_insert All-multimap_insert prog.func_decls built name b
            o in
        let (r, e) =
          best_overload-HasResult o input ids none (2 ^ 31 - 1)
            (IsFound-IsDeclared o name b prog.func_decls.funcs ids found) in
        (
          ids,
          r,
          f,
          ap
                (λ (x : Option (List ℕ)). elim x [
                  | none ↦ none
                  | some ids ↦ find_overload prog ids input o
                ])
                f
              ∙ e,
          find_overload-IsBest prog o input ids r l e,
        )
