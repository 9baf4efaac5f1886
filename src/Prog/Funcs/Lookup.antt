-- ===== src/Prog/Funcs/Lookup.antt =====
-- What a lookup by name gives.
use novus.Base.{
  ℕ, ◌≡◌, refl, sym, ap, ◌∙◌, List, [], ◌∷◌, Option, none, some, Bool, true, false, All,
  if◌then◌else◌, str_eq, str_eq→eq,
}
use mathlib.Core.Path.{subst}
use novus.Prog.Funcs.{
  Bytes, FuncDecl, OverloadOptions, FuncDeclTable, find_func, is_excluded, filter_options,
  lookup_map, lookup_by_name,
}
use novus.Prog.Funcs.Table.{IsEntry, WellFormed}
use novus.Prog.Funcs.Built.{Built, Built-WellFormed}

-- A declared function of the name and the kind of lookup that the options do not exclude.
abbrev pub IsFound : OverloadOptions → Bytes → Bool → List FuncDecl → ℕ → Type 0
IsFound o name is_intrinsic ds id =
    (d : FuncDecl) × (find_func id ds ≡ some d)
    × (d.name ≡ name)
    × (d.is_intrinsic ≡ is_intrinsic)
    × (is_excluded o d ≡ false)

abbrev Finds : OverloadOptions → Bytes → Bool → List FuncDecl → Option (List ℕ) → Type 0
Finds o name is_intrinsic ds found =
    (ids : List ℕ) × (found ≡ some ids) × All (IsFound o name is_intrinsic ds) ids

Finds-if :
    (o : OverloadOptions) (name : Bytes) (b c : Bool) (ds : List FuncDecl) (id : ℕ)
    (rest : Option (List ℕ))
    → (c ≡ false → IsFound o name b ds id)
    → Finds o name b ds rest
    → Finds o name b ds (if c then rest else elim rest [ none ↦ none | some ids ↦ some (id ∷ ids) ])
Finds-if o name b true ds id rest h (ids, e, f) = (ids, e, f)
Finds-if o name b false ds id rest h (ids, e, f) =
    (id ∷ ids, ap (λ o. elim o [ none ↦ none | some ids ↦ some (id ∷ ids) ]) e, (h refl, f))

Finds-named :
    (o : OverloadOptions) (name : Bytes) (b c : Bool) (ds : List FuncDecl)
    (here rest : Option (List ℕ))
    → (c ≡ true → Finds o name b ds here)
    → Finds o name b ds rest
    → Finds o name b ds (if c then here else rest)
Finds-named o name b true ds here rest h k = h refl
Finds-named o name b false ds here rest h k = k

filter_options-Finds :
    (o : OverloadOptions) (name : Bytes) (b : Bool) (ds : List FuncDecl) (es : List (Bytes × ℕ))
    → All (IsEntry b ds) es
    → Finds o name b ds (filter_options o ds name es)
unfolding filter_options
filter_options-Finds o name b ds [] h = ([], refl, tt)
filter_options-Finds o name b ds ((k, id) ∷ es) ((d, f, n, i), hs) =
    let rest = filter_options o ds name es in
    let found = filter_options-Finds o name b ds es hs in
    let added : Option (List ℕ) = elim rest [ none ↦ none | some ids ↦ some (id ∷ ids) ] in
    Finds-named o name b (str_eq k name) ds _ rest
      (λ e.
        subst (Finds o name b ds)
          (ap
            (λ (x : Option FuncDecl). elim x [
              | none ↦ none
              | some d ↦ if is_excluded o d then rest else added
            ])
            (sym f))
          (Finds-if o name b (is_excluded o d) ds id rest
            (λ x. (d, f, n ∙ str_eq→eq k name e, i, x)) found))
      found

lookup_map-IsEntry :
    (b : Bool) (t : FuncDeclTable) → WellFormed t → All (IsEntry b t.funcs) (lookup_map b t)
lookup_map-IsEntry true t w = w.intrinsic
lookup_map-IsEntry false t w = w.normal

-- Where std::unordered_multimap inserts an entry anywhere among the others, a lookup by name in any
-- table that is made by insertFunc with ids below 2 ^ 31, registerFunc and updateFuncOutput finishes,
-- with no id that is not declared, and every function that it gives has the name, stands in the lookup map asked
-- for, and is not excluded by the options.
pub lookup_by_name-IsFound :
    (multimap_insert : Bytes × ℕ → List (Bytes × ℕ) → List (Bytes × ℕ))
    → ((P : Bytes × ℕ → Type 0) (e : Bytes × ℕ) (l : List (Bytes × ℕ))
        → P e
        → All P l
        → All P (multimap_insert e l))
    → (t : FuncDeclTable) → Built multimap_insert t
    → (name : Bytes) (is_intrinsic : Bool) (o : OverloadOptions)
    → (ids : List ℕ) × (lookup_by_name name is_intrinsic o t ≡ some ids)
      × All (IsFound o name is_intrinsic t.funcs) ids
unfolding lookup_by_name
lookup_by_name-IsFound m h t built name b o =
    filter_options-Finds o name b t.funcs (lookup_map b t)
      (lookup_map-IsEntry b t (Built-WellFormed m h t built))
