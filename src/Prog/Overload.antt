-- ===== src/Prog/Overload.antt =====
-- src/prog/internal/implicit_conv.cpp and overload.cpp: implicit conversions, and the overload that a
-- call takes. A call that throws, or that C++ leaves undefined, has no result.
pub mod Converts
pub mod Fits
pub mod Best
pub mod Total
pub mod Convertible
mod Tests
use novus.Base.{
  ℕ, suc, ◌+◌, ◌-◌, ◌%◌, ◌^◌, ◌≡◌, List, [], ◌∷◌, Option, none, some, Bool, true, false, ◌&&◌, ◌||◌,
  not, length, ltb, leb, ◌==◌, if◌then◌else◌,
}
use novus.Prog.Funcs.{
  Bytes, FuncDecl, OverloadOptions, default_options, min_input_count, FuncDeclTable, find_func,
  is_excluded, lookup_by_name,
}

-- The names of the declared types and the declared functions.
pub record Program : Type 0 where
  pub type_names : List (ℕ × Bytes)
  pub func_decls : FuncDeclTable

unfoldable pub find_type : ℕ → List (ℕ × Bytes) → Option Bytes
find_type id [] = none
find_type id ((k, name) ∷ types) =
    let rest = find_type id types in if k == id then some name else rest

unfoldable pub is_single : ℕ → List ℕ → Bool
is_single id (t ∷ []) = t == id
is_single id _ = false

unfoldable pub is_conv : ℕ → ℕ → FuncDecl → Bool
is_conv from to d = d.is_implicit_conv && ((d.output == to) && is_single from d.input)

unfoldable pub first_conv : ℕ → ℕ → List FuncDecl → List ℕ → Option (Option ℕ)
first_conv from to ds [] = some none
first_conv from to ds (id ∷ ids) =
    let rest = first_conv from to ds ids in
    elim (find_func id ds) [
      | none ↦ none
      | some d ↦ if is_conv from to d then some (some id) else rest
    ]

-- Type 0 is the type that is still to be inferred.
unfoldable pub find_implicit_conv : Program → ℕ → ℕ → Option (Option ℕ)
find_implicit_conv prog from to =
    if (from == 0) || (to == 0)
    then some none
    else if from == to
    then none
    else elim (find_type to prog.type_names) [
      | none ↦ none
      | some name ↦
          elim (lookup_by_name name false (record default_options { excl_actions = true })
            prog.func_decls) [
              | none ↦ none
              | some ids ↦ first_conv from to prog.func_decls.funcs ids
            ]
    ]

-- The test against getMaxImplicitConvs, where a negative number is no limit.
abbrev pub is_at_limit : OverloadOptions → ℕ → Bool
is_at_limit o amount = ltb o.max_implicit_convs (2 ^ 31) && leb o.max_implicit_convs amount

-- The loop over the arguments of one overload, with the conversions so far: the number of them, or none
-- where the overload is not valid.
unfoldable pub count_convs :
    Program → OverloadOptions → Bool → ℕ → List ℕ → List ℕ → Option (Option ℕ)
count_convs prog o is_first amount [] ts = some (some amount)
count_convs prog o is_first amount (i ∷ is) [] = none
count_convs prog o is_first amount (i ∷ is) (t ∷ ts) =
    let same = count_convs prog o false amount is ts in
    let converted = count_convs prog o false (suc amount) is ts in
    if i == t
    then same
    else if o.no_conv_on_first_arg && is_first
    then some none
    else if is_at_limit o amount
    then some none
    else elim (find_implicit_conv prog i t) [
      | none ↦ none
      | some conv ↦ elim conv [ none ↦ some none | some c ↦ converted ]
    ]

-- The tests that skip an overload.
unfoldable pub is_skipped : OverloadOptions → List ℕ → FuncDecl → Bool
is_skipped o input d =
    (ltb (length input) (min_input_count d) || ltb (length d.input) (length input))
    || (is_excluded o d || (o.no_opt_args && not (length input == length d.input)))

-- One round of the loop over the overloads.
unfoldable pub conv_amount : Program → OverloadOptions → List ℕ → FuncDecl → Option (Option ℕ)
conv_amount prog o input d =
    if is_skipped o input d then some none else count_convs prog o true 0 input d.input

-- The loop, with the best overload so far and its conversions.
unfoldable pub best_overload :
    Program → OverloadOptions → List ℕ → List ℕ → Option ℕ → ℕ → Option (Option ℕ)
best_overload prog o input [] best amount = some best
best_overload prog o input (id ∷ ids) best amount = elim (find_func id prog.func_decls.funcs) [
  | none ↦ none
  | some d ↦ elim (conv_amount prog o input d) [
    | none ↦ none
    | some valid ↦ elim valid [
      | none ↦ best_overload prog o input ids best amount
      | some n ↦ elim (ltb n amount) [
        | true ↦ best_overload prog o input ids (some id) n
        | false ↦ best_overload prog o input ids best amount
      ]
    ]
  ]
]

-- findOverload
unfoldable pub find_overload : Program → List ℕ → List ℕ → OverloadOptions → Option (Option ℕ)
find_overload prog overloads input o = best_overload prog o input overloads none (2 ^ 31 - 1)

-- FuncDeclTable::lookup and lookupIntrinsic with the types of the arguments
unfoldable pub lookup_func : Program → Bytes → Bool → List ℕ → OverloadOptions → Option (Option ℕ)
lookup_func prog name is_intrinsic input o =
    elim (lookup_by_name name is_intrinsic o prog.func_decls) [
      | none ↦ none
      | some ids ↦ find_overload prog ids input o
    ]

-- The test of isImplicitConvertible against its limit, where zero too is no limit.
abbrev pub is_over : ℕ → ℕ → Bool
is_over max_conversions amount =
    (ltb 0 max_conversions && ltb max_conversions (2 ^ 31)) && leb max_conversions amount

unfoldable pub all_convertible : Program → ℕ → ℕ → List ℕ → List ℕ → Option Bool
all_convertible prog max_conversions amount [] ts = some true
all_convertible prog max_conversions amount (i ∷ is) [] = none
all_convertible prog max_conversions amount (i ∷ is) (t ∷ ts) =
    let same = all_convertible prog max_conversions amount is ts in
    let converted = all_convertible prog max_conversions (suc amount) is ts in
    if i == t
    then same
    else if is_over max_conversions amount
    then some false
    else elim (find_implicit_conv prog i t) [
      | none ↦ none
      | some conv ↦ elim conv [ none ↦ some false | some c ↦ converted ]
    ]

-- isImplicitConvertible of two sets of types
unfoldable pub is_implicit_convertible : Program → List ℕ → List ℕ → ℕ → ℕ → Option Bool
is_implicit_convertible prog to_types from_types max_conversions num_opt_to_types =
    let min_count = (length to_types + 2 ^ 32 - num_opt_to_types) % 2 ^ 32 in
    if ltb (length from_types) min_count || ltb (length to_types) (length from_types)
    then some false
    else all_convertible prog max_conversions 0 from_types to_types
