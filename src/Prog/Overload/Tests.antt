-- ===== src/Prog/Overload/Tests.antt =====
-- A program with a conversion from int to long and two functions of one name.
use novus.Base.{
  ℕ, ◌≡◌, refl, inr, ◌↔◌, arith, List, [], ◌∷◌, Option, none, some, true, false, All, str_eq,
}
use novus.Prog.Funcs.{
  Bytes, FuncDecl, FuncKind, user, built_in, FuncDeclTable, default_options, find_func, is_user,
  is_excluded, filter_options, lookup_by_name, unless_empty, index_after, insert_decl, insert_func,
  register_func,
}
use novus.Prog.Funcs.Built.{Built, start, inserted, registered}
use novus.Prog.Funcs.Lookup.{IsFound, lookup_by_name-IsFound}
use novus.Prog.Overload.{
  Program, find_type, is_single, is_conv, first_conv, find_implicit_conv, count_convs, is_skipped,
  conv_amount, best_overload, find_overload, lookup_func, is_implicit_convertible,
}
use novus.Prog.Overload.Converts.{Fits}
use novus.Prog.Overload.Best.{IsBest}
use novus.Prog.Overload.Fits.{conv_amount-Fits}
use novus.Prog.Overload.Total.{lookup_func-IsBest}
use novus.Prog.Overload.Convertible.{with_limit, is_valid, is_implicit_convertible-conv_amount}

-- "long" and "f".
abbrev long : Bytes
long = 108 ∷ 111 ∷ 110 ∷ 103 ∷ []

abbrev f : Bytes
f = 102 ∷ []

-- A function without optional inputs.
abbrev func : FuncKind → Bytes → List ℕ → ℕ → FuncDecl
func kind name input output = record {
  id = 0;
  kind = kind;
  is_action = false;
  is_intrinsic = false;
  is_implicit_conv = false;
  name = name;
  input = input;
  output = output;
  num_opt_inputs = 0;
}

-- Type 1 is int, type 2 is long.
abbrev conv : FuncDecl
conv = record (func (built_in 0) long (1 ∷ []) 2) { is_implicit_conv = true }

abbrev of_long : FuncDecl
of_long = record (func user f (2 ∷ []) 1) { id = 1 }

abbrev of_two : FuncDecl
of_two = record (func user f (1 ∷ 2 ∷ []) 1) { id = 7 }

abbrev first_insert : Bytes × ℕ → List (Bytes × ℕ) → List (Bytes × ℕ)
first_insert e l = e ∷ l

abbrev table : FuncDeclTable
table = record {
  funcs = of_two ∷ of_long ∷ conv ∷ [];
  normal_lookup = (f, 7) ∷ (f, 1) ∷ (long, 0) ∷ [];
  intrinsic_lookup = [];
  next_index = 8;
}

abbrev program : Program
program = record { type_names = (1, 105 ∷ []) ∷ (2, long) ∷ []; func_decls = table }

table-Built : Built first_insert table
unfolding register_func insert_func insert_decl unless_empty index_after find_func
table-Built =
    inserted of_two (omega arith)
      (registered (func user f (2 ∷ []) 1) 1 (registered conv 0 start refl) refl) refl

lookup_func-IsBest_example :
    (ids : List ℕ) × (r : Option ℕ) × (lookup_by_name f false default_options table ≡ some ids)
    × (lookup_func program f false (1 ∷ []) default_options ≡ some r)
    × IsBest program default_options (1 ∷ []) ids r
unfolding find_type
lookup_func-IsBest_example =
    lookup_func-IsBest first_insert (λ P e l h hs. (h, hs)) program table-Built
      (
        (inr (105 ∷ [], refl), (inr (long, refl), tt)),
        ((inr (long, refl), tt), ((inr (105 ∷ [], refl), tt), tt)),
      )
      f false (1 ∷ []) default_options (omega arith)

lookup_by_name-IsFound_example :
    (ids : List ℕ) × (lookup_by_name f false default_options table ≡ some ids)
    × All (IsFound default_options f false table.funcs) ids
lookup_by_name-IsFound_example =
    lookup_by_name-IsFound first_insert (λ P e l h hs. (h, hs)) table table-Built f false
      default_options

conv_amount-Fits_example :
    (conv_amount program default_options (1 ∷ []) of_long ≡ some (some 1))
    ↔ Fits program default_options (1 ∷ []) of_long 1
conv_amount-Fits_example = conv_amount-Fits program default_options (1 ∷ []) of_long 1

is_implicit_convertible-conv_amount_example :
    is_implicit_convertible program (2 ∷ []) (1 ∷ []) 1 0
    ≡ is_valid (conv_amount program (with_limit 1) (1 ∷ []) of_long)
is_implicit_convertible-conv_amount_example =
    is_implicit_convertible-conv_amount program of_long (1 ∷ []) 1 (λ e. omega (arith, e))

-- The int is converted; without conversions there is no overload.
lookup_func_int : lookup_func program f false (1 ∷ []) default_options ≡ some (some 1)
unfolding lookup_func lookup_by_name filter_options find_func is_excluded is_user find_overload
    best_overload conv_amount is_skipped count_convs find_implicit_conv find_type first_conv is_conv
    is_single str_eq
lookup_func_int = refl

lookup_func_exact :
    lookup_func program f false (1 ∷ []) (record default_options { max_implicit_convs = 0 })
    ≡ some none
unfolding lookup_func lookup_by_name filter_options find_func is_excluded is_user find_overload
    best_overload conv_amount is_skipped count_convs find_implicit_conv find_type first_conv is_conv
    is_single str_eq
lookup_func_exact = refl
