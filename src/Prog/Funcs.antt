-- ===== src/Prog/Funcs.antt =====
-- include/prog/sym/func_decl.hpp, overload_options.hpp and src/prog/sym/func_decl_table.cpp: the table of
-- the declared functions. Types and functions are the numbers of their ids; a call that throws, or that
-- C++ leaves undefined, has no result.
pub mod Table
pub mod Built
pub mod Lookup
use novus.Base.{
  ℕ, ◌+◌, ◌-◌, ◌%◌, ◌^◌, ◌≡◌, List, [], ◌∷◌, Option, none, some, Bool, true, false, ◌&&◌, ◌||◌, not,
  length, ltb, leb, ◌==◌, if◌then◌else◌, str_eq,
}

abbrev pub Bytes : Type 0
Bytes = List ℕ

-- A kind that is built in is its place in the enum, of which nothing is used here.
pub data FuncKind : Type 0 where
  user : FuncKind
  built_in : ℕ → FuncKind

pub record FuncDecl : Type 0 where
  pub id : ℕ
  pub kind : FuncKind
  pub is_action : Bool
  pub is_intrinsic : Bool
  pub is_implicit_conv : Bool
  pub name : Bytes
  pub input : List ℕ
  pub output : ℕ
  pub num_opt_inputs : ℕ

-- The flags, and an int in 32 bits.
pub record OverloadOptions : Type 0 where
  pub excl_pure_funcs : Bool
  pub excl_actions : Bool
  pub excl_non_user : Bool
  pub no_conv_on_first_arg : Bool
  pub no_opt_args : Bool
  pub max_implicit_convs : ℕ

abbrev pub default_options : OverloadOptions
default_options = record {
  excl_pure_funcs = false;
  excl_actions = false;
  excl_non_user = false;
  no_conv_on_first_arg = false;
  no_opt_args = false;
  max_implicit_convs = 2 ^ 32 - 1;
}

-- The unsigned difference.
abbrev pub min_input_count : FuncDecl → ℕ
min_input_count d = (length d.input + 2 ^ 32 - d.num_opt_inputs) % 2 ^ 32

-- m_funcs is the list of its declarations. The lookup maps are the lists of their entries in the order
-- in which std::unordered_multimap gives them. m_highestIndex is one less than `next_index`.
pub record FuncDeclTable : Type 0 where
  pub funcs : List FuncDecl
  pub normal_lookup : List (Bytes × ℕ)
  pub intrinsic_lookup : List (Bytes × ℕ)
  pub next_index : ℕ

abbrev pub empty : FuncDeclTable
empty = record { funcs = []; normal_lookup = []; intrinsic_lookup = []; next_index = 0 }

-- operator[] and m_funcs.find
unfoldable pub find_func : ℕ → List FuncDecl → Option FuncDecl
find_func id [] = none
find_func id (d ∷ ds) = let rest = find_func id ds in if d.id == id then some d else rest

unfoldable pub is_user : FuncKind → Bool
is_user user = true
is_user (built_in n) = false

-- The three options that are about the declaration alone.
unfoldable pub is_excluded : OverloadOptions → FuncDecl → Bool
is_excluded o d =
    (o.excl_actions && d.is_action)
    || ((o.excl_pure_funcs && not d.is_action) || (o.excl_non_user && not (is_user d.kind)))

unfoldable pub filter_options :
    OverloadOptions → List FuncDecl → Bytes → List (Bytes × ℕ) → Option (List ℕ)
filter_options o ds name [] = some []
filter_options o ds name ((k, id) ∷ entries) =
    let rest = filter_options o ds name entries in
    if str_eq k name
    then elim (find_func id ds) [
      | none ↦ none
      | some d ↦
          if is_excluded o d then rest else elim rest [ none ↦ none | some ids ↦ some (id ∷ ids) ]
    ]
    else rest

abbrev pub lookup_map : Bool → FuncDeclTable → List (Bytes × ℕ)
lookup_map is_intrinsic t = if is_intrinsic then t.intrinsic_lookup else t.normal_lookup

unfoldable pub lookup_by_name : Bytes → Bool → OverloadOptions → FuncDeclTable → Option (List ℕ)
lookup_by_name name is_intrinsic o t = filter_options o t.funcs name (lookup_map is_intrinsic t)

-- The exception on an empty name.
unfoldable pub unless_empty {ℓ} : {A : Type ℓ} → Bytes → Option A → Option A
unless_empty [] o = none
unless_empty (c ∷ cs) o = o

-- m_highestIndex of insertFunc. An id from 2 ^ 31 on is negative where it is compared.
unfoldable pub index_after : ℕ → ℕ → ℕ
index_after id next = if ltb id next then next else if leb (2 ^ 31) id then next else id + 1

-- `multimap_insert` is the insertion of std::unordered_multimap.
module _ (multimap_insert : Bytes × ℕ → List (Bytes × ℕ) → List (Bytes × ℕ)) where
  -- A declaration with its entry in the lookup map.
  unfoldable pub insert_decl : FuncDecl → ℕ → FuncDeclTable → FuncDeclTable
  insert_decl d next t = record {
    funcs = d ∷ t.funcs;
    normal_lookup =
        if d.is_intrinsic then t.normal_lookup else multimap_insert (d.name, d.id) t.normal_lookup;
    intrinsic_lookup =
        if d.is_intrinsic
        then multimap_insert (d.name, d.id) t.intrinsic_lookup
        else t.intrinsic_lookup;
    next_index = next;
  }

  -- insertFunc
  unfoldable pub insert_func : FuncDecl → FuncDeclTable → Option FuncDeclTable
  insert_func d t = unless_empty d.name (elim (find_func d.id t.funcs) [
    | some other ↦ none
    | none ↦ some (insert_decl d (index_after d.id t.next_index) t)
  ])

  -- registerFunc: the id of the declaration that is given is not used. m_funcs.insert leaves a
  -- declaration with the same id.
  unfoldable pub register_func : FuncDecl → FuncDeclTable → Option (ℕ × FuncDeclTable)
  register_func d t =
      let id = t.next_index in
      let added = insert_decl (record d { id = id }) (id + 1) t in
      unless_empty d.name (
        some (
          id,
          elim (find_func id t.funcs) [
            | none ↦ added
            | some other ↦ record added { funcs = t.funcs }
          ],
        ))

unfoldable pub update_output : ℕ → ℕ → List FuncDecl → List FuncDecl
update_output id output [] = []
update_output id output (d ∷ ds) =
    let rest = update_output id output ds in
    if d.id == id then record d { output = output } ∷ ds else d ∷ rest

unfoldable pub update_func_output : ℕ → ℕ → FuncDeclTable → Option FuncDeclTable
update_func_output id output t = elim (find_func id t.funcs) [
  | none ↦ none
  | some d ↦ some (record t { funcs = update_output id output t.funcs })
]
