-- ===== src/Prog/Funcs/Built.antt =====
-- The tables that the operations make.
use novus.Base.{
  some_inj, All-imp, ℕ, ◌^◌, ◌<◌, ◌≡◌, refl, sym, ap, ◌∙◌, List, [], ◌∷◌, Option, none, some, Bool,
  true, false, ◌==◌, if◌then◌else◌, All,
}
use mathlib.Core.Path.{subst}
use novus.Prog.Funcs.{
  Bytes, FuncDecl, FuncDeclTable, empty, find_func, insert_func, register_func, update_output,
  update_func_output,
}
use novus.Prog.Funcs.Table.{
  IsEntry, WellFormed, All-if, insert_func-WellFormed, register_func-WellFormed,
}

-- A declaration with the name and the kind of lookup of another.
abbrev Alike : FuncDecl → Option FuncDecl → Type 0
Alike d o = (e : FuncDecl) × (o ≡ some e) × (e.name ≡ d.name) × (e.is_intrinsic ≡ d.is_intrinsic)

Alike-if :
    (d x : FuncDecl) (output : ℕ) (a b : Bool) (rest rest_updated : Option FuncDecl)
    → (if b then some x else rest) ≡ some d
    → (rest ≡ some d → Alike d rest_updated)
    → Alike d (
        if a
        then (if b then some (record x { output = output }) else rest)
        else (if b then some x else rest_updated))
Alike-if d x output true true rest rest_updated h k =
    let e = some_inj h in
    (
      record x { output = output },
      refl,
      ap (λ (x : FuncDecl). x.name) e,
      ap (λ (x : FuncDecl). x.is_intrinsic) e,
    )
Alike-if d x output false true rest rest_updated h k = (d, h, refl, refl)
Alike-if d x output true false rest rest_updated h k = (d, h, refl, refl)
Alike-if d x output false false rest rest_updated h k = k h

find_func-if :
    (n : ℕ) (a : Bool) (xs ys : List FuncDecl)
    → find_func n (if a then xs else ys) ≡ (if a then find_func n xs else find_func n ys)
find_func-if n true xs ys = refl
find_func-if n false xs ys = refl

find_func-update_output :
    (id output n : ℕ) (d : FuncDecl) (ds : List FuncDecl)
    → find_func n ds ≡ some d
    → Alike d (find_func n (update_output id output ds))
unfolding find_func update_output
find_func-update_output id output n d [] h = absurd cc
find_func-update_output id output n d (x ∷ ds) h =
    subst (Alike d) (sym (find_func-if n (x.id == id) _ _)) (
      Alike-if d x output (x.id == id) (x.id == n) (find_func n ds)
        (find_func n (update_output id output ds)) h (find_func-update_output id output n d ds))

update_output-below :
    (id output next : ℕ) (ds : List FuncDecl)
    → All (λ (d : FuncDecl). d.id < next) ds
    → All (λ (d : FuncDecl). d.id < next) (update_output id output ds)
unfolding update_output
update_output-below id output next [] h = tt
update_output-below id output next (d ∷ ds) (h, hs) =
    All-if (λ (d : FuncDecl). d.id < next) (d.id == id) _ _ (λ y. (h, hs))
      (λ n. (h, update_output-below id output next ds hs))

IsEntry-update_output :
    (b : Bool) (id output : ℕ) (ds : List FuncDecl) (e : Bytes × ℕ)
    → IsEntry b ds e
    → IsEntry b (update_output id output ds) e
IsEntry-update_output b id output ds e (d, f, n, k) =
    let (x, g, same_name, same_kind) = find_func-update_output id output e.1 d ds f in
    (x, g, same_name ∙ n, same_kind ∙ k)

update_some :
    (o : Option FuncDecl) (v u : FuncDeclTable)
    → elim o [ none ↦ none | some d ↦ some v ] ≡ some u
    → v ≡ u
update_some none v u h = absurd cc
update_some (some d) v u h = some_inj h

update_func_output-WellFormed :
    (id output : ℕ) (t u : FuncDeclTable)
    → update_func_output id output t ≡ some u
    → WellFormed t
    → WellFormed u
unfolding update_func_output
update_func_output-WellFormed id output t u h w =
    let ds : List FuncDecl = update_output id output t.funcs in
    subst WellFormed (update_some (find_func id t.funcs) (record t { funcs = ds }) u h) (record {
      below = update_output-below id output t.next_index t.funcs w.below;
      normal =
          All-imp (IsEntry false t.funcs) (IsEntry false ds)
            (λ e. IsEntry-update_output false id output t.funcs e) t.normal_lookup w.normal;
      intrinsic =
          All-imp (IsEntry true t.funcs) (IsEntry true ds)
            (λ e. IsEntry-update_output true id output t.funcs e) t.intrinsic_lookup w.intrinsic;
    })

-- The tables that the operations make, of ids below 2 ^ 31.
pub data Built (multimap_insert : Bytes × ℕ → List (Bytes × ℕ) → List (Bytes × ℕ))
    : FuncDeclTable → Type 0 where
  start : Built multimap_insert empty
  inserted :
      {t u : FuncDeclTable}
      → (d : FuncDecl) → d.id < 2 ^ 31
      → Built multimap_insert t
      → insert_func multimap_insert d t ≡ some u
      → Built multimap_insert u
  registered :
      {t u : FuncDeclTable}
      → (d : FuncDecl) (id : ℕ) → Built multimap_insert t
      → register_func multimap_insert d t ≡ some (id, u)
      → Built multimap_insert u
  updated :
      {t u : FuncDeclTable}
      → (id output : ℕ) → Built multimap_insert t
      → update_func_output id output t ≡ some u
      → Built multimap_insert u

pub Built-WellFormed :
    (multimap_insert : Bytes × ℕ → List (Bytes × ℕ) → List (Bytes × ℕ))
    → ((P : Bytes × ℕ → Type 0) (e : Bytes × ℕ) (l : List (Bytes × ℕ))
        → P e
        → All P l
        → All P (multimap_insert e l))
    → (t : FuncDeclTable) → Built multimap_insert t
    → WellFormed t
Built-WellFormed m h t start = record { below = tt; normal = tt; intrinsic = tt }
Built-WellFormed m h u (inserted {t} d l b e) =
    insert_func-WellFormed m h d t u l e (Built-WellFormed m h t b)
Built-WellFormed m h u (registered {t} d id b e) =
    register_func-WellFormed m h d t u id e (Built-WellFormed m h t b)
Built-WellFormed m h u (updated {t} id output b e) =
    update_func_output-WellFormed id output t u e (Built-WellFormed m h t b)
