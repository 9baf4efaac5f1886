-- ===== src/Prog/Funcs/Table.antt =====
-- The table of the functions after insertFunc and registerFunc.
use novus.Base.{
  some_inj, All-imp, ℕ, ◌+◌, ◌^◌, ◌<◌, ◌≤◌, ◌≡◌, refl, sym, ap, ◌∙◌, inl, inr, arith, List, [], ◌∷◌,
  Option, none, some, Bool, true, false, ◌==◌, ==_iff, Bool-cases, if◌then◌else◌, All,
}
use mathlib.Core.Path.{subst}
use novus.Prog.Funcs.{
  Bytes, FuncDecl, FuncDeclTable, find_func, unless_empty, index_after, insert_decl, insert_func,
  register_func,
}

-- An entry of a lookup map leads to a declaration with its name, of its kind.
abbrev pub IsEntry : Bool → List FuncDecl → Bytes × ℕ → Type 0
IsEntry is_intrinsic ds e =
    (d : FuncDecl) × (find_func e.1 ds ≡ some d) × (d.name ≡ e.0) × (d.is_intrinsic ≡ is_intrinsic)

pub record WellFormed (t : FuncDeclTable) : Type 0 where
  pub below : All (λ (d : FuncDecl). d.id < t.next_index) t.funcs
  pub normal : All (IsEntry false t.funcs) t.normal_lookup
  pub intrinsic : All (IsEntry true t.funcs) t.intrinsic_lookup

find_func_other :
    (d e : FuncDecl) (ds : List FuncDecl) (id : ℕ)
    → find_func d.id ds ≡ none
    → find_func id ds ≡ some e
    → find_func id (d ∷ ds) ≡ some e
unfolding find_func
find_func_other d e ds id h k = elim (Bool-cases (d.id == id)) [
  | inl t ↦ absurd cc (sym h ∙ ap (λ (i : ℕ). find_func i ds) ((==_iff d.id id).0 t) ∙ k)
  | inr f ↦ rw f k
]

find_func_fresh :
    (n : ℕ) (ds : List FuncDecl) → All (λ (d : FuncDecl). d.id < n) ds → find_func n ds ≡ none
unfolding find_func
find_func_fresh n [] h = refl
find_func_fresh n (d ∷ ds) (h, hs) = elim (Bool-cases (d.id == n)) [
  | inl t ↦ absurd (omega (arith, h, (==_iff d.id n).0 t))
  | inr f ↦ rw f (find_func_fresh n ds hs)
]

find_func_here : (d : FuncDecl) (ds : List FuncDecl) → find_func d.id (d ∷ ds) ≡ some d
unfolding find_func
find_func_here d ds = rw ((==_iff d.id d.id).1 refl) refl

unless_empty-some {ℓ} :
    {A : Type ℓ} (n : Bytes) (o : Option A) (u : A) → unless_empty n o ≡ some u → o ≡ some u
unfolding unless_empty
unless_empty-some [] o u h = absurd cc
unless_empty-some (c ∷ cs) o u h = h

index_after_lem :
    (id next : ℕ) → id < 2 ^ 31 → (id < index_after id next) × (next ≤ index_after id next)
unfolding index_after
index_after_lem id next h = ground arith

pub All-if :
    {A : Type 0} (P : A → Type 0) (c : Bool) (xs ys : List A)
    → (c ≡ true → All P xs)
    → (c ≡ false → All P ys)
    → All P (if c then xs else ys)
All-if P true xs ys h k = h refl
All-if P false xs ys h k = k refl

insert_some :
    (o : Option FuncDecl) (v u : FuncDeclTable)
    → elim o [ some other ↦ none | none ↦ some v ] ≡ some u
    → (o ≡ none) × (v ≡ u)
insert_some none v u h = (refl, some_inj h)
insert_some (some d) v u h = absurd cc

IsEntry-other :
    (b : Bool) (d : FuncDecl) (ds : List FuncDecl) (e : Bytes × ℕ)
    → find_func d.id ds ≡ none
    → IsEntry b ds e
    → IsEntry b (d ∷ ds) e
IsEntry-other b d ds e h (x, f, n, k) = (x, find_func_other d x ds e.1 h f, n, k)

module _ (multimap_insert : Bytes × ℕ → List (Bytes × ℕ) → List (Bytes × ℕ))
    (All-multimap_insert : (P : Bytes × ℕ → Type 0) (e : Bytes × ℕ) (l : List (Bytes × ℕ))
      → P e
      → All P l
      → All P (multimap_insert e l)) where
  insert_decl-WellFormed :
      (d : FuncDecl) (next : ℕ) (t : FuncDeclTable)
      → find_func d.id t.funcs ≡ none
      → d.id < next
      → t.next_index ≤ next
      → WellFormed t
      → WellFormed (insert_decl multimap_insert d next t)
  unfolding insert_decl
  insert_decl-WellFormed d next t f l k w =
      let below : All (λ (d : FuncDecl). d.id < next) (d ∷ t.funcs) = (
        l,
        All-imp (λ (d : FuncDecl). d.id < t.next_index) (λ (d : FuncDecl). d.id < next)
            (λ x h. omega (arith, h, k)) t.funcs w.below,
      ) in
      let normal =
        All-imp (IsEntry false t.funcs) (IsEntry false (d ∷ t.funcs))
          (λ e. IsEntry-other false d t.funcs e f) t.normal_lookup w.normal in
      let intrinsic =
        All-imp (IsEntry true t.funcs) (IsEntry true (d ∷ t.funcs))
          (λ e. IsEntry-other true d t.funcs e f) t.intrinsic_lookup w.intrinsic in
      record {
        below = below;
        normal =
            All-if (IsEntry false (d ∷ t.funcs)) d.is_intrinsic _ _ (λ y. normal)
              (λ n.
                All-multimap_insert (IsEntry false (d ∷ t.funcs)) (d.name, d.id) t.normal_lookup
                  (d, find_func_here d t.funcs, refl, n) normal);
        intrinsic =
            All-if (IsEntry true (d ∷ t.funcs)) d.is_intrinsic _ _
              (λ y.
                All-multimap_insert (IsEntry true (d ∷ t.funcs)) (d.name, d.id) t.intrinsic_lookup
                  (d, find_func_here d t.funcs, refl, y) intrinsic)
              (λ n. intrinsic);
      }

  pub insert_func-WellFormed :
      (d : FuncDecl) (t u : FuncDeclTable)
      → d.id < 2 ^ 31
      → insert_func multimap_insert d t ≡ some u
      → WellFormed t
      → WellFormed u
  unfolding insert_func
  insert_func-WellFormed d t u l h w =
      let next : ℕ = index_after d.id t.next_index in
      let (f, e) =
        insert_some (find_func d.id t.funcs) (insert_decl multimap_insert d next t) u
          (unless_empty-some d.name _ u h) in
      let (a, b) = index_after_lem d.id t.next_index l in
      subst WellFormed e (insert_decl-WellFormed d next t f a b w)

  pub register_func-WellFormed :
      (d : FuncDecl) (t u : FuncDeclTable) (id : ℕ)
      → register_func multimap_insert d t ≡ some (id, u)
      → WellFormed t
      → WellFormed u
  unfolding register_func
  register_func-WellFormed d t u id h w =
      let n = t.next_index in
      let e : FuncDecl = record d { id = n } in
      let f = find_func_fresh n t.funcs w.below in
      let added = insert_decl multimap_insert e (n + 1) t in
      let k = some_inj (unless_empty-some d.name _ (id, u) h) in
      subst WellFormed
        (sym (ap (λ o. elim o [ none ↦ added | some other ↦ record added { funcs = t.funcs } ]) f)
          ∙ ap (λ (p : ℕ × FuncDeclTable). p.1) k)
        (insert_decl-WellFormed e (n + 1) t f (omega arith) (omega arith) w)
