-- ===== src/Vm/Gc/Sweep.antt =====
-- What sweeping keeps and what it changes.
use novus.Base.{
  some_inj, All-imp, ℕ, ◌≡◌, refl, sym, ap, ◌∙◌, inl, inr, List, [], ◌∷◌, some, true, false, ◌==◌,
  ==_iff, Bool-cases, All,
}
use mathlib.Core.Path.{subst}
use novus.Vm.Gc.{Ref, get, sweep, sweep_next}
use novus.Vm.Gc.Heap.{get_here, get_there, addresses, Elem, flag_in, marked, none_ne_some}

-- No two references have the same address, and no flag is set.
abbrev pub Distinct : List ℕ → Type 0
Distinct [] = Unit
Distinct (a ∷ bs) = All (λ (b : ℕ). (a == b) ≡ false) bs × Distinct bs

abbrev pub Unmarked : List Ref → Type 0
Unmarked = All (λ r. r.gc_marked ≡ false)

abbrev pub cleared : Ref → Ref
cleared r = record r { gc_marked = false }

sweep_next_marked :
    (s : Ref) (heap : List Ref)
    → s.gc_marked ≡ true
    → sweep_next (s ∷ heap) ≡ cleared s ∷ sweep_next heap
unfolding sweep_next
sweep_next_marked s heap m = rw (sweep_next, m) refl

sweep_next_unmarked :
    (s : Ref) (heap : List Ref) → s.gc_marked ≡ false → sweep_next (s ∷ heap) ≡ sweep_next heap
unfolding sweep_next
sweep_next_unmarked s heap m = rw (sweep_next, m) refl

get-sweep_next :
    (heap : List Ref) (a : ℕ) (r : Ref)
    → get a heap ≡ some r
    → r.gc_marked ≡ true
    → get a (sweep_next heap) ≡ some (cleared r)
unfolding get
get-sweep_next [] a r g m = absurd (none_ne_some g)
get-sweep_next (s ∷ heap) a r g m = elim (Bool-cases (s.addr == a)) [
  | inl e ↦
      let q = some_inj (sym (get_here a s heap e) ∙ g) in
      ap (get a) (sweep_next_marked s heap (ap (λ (x : Ref). x.gc_marked) q ∙ m))
      ∙ get_here a (cleared s) (sweep_next heap) e
      ∙ ap (λ (x : Ref). some (cleared x)) q
  | inr e ↦
      let rest = get-sweep_next heap a r (sym (get_there a s heap e) ∙ g) m in
      elim (Bool-cases s.gc_marked) [
        | inl k ↦
            ap (get a) (sweep_next_marked s heap k)
            ∙ get_there a (cleared s) (sweep_next heap) e
            ∙ rest
        | inr k ↦ ap (get a) (sweep_next_unmarked s heap k) ∙ rest
      ]
]

pub get-sweep :
    (heap : List Ref) (a : ℕ) (r : Ref)
    → get a heap ≡ some r
    → r.gc_marked ≡ true
    → get a (sweep heap) ≡ some (cleared r)
unfolding sweep get
get-sweep [] a r g m = absurd (none_ne_some g)
get-sweep (s ∷ heap) a r g m = elim (Bool-cases (s.addr == a)) [
  | inl e ↦
      get_here a (cleared s) (sweep_next heap) e
      ∙ ap (λ (x : Ref). some (cleared x)) (some_inj (sym (get_here a s heap e) ∙ g))
  | inr e ↦
      get_there a (cleared s) (sweep_next heap) e
      ∙ get-sweep_next heap a r (sym (get_there a s heap e) ∙ g) m
]

-- A reference that the loop over `heap` keeps.
pub record Kept (heap : List Ref) (s : Ref) : Type 0 where
  pub clear : s.gc_marked ≡ false
  pub was : marked heap s.addr ≡ true
  pub from : Elem s.addr (addresses heap)

apart :
    (a b : ℕ) (bs : List ℕ) → All (λ (c : ℕ). (a == c) ≡ false) bs → Elem b bs → (a == b) ≡ false
apart a b [] n h = absurd h
apart a b (c ∷ bs) (n, ns) (inl e) = ap (λ (x : ℕ). a == x) e ∙ n
apart a b (c ∷ bs) (n, ns) (inr h) = apart a b bs ns h

pub Kept-cons :
    (r s : Ref) (heap : List Ref)
    → All (λ (b : ℕ). (r.addr == b) ≡ false) (addresses heap)
    → Kept heap s
    → Kept (r ∷ heap) s
unfolding marked
Kept-cons r s heap n k = record {
  clear = k.clear;
  was =
      ap flag_in (get_there s.addr r heap (apart r.addr s.addr (addresses heap) n k.from)) ∙ k.was;
  from = inr k.from;
}

pub sweep_next-Kept :
    (heap : List Ref) → Distinct (addresses heap) → All (Kept heap) (sweep_next heap)
unfolding sweep_next marked
sweep_next-Kept [] d = tt
sweep_next-Kept (r ∷ heap) (n, d) =
    let rest =
      All-imp (Kept heap) (Kept (r ∷ heap)) (λ s. Kept-cons r s heap n) (sweep_next heap)
        (sweep_next-Kept heap d) in
    elim (Bool-cases r.gc_marked) [
      | inl m ↦ subst (All (Kept (r ∷ heap))) (sym (sweep_next_marked r heap m)) (
        record {
          clear = refl;
          was = ap flag_in (get_here r.addr r heap ((==_iff r.addr r.addr).1 refl)) ∙ m;
          from = inl refl;
        },
        rest,
      )
      | inr m ↦ subst (All (Kept (r ∷ heap))) (sym (sweep_next_unmarked r heap m)) rest
    ]

pub apart_sweep :
    (a : ℕ) (heap : List Ref)
    → All (λ (c : ℕ). (a == c) ≡ false) (addresses heap)
    → All (λ (c : ℕ). (a == c) ≡ false) (addresses (sweep_next heap))
unfolding sweep_next
apart_sweep a [] n = tt
apart_sweep a (r ∷ heap) (n, ns) = elim (Bool-cases r.gc_marked) [
  | inl m ↦
      subst (λ t. All (λ (c : ℕ). (a == c) ≡ false) (addresses t))
        (sym (sweep_next_marked r heap m)) (n, apart_sweep a heap ns)
  | inr m ↦
      subst (λ t. All (λ (c : ℕ). (a == c) ≡ false) (addresses t))
        (sym (sweep_next_unmarked r heap m)) (apart_sweep a heap ns)
]

pub sweep_next-Distinct :
    (heap : List Ref) → Distinct (addresses heap) → Distinct (addresses (sweep_next heap))
unfolding sweep_next
sweep_next-Distinct [] d = tt
sweep_next-Distinct (r ∷ heap) (n, d) = elim (Bool-cases r.gc_marked) [
  | inl m ↦
      subst (λ t. Distinct (addresses t)) (sym (sweep_next_marked r heap m))
        (apart_sweep r.addr heap n, sweep_next-Distinct heap d)
  | inr m ↦
      subst (λ t. Distinct (addresses t)) (sym (sweep_next_unmarked r heap m))
        (sweep_next-Distinct heap d)
]
