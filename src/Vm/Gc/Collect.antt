-- ===== src/Vm/Gc/Collect.antt =====
-- A collection keeps what the stacks lead to, frees everything else but the newest reference, and
-- leaves the heap ready for the next one.
use novus.Base.{
  All-imp, ℕ, ◌+◌, ◌≡◌, refl, sym, ap, ◌∙◌, inl, inr, arith, List, [], ◌∷◌, ◌++◌, some, true, false,
  length, ◌==◌, Bool-cases, Option-cases, All, drop,
}
use mathlib.Core.Path.{subst}
use novus.Vm.Gc.{Slot, Content, Ref, get, mark, weight, sweep, sweep_next, collect, populate_all}
use novus.Vm.Gc.Graph.{Uses, Live}
use novus.Vm.Gc.Traces.{children-Uses, Uses-children, Reach-Live, Live-Reach}
use novus.Vm.Gc.Heap.{
  IsIn, addresses, Elem, children, children_of, children_in, flag_in, marked, Reach, root, child,
}
use novus.Vm.Gc.Mark.{Inv, mark-Inv}
use novus.Vm.Gc.Sweep.{
  Distinct, Unmarked, cleared, get-sweep, Kept, Kept-cons, sweep_next-Kept, sweep_next-Distinct,
  apart_sweep,
}

abbrev pub roots_of : List (List Slot) → List ℕ
roots_of stacks = populate_all stacks []

Unmarked-marked : (heap : List Ref) (a : ℕ) → Unmarked heap → marked heap a ≡ false
unfolding marked get
Unmarked-marked [] a u = refl
Unmarked-marked (r ∷ heap) a (m, u) = elim (Bool-cases (r.addr == a)) [
  | inl e ↦ rw e m
  | inr e ↦ rw e (Unmarked-marked heap a u)
]

false_ne_true : false ≡ true → ⊥
false_ne_true e = cc

Inv_start : (heap : List Ref) (roots : List ℕ) → Unmarked heap → Inv heap roots heap roots
Inv_start heap roots u = record {
  same_children = λ a. refl;
  same_addresses = refl;
  present = λ a h. h;
  queued = λ a h. root h;
  sound = λ a m. absurd (false_ne_true (sym (Unmarked-marked heap a u) ∙ m));
  complete = λ a h. inr h;
  closed = λ a b m h. absurd (false_ne_true (sym (Unmarked-marked heap a u) ∙ m));
}

-- The state between collections: no two references have the same address, no flag is set, and no
-- reference that the stacks lead to dangles.
pub record Ready (stacks : List (List Slot)) (heap : List Ref) : Type 0 where
  pub distinct : Distinct (addresses heap)
  pub unmarked : Unmarked heap
  pub no_dangling : (a : ℕ) → Live heap stacks a → IsIn heap a

-- The heap after marking.
record Marking (stacks : List (List Slot)) (heap : List Ref) : Type 0 where
  after : List Ref
  runs : mark (weight heap + length (roots_of stacks)) heap (roots_of stacks) ≡ some after
  inv : Inv heap (roots_of stacks) after []

marking : (stacks : List (List Slot)) (heap : List Ref) → Ready stacks heap → Marking stacks heap
marking stacks heap r =
    let (after, e, i) =
      mark-Inv heap (roots_of stacks) (λ a h. r.no_dangling a (Reach-Live heap stacks a h))
        (weight heap + length (roots_of stacks)) heap (roots_of stacks) (omega arith)
        (Inv_start heap (roots_of stacks) r.unmarked) in
    record { after = after; runs = e; inv = i }

module _ (stacks : List (List Slot)) (heap : List Ref) (m : Marking stacks heap) where
  Reach-marked : (a : ℕ) → Reach heap (roots_of stacks) a → marked m.after a ≡ true
  Reach-marked a (root h) = elim (m.inv.complete a h) [ inl e ↦ e | inr k ↦ absurd k ]
  Reach-marked b (child {a} r h) = elim (m.inv.closed a b (Reach-marked a r) h) [
    | inl e ↦ e
    | inr k ↦ absurd k
  ]

  survives :
      (a : ℕ)
      → Reach heap (roots_of stacks) a
      → (r : Ref) × (get a (sweep m.after) ≡ some r) × (children r.content ≡ children_of heap a)
  unfolding marked children_of
  survives a h = elim (Option-cases (get a m.after)) [
    | inl n ↦ absurd (false_ne_true (sym (ap flag_in n) ∙ Reach-marked a h))
    | inr (r, g) ↦ (
      cleared r,
      get-sweep m.after a r g (sym (ap flag_in g) ∙ Reach-marked a h),
      sym (ap children_in g) ∙ m.inv.same_children a,
    )
  ]

  -- What the roots lead to is the same after the collection.
  Reach-back : (a : ℕ) → Reach (sweep m.after) (roots_of stacks) a → Reach heap (roots_of stacks) a
  unfolding children_of
  Reach-back a (root h) = root h
  Reach-back b (child {a} r h) =
      let was = Reach-back a r in
      let (s, g, e) = survives a was in
      child was (subst (Elem b) e (subst (Elem b) (ap children_in g) h))

  runs_to : (fresh : List Ref) → collect stacks fresh heap ≡ some (fresh ++ sweep m.after)
  unfolding collect
  runs_to fresh = rw (collect, m.runs) refl

-- What the loop of a sweep keeps is marked in the whole list.
kept-All :
    (after : List Ref)
    → Distinct (addresses after)
    → All (λ (s : Ref). (s.gc_marked ≡ false) × (marked after s.addr ≡ true)) (drop 1 (sweep after))
unfolding sweep
kept-All [] d = tt
kept-All (r ∷ after) (n, d) =
    All-imp (Kept after) _ (λ s k. (k.clear, (Kept-cons r s after n k).was)) (sweep_next after)
      (sweep_next-Kept after d)

swept-Distinct :
    (after : List Ref) → Distinct (addresses after) → Distinct (addresses (sweep after))
unfolding sweep
swept-Distinct [] d = tt
swept-Distinct (r ∷ after) (n, d) = (apart_sweep r.addr after n, sweep_next-Distinct after d)

swept-Unmarked : (after : List Ref) → Distinct (addresses after) → Unmarked (sweep after)
unfolding sweep
swept-Unmarked [] d = tt
swept-Unmarked (r ∷ after) (n, d) =
    (refl, All-imp (Kept after) _ (λ s k. k.clear) (sweep_next after) (sweep_next-Kept after d))

-- The two contents use the same references.
abbrev pub SameUses : Content → Content → Type 0
SameUses c d = (b : ℕ) → (Uses c b → Uses d b) × (Uses d b → Uses c b)

same_children-SameUses : (c d : Content) → children c ≡ children d → SameUses c d
same_children-SameUses c d e b = (
  λ u. children-Uses d b (subst (Elem b) e (Uses-children c b u)),
  λ u. children-Uses c b (subst (Elem b) (sym e) (Uses-children d b u)),
)

-- The reference is allocated in both heaps, and uses the same references in both.
abbrev pub IsKept : List Ref → List Ref → ℕ → Type 0
IsKept heap after a =
    (s : Ref) × (get a heap ≡ some s)
    × (t : Ref) × (get a after ≡ some t)
    × SameUses s.content t.content

-- A collection of a heap in which no two references have the same address, none is marked and none
-- that the stacks lead to dangles, ends, and each reference that the stacks lead to is still allocated
-- after it and uses the same references as before. The stacks lead to what they hold and to what a
-- reference that they lead to uses, which is said without the collector.
pub collect-Live :
    (stacks : List (List Slot)) (fresh heap : List Ref)
    → Ready stacks heap
    → (after : List Ref) × (collect stacks fresh heap ≡ some (fresh ++ after))
      × ((a : ℕ) → Live heap stacks a → IsKept heap after a)
unfolding children_of
collect-Live stacks fresh heap r =
    let m = marking stacks heap r in
    (
      sweep m.after,
      runs_to stacks heap m fresh,
      λ a l.
          let (t, g, e) = survives stacks heap m a (Live-Reach heap stacks a l) in
          let (s, k) = r.no_dangling a l in
          (s, k, t, g, same_children-SameUses s.content t.content (sym (ap children_in k) ∙ sym e)),
    )

-- A collection of a heap in which no two references have the same address, none is marked and none
-- that the stacks lead to dangles, leaves behind the newest reference, which is never freed, only
-- references that the stacks lead to.
pub collect-Live_left :
    (stacks : List (List Slot)) (fresh heap : List Ref)
    → Ready stacks heap
    → (after : List Ref) × (collect stacks fresh heap ≡ some (fresh ++ after))
      × All (λ (s : Ref). Live heap stacks s.addr) (drop 1 after)
collect-Live_left stacks fresh heap r =
    let m = marking stacks heap r in
    (
      sweep m.after,
      runs_to stacks heap m fresh,
      All-imp _ (λ (s : Ref). Live heap stacks s.addr)
          (λ s k. Reach-Live heap stacks s.addr (m.inv.sound s.addr k.1)) (drop 1 (sweep m.after))
          (kept-All m.after (subst Distinct (sym m.inv.same_addresses) r.distinct)),
    )

-- After a collection of a heap in which no two references have the same address, none is marked and
-- none that the stacks lead to dangles, the same holds of what is left of the heap.
pub collect-Ready :
    (stacks : List (List Slot)) (fresh heap : List Ref)
    → Ready stacks heap
    → (after : List Ref) × (collect stacks fresh heap ≡ some (fresh ++ after)) × Ready stacks after
collect-Ready stacks fresh heap r =
    let m = marking stacks heap r in
    let d = subst Distinct (sym m.inv.same_addresses) r.distinct in
    (
      sweep m.after,
      runs_to stacks heap m fresh,
      record {
        distinct = swept-Distinct m.after d;
        unmarked = swept-Unmarked m.after d;
        no_dangling = λ a h.
            let back = Reach-back stacks heap m a (Live-Reach (sweep m.after) stacks a h) in
            let (s, g, e) = survives stacks heap m a back in (s, g);
      },
    )
