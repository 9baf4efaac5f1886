-- ===== src/Vm/Gc/Tests.antt =====
-- A heap of five references: a struct that the stack leads to, the future in it and its result, an
-- unreachable cycle, and the newest reference.
use mathlib.Core.Path.{subst}
use novus.Base.{◌⊎◌, ap, ℕ, ◌≡◌, refl, inl, inr, List, [], ◌∷◌, ◌++◌, some, false, All, drop}
use novus.Vm.Gc.{
  Slot, plain, ref_to, struct, future, string, Ref, get, collect, mark, visit, sweep, sweep_next,
  weight, populate_all, populate_mark_queue, push_slot, push_children, clear_link,
}
use novus.Vm.Gc.Heap.{Elem, Reach, root, child, children_of}
use novus.Vm.Gc.Graph.{Live}
use novus.Vm.Gc.Traces.{Live-Reach}
use novus.Vm.Gc.Collect.{IsKept, Ready, roots_of, collect-Live, collect-Live_left, collect-Ready}

abbrev heap : List Ref
heap =
    record { addr = 8; gc_marked = false; content = string }
    ∷ record { addr = 6; gc_marked = false; content = struct (ref_to 4 ∷ ref_to 0 ∷ []) }
    ∷ record { addr = 4; gc_marked = false; content = future (ref_to 3) }
    ∷ record { addr = 3; gc_marked = false; content = string }
    ∷ record { addr = 2; gc_marked = false; content = struct (ref_to 2 ∷ []) }
    ∷ []

abbrev stacks : List (List Slot)
stacks = (plain ∷ ref_to 6 ∷ []) ∷ [] ∷ []

-- The cycle at 2 is freed, and the newest reference stays.
collected :
    collect stacks [] heap
    ≡ some (
        record { addr = 8; gc_marked = false; content = string }
        ∷ record { addr = 6; gc_marked = false; content = struct (ref_to 4 ∷ ref_to 0 ∷ []) }
        ∷ record { addr = 4; gc_marked = false; content = future (ref_to 3) }
        ∷ record { addr = 3; gc_marked = false; content = string }
        ∷ [])
unfolding collect mark visit sweep sweep_next weight populate_all populate_mark_queue push_slot
    push_children clear_link get
collected = refl

leads : (a : ℕ) → Reach heap (roots_of stacks) a → (a ≡ 6) ⊎ ((a ≡ 4) ⊎ (a ≡ 3))
unfolding populate_all populate_mark_queue push_slot children_of get push_children
leads a (root h) = elim h [ inl e ↦ inl e | inr k ↦ absurd k ]
leads b (child {a} r h) = elim (leads a r) [
  | inl e ↦ elim (subst (λ (x : ℕ). Elem b (children_of heap x)) e h) [
    | inl k ↦ inr (inl k)
    | inr k ↦ absurd k
  ]
  | inr (inl e) ↦ elim (subst (λ (x : ℕ). Elem b (children_of heap x)) e h) [
    | inl k ↦ inr (inr k)
    | inr k ↦ absurd k
  ]
  | inr (inr e) ↦ absurd (subst (λ (x : ℕ). Elem b (children_of heap x)) e h)
]

heap-Ready : Ready stacks heap
unfolding get
heap-Ready = record {
  distinct = (
    (refl, (refl, (refl, (refl, tt)))),
    ((refl, (refl, (refl, tt))), ((refl, (refl, tt)), ((refl, tt), (tt, tt)))),
  );
  unmarked = (refl, (refl, (refl, (refl, (refl, tt)))));
  no_dangling = λ a h. elim (leads a (Live-Reach heap stacks a h)) [
    | inl e ↦ (_, ap (λ (x : ℕ). get x heap) e)
    | inr (inl e) ↦ (_, ap (λ (x : ℕ). get x heap) e)
    | inr (inr e) ↦ (_, ap (λ (x : ℕ). get x heap) e)
  ];
}

collect-Live_example :
    (after : List Ref) × (collect stacks [] heap ≡ some ([] ++ after))
    × ((a : ℕ) → Live heap stacks a → IsKept heap after a)
collect-Live_example = collect-Live stacks [] heap heap-Ready

collect-Live_left_example :
    (after : List Ref) × (collect stacks [] heap ≡ some ([] ++ after))
    × All (λ (s : Ref). Live heap stacks s.addr) (drop 1 after)
collect-Live_left_example = collect-Live_left stacks [] heap heap-Ready

collect-Ready_example :
    (after : List Ref) × (collect stacks [] heap ≡ some ([] ++ after)) × Ready stacks after
collect-Ready_example = collect-Ready stacks [] heap heap-Ready
