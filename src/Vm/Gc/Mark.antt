-- ===== src/Vm/Gc/Mark.antt =====
-- Marking ends, and marks exactly what the roots lead to.
use novus.Base.{
  ℕ, zero, suc, ◌+◌, ◌≤◌, ◌≡◌, refl, sym, ap, ◌∙◌, ◌⊎◌, inl, inr, arith, List, [], ◌∷◌, some, true,
  length, length-append, ◌==◌, ==_iff, Bool-cases,
}
use mathlib.Core.Path.{subst}
use novus.Vm.Gc.{Ref, get, visit, mark, weight, push_children}
use novus.Vm.Gc.Heap.{
  Elem, Elem-append, Elem-append_left, Elem-append_right, children, push_children_lem, children_of,
  children_in, flag_in, marked, IsIn, Reach, child, weight-visit, children_of-visit,
  marked-visit_same, marked-visit_other, IsIn-visit, addresses, addresses-visit,
}

-- No reference that the roots lead to dangles.
abbrev pub NoDangling : List Ref → List ℕ → Type 0
NoDangling heap roots = (a : ℕ) → Reach heap roots a → IsIn heap a

module _ (start : List Ref) (roots : List ℕ) where
  pub record Inv (heap : List Ref) (queue : List ℕ) : Type 0 where
    pub same_children : (a : ℕ) → children_of heap a ≡ children_of start a
    pub same_addresses : addresses heap ≡ addresses start
    pub present : (a : ℕ) → IsIn start a → IsIn heap a
    pub queued : (a : ℕ) → Elem a queue → Reach start roots a
    pub sound : (a : ℕ) → marked heap a ≡ true → Reach start roots a
    pub complete : (a : ℕ) → Elem a roots → (marked heap a ≡ true) ⊎ Elem a queue
    pub closed :
        (a b : ℕ)
        → marked heap a ≡ true
        → Elem b (children_of start a)
        → (marked heap b ≡ true) ⊎ Elem b queue

  -- A marked reference is taken from the queue.
  Inv-skip :
      (heap : List Ref) (a : ℕ) (queue : List ℕ)
      → marked heap a ≡ true
      → Inv heap (a ∷ queue)
      → Inv heap queue
  Inv-skip heap a queue m i = record {
    same_children = i.same_children;
    same_addresses = i.same_addresses;
    present = i.present;
    queued = λ b h. i.queued b (inr h);
    sound = i.sound;
    complete = λ b h. settle b (i.complete b h);
    closed = λ b c h k. settle c (i.closed b c h k);
  }
    where
      settle :
          (b : ℕ)
          → (marked heap b ≡ true) ⊎ Elem b (a ∷ queue)
          → (marked heap b ≡ true) ⊎ Elem b queue
      settle b (inl h) = inl h
      settle b (inr (inl e)) = inl (ap (marked heap) e ∙ m)
      settle b (inr (inr h)) = inr h

  Inv-visit :
      (heap : List Ref) (a : ℕ) (queue : List ℕ) (r : Ref)
      → get a heap ≡ some r
      → Inv heap (a ∷ queue)
      → Inv (visit a heap) (push_children r.content queue)
  unfolding children_of
  Inv-visit heap a queue r g i = record {
    same_children = λ b. children_of-visit a b heap r g ∙ i.same_children b;
    same_addresses = addresses-visit a heap ∙ i.same_addresses;
    present = λ b h. IsIn-visit a b heap r g (i.present b h);
    queued = λ b h.
        elim (Elem-append b (children r.content) queue
          (subst (Elem b) (push_children_lem r.content queue) h)) [
            | inl k ↦ child (i.queued a (inl refl)) (own b k)
            | inr k ↦ i.queued b (inr k)
          ];
    sound = λ b h. elim (Bool-cases (a == b)) [
      | inl e ↦ subst (Reach start roots) ((==_iff a b).0 e) (i.queued a (inl refl))
      | inr n ↦ i.sound b (sym (marked-visit_other a b heap n) ∙ h)
    ];
    complete = λ b h. settle b (i.complete b h);
    closed = λ b c h k. elim (Bool-cases (a == b)) [
      | inl e ↦ inr (
          queue_left c
            (mine c (subst (λ (x : ℕ). Elem c (children_of start x)) (sym ((==_iff a b).0 e)) k)))
      | inr n ↦ settle c (i.closed b c (sym (marked-visit_other a b heap n) ∙ h) k)
    ];
  }
    where
      same : children r.content ≡ children_of start a
      same = sym (ap children_in g) ∙ i.same_children a

      own : (b : ℕ) → Elem b (children r.content) → Elem b (children_of start a)
      own b h = subst (Elem b) same h

      mine : (b : ℕ) → Elem b (children_of start a) → Elem b (children r.content)
      mine b h = subst (Elem b) (sym same) h

      queue_left : (b : ℕ) → Elem b (children r.content) → Elem b (push_children r.content queue)
      queue_left b h =
          subst (Elem b) (sym (push_children_lem r.content queue))
            (Elem-append_left b (children r.content) queue h)

      settle :
          (b : ℕ)
          → (marked heap b ≡ true) ⊎ Elem b (a ∷ queue)
          → (marked (visit a heap) b ≡ true) ⊎ Elem b (push_children r.content queue)
      settle b (inl h) = elim (Bool-cases (a == b)) [
        | inl e ↦ inl (
            subst (λ (x : ℕ). marked (visit a heap) x ≡ true) ((==_iff a b).0 e)
              (marked-visit_same a heap r g))
        | inr n ↦ inl (marked-visit_other a b heap n ∙ h)
      ]
      settle b (inr (inl e)) = inl (ap (marked (visit a heap)) e ∙ marked-visit_same a heap r g)
      settle b (inr (inr h)) = inr (
          subst (Elem b) (sym (push_children_lem r.content queue))
            (Elem-append_right b (children r.content) queue h))

  pub mark-Inv :
      NoDangling start roots
      → (fuel : ℕ) (heap : List Ref) (queue : List ℕ) → weight heap + length queue ≤ fuel
      → Inv heap queue
      → (after : List Ref) × (mark fuel heap queue ≡ some after) × Inv after []
  unfolding mark marked
  mark-Inv d fuel heap [] w i = (heap, refl, i)
  mark-Inv d zero heap (a ∷ queue) w i = absurd (omega arith)
  mark-Inv d (suc fuel) heap (a ∷ queue) w i =
      let (r, g) = i.present a (d a (i.queued a (inl refl))) in
      elim (Bool-cases r.gc_marked) [
        | inl m ↦
            rw (mark, g, m)
              (mark-Inv d fuel heap queue (omega arith)
                (Inv-skip heap a queue (ap flag_in g ∙ m) i))
        | inr m ↦
            rw (mark, g, m)
              (mark-Inv d fuel (visit a heap) (push_children r.content queue)
                (omega (
                  arith,
                  weight-visit a heap r g m,
                  ap length (push_children_lem r.content queue),
                  length-append (children r.content) queue,
                ))
                (Inv-visit heap a queue r g i))
      ]
