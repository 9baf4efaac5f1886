-- ===== src/Vm/Gc/Traces.antt =====
-- The collector pushes the references that a stack holds and that a reference uses, and no others.
use novus.Base.{
  ℕ, ◌≡◌, ◌≢◌, refl, sym, ap, ◌∙◌, inl, inr, List, [], ◌∷◌, ◌++◌, append_assoc, true, false, ◌==◌,
  ==_iff, if◌then◌else◌, Bool-cases, Option-cases,
}
use mathlib.Core.Path.{subst}
use novus.Vm.Gc.{
  Slot, plain, ref_to, Content, struct, future, string_link, stream_process, atomic, string, ulong,
  stream_file, stream_console, stream_tcp, process, io_watcher, Ref, get, push_slot,
  populate_mark_queue, populate_all, push_value, push_children,
}
use novus.Vm.Gc.Graph.{
  InList, Uses, field, result, collapsed_string, predecessor, link_value, stream, Holds, Live, held,
  used,
}
use novus.Vm.Gc.Heap.{
  Elem, Elem-append, Elem-append_left, Elem-append_right, children, populate_lem, children_of,
  children_in, Reach, root, child,
}

true_ne_false : true ≡ false → ⊥
true_ne_false e = cc

ref_to_ne_plain : {a : ℕ} → ref_to a ≡ plain → ⊥
ref_to_ne_plain e = cc

ref_to_inj : {a b : ℕ} → ref_to a ≡ ref_to b → a ≡ b
ref_to_inj e = cc

is_zero_false : (b : ℕ) → b ≢ 0 → (b == 0) ≡ false
is_zero_false b n = elim (Bool-cases (b == 0)) [ inl e ↦ absurd (n ((==_iff b 0).0 e)) | inr e ↦ e ]

pub push_slot-Elem : (s : Slot) (a : ℕ) → Elem a (push_slot s []) → (ref_to a ≡ s) × (a ≢ 0)
unfolding push_slot
push_slot-Elem plain a h = absurd h
push_slot-Elem (ref_to b) a h = elim (Bool-cases (b == 0)) [
  | inl e ↦ absurd (subst (λ c. Elem a (if c then [] else b ∷ [])) e h)
  | inr e ↦ elim (subst (λ c. Elem a (if c then [] else b ∷ [])) e h) [
    | inl k ↦ (ap ref_to k, λ z. true_ne_false (sym ((==_iff b 0).1 (sym k ∙ z)) ∙ e))
    | inr k ↦ absurd k
  ]
]

pub Elem-push_slot : (s : Slot) (a : ℕ) → ref_to a ≡ s → a ≢ 0 → Elem a (push_slot s [])
unfolding push_slot
Elem-push_slot plain a e n = absurd (ref_to_ne_plain e)
Elem-push_slot (ref_to b) a e n = elim (Bool-cases (b == 0)) [
  | inl z ↦ absurd (n (ref_to_inj e ∙ (==_iff b 0).0 z))
  | inr z ↦ rw z (inl (ref_to_inj e))
]

stack-Elem :
    (stack : List Slot) (a : ℕ)
    → Elem a (populate_mark_queue stack [])
    → InList (ref_to a) stack × (a ≢ 0)
unfolding populate_mark_queue
stack-Elem [] a h = absurd h
stack-Elem (s ∷ stack) a h =
    elim (Elem-append a (populate_mark_queue stack []) (push_slot s [])
      (subst (Elem a) (populate_lem stack (push_slot s [])) h)) [
        | inl k ↦ let (m, n) = stack-Elem stack a k in (inr m, n)
        | inr k ↦ let (e, n) = push_slot-Elem s a k in (inl e, n)
      ]

Elem-stack :
    (stack : List Slot) (a : ℕ)
    → InList (ref_to a) stack
    → a ≢ 0
    → Elem a (populate_mark_queue stack [])
unfolding populate_mark_queue
Elem-stack [] a m n = absurd m
Elem-stack (s ∷ stack) a (inl e) n =
    subst (Elem a) (sym (populate_lem stack (push_slot s [])))
      (Elem-append_right a (populate_mark_queue stack []) (push_slot s []) (Elem-push_slot s a e n))
Elem-stack (s ∷ stack) a (inr m) n =
    subst (Elem a) (sym (populate_lem stack (push_slot s [])))
      (Elem-append_left a (populate_mark_queue stack []) (push_slot s []) (Elem-stack stack a m n))

all_lem :
    (stacks : List (List Slot)) (queue : List ℕ)
    → populate_all stacks queue ≡ populate_all stacks [] ++ queue
unfolding populate_all
all_lem [] queue = refl
all_lem (stack ∷ stacks) queue =
    ap (populate_all stacks) (populate_lem stack queue)
    ∙ all_lem stacks (populate_mark_queue stack [] ++ queue)
    ∙ sym (append_assoc (populate_all stacks []) (populate_mark_queue stack []) queue)
    ∙ ap (λ t. t ++ queue) (sym (all_lem stacks (populate_mark_queue stack [])))

roots-Holds : (stacks : List (List Slot)) (a : ℕ) → Elem a (populate_all stacks []) → Holds stacks a
unfolding populate_all
roots-Holds [] a h = absurd h
roots-Holds (stack ∷ stacks) a h =
    elim (Elem-append a (populate_all stacks []) (populate_mark_queue stack [])
      (subst (Elem a) (all_lem stacks (populate_mark_queue stack [])) h)) [
        | inl k ↦ let (t, p, q, n) = roots-Holds stacks a k in (t, inr p, q, n)
        | inr k ↦ let (q, n) = stack-Elem stack a k in (stack, inl refl, q, n)
      ]

Holds-roots : (stacks : List (List Slot)) (a : ℕ) → Holds stacks a → Elem a (populate_all stacks [])
unfolding populate_all
Holds-roots [] a (t, p, q, n) = absurd p
Holds-roots (stack ∷ stacks) a (t, inl e, q, n) =
    subst (Elem a) (sym (all_lem stacks (populate_mark_queue stack []))) (
      Elem-append_right a (populate_all stacks []) (populate_mark_queue stack [])
        (Elem-stack stack a (subst (InList (ref_to a)) e q) n))
Holds-roots (stack ∷ stacks) a (t, inr p, q, n) =
    subst (Elem a) (sym (all_lem stacks (populate_mark_queue stack []))) (
      Elem-append_left a (populate_all stacks []) (populate_mark_queue stack [])
        (Holds-roots stacks a (t, p, q, n)))

link-Uses :
    (prev : ℕ) (val : Slot) (b : ℕ)
    → Elem b (push_value val (prev ∷ []))
    → Uses (string_link prev val 0) b
unfolding push_value
link-Uses prev plain b (inl e) = subst (Uses (string_link prev plain 0)) (sym e) predecessor
link-Uses prev plain b (inr k) = absurd k
link-Uses prev (ref_to a) b (inl e) =
    subst (Uses (string_link prev (ref_to a) 0)) (sym e) link_value
link-Uses prev (ref_to a) b (inr (inl e)) =
    subst (Uses (string_link prev (ref_to a) 0)) (sym e) predecessor
link-Uses prev (ref_to a) b (inr (inr k)) = absurd k

predecessor-Elem : (val : Slot) (b : ℕ) → Elem b (push_value val (b ∷ []))
unfolding push_value
predecessor-Elem plain b = inl refl
predecessor-Elem (ref_to a) b = inr (inl refl)

pub children-Uses : (c : Content) (b : ℕ) → Elem b (children c) → Uses c b
unfolding push_children push_value
children-Uses (struct fields) b h = let (m, n) = stack-Elem fields b h in field m n
children-Uses (future s) b h =
    let (e, n) = push_slot-Elem s b h in subst (λ t. Uses (future t) b) e (result n)
children-Uses (string_link prev val collapsed) b h = elim (Bool-cases (collapsed == 0)) [
  | inl e ↦
      subst (λ c. Uses (string_link prev val c) b) (sym ((==_iff collapsed 0).0 e))
        (link-Uses prev val b
          (subst (λ c. Elem b (if c then push_value val (prev ∷ []) else collapsed ∷ [])) e h))
  | inr e ↦
      elim (subst (λ c. Elem b (if c then push_value val (prev ∷ []) else collapsed ∷ [])) e h) [
        | inl k ↦
            subst (λ c. Uses (string_link prev val c) b) k
              (collapsed_string (λ z. true_ne_false (sym ((==_iff collapsed 0).1 (sym k ∙ z)) ∙ e)))
        | inr k ↦ absurd k
      ]
]
children-Uses (stream_process a) b (inl e) = subst (Uses (stream_process a)) (sym e) stream
children-Uses (stream_process a) b (inr k) = absurd k
children-Uses atomic b h = absurd h
children-Uses string b h = absurd h
children-Uses ulong b h = absurd h
children-Uses stream_file b h = absurd h
children-Uses stream_console b h = absurd h
children-Uses stream_tcp b h = absurd h
children-Uses process b h = absurd h
children-Uses io_watcher b h = absurd h

pub Uses-children : (c : Content) (b : ℕ) → Uses c b → Elem b (children c)
unfolding push_children push_value
Uses-children _ b (field {fields} m n) = Elem-stack fields b m n
Uses-children _ b (result n) = Elem-push_slot (ref_to b) b refl n
Uses-children _ b (collapsed_string n) = rw (is_zero_false b n) (inl refl)
Uses-children _ b (predecessor {val}) = predecessor-Elem val b
Uses-children _ b link_value = inl refl
Uses-children _ b stream = inl refl

pub Reach-Live :
    (heap : List Ref) (stacks : List (List Slot)) (a : ℕ)
    → Reach heap (populate_all stacks []) a
    → Live heap stacks a
unfolding children_of
Reach-Live heap stacks a (root h) = held (roots-Holds stacks a h)
Reach-Live heap stacks b (child {a} r h) = elim (Option-cases (get a heap)) [
  | inl n ↦ absurd (subst (λ o. Elem b (children_in o)) n h)
  | inr (s, g) ↦
      used (Reach-Live heap stacks a r) g
        (children-Uses s.content b (subst (λ o. Elem b (children_in o)) g h))
]

pub Live-Reach :
    (heap : List Ref) (stacks : List (List Slot)) (a : ℕ)
    → Live heap stacks a
    → Reach heap (populate_all stacks []) a
unfolding children_of
Live-Reach heap stacks a (held h) = root (Holds-roots stacks a h)
Live-Reach heap stacks b (used {a} {r} l g u) =
    child (Live-Reach heap stacks a l)
      (subst (λ o. Elem b (children_in o)) (sym g) (Uses-children r.content b u))
