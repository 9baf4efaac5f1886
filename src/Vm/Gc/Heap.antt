-- ===== src/Vm/Gc/Heap.antt =====
-- The graph of the references in a heap, and what a visit changes of it.
use novus.Base.{
  some_inj, ℕ, suc, ◌+◌, ◌≡◌, refl, sym, ap, ◌∙◌, ◌⊎◌, inl, inr, arith, List, [], ◌∷◌, ◌++◌, Option,
  none, some, Bool, true, false, length, ◌==◌, ==_iff, if◌then◌else◌, append_assoc, Bool-cases, map,
}
use mathlib.Core.Path.{subst}
use novus.Vm.Gc.{
  Slot, Content, struct, future, string_link, stream_process, atomic, string, ulong, stream_file,
  stream_console, stream_tcp, process, io_watcher, plain, ref_to, Ref, push_slot,
  populate_mark_queue, push_value, push_children, clear_link, get, visit, weight,
}

abbrev pub Elem : ℕ → List ℕ → Type 0
Elem a [] = ⊥
Elem a (b ∷ bs) = (a ≡ b) ⊎ Elem a bs

pub Elem-append : (a : ℕ) (bs cs : List ℕ) → Elem a (bs ++ cs) → Elem a bs ⊎ Elem a cs
Elem-append a [] cs h = inr h
Elem-append a (b ∷ bs) cs (inl e) = inl (inl e)
Elem-append a (b ∷ bs) cs (inr h) = elim (Elem-append a bs cs h) [
  | inl k ↦ inl (inr k)
  | inr k ↦ inr k
]

pub Elem-append_left : (a : ℕ) (bs cs : List ℕ) → Elem a bs → Elem a (bs ++ cs)
Elem-append_left a [] cs h = absurd h
Elem-append_left a (b ∷ bs) cs (inl e) = inl e
Elem-append_left a (b ∷ bs) cs (inr h) = inr (Elem-append_left a bs cs h)

pub Elem-append_right : (a : ℕ) (bs cs : List ℕ) → Elem a cs → Elem a (bs ++ cs)
Elem-append_right a [] cs h = h
Elem-append_right a (b ∷ bs) cs h = inr (Elem-append_right a bs cs h)

abbrev pub children : Content → List ℕ
children c = push_children c []

push_slot_lem : (s : Slot) (queue : List ℕ) → push_slot s queue ≡ push_slot s [] ++ queue
unfolding push_slot
push_slot_lem plain queue = refl
push_slot_lem (ref_to a) queue = elim (Bool-cases (a == 0)) [
  | inl e ↦ rw e refl
  | inr e ↦ rw e refl
]

pub populate_lem :
    (stack : List Slot) (queue : List ℕ)
    → populate_mark_queue stack queue ≡ populate_mark_queue stack [] ++ queue
unfolding populate_mark_queue
populate_lem [] queue = refl
populate_lem (s ∷ stack) queue =
    ap (populate_mark_queue stack) (push_slot_lem s queue)
    ∙ populate_lem stack (push_slot s [] ++ queue)
    ∙ sym (append_assoc (populate_mark_queue stack []) (push_slot s []) queue)
    ∙ ap (λ t. t ++ queue) (sym (populate_lem stack (push_slot s [])))

pub push_children_lem : (c : Content) (queue : List ℕ) → push_children c queue ≡ children c ++ queue
unfolding push_children push_value
push_children_lem (struct fields) queue = populate_lem fields queue
push_children_lem (future result) queue = push_slot_lem result queue
push_children_lem (string_link prev plain collapsed) queue = elim (Bool-cases (collapsed == 0)) [
  | inl e ↦ rw e refl
  | inr e ↦ rw e refl
]
push_children_lem (string_link prev (ref_to a) collapsed) queue =
    elim (Bool-cases (collapsed == 0)) [ inl e ↦ rw e refl | inr e ↦ rw e refl ]
push_children_lem (stream_process a) queue = refl
push_children_lem atomic queue = refl
push_children_lem string queue = refl
push_children_lem ulong queue = refl
push_children_lem stream_file queue = refl
push_children_lem stream_console queue = refl
push_children_lem stream_tcp queue = refl
push_children_lem process queue = refl
push_children_lem io_watcher queue = refl

children-clear_link : (c : Content) → children (clear_link c) ≡ children c
unfolding clear_link push_children
children-clear_link (string_link prev val collapsed) = elim (Bool-cases (collapsed == 0)) [
  | inl e ↦ rw e (rw e refl)
  | inr e ↦ rw e (rw e refl)
]
children-clear_link (struct fields) = refl
children-clear_link (future result) = refl
children-clear_link (stream_process a) = refl
children-clear_link atomic = refl
children-clear_link string = refl
children-clear_link ulong = refl
children-clear_link stream_file = refl
children-clear_link stream_console = refl
children-clear_link stream_tcp = refl
children-clear_link process = refl
children-clear_link io_watcher = refl

-- The children and the flag of the reference at an address.
abbrev pub children_in : Option Ref → List ℕ
children_in none = []
children_in (some r) = children r.content

abbrev pub flag_in : Option Ref → Bool
flag_in none = false
flag_in (some r) = r.gc_marked

pub none_ne_some : {r : Ref} → none ≡ some r → ⊥
none_ne_some e = cc

unfoldable pub children_of : List Ref → ℕ → List ℕ
children_of heap a = children_in (get a heap)

unfoldable pub marked : List Ref → ℕ → Bool
marked heap a = flag_in (get a heap)

abbrev pub IsIn : List Ref → ℕ → Type 0
IsIn heap a = (r : Ref) × (get a heap ≡ some r)

-- What the roots lead to by the tracing of the collector; Graph has the notion without it.
pub data Reach (heap : List Ref) (roots : List ℕ) : ℕ → Type 0 where
  root : {a : ℕ} → Elem a roots → Reach heap roots a
  child : {a b : ℕ} → Reach heap roots a → Elem b (children_of heap a) → Reach heap roots b

abbrev pub visited : Ref → Ref
visited r = record r { gc_marked = true; content = clear_link r.content }

pub get_here :
    (a : ℕ) (s : Ref) (heap : List Ref) → (s.addr == a) ≡ true → get a (s ∷ heap) ≡ some s
unfolding get
get_here a s heap e = rw (get, e) refl

pub get_there :
    (a : ℕ) (s : Ref) (heap : List Ref) → (s.addr == a) ≡ false → get a (s ∷ heap) ≡ get a heap
unfolding get
get_there a s heap e = rw (get, e) refl

visit_here :
    (a : ℕ) (s : Ref) (heap : List Ref)
    → (s.addr == a) ≡ true
    → visit a (s ∷ heap) ≡ visited s ∷ heap
unfolding visit
visit_here a s heap e = rw (visit, e) refl

visit_there :
    (a : ℕ) (s : Ref) (heap : List Ref)
    → (s.addr == a) ≡ false
    → visit a (s ∷ heap) ≡ s ∷ visit a heap
unfolding visit
visit_there a s heap e = rw (visit, e) refl

pub get-visit_same :
    (a : ℕ) (heap : List Ref) (r : Ref)
    → get a heap ≡ some r
    → get a (visit a heap) ≡ some (visited r)
unfolding get visit
get-visit_same a [] r h = absurd (none_ne_some h)
get-visit_same a (s ∷ heap) r h = elim (Bool-cases (s.addr == a)) [
  | inl e ↦
      ap (get a) (visit_here a s heap e)
      ∙ get_here a (visited s) heap e
      ∙ ap (λ (x : Ref). some (visited x)) (some_inj (sym (get_here a s heap e) ∙ h))
  | inr e ↦
      ap (get a) (visit_there a s heap e)
      ∙ get_there a s (visit a heap) e
      ∙ get-visit_same a heap r (sym (get_there a s heap e) ∙ h)
]

pub get-visit_other :
    (a b : ℕ) (heap : List Ref) → (a == b) ≡ false → get b (visit a heap) ≡ get b heap
unfolding get visit
get-visit_other a b [] n = refl
get-visit_other a b (s ∷ heap) n = ground (arith, get-visit_other a b heap n)

abbrev own_weight : Ref → ℕ
own_weight r = if r.gc_marked then 0 else suc (length (children r.content))

pub weight-visit :
    (a : ℕ) (heap : List Ref) (r : Ref)
    → get a heap ≡ some r
    → r.gc_marked ≡ false
    → weight heap ≡ suc (length (children r.content)) + weight (visit a heap)
unfolding get weight
weight-visit a [] r h m = absurd (none_ne_some h)
weight-visit a (s ∷ heap) r h m = elim (Bool-cases (s.addr == a)) [
  | inl e ↦
      let q = some_inj (sym (get_here a s heap e) ∙ h) in
      omega (
        arith,
        ap own_weight q ∙ ap (λ (c : Bool). if c then 0 else suc (length (children r.content))) m,
        ap weight (visit_here a s heap e),
      )
  | inr e ↦
      ap (λ t. own_weight s + t) (weight-visit a heap r (sym (get_there a s heap e) ∙ h) m)
      ∙ omega (arith, ap weight (visit_there a s heap e))
]

-- A visit keeps the graph, and marks the one reference.
pub children_of-visit :
    (a b : ℕ) (heap : List Ref) (r : Ref)
    → get a heap ≡ some r
    → children_of (visit a heap) b ≡ children_of heap b
unfolding children_of
children_of-visit a b heap r h = elim (Bool-cases (a == b)) [
  | inl e ↦
      subst (λ (x : ℕ). children_in (get x (visit a heap)) ≡ children_in (get x heap))
        ((==_iff a b).0 e)
        (ap children_in (get-visit_same a heap r h)
          ∙ children-clear_link r.content
          ∙ sym (ap children_in h))
  | inr n ↦ ap children_in (get-visit_other a b heap n)
]

pub marked-visit_same :
    (a : ℕ) (heap : List Ref) (r : Ref) → get a heap ≡ some r → marked (visit a heap) a ≡ true
unfolding marked
marked-visit_same a heap r h = ap flag_in (get-visit_same a heap r h)

pub marked-visit_other :
    (a b : ℕ) (heap : List Ref) → (a == b) ≡ false → marked (visit a heap) b ≡ marked heap b
unfolding marked
marked-visit_other a b heap n = ap flag_in (get-visit_other a b heap n)

pub IsIn-visit :
    (a b : ℕ) (heap : List Ref) (r : Ref)
    → get a heap ≡ some r
    → IsIn heap b
    → IsIn (visit a heap) b
IsIn-visit a b heap r h (s, k) = elim (Bool-cases (a == b)) [
  | inl e ↦ (
    visited r,
    subst (λ (x : ℕ). get x (visit a heap) ≡ some (visited r)) ((==_iff a b).0 e)
        (get-visit_same a heap r h),
  )
  | inr n ↦ (s, get-visit_other a b heap n ∙ k)
]

abbrev pub addresses : List Ref → List ℕ
addresses heap = map (λ (r : Ref). r.addr) heap

pub addresses-visit : (a : ℕ) (heap : List Ref) → addresses (visit a heap) ≡ addresses heap
unfolding visit
addresses-visit a [] = refl
addresses-visit a (s ∷ heap) = elim (Bool-cases (s.addr == a)) [
  | inl e ↦ ap addresses (visit_here a s heap e)
  | inr e ↦ ap addresses (visit_there a s heap e) ∙ ap (λ t. s.addr ∷ t) (addresses-visit a heap)
]
