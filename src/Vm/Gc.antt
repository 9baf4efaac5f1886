-- ===== src/Vm/Gc.antt =====
-- src/vm/internal/garbage_collector.cpp: marking and sweeping. A reference is its address, with 0 for
-- nullptr; the heap is the allocator's list of references, the newest first. The mark-queue is a list
-- with its back first.
pub mod Heap
pub mod Graph
pub mod Traces
pub mod Mark
pub mod Sweep
pub mod Collect
mod Tests
use novus.Base.{
  ℕ, zero, suc, ◌+◌, List, [], ◌∷◌, ◌++◌, Option, none, some, Bool, true, false, length, ◌==◌,
  if◌then◌else◌,
}

-- A value on a stack or in a field.
pub data Slot : Type 0 where
  plain : Slot
  ref_to : ℕ → Slot

-- What a reference holds that the collector looks at: the fields, the result, and the link's
-- predecessor, value and collapsed string.
pub data Content : Type 0 where
  struct : List Slot → Content
  future : Slot → Content
  string_link : ℕ → Slot → ℕ → Content
  stream_process : ℕ → Content
  atomic string ulong stream_file stream_console stream_tcp process io_watcher : Content

pub record Ref : Type 0 where
  pub addr : ℕ
  pub gc_marked : Bool
  pub content : Content

-- Push the reference in a value, unless it is nullptr.
unfoldable pub push_slot : Slot → List ℕ → List ℕ
push_slot plain queue = queue
push_slot (ref_to a) queue = if a == 0 then queue else a ∷ queue

unfoldable pub populate_mark_queue : List Slot → List ℕ → List ℕ
populate_mark_queue [] queue = queue
populate_mark_queue (s ∷ stack) queue = populate_mark_queue stack (push_slot s queue)

unfoldable pub populate_all : List (List Slot) → List ℕ → List ℕ
populate_all [] queue = queue
populate_all (stack ∷ stacks) queue = populate_all stacks (populate_mark_queue stack queue)

-- The value of a link is pushed without a test for nullptr.
unfoldable pub push_value : Slot → List ℕ → List ℕ
push_value plain queue = queue
push_value (ref_to a) queue = a ∷ queue

-- The switch in `mark`.
unfoldable pub push_children : Content → List ℕ → List ℕ
push_children (struct fields) queue = populate_mark_queue fields queue
push_children (future result) queue = push_slot result queue
push_children (string_link prev val collapsed) queue =
    if collapsed == 0 then push_value val (prev ∷ queue) else collapsed ∷ queue
push_children (stream_process a) queue = a ∷ queue
push_children _ queue = queue

unfoldable pub clear_link : Content → Content
clear_link (string_link prev val collapsed) =
    if collapsed == 0 then string_link prev val collapsed else string_link 0 plain collapsed
clear_link c = c

unfoldable pub get : ℕ → List Ref → Option Ref
get a [] = none
get a (r ∷ heap) = let rest = get a heap in if r.addr == a then some r else rest

unfoldable pub visit : ℕ → List Ref → List Ref
visit a [] = []
visit a (r ∷ heap) =
    let rest = visit a heap in
    if r.addr == a
    then record r { gc_marked = true; content = clear_link r.content } ∷ heap
    else r ∷ rest

-- The loop of `mark`; none where the fuel ends or a reference is not allocated.
unfoldable pub mark : ℕ → List Ref → List ℕ → Option (List Ref)
mark fuel heap [] = some heap
mark zero heap (a ∷ queue) = none
mark (suc fuel) heap (a ∷ queue) = elim (get a heap) [
  | none ↦ none
  | some r ↦ elim r.gc_marked [
    | true ↦ mark fuel heap queue
    | false ↦ mark fuel (visit a heap) (push_children r.content queue)
  ]
]

-- The loop of `sweep`, behind the head.
unfoldable pub sweep_next : List Ref → List Ref
sweep_next [] = []
sweep_next (r ∷ heap) =
    let rest = sweep_next heap in
    if r.gc_marked then record r { gc_marked = false } ∷ rest else rest

unfoldable pub sweep : List Ref → List Ref
sweep [] = []
sweep (r ∷ heap) = record r { gc_marked = false } ∷ sweep_next heap

-- Enough fuel: a round takes one reference from the queue and, where that is not marked, pushes its
-- children.
unfoldable pub weight : List Ref → ℕ
weight [] = 0
weight (r ∷ heap) =
    (if r.gc_marked then 0 else suc (length (push_children r.content []))) + weight heap

-- `collect`, with the references that the executors allocate while it sweeps.
unfoldable pub collect : List (List Slot) → List Ref → List Ref → Option (List Ref)
collect stacks fresh heap =
    let queue = populate_all stacks [] in
    elim (mark (weight heap + length queue) heap queue) [
      | none ↦ none
      | some marked ↦ some (fresh ++ sweep marked)
    ]
