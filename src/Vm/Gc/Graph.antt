-- ===== src/Vm/Gc/Graph.antt =====
-- The graph that the references of a heap form, said without the collector: which references a reference
-- uses, and which ones the stacks hold.
use novus.Base.{ℕ, ◌≡◌, ◌≢◌, ◌⊎◌, List, [], ◌∷◌, some}
use novus.Vm.Gc.{Slot, ref_to, Content, struct, future, string_link, stream_process, Ref, get}

abbrev pub InList : {A : Type 0} → A → List A → Type 0
InList a [] = ⊥
InList a (b ∷ bs) = (a ≡ b) ⊎ InList a bs

-- A struct uses what its fields hold, a future its result, a process stream its process. A string link
-- uses its collapsed string where it has one; else its predecessor and its value.
pub data Uses : Content → ℕ → Type 0 where
  field : {fields : List Slot} {a : ℕ} → InList (ref_to a) fields → a ≢ 0 → Uses (struct fields) a
  result : {a : ℕ} → a ≢ 0 → Uses (future (ref_to a)) a
  collapsed_string : {prev a : ℕ} {val : Slot} → a ≢ 0 → Uses (string_link prev val a) a
  predecessor : {prev : ℕ} {val : Slot} → Uses (string_link prev val 0) prev
  link_value : {prev a : ℕ} → Uses (string_link prev (ref_to a) 0) a
  stream : {a : ℕ} → Uses (stream_process a) a

-- A stack of an executor holds the reference.
abbrev pub Holds : List (List Slot) → ℕ → Type 0
Holds stacks a = (stack : List Slot) × InList stack stacks × InList (ref_to a) stack × (a ≢ 0)

-- What the stacks lead to.
pub data Live (heap : List Ref) (stacks : List (List Slot)) : ℕ → Type 0 where
  held : {a : ℕ} → Holds stacks a → Live heap stacks a
  used :
      {a b : ℕ} {r : Ref}
      → Live heap stacks a
      → get a heap ≡ some r
      → Uses r.content b
      → Live heap stacks b
