-- ===== src/Vm/Frames/Calls.antt =====
-- The frame that a call makes.
use novus.Base.{
  ℕ, ◌+◌, ◌-◌, ◌<◌, ◌≤◌, ◌≡◌, ◌≢◌, refl, sym, ap, ◌∙◌, inl, inr, arith, none, some, Bool, true,
  false, ltb, leb, Bool-cases, if◌then◌else◌,
}
use mathlib.Core.Path.{subst}
use novus.Vm.Value.{Value, uint_value, capacity, stack_overflow}
use novus.Vm.Frames.{
  Memory, Frames, Outcome, running, stopped, returned, undefined, store, memmove, raw_ptr_value,
  get_ip, call,
}

-- The same values below an index.
abbrev pub Agree : ℕ → Memory → Memory → Type 0
Agree n f g = (i : ℕ) → i < n → f i ≡ g i

pub store_here : (at : ℕ) (v : Value) (memory : Memory) → store at v memory at ≡ v
unfolding store
store_here at v memory = ground arith

pub store_other : (at i : ℕ) (v : Value) (memory : Memory) → i ≢ at → store at v memory i ≡ memory i
unfolding store
store_other at i v memory h = ground arith

pub memmove_in :
    (to from count i : ℕ) (memory : Memory)
    → i < count
    → memmove to from count memory (to + i) ≡ memory (from + i)
unfolding memmove
memmove_in to from count i memory h =
    let l : leb to (to + i) ≡ true = ground arith in
    let m : ltb (to + i) (to + count) ≡ true = ground arith in
    rw (l, m) (ap (λ (n : ℕ). memory (from + n)) (omega arith))

pub memmove_below :
    (to from count i : ℕ) (memory : Memory) → i < to → memmove to from count memory i ≡ memory i
unfolding memmove
memmove_below to from count i memory h = ground arith

-- The frame that a call makes.
pub record Called (bottom arg_count tgt : ℕ) (s t : Frames) : Type 0 where
  pub place : t.sh ≡ s.next - arg_count + 2
  pub room : s.next + 2 < capacity
  pub to_target : t.ip ≡ tgt
  pub return_ip : t.memory (s.next - arg_count) ≡ uint_value s.ip
  pub return_sh : t.memory (s.next - arg_count + 1) ≡ raw_ptr_value bottom s.sh
  pub args : (i : ℕ) → i < arg_count → t.memory (t.sh + i) ≡ s.memory (s.next - arg_count + i)
  pub below : Agree (s.next - arg_count) t.memory s.memory

pub running_inj : {s t : Frames} → running s ≡ running t → s ≡ t
running_inj {s} e =
    ap (λ o. elim o [ running x ↦ x | stopped x ↦ s | returned ↦ s | undefined ↦ s ]) e

pub if_running :
    (c : Bool) (x y : Outcome) (t : Frames)
    → (y ≡ running t → ⊥)
    → (if c then x else y) ≡ running t
    → (c ≡ true) × (x ≡ running t)
if_running true x y t h e = (refl, e)
if_running false x y t h e = absurd (h e)

pub ip_running :
    (code_size tgt : ℕ) (f : ℕ → Frames) (t : Frames)
    → elim (get_ip code_size tgt) [ none ↦ undefined | some ip ↦ running (f ip) ] ≡ running t
    → (tgt < code_size) × (f tgt ≡ t)
unfolding get_ip
ip_running code_size tgt f t h =
    let next : Bool → Outcome =
      λ b. elim (if b then some tgt else none) [ none ↦ undefined | some ip ↦ running (f ip) ] in
    elim (Bool-cases (ltb tgt code_size)) [
      | inl y ↦ (ground arith, running_inj (sym (ap next y) ∙ h))
      | inr x ↦ absurd cc (sym (ap next x) ∙ h)
    ]

-- The memory of a new frame whose arguments stood at `at`.
module _ (at n : ℕ) (ip sh : Value) (memory : Memory) where
  abbrev frame_memory : Memory
  frame_memory = store (at + 2 - 1) sh (store (at + 2 - 2) ip (memmove (at + 2) at n memory))

  frame_memory_ip : frame_memory at ≡ ip
  unfolding store
  frame_memory_ip = ground arith

  frame_memory_sh : frame_memory (at + 1) ≡ sh
  unfolding store
  frame_memory_sh = ground arith

  frame_memory_args : (i : ℕ) → i < n → frame_memory (at + 2 + i) ≡ memory (at + i)
  frame_memory_args i h =
      store_other (at + 2 - 1) (at + 2 + i) sh _ (λ e. omega (arith, e))
      ∙ store_other (at + 2 - 2) (at + 2 + i) ip _ (λ e. omega (arith, e))
      ∙ memmove_in (at + 2) at n i memory h

  frame_memory_below : Agree at frame_memory memory
  frame_memory_below i h =
      store_other (at + 2 - 1) i sh _ (λ e. omega (arith, e, h))
      ∙ store_other (at + 2 - 2) i ip _ (λ e. omega (arith, e, h))
      ∙ memmove_below (at + 2) at n i memory (omega (arith, h))

pub call-Called :
    (code_size bottom arg_count tgt : ℕ) (s t : Frames)
    → arg_count ≤ s.next
    → call code_size bottom arg_count tgt s ≡ running t
    → Called bottom arg_count tgt s t
unfolding call
call-Called code_size bottom n tgt s t l h =
    let at : ℕ = s.next - n in
    let frame : ℕ → Frames = λ ip. record {
      memory = frame_memory at n (uint_value s.ip) (raw_ptr_value bottom s.sh) s.memory;
      next = s.next + 2;
      sh = at + 2;
      ip = ip;
    } in
    let (c, h1) =
      if_running (ltb (s.next + 2) capacity) _ (stopped stack_overflow) t (λ e. absurd cc e) h in
    let (z, e) = ip_running code_size tgt frame t h1 in
    let room : s.next + 2 < capacity = ground arith in
    subst (Called bottom n tgt s) e (record {
      place = refl;
      room = room;
      to_target = refl;
      return_ip = frame_memory_ip at n (uint_value s.ip) (raw_ptr_value bottom s.sh) s.memory;
      return_sh = frame_memory_sh at n (uint_value s.ip) (raw_ptr_value bottom s.sh) s.memory;
      args = frame_memory_args at n (uint_value s.ip) (raw_ptr_value bottom s.sh) s.memory;
      below = frame_memory_below at n (uint_value s.ip) (raw_ptr_value bottom s.sh) s.memory;
    })
