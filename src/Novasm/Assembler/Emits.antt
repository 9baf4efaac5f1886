-- ===== src/Novasm/Assembler/Emits.antt =====
-- Each command but a label and a string literal adds the pieces of its encoding.
use novus.Base.{ℕ, List, [], ◌∷◌, ◌==◌, leb, if◌then◌else◌, Bool-cases, inl, inr}
use novus.Novasm.Executable.{Bytes}
use novus.Novasm.OpCode.{OpCode}
use novus.Novasm.Assembler.{
  CallMode, ◌>>=◌, write_op_code, write_uint8, write_uint16, write_uint32, write_uint64,
  write_ip_offset, add_load_lit_int, add_uint8, add_uint32, add_uint64, add_label,
  add_small_or_large, add_atomic_compare_swap, add_call, call_op, call_dyn_op,
}
use novus.Novasm.Assembler.Pieces.{
  ref, Adds, Adds-then, write_op_code-Adds, write_uint8-Adds, write_uint16-Adds, write_uint32-Adds,
  write_uint64-Adds, write_ip_offset-Adds,
}
use novus.Novasm.Assembler.Commands.{
  Command, place_label, ip_literal, jump, jump_if, string_literal, plain, int_literal, long_literal,
  float_literal, stack_alloc, stack_store, stack_load, make_atomic, atomic_block, make_struct,
  struct_load_field, struct_store_field, platform_call, compare_swap, call, call_dyn, emit, code,
  op, uint8, uint16, uint32, uint64, small_or_large, int_code,
}

add_uint8-Adds : (o : OpCode) (n : ℕ) → Adds (add_uint8 o n) (op o ∷ uint8 n ∷ [])
unfolding add_uint8
add_uint8-Adds o n =
    Adds-then (write_op_code o) (write_uint8 n) _ _ (write_op_code-Adds o) (write_uint8-Adds n)

add_uint16-Adds :
    (o : OpCode) (n : ℕ) → Adds (write_op_code o >>= λ _. write_uint16 n) (op o ∷ uint16 n ∷ [])
add_uint16-Adds o n =
    Adds-then (write_op_code o) (write_uint16 n) _ _ (write_op_code-Adds o) (write_uint16-Adds n)

pub add_uint32-Adds : (o : OpCode) (n : ℕ) → Adds (add_uint32 o n) (op o ∷ uint32 n ∷ [])
unfolding add_uint32
add_uint32-Adds o n =
    Adds-then (write_op_code o) (write_uint32 n) _ _ (write_op_code-Adds o) (write_uint32-Adds n)

add_uint64-Adds : (o : OpCode) (n : ℕ) → Adds (add_uint64 o n) (op o ∷ uint64 n ∷ [])
unfolding add_uint64
add_uint64-Adds o n =
    Adds-then (write_op_code o) (write_uint64 n) _ _ (write_op_code-Adds o) (write_uint64-Adds n)

add_label-Adds : (o : OpCode) (name : Bytes) → Adds (add_label o name) (op o ∷ ref name ∷ [])
unfolding add_label
add_label-Adds o name =
    Adds-then (write_op_code o) (write_ip_offset name) _ _ (write_op_code-Adds o)
      (write_ip_offset-Adds name)

add_small_or_large-Adds :
    (small large : OpCode) (n : ℕ)
    → Adds (add_small_or_large small large n) (small_or_large small large n)
unfolding add_small_or_large add_uint8
add_small_or_large-Adds small large n = elim (Bool-cases (leb n 255)) [
  | inl e ↦ λ a o. rw e (add_uint8-Adds small n a o)
  | inr e ↦ λ a o. rw e (add_uint16-Adds large n a o)
]

int_byte-Adds :
    (val : ℕ)
    → Adds
        (if leb val 255
          then (write_op_code OpCode.load_lit_int_small >>= λ _. write_uint8 val)
          else (write_op_code OpCode.load_lit_int >>= λ _. write_uint32 val))
        (if leb val 255
          then op OpCode.load_lit_int_small ∷ uint8 val ∷ []
          else op OpCode.load_lit_int ∷ uint32 val ∷ [])
unfolding add_uint8 add_uint32
int_byte-Adds val = elim (Bool-cases (leb val 255)) [
  | inl e ↦ λ a o. rw e (add_uint8-Adds OpCode.load_lit_int_small val a o)
  | inr e ↦ λ a o. rw e (add_uint32-Adds OpCode.load_lit_int val a o)
]

add_load_lit_int-Adds : (val : ℕ) → Adds (add_load_lit_int val) (int_code val)
unfolding add_load_lit_int
add_load_lit_int-Adds val = elim (Bool-cases (val == 0)) [
  | inl e ↦ λ a o. rw e (write_op_code-Adds OpCode.load_lit_int0 a o)
  | inr e ↦ elim (Bool-cases (val == 1)) [
    | inl d ↦ λ a o. rw (e, d) (write_op_code-Adds OpCode.load_lit_int1 a o)
    | inr d ↦ λ a o. rw (e, d) (int_byte-Adds val a o)
  ]
]

add_atomic_compare_swap-Adds :
    (expected desired : ℕ)
    → Adds
        (add_atomic_compare_swap expected desired)
        (op OpCode.atomic_compare_swap ∷ uint32 expected ∷ uint32 desired ∷ [])
unfolding add_atomic_compare_swap
add_atomic_compare_swap-Adds expected desired =
    Adds-then (write_op_code OpCode.atomic_compare_swap) _ _ _
      (write_op_code-Adds OpCode.atomic_compare_swap)
      (Adds-then (write_uint32 expected) (write_uint32 desired) _ _ (write_uint32-Adds expected)
        (write_uint32-Adds desired))

add_call-Adds :
    (name : Bytes) (n : ℕ) (mode : CallMode)
    → Adds (add_call name n mode) (op (call_op mode) ∷ uint8 n ∷ ref name ∷ [])
unfolding add_call
add_call-Adds name n mode =
    Adds-then (write_op_code (call_op mode)) _ _ _ (write_op_code-Adds (call_op mode)) (
      Adds-then (write_uint8 n) (write_ip_offset name) _ _ (write_uint8-Adds n)
        (write_ip_offset-Adds name))

-- A command that changes the code alone.
abbrev pub IsCode : Command → Type 0
IsCode (place_label name) = ⊥
IsCode (string_literal val) = ⊥
IsCode _ = Unit

pub emit-Adds : (c : Command) (lits : List Bytes) → IsCode c → Adds (emit c) (code lits c)
unfolding emit code
emit-Adds (place_label name) lits i = absurd i
emit-Adds (string_literal val) lits i = absurd i
emit-Adds (ip_literal name) lits i = add_label-Adds OpCode.load_lit_ip name
emit-Adds (jump name) lits i = add_label-Adds OpCode.jump name
emit-Adds (jump_if name) lits i = add_label-Adds OpCode.jump_if name
emit-Adds (plain o) lits i = write_op_code-Adds o
emit-Adds (int_literal val) lits i = add_load_lit_int-Adds val
emit-Adds (long_literal val) lits i = add_uint64-Adds OpCode.load_lit_long val
emit-Adds (float_literal val) lits i = add_uint32-Adds OpCode.load_lit_float val
emit-Adds (stack_alloc n) lits i =
    add_small_or_large-Adds OpCode.stack_alloc_small OpCode.stack_alloc n
emit-Adds (stack_store n) lits i =
    add_small_or_large-Adds OpCode.stack_store_small OpCode.stack_store n
emit-Adds (stack_load n) lits i =
    add_small_or_large-Adds OpCode.stack_load_small OpCode.stack_load n
emit-Adds (make_atomic val) lits i = add_uint32-Adds OpCode.make_atomic val
emit-Adds (atomic_block val) lits i = add_uint32-Adds OpCode.atomic_block val
emit-Adds (make_struct n) lits i = add_uint8-Adds OpCode.make_struct n
emit-Adds (struct_load_field n) lits i = add_uint8-Adds OpCode.struct_load_field n
emit-Adds (struct_store_field n) lits i = add_uint8-Adds OpCode.struct_store_field n
emit-Adds (platform_call n) lits i = add_uint8-Adds OpCode.p_call n
emit-Adds (compare_swap expected desired) lits i = add_atomic_compare_swap-Adds expected desired
emit-Adds (call name n mode) lits i = add_call-Adds name n mode
emit-Adds (call_dyn n mode) lits i = add_uint8-Adds (call_dyn_op mode) n
