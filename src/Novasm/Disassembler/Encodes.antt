-- ===== src/Novasm/Disassembler/Encodes.antt =====
-- The disassembler on the bytes of one command.
use novus.Base.{
  ℕ, ◌/◌, ◌%◌, ◌^◌, ◌≡◌, refl, sym, ap, ◌∙◌, List, [], ◌∷◌, ◌++◌, Option, none, some, Bool, true,
  false, ◌==◌, leb, if◌then◌else◌,
}
use novus.Novasm.Executable.{Bytes}
use novus.Novasm.OpCode.{OpCode, byte_of}
use novus.Novasm.Assembler.{CallMode, call_op, call_dyn_op, find, bytes32}
use novus.Novasm.Assembler.Pieces.{Piece, ref}
use novus.Novasm.Assembler.Patches.{Resolved, fill}
use novus.Novasm.Assembler.Commands.{
  Command, place_label, ip_literal, jump, jump_if, string_literal, plain, int_literal, long_literal,
  float_literal, stack_alloc, stack_store, stack_load, make_atomic, atomic_block, make_struct,
  struct_load_field, struct_store_field, platform_call, compare_swap, call, call_dyn, code,
  index_of, op, uint8, small_or_large,
}
use novus.Novasm.Disassembler.{
  InstructionArg, arg_int, arg_uint, InstructionLabels, Operands, operands, no_operand, read_args,
  target, count_target,
}
use novus.Novasm.Disassembler.Listing.{Shown, shown, shown_target, shown_sized, HasNoOperand}
use novus.Novasm.Disassembler.Reads.{
  read_uint8, read_uint16, read_uint32, read_int32, read_int64, read_float32, read_pcall,
  read_target, read_count_target, read_two_int32,
}

-- The bytes begin with the op code, and the arguments are read from the others.
abbrev pub Encodes : InstructionLabels → Shown → Bytes → Type 0
Encodes labels (o, args) bs =
    (t : Bytes) × (bs ≡ byte_of o % 256 ∷ t)
    × ((r : Bytes) → read_args labels (operands o) (t ++ r) ≡ some (args, r))

fill_ref :
    (labels : InstructionLabels) (offsets : List (Bytes × ℕ)) (name : Bytes) (offset : ℕ)
    → find name offsets ≡ some offset
    → (fill offsets (ref name ∷ []) ≡ bytes32 offset ++ [])
      × (shown_target labels offsets name
          ≡ arg_uint (offset % 2 ^ 32) (labels (offset % 2 ^ 32)) ∷ [])
unfolding fill shown_target
fill_ref labels offsets name offset e = (rw (fill, e) refl, rw (shown_target, e) refl)

if-Encodes :
    (labels : InstructionLabels) (offsets : List (Bytes × ℕ)) (c : Bool) (s t : Shown)
    (ps qs : List Piece)
    → Encodes labels s (fill offsets ps)
    → Encodes labels t (fill offsets qs)
    → Encodes labels (if c then s else t) (fill offsets (if c then ps else qs))
if-Encodes labels offsets true s t ps qs h k = h
if-Encodes labels offsets false s t ps qs h k = k

-- The encoding of an operation with one kind of operands.
encode :
    (labels : InstructionLabels) (o : OpCode) (x : Operands) (args : List InstructionArg)
    (t : Bytes)
    → operands o ≡ x
    → ((r : Bytes) → read_args labels x (t ++ r) ≡ some (args, r))
    → Encodes labels (o, args) (byte_of o % 256 ∷ t)
encode labels o x args t k h = (t, refl, λ r. ap (λ x. read_args labels x (t ++ r)) k ∙ h r)

-- A jump, or the load of a target.
target-Encodes :
    (labels : InstructionLabels) (offsets : List (Bytes × ℕ)) (o : OpCode) (name : Bytes)
    → operands o ≡ target
    → Resolved offsets (ref name ∷ [])
    → Encodes labels (o, shown_target labels offsets name) (fill offsets (op o ∷ ref name ∷ []))
unfolding fill bytes32
target-Encodes labels offsets o name k ((offset, e), u) =
    let (f, s) = fill_ref labels offsets name offset e in
    (
      bytes32 offset,
      ap (λ t. byte_of o % 256 ∷ t) f,
      λ r.
          ap (λ x. read_args labels x (bytes32 offset ++ r)) k
          ∙ read_target labels r offset
          ∙ ap (λ (x : List InstructionArg). some (x, r)) (sym s),
    )

call-Encodes :
    (labels : InstructionLabels) (offsets : List (Bytes × ℕ)) (o : OpCode) (n : ℕ) (name : Bytes)
    → operands o ≡ count_target
    → Resolved offsets (ref name ∷ [])
    → Encodes labels
        (o, arg_int (n % 2 ^ 8) ∷ shown_target labels offsets name)
        (fill offsets (op o ∷ uint8 n ∷ ref name ∷ []))
unfolding fill bytes32
call-Encodes labels offsets o n name k ((offset, e), u) =
    let (f, s) = fill_ref labels offsets name offset e in
    (
      n % 256 ∷ bytes32 offset,
      ap (λ t. byte_of o % 256 ∷ n % 256 ∷ t) f,
      λ r.
          ap (λ x. read_args labels x (n % 256 ∷ (bytes32 offset ++ r))) k
          ∙ read_count_target labels r n offset
          ∙ ap (λ (x : List InstructionArg). some (arg_int (n % 2 ^ 8) ∷ x, r)) (sym s),
    )

small_or_large-Encodes :
    (labels : InstructionLabels) (offsets : List (Bytes × ℕ)) (small large : OpCode) (n : ℕ)
    → operands small ≡ Operands.uint8
    → operands large ≡ Operands.uint16
    → Encodes labels (shown_sized small large n) (fill offsets (small_or_large small large n))
unfolding fill
small_or_large-Encodes labels offsets small large n h k =
    if-Encodes labels offsets (leb n 255) _ _ _ _
      (encode labels small Operands.uint8 _ (n % 256 ∷ []) h (λ r. read_uint8 labels r n))
      (encode labels large Operands.uint16 _ (n % 256 ∷ n / 2 ^ 8 % 256 ∷ []) k
        (λ r. read_uint16 labels r n))

-- A command that is no instruction has no bytes.
abbrev pub IsShown : InstructionLabels → Option Shown → Bytes → Type 0
IsShown labels none bs = bs ≡ []
IsShown labels (some s) bs = Encodes labels s bs

pub code-Encodes :
    (labels : InstructionLabels) (offsets : List (Bytes × ℕ)) (lits : List Bytes) (c : Command)
    → HasNoOperand c
    → Resolved offsets (code lits c)
    → IsShown labels (shown labels offsets lits c) (fill offsets (code lits c))
unfolding shown fill code bytes32 operands call_op call_dyn_op read_args
code-Encodes labels offsets lits (place_label name) h g = refl
code-Encodes labels offsets lits (ip_literal name) h g =
    target-Encodes labels offsets OpCode.load_lit_ip name refl g
code-Encodes labels offsets lits (jump name) h g =
    target-Encodes labels offsets OpCode.jump name refl g
code-Encodes labels offsets lits (jump_if name) h g =
    target-Encodes labels offsets OpCode.jump_if name refl g
code-Encodes labels offsets lits (string_literal val) h g =
    encode labels OpCode.load_lit_string Operands.uint32 _ (bytes32 (index_of val lits)) refl
      (λ r. read_uint32 labels r (index_of val lits))
code-Encodes labels offsets lits (plain o) h g = encode labels o no_operand [] [] h (λ r. refl)
code-Encodes labels offsets lits (int_literal val) h g =
    if-Encodes labels offsets (val == 0) _ _ _ _
      (encode labels OpCode.load_lit_int0 no_operand [] [] refl (λ r. refl))
      (if-Encodes labels offsets (val == 1) _ _ _ _
        (encode labels OpCode.load_lit_int1 no_operand [] [] refl (λ r. refl))
        (if-Encodes labels offsets (leb val 255) _ _ _ _
          (encode labels OpCode.load_lit_int_small Operands.uint8 _ (val % 256 ∷ []) refl
            (λ r. read_uint8 labels r val))
          (encode labels OpCode.load_lit_int Operands.int32 _ (bytes32 val) refl
            (λ r. read_int32 labels r val))))
code-Encodes labels offsets lits (long_literal val) h g =
    encode labels OpCode.load_lit_long Operands.int64 _ (bytes32 val ++ bytes32 (val / 2 ^ 32)) refl
      (λ r. read_int64 labels r val)
code-Encodes labels offsets lits (float_literal val) h g =
    encode labels OpCode.load_lit_float Operands.float32 _ (bytes32 val) refl
      (λ r. read_float32 labels r val)
code-Encodes labels offsets lits (stack_alloc n) h g =
    small_or_large-Encodes labels offsets OpCode.stack_alloc_small OpCode.stack_alloc n refl refl
code-Encodes labels offsets lits (stack_store n) h g =
    small_or_large-Encodes labels offsets OpCode.stack_store_small OpCode.stack_store n refl refl
code-Encodes labels offsets lits (stack_load n) h g =
    small_or_large-Encodes labels offsets OpCode.stack_load_small OpCode.stack_load n refl refl
code-Encodes labels offsets lits (make_atomic val) h g =
    encode labels OpCode.make_atomic Operands.int32 _ (bytes32 val) refl
      (λ r. read_int32 labels r val)
code-Encodes labels offsets lits (atomic_block val) h g =
    encode labels OpCode.atomic_block Operands.int32 _ (bytes32 val) refl
      (λ r. read_int32 labels r val)
code-Encodes labels offsets lits (make_struct n) h g =
    encode labels OpCode.make_struct Operands.uint8 _ (n % 256 ∷ []) refl
      (λ r. read_uint8 labels r n)
code-Encodes labels offsets lits (struct_load_field n) h g =
    encode labels OpCode.struct_load_field Operands.uint8 _ (n % 256 ∷ []) refl
      (λ r. read_uint8 labels r n)
code-Encodes labels offsets lits (struct_store_field n) h g =
    encode labels OpCode.struct_store_field Operands.uint8 _ (n % 256 ∷ []) refl
      (λ r. read_uint8 labels r n)
code-Encodes labels offsets lits (platform_call n) h g =
    encode labels OpCode.p_call Operands.pcall _ (n % 256 ∷ []) refl (λ r. read_pcall labels r n)
code-Encodes labels offsets lits (compare_swap a b) h g =
    encode labels OpCode.atomic_compare_swap Operands.two_int32 _ (bytes32 a ++ bytes32 b) refl
      (λ r. read_two_int32 labels r a b)
code-Encodes labels offsets lits (call name n CallMode.normal) h g =
    call-Encodes labels offsets OpCode.call n name refl g
code-Encodes labels offsets lits (call name n CallMode.tail) h g =
    call-Encodes labels offsets OpCode.call_tail n name refl g
code-Encodes labels offsets lits (call name n CallMode.forked) h g =
    call-Encodes labels offsets OpCode.call_forked n name refl g
code-Encodes labels offsets lits (call_dyn n CallMode.normal) h g =
    encode labels OpCode.call_dyn Operands.uint8 _ (n % 256 ∷ []) refl (λ r. read_uint8 labels r n)
code-Encodes labels offsets lits (call_dyn n CallMode.tail) h g =
    encode labels OpCode.call_dyn_tail Operands.uint8 _ (n % 256 ∷ []) refl
      (λ r. read_uint8 labels r n)
code-Encodes labels offsets lits (call_dyn n CallMode.forked) h g =
    encode labels OpCode.call_dyn_forked Operands.uint8 _ (n % 256 ∷ []) refl
      (λ r. read_uint8 labels r n)
