-- ===== src/Novasm/Disassembler/Listing.antt =====
-- The instructions that the disassembler shows for a program given to the assembler as commands.
use novus.Base.{ℕ, ◌%◌, ◌^◌, ◌≡◌, List, [], ◌∷◌, ◌++◌, Option, none, some, ◌==◌, leb, if◌then◌else◌}
use novus.Novasm.Executable.{Bytes}
use novus.Novasm.OpCode.{OpCode}
use novus.Novasm.Assembler.{call_op, call_dyn_op, find}
use novus.Novasm.Assembler.Pieces.{Piece, size}
use novus.Novasm.Assembler.Commands.{
  Command, place_label, ip_literal, jump, jump_if, string_literal, plain, int_literal, long_literal,
  float_literal, stack_alloc, stack_store, stack_load, make_atomic, atomic_block, make_struct,
  struct_load_field, struct_store_field, platform_call, compare_swap, call, call_dyn, code,
  index_of, Image, place,
}
use novus.Novasm.Disassembler.{
  InstructionArg, arg_int, arg_long, arg_float, arg_pcall, arg_uint, Instruction, InstructionLabels,
  operands, no_operand,
}

-- The arguments of an instruction with its op code.
abbrev pub Shown : Type 0
Shown = OpCode × List InstructionArg

-- The offset of a label, with the labels that the caller has for it.
unfoldable pub shown_target : InstructionLabels → List (Bytes × ℕ) → Bytes → List InstructionArg
shown_target labels offsets name = elim (find name offsets) [
  | none ↦ []
  | some offset ↦ arg_uint (offset % 2 ^ 32) (labels (offset % 2 ^ 32)) ∷ []
]

abbrev pub shown_sized : OpCode → OpCode → ℕ → Shown
shown_sized small large n =
    if leb n 255 then (small, arg_int (n % 2 ^ 8) ∷ []) else (large, arg_int (n % 2 ^ 16) ∷ [])

-- The instruction of a command; none for a label, which is no instruction.
unfoldable pub shown : InstructionLabels → List (Bytes × ℕ) → List Bytes → Command → Option Shown
shown labels offsets lits (place_label name) = none
shown labels offsets lits (ip_literal name) =
    some (OpCode.load_lit_ip, shown_target labels offsets name)
shown labels offsets lits (jump name) = some (OpCode.jump, shown_target labels offsets name)
shown labels offsets lits (jump_if name) = some (OpCode.jump_if, shown_target labels offsets name)
shown labels offsets lits (string_literal val) =
    some (OpCode.load_lit_string, arg_uint (index_of val lits % 2 ^ 32) [] ∷ [])
shown labels offsets lits (plain o) = some (o, [])
shown labels offsets lits (int_literal val) = some (
    if val == 0
    then (OpCode.load_lit_int0, [])
    else if val == 1
    then (OpCode.load_lit_int1, [])
    else if leb val 255
    then (OpCode.load_lit_int_small, arg_int (val % 2 ^ 8) ∷ [])
    else (OpCode.load_lit_int, arg_int (val % 2 ^ 32) ∷ []))
shown labels offsets lits (long_literal val) =
    some (OpCode.load_lit_long, arg_long (val % 2 ^ 64) ∷ [])
shown labels offsets lits (float_literal val) =
    some (OpCode.load_lit_float, arg_float (val % 2 ^ 32) ∷ [])
shown labels offsets lits (stack_alloc n) =
    some (shown_sized OpCode.stack_alloc_small OpCode.stack_alloc n)
shown labels offsets lits (stack_store n) =
    some (shown_sized OpCode.stack_store_small OpCode.stack_store n)
shown labels offsets lits (stack_load n) =
    some (shown_sized OpCode.stack_load_small OpCode.stack_load n)
shown labels offsets lits (make_atomic val) = some (OpCode.make_atomic, arg_int (val % 2 ^ 32) ∷ [])
shown labels offsets lits (atomic_block val) =
    some (OpCode.atomic_block, arg_int (val % 2 ^ 32) ∷ [])
shown labels offsets lits (make_struct n) = some (OpCode.make_struct, arg_int (n % 2 ^ 8) ∷ [])
shown labels offsets lits (struct_load_field n) =
    some (OpCode.struct_load_field, arg_int (n % 2 ^ 8) ∷ [])
shown labels offsets lits (struct_store_field n) =
    some (OpCode.struct_store_field, arg_int (n % 2 ^ 8) ∷ [])
shown labels offsets lits (platform_call n) = some (OpCode.p_call, arg_pcall (n % 2 ^ 8) ∷ [])
shown labels offsets lits (compare_swap expected desired) =
    some (OpCode.atomic_compare_swap, arg_int (expected % 2 ^ 32) ∷ arg_int (desired % 2 ^ 32) ∷ [])
shown labels offsets lits (call name n mode) =
    some (call_op mode, arg_int (n % 2 ^ 8) ∷ shown_target labels offsets name)
shown labels offsets lits (call_dyn n mode) = some (call_dyn_op mode, arg_int (n % 2 ^ 8) ∷ [])

unfoldable pub shown_at : InstructionLabels → ℕ → Option Shown → List Instruction
shown_at labels at none = []
shown_at labels at (some (o, args)) =
    record { op = o; ip_offset = at; args = args; labels = labels at } ∷ []

-- The instructions of the commands, the first at the end of the code so far.
unfoldable pub listing :
    InstructionLabels → List (Bytes × ℕ) → List Command → Image → List Instruction
listing labels offsets [] im = []
listing labels offsets (c ∷ cs) im =
    shown_at labels (size im.pieces) (shown labels offsets im.literals c)
    ++ listing labels offsets cs (place c im)

-- An operation given by its op code alone has no operand.
abbrev pub HasNoOperand : Command → Type 0
HasNoOperand (plain o) = operands o ≡ no_operand
HasNoOperand _ = Unit

abbrev pub PlainOnly : List Command → Type 0
PlainOnly [] = Unit
PlainOnly (c ∷ cs) = HasNoOperand c × PlainOnly cs

-- The pieces that the commands add to an image.
unfoldable pub code_all : List Command → Image → List Piece
code_all [] im = []
code_all (c ∷ cs) im = code im.literals c ++ code_all cs (place c im)
