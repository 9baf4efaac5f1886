-- ===== src/Novasm/Disassembler.antt =====
-- src/novasm/disassembler.cpp: the instructions of an executable, with the labels that the caller has
-- for their offsets.
pub mod Loads
pub mod Reads
pub mod Encodes
pub mod Listing
pub mod RoundTrip
mod Tests
use novus.Base.{
  ℕ, zero, suc, ◌+◌, ◌-◌, ◌*◌, ◌%◌, ◌^◌, List, [], ◌∷◌, Option, none, some, length, ◌==◌,
  if◌then◌else◌,
}
use novus.Novasm.Executable.{Bytes}
use novus.Novasm.OpCode.{OpCode, byte_of}

-- An argument: its value, a signed or a float one as its bits, and the labels of a target.
pub data InstructionArg : Type 0 where
  arg_int arg_long arg_float arg_pcall : ℕ → InstructionArg
  arg_uint : ℕ → List Bytes → InstructionArg

pub record Instruction : Type 0 where
  pub op : OpCode
  pub ip_offset : ℕ
  pub args : List InstructionArg
  pub labels : List Bytes

-- InstructionLabels, with no labels where an offset has no entry.
abbrev pub InstructionLabels : Type 0
InstructionLabels = ℕ → List Bytes

-- readAsm of a type of n bytes, the lowest first; none behind the end.
unfoldable pub read_asm : ℕ → Bytes → Option (ℕ × Bytes)
read_asm zero bs = some (0, bs)
read_asm (suc n) [] = none
read_asm (suc n) (b ∷ bs) = elim (read_asm n bs) [
  | none ↦ none
  | some (v, r) ↦ some (b + 256 * v, r)
]

abbrev pub all_ops : List OpCode
all_ops =
    OpCode.load_lit_int ∷ OpCode.load_lit_int_small ∷ OpCode.load_lit_int0 ∷ OpCode.load_lit_int1
    ∷ OpCode.load_lit_long ∷ OpCode.load_lit_float ∷ OpCode.load_lit_string ∷ OpCode.load_lit_ip
    ∷ OpCode.stack_alloc ∷ OpCode.stack_alloc_small ∷ OpCode.stack_store ∷ OpCode.stack_store_small
    ∷ OpCode.stack_load ∷ OpCode.stack_load_small ∷ OpCode.add_int ∷ OpCode.add_long
    ∷ OpCode.add_float ∷ OpCode.add_string ∷ OpCode.append_char ∷ OpCode.sub_int ∷ OpCode.sub_long
    ∷ OpCode.sub_float ∷ OpCode.mul_int ∷ OpCode.mul_long ∷ OpCode.mul_float ∷ OpCode.div_int
    ∷ OpCode.div_long ∷ OpCode.div_float ∷ OpCode.rem_int ∷ OpCode.rem_long ∷ OpCode.mod_float
    ∷ OpCode.pow_float ∷ OpCode.sqrt_float ∷ OpCode.sin_float ∷ OpCode.cos_float ∷ OpCode.tan_float
    ∷ OpCode.asin_float ∷ OpCode.acos_float ∷ OpCode.atan_float ∷ OpCode.atan2_float
    ∷ OpCode.neg_int ∷ OpCode.neg_long ∷ OpCode.neg_float ∷ OpCode.shift_left_int
    ∷ OpCode.shift_left_long ∷ OpCode.shift_right_int ∷ OpCode.shift_right_long ∷ OpCode.and_int
    ∷ OpCode.and_long ∷ OpCode.or_int ∷ OpCode.or_long ∷ OpCode.xor_int ∷ OpCode.xor_long
    ∷ OpCode.inv_int ∷ OpCode.inv_long ∷ OpCode.length_string ∷ OpCode.index_string
    ∷ OpCode.slice_string ∷ OpCode.check_eq_int ∷ OpCode.check_eq_long ∷ OpCode.check_eq_float
    ∷ OpCode.check_eq_string ∷ OpCode.check_eq_ip ∷ OpCode.check_eq_call_dyn_tgt
    ∷ OpCode.check_gt_int ∷ OpCode.check_gt_long ∷ OpCode.check_gt_float ∷ OpCode.check_le_int
    ∷ OpCode.check_le_long ∷ OpCode.check_le_float ∷ OpCode.check_struct_null
    ∷ OpCode.check_int_zero ∷ OpCode.check_string_empty ∷ OpCode.conv_int_long
    ∷ OpCode.conv_int_float ∷ OpCode.conv_long_int ∷ OpCode.conv_long_float ∷ OpCode.conv_float_int
    ∷ OpCode.conv_int_string ∷ OpCode.conv_long_string ∷ OpCode.conv_float_string
    ∷ OpCode.conv_char_string ∷ OpCode.conv_int_char ∷ OpCode.conv_long_char
    ∷ OpCode.conv_float_char ∷ OpCode.conv_float_long ∷ OpCode.make_atomic ∷ OpCode.atomic_load
    ∷ OpCode.atomic_compare_swap ∷ OpCode.atomic_block ∷ OpCode.make_struct
    ∷ OpCode.make_null_struct ∷ OpCode.struct_load_field ∷ OpCode.struct_store_field ∷ OpCode.jump
    ∷ OpCode.jump_if ∷ OpCode.call ∷ OpCode.call_tail ∷ OpCode.call_forked ∷ OpCode.call_dyn
    ∷ OpCode.call_dyn_tail ∷ OpCode.call_dyn_forked ∷ OpCode.p_call ∷ OpCode.ret
    ∷ OpCode.future_wait_nano ∷ OpCode.future_block ∷ OpCode.dup ∷ OpCode.pop ∷ OpCode.swap
    ∷ OpCode.fail ∷ []

unfoldable pub find_op : ℕ → List OpCode → Option OpCode
find_op b [] = none
find_op b (op ∷ ops) = let rest = find_op b ops in if byte_of op == b then some op else rest

-- readAsm<OpCode>: none for a byte that is no instruction, which no case of the switch has.
unfoldable pub op_of : ℕ → Option OpCode
op_of b = find_op b all_ops

-- What an instruction reads.
pub data Operands : Type 0 where
  no_operand uint8 uint16 uint32 int32 int64 float32 two_int32 target count_target pcall : Operands

unfoldable pub operands : OpCode → Operands
operands OpCode.load_lit_int = int32
operands OpCode.load_lit_int_small = uint8
operands OpCode.load_lit_long = int64
operands OpCode.load_lit_float = float32
operands OpCode.load_lit_string = uint32
operands OpCode.load_lit_ip = target
operands OpCode.stack_alloc = uint16
operands OpCode.stack_alloc_small = uint8
operands OpCode.stack_store = uint16
operands OpCode.stack_store_small = uint8
operands OpCode.stack_load = uint16
operands OpCode.stack_load_small = uint8
operands OpCode.make_atomic = int32
operands OpCode.atomic_compare_swap = two_int32
operands OpCode.atomic_block = int32
operands OpCode.make_struct = uint8
operands OpCode.struct_load_field = uint8
operands OpCode.struct_store_field = uint8
operands OpCode.jump = target
operands OpCode.jump_if = target
operands OpCode.call = count_target
operands OpCode.call_tail = count_target
operands OpCode.call_forked = count_target
operands OpCode.call_dyn = uint8
operands OpCode.call_dyn_tail = uint8
operands OpCode.call_dyn_forked = uint8
operands OpCode.p_call = pcall
operands _ = no_operand

-- The cases of the switch. A small operand is an int argument.
unfoldable pub read_args :
    InstructionLabels → Operands → Bytes → Option (List InstructionArg × Bytes)
read_args labels no_operand bs = some ([], bs)
read_args labels uint8 bs = elim (read_asm 1 bs) [
  | none ↦ none
  | some (v, r) ↦ some (arg_int v ∷ [], r)
]
read_args labels uint16 bs = elim (read_asm 2 bs) [
  | none ↦ none
  | some (v, r) ↦ some (arg_int v ∷ [], r)
]
read_args labels uint32 bs = elim (read_asm 4 bs) [
  | none ↦ none
  | some (v, r) ↦ some (arg_uint v [] ∷ [], r)
]
read_args labels int32 bs = elim (read_asm 4 bs) [
  | none ↦ none
  | some (v, r) ↦ some (arg_int v ∷ [], r)
]
read_args labels int64 bs = elim (read_asm 8 bs) [
  | none ↦ none
  | some (v, r) ↦ some (arg_long v ∷ [], r)
]
read_args labels float32 bs = elim (read_asm 4 bs) [
  | none ↦ none
  | some (v, r) ↦ some (arg_float v ∷ [], r)
]
read_args labels pcall bs = elim (read_asm 1 bs) [
  | none ↦ none
  | some (v, r) ↦ some (arg_pcall v ∷ [], r)
]
read_args labels target bs = elim (read_asm 4 bs) [
  | none ↦ none
  | some (v, r) ↦ some (arg_uint v (labels v) ∷ [], r)
]
read_args labels two_int32 bs = elim (read_asm 4 bs) [
  | none ↦ none
  | some (a, r) ↦ elim (read_asm 4 r) [
    | none ↦ none
    | some (b, s) ↦ some (arg_int a ∷ arg_int b ∷ [], s)
  ]
]
read_args labels count_target bs = elim (read_asm 1 bs) [
  | none ↦ none
  | some (n, r) ↦ elim (read_asm 4 r) [
    | none ↦ none
    | some (v, s) ↦ some (arg_int n ∷ arg_uint v (labels v) ∷ [], s)
  ]
]

-- One round of the loop, at an offset.
unfoldable pub read_instruction : InstructionLabels → ℕ → Bytes → Option (Instruction × Bytes)
read_instruction labels at [] = none
read_instruction labels at (b ∷ bs) = elim (op_of b) [
  | none ↦ none
  | some op ↦ elim (read_args labels (operands op) bs) [
    | none ↦ none
    | some (args, r) ↦ some (record { op = op; ip_offset = at; args = args; labels = labels at }, r)
  ]
]

-- The loop, in code of `size` bytes; none where it throws or reads behind the end. Each round takes a
-- byte, so the length is enough fuel.
unfoldable pub disassemble_from : ℕ → InstructionLabels → ℕ → Bytes → Option (List Instruction)
disassemble_from fuel labels size [] = some []
disassemble_from zero labels size (b ∷ bs) = none
disassemble_from (suc fuel) labels size (b ∷ bs) =
    elim (read_instruction labels ((size - length (b ∷ bs)) % 2 ^ 32) (b ∷ bs)) [
      | none ↦ none
      | some (i, r) ↦ elim (disassemble_from fuel labels size r) [
        | none ↦ none
        | some is ↦ some (i ∷ is)
      ]
    ]

unfoldable pub disassemble_instructions : InstructionLabels → Bytes → Option (List Instruction)
disassemble_instructions labels bs = disassemble_from (length bs) labels (length bs) bs
