-- ===== src/Novasm/Disassembler/Loads.antt =====
-- What readAsm reads back.
use novus.Base.{ℕ, ◌/◌, ◌%◌, ◌^◌, ◌≡◌, refl, ap, arith, ◌∷◌, ◌++◌, some}
use novus.Novasm.Executable.{Bytes}
use novus.Novasm.OpCode.{OpCode, byte_of}
use novus.Novasm.Assembler.{bytes32}
use novus.Novasm.Disassembler.{read_asm, find_op, op_of}

pub op_of-byte_of : (op : OpCode) → op_of (byte_of op % 256) ≡ some op
unfolding op_of find_op byte_of
op_of-byte_of OpCode.load_lit_int = refl
op_of-byte_of OpCode.load_lit_int_small = refl
op_of-byte_of OpCode.load_lit_int0 = refl
op_of-byte_of OpCode.load_lit_int1 = refl
op_of-byte_of OpCode.load_lit_long = refl
op_of-byte_of OpCode.load_lit_float = refl
op_of-byte_of OpCode.load_lit_string = refl
op_of-byte_of OpCode.load_lit_ip = refl
op_of-byte_of OpCode.stack_alloc = refl
op_of-byte_of OpCode.stack_alloc_small = refl
op_of-byte_of OpCode.stack_store = refl
op_of-byte_of OpCode.stack_store_small = refl
op_of-byte_of OpCode.stack_load = refl
op_of-byte_of OpCode.stack_load_small = refl
op_of-byte_of OpCode.add_int = refl
op_of-byte_of OpCode.add_long = refl
op_of-byte_of OpCode.add_float = refl
op_of-byte_of OpCode.add_string = refl
op_of-byte_of OpCode.append_char = refl
op_of-byte_of OpCode.sub_int = refl
op_of-byte_of OpCode.sub_long = refl
op_of-byte_of OpCode.sub_float = refl
op_of-byte_of OpCode.mul_int = refl
op_of-byte_of OpCode.mul_long = refl
op_of-byte_of OpCode.mul_float = refl
op_of-byte_of OpCode.div_int = refl
op_of-byte_of OpCode.div_long = refl
op_of-byte_of OpCode.div_float = refl
op_of-byte_of OpCode.rem_int = refl
op_of-byte_of OpCode.rem_long = refl
op_of-byte_of OpCode.mod_float = refl
op_of-byte_of OpCode.pow_float = refl
op_of-byte_of OpCode.sqrt_float = refl
op_of-byte_of OpCode.sin_float = refl
op_of-byte_of OpCode.cos_float = refl
op_of-byte_of OpCode.tan_float = refl
op_of-byte_of OpCode.asin_float = refl
op_of-byte_of OpCode.acos_float = refl
op_of-byte_of OpCode.atan_float = refl
op_of-byte_of OpCode.atan2_float = refl
op_of-byte_of OpCode.neg_int = refl
op_of-byte_of OpCode.neg_long = refl
op_of-byte_of OpCode.neg_float = refl
op_of-byte_of OpCode.shift_left_int = refl
op_of-byte_of OpCode.shift_left_long = refl
op_of-byte_of OpCode.shift_right_int = refl
op_of-byte_of OpCode.shift_right_long = refl
op_of-byte_of OpCode.and_int = refl
op_of-byte_of OpCode.and_long = refl
op_of-byte_of OpCode.or_int = refl
op_of-byte_of OpCode.or_long = refl
op_of-byte_of OpCode.xor_int = refl
op_of-byte_of OpCode.xor_long = refl
op_of-byte_of OpCode.inv_int = refl
op_of-byte_of OpCode.inv_long = refl
op_of-byte_of OpCode.length_string = refl
op_of-byte_of OpCode.index_string = refl
op_of-byte_of OpCode.slice_string = refl
op_of-byte_of OpCode.check_eq_int = refl
op_of-byte_of OpCode.check_eq_long = refl
op_of-byte_of OpCode.check_eq_float = refl
op_of-byte_of OpCode.check_eq_string = refl
op_of-byte_of OpCode.check_eq_ip = refl
op_of-byte_of OpCode.check_eq_call_dyn_tgt = refl
op_of-byte_of OpCode.check_gt_int = refl
op_of-byte_of OpCode.check_gt_long = refl
op_of-byte_of OpCode.check_gt_float = refl
op_of-byte_of OpCode.check_le_int = refl
op_of-byte_of OpCode.check_le_long = refl
op_of-byte_of OpCode.check_le_float = refl
op_of-byte_of OpCode.check_struct_null = refl
op_of-byte_of OpCode.check_int_zero = refl
op_of-byte_of OpCode.check_string_empty = refl
op_of-byte_of OpCode.conv_int_long = refl
op_of-byte_of OpCode.conv_int_float = refl
op_of-byte_of OpCode.conv_long_int = refl
op_of-byte_of OpCode.conv_long_float = refl
op_of-byte_of OpCode.conv_float_int = refl
op_of-byte_of OpCode.conv_int_string = refl
op_of-byte_of OpCode.conv_long_string = refl
op_of-byte_of OpCode.conv_float_string = refl
op_of-byte_of OpCode.conv_char_string = refl
op_of-byte_of OpCode.conv_int_char = refl
op_of-byte_of OpCode.conv_long_char = refl
op_of-byte_of OpCode.conv_float_char = refl
op_of-byte_of OpCode.conv_float_long = refl
op_of-byte_of OpCode.make_atomic = refl
op_of-byte_of OpCode.atomic_load = refl
op_of-byte_of OpCode.atomic_compare_swap = refl
op_of-byte_of OpCode.atomic_block = refl
op_of-byte_of OpCode.make_struct = refl
op_of-byte_of OpCode.make_null_struct = refl
op_of-byte_of OpCode.struct_load_field = refl
op_of-byte_of OpCode.struct_store_field = refl
op_of-byte_of OpCode.jump = refl
op_of-byte_of OpCode.jump_if = refl
op_of-byte_of OpCode.call = refl
op_of-byte_of OpCode.call_tail = refl
op_of-byte_of OpCode.call_forked = refl
op_of-byte_of OpCode.call_dyn = refl
op_of-byte_of OpCode.call_dyn_tail = refl
op_of-byte_of OpCode.call_dyn_forked = refl
op_of-byte_of OpCode.p_call = refl
op_of-byte_of OpCode.ret = refl
op_of-byte_of OpCode.future_wait_nano = refl
op_of-byte_of OpCode.future_block = refl
op_of-byte_of OpCode.dup = refl
op_of-byte_of OpCode.pop = refl
op_of-byte_of OpCode.swap = refl
op_of-byte_of OpCode.fail = refl

pub read_asm-uint8 : (v : ℕ) (r : Bytes) → read_asm 1 (v % 256 ∷ r) ≡ some (v % 256, r)
unfolding read_asm
read_asm-uint8 v r = ap (λ (n : ℕ). some (n, r)) (omega arith)

pub read_asm-uint16 :
    (v : ℕ) (r : Bytes) → read_asm 2 (v % 256 ∷ v / 2 ^ 8 % 256 ∷ r) ≡ some (v % 2 ^ 16, r)
unfolding read_asm
read_asm-uint16 v r = ap (λ (n : ℕ). some (n, r)) (omega arith)

pub read_asm-uint32 : (v : ℕ) (r : Bytes) → read_asm 4 (bytes32 v ++ r) ≡ some (v % 2 ^ 32, r)
unfolding read_asm bytes32
read_asm-uint32 v r = ap (λ (n : ℕ). some (n, r)) (omega arith)

pub read_asm-uint64 :
    (v : ℕ) (r : Bytes)
    → read_asm 8 ((bytes32 v ++ bytes32 (v / 2 ^ 32)) ++ r) ≡ some (v % 2 ^ 64, r)
unfolding read_asm bytes32
read_asm-uint64 v r = ap (λ (n : ℕ). some (n, r)) (omega arith)
