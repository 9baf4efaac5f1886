-- ===== src/Novasm/OpCode.antt =====
-- include/novasm/op_code.hpp: the instructions and their bytes.
use novus.Base.{ℕ}

pub data OpCode : Type 0 where
  load_lit_int load_lit_int_small load_lit_int0 load_lit_int1 load_lit_long load_lit_float : OpCode
  load_lit_string load_lit_ip stack_alloc stack_alloc_small stack_store stack_store_small : OpCode
  stack_load stack_load_small add_int add_long add_float add_string append_char sub_int : OpCode
  sub_long sub_float mul_int mul_long mul_float div_int div_long div_float rem_int : OpCode
  rem_long mod_float pow_float sqrt_float sin_float cos_float tan_float asin_float : OpCode
  acos_float atan_float atan2_float neg_int neg_long neg_float shift_left_int : OpCode
  shift_left_long shift_right_int shift_right_long and_int and_long or_int or_long xor_int : OpCode
  xor_long inv_int inv_long length_string index_string slice_string check_eq_int : OpCode
  check_eq_long check_eq_float check_eq_string check_eq_ip check_eq_call_dyn_tgt : OpCode
  check_gt_int check_gt_long check_gt_float check_le_int check_le_long check_le_float : OpCode
  check_struct_null check_int_zero check_string_empty conv_int_long conv_int_float : OpCode
  conv_long_int conv_long_float conv_float_int conv_int_string conv_long_string : OpCode
  conv_float_string conv_char_string conv_int_char conv_long_char conv_float_char : OpCode
  conv_float_long make_atomic atomic_load atomic_compare_swap atomic_block make_struct : OpCode
  make_null_struct struct_load_field struct_store_field jump jump_if call call_tail : OpCode
  call_forked call_dyn call_dyn_tail call_dyn_forked p_call ret future_wait_nano : OpCode
  future_block dup pop swap fail : OpCode

-- static_cast<uint8_t>(opCode)
unfoldable pub byte_of : OpCode → ℕ
byte_of load_lit_int = 10
byte_of load_lit_int_small = 11
byte_of load_lit_int0 = 12
byte_of load_lit_int1 = 13
byte_of load_lit_long = 14
byte_of load_lit_float = 15
byte_of load_lit_string = 16
byte_of load_lit_ip = 20
byte_of stack_alloc = 30
byte_of stack_alloc_small = 31
byte_of stack_store = 32
byte_of stack_store_small = 33
byte_of stack_load = 34
byte_of stack_load_small = 35
byte_of add_int = 40
byte_of add_long = 41
byte_of add_float = 42
byte_of add_string = 43
byte_of append_char = 44
byte_of sub_int = 45
byte_of sub_long = 46
byte_of sub_float = 47
byte_of mul_int = 48
byte_of mul_long = 49
byte_of mul_float = 50
byte_of div_int = 51
byte_of div_long = 52
byte_of div_float = 53
byte_of rem_int = 54
byte_of rem_long = 55
byte_of mod_float = 56
byte_of pow_float = 57
byte_of sqrt_float = 58
byte_of sin_float = 59
byte_of cos_float = 60
byte_of tan_float = 61
byte_of asin_float = 62
byte_of acos_float = 63
byte_of atan_float = 64
byte_of atan2_float = 65
byte_of neg_int = 66
byte_of neg_long = 67
byte_of neg_float = 68
byte_of shift_left_int = 69
byte_of shift_left_long = 70
byte_of shift_right_int = 71
byte_of shift_right_long = 72
byte_of and_int = 73
byte_of and_long = 74
byte_of or_int = 75
byte_of or_long = 76
byte_of xor_int = 77
byte_of xor_long = 78
byte_of inv_int = 79
byte_of inv_long = 80
byte_of length_string = 81
byte_of index_string = 82
byte_of slice_string = 83
byte_of check_eq_int = 90
byte_of check_eq_long = 91
byte_of check_eq_float = 92
byte_of check_eq_string = 93
byte_of check_eq_ip = 94
byte_of check_eq_call_dyn_tgt = 95
byte_of check_gt_int = 96
byte_of check_gt_long = 97
byte_of check_gt_float = 98
byte_of check_le_int = 99
byte_of check_le_long = 100
byte_of check_le_float = 101
byte_of check_struct_null = 102
byte_of check_int_zero = 103
byte_of check_string_empty = 104
byte_of conv_int_long = 111
byte_of conv_int_float = 112
byte_of conv_long_int = 113
byte_of conv_long_float = 114
byte_of conv_float_int = 115
byte_of conv_int_string = 116
byte_of conv_long_string = 117
byte_of conv_float_string = 118
byte_of conv_char_string = 119
byte_of conv_int_char = 120
byte_of conv_long_char = 121
byte_of conv_float_char = 122
byte_of conv_float_long = 123
byte_of make_atomic = 180
byte_of atomic_load = 181
byte_of atomic_compare_swap = 182
byte_of atomic_block = 183
byte_of make_struct = 190
byte_of make_null_struct = 191
byte_of struct_load_field = 192
byte_of struct_store_field = 193
byte_of jump = 220
byte_of jump_if = 221
byte_of call = 230
byte_of call_tail = 231
byte_of call_forked = 232
byte_of call_dyn = 234
byte_of call_dyn_tail = 235
byte_of call_dyn_forked = 236
byte_of p_call = 237
byte_of ret = 238
byte_of future_wait_nano = 240
byte_of future_block = 241
byte_of dup = 243
byte_of pop = 244
byte_of swap = 245
byte_of fail = 255
