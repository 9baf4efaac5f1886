-- ===== src/Vm/Exec.antt =====
-- src/vm/internal/executor.cpp: the instructions of `execute` on ints and longs. Each takes whether
-- the next allocation of a reference succeeds.
use novus.Base.{
  ℕ, ◌%◌, ◌^◌, List, [], ◌∷◌, Option, none, some, Bool, bit_and, bit_or, bit_xor, ◌==◌, leb, ltb,
  if◌then◌else◌,
}
use novus.Base.Words.{
  add, sub, mul, neg, div_signed, rem_signed, shift_left, shift_right_unsigned, inv, less_signed,
  extend, from_bool, overflows,
}
use novus.Novasm.OpCode.{
  OpCode, add_int, sub_int, mul_int, div_int, rem_int, neg_int, shift_left_int, shift_right_int,
  and_int, or_int, xor_int, inv_int, check_eq_int, check_gt_int, check_le_int, add_long, sub_long,
  mul_long, div_long, rem_long, neg_long, shift_left_long, shift_right_long, and_long, or_long,
  xor_long, inv_long, check_eq_long, check_gt_long, check_le_long, check_int_zero, conv_int_long,
  conv_long_int, conv_int_char, conv_long_char,
}
use novus.Vm.Value.{
  Value, uint_value, get_uint, small_ulong_value, get_ulong, ulong_ref, Outcome, stopped, undefined,
  push, div_by_zero, alloc_failed,
}

abbrev pub Handler : Type 0
Handler = Bool → List Value → Outcome

-- PUSH_INT, PUSH_UINT and PUSH_BOOL
unfoldable pub push_uint : ℕ → Handler
push_uint val ok stack = push (uint_value val) stack

-- PUSH_LONG and PUSH_ULONG
unfoldable pub push_ulong : ℕ → Handler
push_ulong val ok stack =
    if leb (2 ^ 63) val
    then if ok then push (ulong_ref val) stack else stopped alloc_failed
    else push (small_ulong_value val) stack

-- POP_INT and POP_UINT
unfoldable pub pop_uint : (ℕ → Handler) → Handler
pop_uint k ok [] = undefined
pop_uint k ok (v ∷ stack) = elim (get_uint v) [ none ↦ undefined | some a ↦ k a ok stack ]

-- getLong(POP()) and getULong(POP())
unfoldable pub pop_ulong : (ℕ → Handler) → Handler
pop_ulong k ok [] = undefined
pop_ulong k ok (v ∷ stack) = k (get_ulong v) ok stack

unfoldable pub stop_div_by_zero : Handler
stop_div_by_zero ok stack = stopped div_by_zero

-- Undefined behaviour.
unfoldable pub unknown : Handler
unknown ok stack = undefined

-- The shapes of the cases: the top of the stack is the right operand.
unfoldable pub ints : (ℕ → ℕ → Handler) → Handler
ints f = pop_uint (λ b. pop_uint (λ a. f a b))

unfoldable pub longs : (ℕ → ℕ → Handler) → Handler
longs f = pop_ulong (λ b. pop_ulong (λ a. f a b))

unfoldable pub long_int : (ℕ → ℕ → Handler) → Handler
long_int f = pop_uint (λ b. pop_ulong (λ a. f a b))

-- A division or a remainder on w bits: the least number by -1 is undefined.
unfoldable pub guarded : ℕ → (ℕ → ℕ → ℕ) → (ℕ → Handler) → ℕ → ℕ → Handler
guarded w f result a b =
    if b == 0 then stop_div_by_zero else if overflows w a b then unknown else result (f a b)

-- A shift on w bits: a count that is not below w is undefined.
unfoldable pub shifted : ℕ → (ℕ → ℕ → ℕ) → (ℕ → Handler) → ℕ → ℕ → Handler
shifted w f result a b = if ltb b w then result (f a b) else unknown

-- The cases of the switch on ints and longs; none for an instruction of another kind.
unfoldable pub handler : OpCode → Option Handler
handler add_int = some (ints (λ a b. push_uint (add 32 a b)))
handler sub_int = some (ints (λ a b. push_uint (sub 32 a b)))
handler mul_int = some (ints (λ a b. push_uint (mul 32 a b)))
handler div_int = some (ints (guarded 32 (div_signed 32) push_uint))
handler rem_int = some (ints (guarded 32 (rem_signed 32) push_uint))
handler neg_int = some (pop_uint (λ a. push_uint (neg 32 a)))
handler shift_left_int = some (ints (shifted 32 (shift_left 32) push_uint))
handler shift_right_int = some (ints (shifted 32 shift_right_unsigned push_uint))
handler and_int = some (ints (λ a b. push_uint (bit_and a b)))
handler or_int = some (ints (λ a b. push_uint (bit_or a b)))
handler xor_int = some (ints (λ a b. push_uint (bit_xor a b)))
handler inv_int = some (pop_uint (λ a. push_uint (inv 32 a)))
handler check_eq_int = some (ints (λ a b. push_uint (from_bool (a == b))))
handler check_gt_int = some (ints (λ a b. push_uint (from_bool (less_signed 32 b a))))
handler check_le_int = some (ints (λ a b. push_uint (from_bool (less_signed 32 a b))))
handler add_long = some (longs (λ a b. push_ulong (add 64 a b)))
handler sub_long = some (longs (λ a b. push_ulong (sub 64 a b)))
handler mul_long = some (longs (λ a b. push_ulong (mul 64 a b)))
handler div_long = some (longs (guarded 64 (div_signed 64) push_ulong))
handler rem_long = some (longs (guarded 64 (rem_signed 64) push_ulong))
handler neg_long = some (pop_ulong (λ a. push_ulong (neg 64 a)))
handler shift_left_long = some (long_int (shifted 64 (shift_left 64) push_ulong))
handler shift_right_long = some (long_int (shifted 64 shift_right_unsigned push_ulong))
handler and_long = some (longs (λ a b. push_ulong (bit_and a b)))
handler or_long = some (longs (λ a b. push_ulong (bit_or a b)))
handler xor_long = some (longs (λ a b. push_ulong (bit_xor a b)))
handler inv_long = some (pop_ulong (λ a. push_ulong (inv 64 a)))
handler check_eq_long = some (longs (λ a b. push_uint (from_bool (a == b))))
handler check_gt_long = some (longs (λ a b. push_uint (from_bool (less_signed 64 b a))))
handler check_le_long = some (longs (λ a b. push_uint (from_bool (less_signed 64 a b))))
handler check_int_zero = some (pop_uint (λ a. push_uint (from_bool (a == 0))))
handler conv_int_long = some (pop_uint (λ a. push_ulong (extend a)))
handler conv_long_int = some (pop_ulong (λ a. push_uint (a % 2 ^ 32)))
handler conv_int_char = some (pop_uint (λ a. push_uint (a % 2 ^ 8)))
handler conv_long_char = some (pop_ulong (λ a. push_uint (a % 2 ^ 8)))
handler _ = none
