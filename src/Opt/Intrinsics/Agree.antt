-- ===== src/Opt/Intrinsics/Agree.antt =====
-- A call of an intrinsic on literals, folded by the optimizer or run by the executor.
use novus.Base.{◌+◌, ◌<◌, refl, List, length}
use novus.Base.Words.{div_signed, rem_signed, shift_left, shift_right_signed, shift_right_unsigned}
use novus.Vm.Value.{Value, capacity}
use novus.Vm.Exec.{handler, push_uint, push_ulong}
use novus.Opt.Intrinsics.{
  Literal, lit_int, lit_long, FuncKind, gen_intrinsic, precompute_intrinsic, add_int, sub_int,
  mul_int, div_int, rem_int, negate_int, shift_left_int, shift_right_int, and_int, or_int, xor_int,
  inv_int, check_eq_int, check_le_int, check_gt_int, add_long, sub_long, mul_long, div_long,
  rem_long, negate_long, shift_left_long, shift_right_long, and_long, or_long, xor_long, inv_long,
  check_eq_long, check_le_long, check_gt_long, check_int_zero, conv_int_long, conv_int_char,
  conv_long_int, conv_long_char,
}
use novus.Opt.Intrinsics.Call.{value_of, shape, Takes, IsPlain, run_call, Gives}
use novus.Opt.Intrinsics.Shapes.{
  pushed_long, ints-Gives, longs-Gives, long_int-Gives, int-Gives, long-Gives, guarded-Gives,
  shifted-Gives, pushed_uint, plain_shift,
}

-- For arguments of the types that an intrinsic takes, on a stack with room for them and where an
-- allocation succeeds, the instructions that the backend emits for the call push the value of the
-- literal that the optimizer folds the call to, stop the executor with DivByZero where the optimizer
-- keeps the call, and are undefined where the folding is: a shift count that is not below the width,
-- and the least number divided by -1. Other signed arithmetic is taken to wrap around, in both. A right
-- shift of a negative number is left out.
pub precompute_intrinsic-run_call :
    (kind : FuncKind) (args : List Literal) (stack : List Value)
    → Takes (shape kind) args
    → IsPlain kind args
    → length stack + length args < capacity
    → Gives (precompute_intrinsic kind args) (run_call kind args stack) stack
unfolding precompute_intrinsic run_call gen_intrinsic handler value_of
precompute_intrinsic-run_call add_int args stack t p r =
    ints-Gives _ _ args stack t r (λ a b e q. pushed_uint _ stack q)
precompute_intrinsic-run_call sub_int args stack t p r =
    ints-Gives _ _ args stack t r (λ a b e q. pushed_uint _ stack q)
precompute_intrinsic-run_call mul_int args stack t p r =
    ints-Gives _ _ args stack t r (λ a b e q. pushed_uint _ stack q)
precompute_intrinsic-run_call div_int args stack t p r = ints-Gives _ _ args stack t r (λ a b e q.
    guarded-Gives 32 (div_signed 32) lit_int push_uint a b stack (λ v. pushed_uint v stack q))
precompute_intrinsic-run_call rem_int args stack t p r = ints-Gives _ _ args stack t r (λ a b e q.
    guarded-Gives 32 (rem_signed 32) lit_int push_uint a b stack (λ v. pushed_uint v stack q))
precompute_intrinsic-run_call negate_int args stack t p r =
    int-Gives _ _ args stack t r (λ a q. pushed_uint _ stack q)
precompute_intrinsic-run_call shift_left_int args stack t p r =
    ints-Gives _ _ args stack t r (λ a b e q.
      shifted-Gives 32 (shift_left 32) (shift_left 32) lit_int push_uint a b stack refl
        (λ v. pushed_uint v stack q))
precompute_intrinsic-run_call shift_right_int args stack t p r =
    ints-Gives _ _ args stack t r (λ a b e q.
      shifted-Gives 32 (shift_right_signed 32) shift_right_unsigned lit_int push_uint a b stack
        (plain_shift 32 a b (p a e)) (λ v. pushed_uint v stack q))
precompute_intrinsic-run_call and_int args stack t p r =
    ints-Gives _ _ args stack t r (λ a b e q. pushed_uint _ stack q)
precompute_intrinsic-run_call or_int args stack t p r =
    ints-Gives _ _ args stack t r (λ a b e q. pushed_uint _ stack q)
precompute_intrinsic-run_call xor_int args stack t p r =
    ints-Gives _ _ args stack t r (λ a b e q. pushed_uint _ stack q)
precompute_intrinsic-run_call inv_int args stack t p r =
    int-Gives _ _ args stack t r (λ a q. pushed_uint _ stack q)
precompute_intrinsic-run_call check_eq_int args stack t p r =
    ints-Gives _ _ args stack t r (λ a b e q. pushed_uint _ stack q)
precompute_intrinsic-run_call check_le_int args stack t p r =
    ints-Gives _ _ args stack t r (λ a b e q. pushed_uint _ stack q)
precompute_intrinsic-run_call check_gt_int args stack t p r =
    ints-Gives _ _ args stack t r (λ a b e q. pushed_uint _ stack q)
precompute_intrinsic-run_call add_long args stack t p r =
    longs-Gives _ _ args stack t r (λ a b e q. pushed_long _ stack q)
precompute_intrinsic-run_call sub_long args stack t p r =
    longs-Gives _ _ args stack t r (λ a b e q. pushed_long _ stack q)
precompute_intrinsic-run_call mul_long args stack t p r =
    longs-Gives _ _ args stack t r (λ a b e q. pushed_long _ stack q)
precompute_intrinsic-run_call div_long args stack t p r = longs-Gives _ _ args stack t r (λ a b e q.
    guarded-Gives 64 (div_signed 64) lit_long push_ulong a b stack (λ v. pushed_long v stack q))
precompute_intrinsic-run_call rem_long args stack t p r = longs-Gives _ _ args stack t r (λ a b e q.
    guarded-Gives 64 (rem_signed 64) lit_long push_ulong a b stack (λ v. pushed_long v stack q))
precompute_intrinsic-run_call negate_long args stack t p r =
    long-Gives _ _ args stack t r (λ a q. pushed_long _ stack q)
precompute_intrinsic-run_call shift_left_long args stack t p r =
    long_int-Gives _ _ args stack t r (λ a b e q.
      shifted-Gives 64 (shift_left 64) (shift_left 64) lit_long push_ulong a b stack refl
        (λ v. pushed_long v stack q))
precompute_intrinsic-run_call shift_right_long args stack t p r =
    long_int-Gives _ _ args stack t r (λ a b e q.
      shifted-Gives 64 (shift_right_signed 64) shift_right_unsigned lit_long push_ulong a b stack
        (plain_shift 64 a b (p a e)) (λ v. pushed_long v stack q))
precompute_intrinsic-run_call and_long args stack t p r =
    longs-Gives _ _ args stack t r (λ a b e q. pushed_long _ stack q)
precompute_intrinsic-run_call or_long args stack t p r =
    longs-Gives _ _ args stack t r (λ a b e q. pushed_long _ stack q)
precompute_intrinsic-run_call xor_long args stack t p r =
    longs-Gives _ _ args stack t r (λ a b e q. pushed_long _ stack q)
precompute_intrinsic-run_call inv_long args stack t p r =
    long-Gives _ _ args stack t r (λ a q. pushed_long _ stack q)
precompute_intrinsic-run_call check_eq_long args stack t p r =
    longs-Gives _ _ args stack t r (λ a b e q. pushed_uint _ stack q)
precompute_intrinsic-run_call check_le_long args stack t p r =
    longs-Gives _ _ args stack t r (λ a b e q. pushed_uint _ stack q)
precompute_intrinsic-run_call check_gt_long args stack t p r =
    longs-Gives _ _ args stack t r (λ a b e q. pushed_uint _ stack q)
precompute_intrinsic-run_call check_int_zero args stack t p r =
    int-Gives _ _ args stack t r (λ a q. pushed_uint _ stack q)
precompute_intrinsic-run_call conv_int_long args stack t p r =
    int-Gives _ _ args stack t r (λ a q. pushed_long _ stack q)
precompute_intrinsic-run_call conv_int_char args stack t p r =
    int-Gives _ _ args stack t r (λ a q. pushed_uint _ stack q)
precompute_intrinsic-run_call conv_long_int args stack t p r =
    long-Gives _ _ args stack t r (λ a q. pushed_uint _ stack q)
precompute_intrinsic-run_call conv_long_char args stack t p r =
    long-Gives _ _ args stack t r (λ a q. pushed_uint _ stack q)
