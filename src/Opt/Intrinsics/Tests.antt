-- ===== src/Opt/Intrinsics/Tests.antt =====
-- Runs of the definitions, and the theorems at concrete calls.
use novus.Base.{ℕ, true, ◌≡◌, refl, ◌≤◌, ◌<◌, ◌^◌, arith, [], ◌∷◌}
use novus.Base.Words.{
  sub, div_signed, rem_signed, with_sign, differ, is_negative, neg, magnitude, less_signed, extend,
  overflows,
}
use novus.Vm.Value.{running}
use novus.Opt.Intrinsics.{
  lit_int, lit_long, lit_bool, sub_int, div_int, div_long, rem_int, shift_right_int,
  shift_right_long, check_le_int, conv_int_long, precompute_intrinsic, int_args, int_arg, get_int,
  unless_zero, literal,
}
use novus.Opt.Intrinsics.Call.{run_call, value_of, Gives}
use novus.Opt.Intrinsics.Agree.{precompute_intrinsic-run_call}
use novus.Opt.Intrinsics.Shifts.{
  precompute_intrinsic-run_call_negative_int, precompute_intrinsic-run_call_negative_long,
}

-- 3 - 5, -7 / 2, -7 % 2, -1 < 0 and static_cast<int64_t>(-1)
minus : precompute_intrinsic sub_int (lit_int 3 ∷ lit_int 5 ∷ []) ≡ literal (lit_int 4294967294)
unfolding precompute_intrinsic int_args get_int sub
minus = refl

quotient :
    precompute_intrinsic div_int (lit_int 4294967289 ∷ lit_int 2 ∷ [])
    ≡ literal (lit_int 4294967293)
unfolding precompute_intrinsic int_args get_int unless_zero overflows div_signed with_sign differ
    is_negative neg magnitude
quotient = refl

remainder :
    precompute_intrinsic rem_int (lit_int 4294967289 ∷ lit_int 2 ∷ [])
    ≡ literal (lit_int 4294967295)
unfolding precompute_intrinsic int_args get_int unless_zero overflows rem_signed with_sign
    is_negative neg magnitude
remainder = refl

below :
    precompute_intrinsic check_le_int (lit_int 4294967295 ∷ lit_int 0 ∷ [])
    ≡ literal (lit_bool true)
unfolding precompute_intrinsic int_args get_int less_signed
below = refl

extended :
    precompute_intrinsic conv_int_long (lit_int 4294967295 ∷ [])
    ≡ literal (lit_long 18446744073709551615)
unfolding precompute_intrinsic int_arg get_int extend is_negative
extended = refl

precompute_intrinsic-run_call_example :
    Gives
      (precompute_intrinsic div_long (lit_long 18446744073709551609 ∷ lit_long 2 ∷ []))
      (run_call div_long (lit_long 18446744073709551609 ∷ lit_long 2 ∷ []) [])
      []
precompute_intrinsic-run_call_example =
    precompute_intrinsic-run_call div_long (lit_long 18446744073709551609 ∷ lit_long 2 ∷ []) []
      (omega arith, omega arith) tt (omega arith)

precompute_intrinsic-run_call_negative_int_example :
    (p : ℕ) × (q : ℕ) × (precompute_intrinsic shift_right_int (lit_int 4294967288 ∷ lit_int 1 ∷ [])
      ≡ literal (lit_int p))
    × (run_call shift_right_int (lit_int 4294967288 ∷ lit_int 1 ∷ []) []
        ≡ running (value_of (lit_int q) ∷ []))
    × (2 ^ 31 ≤ p)
    × (q < 2 ^ 31)
precompute_intrinsic-run_call_negative_int_example =
    precompute_intrinsic-run_call_negative_int 4294967288 1 [] (omega arith) (omega arith)
      (omega arith) (omega arith) (omega arith)

precompute_intrinsic-run_call_negative_long_example :
    (p : ℕ) × (q : ℕ) × (precompute_intrinsic shift_right_long
        (lit_long 18446744073709551608 ∷ lit_int 1 ∷ [])
      ≡ literal (lit_long p))
    × (run_call shift_right_long (lit_long 18446744073709551608 ∷ lit_int 1 ∷ []) []
        ≡ running (value_of (lit_long q) ∷ []))
    × (2 ^ 63 ≤ p)
    × (q < 2 ^ 63)
precompute_intrinsic-run_call_negative_long_example =
    precompute_intrinsic-run_call_negative_long 18446744073709551608 1 [] (omega arith)
      (omega arith) (omega arith) (omega arith) (omega arith)
