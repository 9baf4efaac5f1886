-- ===== src/Opt/Intrinsics/Shifts.antt =====
-- The right shift of a negative number: intrinsics.cpp shifts signed, executor.cpp unsigned.
use novus.Base.{ℕ, ◌+◌, ◌-◌, ◌*◌, ◌/◌, ◌^◌, ◌<◌, ◌≤◌, ◌≡◌, refl, arith, List, [], ◌∷◌, length}
use native.Mathlib.Nat.{pow-le-pow_right, mul-le-mul_left, div-le_self, div-lt_iff_lt-mul}
use novus.Base.Words.{is_negative, shift_right_signed, shift_right_unsigned}
use novus.Vm.Value.{Value, running, capacity}
use novus.Vm.Exec.{shifted, handler, push_uint, push_ulong}
use mathlib.Core.Path.{subst}
use novus.Opt.Intrinsics.{
  Literal, literal, in_width, lit_int, lit_long, shift_right_int, shift_right_long,
  precompute_intrinsic, gen_intrinsic, int_args, long_int_args, get_int, get_long,
}
use novus.Opt.Intrinsics.Call.{Gives, value_of, run_call}
use novus.Opt.Intrinsics.Shapes.{
  shifted-Gives, ints-Gives, long_int-Gives, pushed_uint, pushed_long,
}

-- Signed, the sign bit stays; unsigned, it is lost.
signed_keeps : (h a b : ℕ) → h ≤ a → a < 2 * h → h ≤ 2 * h - 1 - (2 * h - 1 - a) / 2 ^ b
signed_keeps h a b l u = omega (arith, div-le_self (2 * h - 1 - a) (2 ^ b))

unsigned_clears : (h a b : ℕ) → a < 2 * h → 0 < b → a / 2 ^ b < h
unsigned_clears h a b u p =
    let two : 2 ≤ 2 ^ b = pow-le-pow_right {n = 2} (omega arith) {i = 1} {j = b} p in
    (div-lt_iff_lt-mul {k = 2 ^ b} {x = a} {y = h} (omega (arith, two))).1
      (omega (arith, mul-le-mul_left h two))

kept_32 : (a b : ℕ) → 2 ^ 31 ≤ a → a < 2 ^ 32 → 2 ^ 31 ≤ shift_right_signed 32 a b
unfolding shift_right_signed is_negative
kept_32 a b l u = ground (arith, signed_keeps (2 ^ 31) a b l u)

cleared_32 : (a b : ℕ) → a < 2 ^ 32 → 0 < b → shift_right_unsigned a b < 2 ^ 31
unfolding shift_right_unsigned
cleared_32 a b u p = unsigned_clears (2 ^ 31) a b u p

in_width_lem : (w : ℕ) (f : ℕ → ℕ → Literal) (a b : ℕ) → b < w → in_width w f a b ≡ literal (f a b)
unfolding in_width
in_width_lem w f a b c = ground arith

folded_int :
    (a b : ℕ)
    → b < 32
    → precompute_intrinsic shift_right_int (lit_int a ∷ lit_int b ∷ [])
      ≡ literal (lit_int (shift_right_signed 32 a b))
unfolding precompute_intrinsic int_args get_int get_long
folded_int a b c = in_width_lem 32 (λ a b. lit_int (shift_right_signed 32 a b)) a b c

run_int :
    (a b : ℕ) (stack : List Value)
    → a < 2 ^ 32
    → b < 32
    → length stack + 2 < capacity
    → run_call shift_right_int (lit_int a ∷ lit_int b ∷ []) stack
      ≡ running (value_of (lit_int (shift_right_unsigned a b)) ∷ stack)
unfolding run_call gen_intrinsic handler value_of int_args get_int
run_int a b stack u c r =
    let result : ℕ → ℕ → Literal = λ a b. lit_int (shift_right_unsigned a b) in
    subst (λ x. Gives x (run_call shift_right_int (lit_int a ∷ lit_int b ∷ []) stack) stack)
      (in_width_lem 32 result a b c)
      (ints-Gives (in_width 32 result) (shifted 32 shift_right_unsigned push_uint)
        (lit_int a ∷ lit_int b ∷ []) stack (u, omega arith) r
        (λ a b e q.
          shifted-Gives 32 shift_right_unsigned shift_right_unsigned lit_int push_uint a b stack
            refl (λ v. pushed_uint v stack q)))

kept_64 : (a b : ℕ) → 2 ^ 63 ≤ a → a < 2 ^ 64 → 2 ^ 63 ≤ shift_right_signed 64 a b
unfolding shift_right_signed is_negative
kept_64 a b l u = ground (arith, signed_keeps (2 ^ 63) a b l u)

cleared_64 : (a b : ℕ) → a < 2 ^ 64 → 0 < b → shift_right_unsigned a b < 2 ^ 63
unfolding shift_right_unsigned
cleared_64 a b u p = unsigned_clears (2 ^ 63) a b u p

folded_long :
    (a b : ℕ)
    → b < 64
    → precompute_intrinsic shift_right_long (lit_long a ∷ lit_int b ∷ [])
      ≡ literal (lit_long (shift_right_signed 64 a b))
unfolding precompute_intrinsic long_int_args get_int get_long
folded_long a b c = in_width_lem 64 (λ a b. lit_long (shift_right_signed 64 a b)) a b c

run_long :
    (a b : ℕ) (stack : List Value)
    → a < 2 ^ 64
    → b < 64
    → length stack + 2 < capacity
    → run_call shift_right_long (lit_long a ∷ lit_int b ∷ []) stack
      ≡ running (value_of (lit_long (shift_right_unsigned a b)) ∷ stack)
unfolding run_call gen_intrinsic handler value_of long_int_args get_int get_long
run_long a b stack u c r =
    let result : ℕ → ℕ → Literal = λ a b. lit_long (shift_right_unsigned a b) in
    subst (λ x. Gives x (run_call shift_right_long (lit_long a ∷ lit_int b ∷ []) stack) stack)
      (in_width_lem 64 result a b c)
      (long_int-Gives (in_width 64 result) (shifted 64 shift_right_unsigned push_ulong)
        (lit_long a ∷ lit_int b ∷ []) stack (u, omega arith) r
        (λ a b e q.
          shifted-Gives 64 shift_right_unsigned shift_right_unsigned lit_long push_ulong a b stack
            refl (λ v. pushed_long v stack q)))

-- For a negative int and a count of 1 up to 31, the optimizer folds a right shift to a negative int,
-- where the executor pushes one that is not negative.
pub precompute_intrinsic-run_call_negative_int :
    (a b : ℕ) (stack : List Value)
    → 2 ^ 31 ≤ a
    → a < 2 ^ 32
    → 0 < b
    → b < 32
    → length stack + 2 < capacity
    → (p : ℕ) × (q : ℕ) × (precompute_intrinsic shift_right_int (lit_int a ∷ lit_int b ∷ [])
        ≡ literal (lit_int p))
      × (run_call shift_right_int (lit_int a ∷ lit_int b ∷ []) stack
          ≡ running (value_of (lit_int q) ∷ stack))
      × (2 ^ 31 ≤ p)
      × (q < 2 ^ 31)
precompute_intrinsic-run_call_negative_int a b stack l u p c r = (
  shift_right_signed 32 a b,
  shift_right_unsigned a b,
  folded_int a b c,
  run_int a b stack u c r,
  kept_32 a b l u,
  cleared_32 a b u p,
)

-- For a negative long and a count of 1 up to 63, the optimizer folds a right shift to a negative long,
-- where the executor pushes one that is not negative.
pub precompute_intrinsic-run_call_negative_long :
    (a b : ℕ) (stack : List Value)
    → 2 ^ 63 ≤ a
    → a < 2 ^ 64
    → 0 < b
    → b < 64
    → length stack + 2 < capacity
    → (p : ℕ) × (q : ℕ) × (precompute_intrinsic shift_right_long (lit_long a ∷ lit_int b ∷ [])
        ≡ literal (lit_long p))
      × (run_call shift_right_long (lit_long a ∷ lit_int b ∷ []) stack
          ≡ running (value_of (lit_long q) ∷ stack))
      × (2 ^ 63 ≤ p)
      × (q < 2 ^ 63)
precompute_intrinsic-run_call_negative_long a b stack l u p c r = (
  shift_right_signed 64 a b,
  shift_right_unsigned a b,
  folded_long a b c,
  run_long a b stack u c r,
  kept_64 a b l u,
  cleared_64 a b u p,
)
