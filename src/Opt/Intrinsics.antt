-- ===== src/Opt/Intrinsics.antt =====
-- src/opt/internal/intrinsics.cpp: intrinsics on int and long literals computed by the optimizer, and
-- src/backend/internal/gen_expr.cpp: the instruction that the backend emits for an intrinsic.
pub mod Call
pub mod Shapes
pub mod Agree
pub mod Shifts
mod Tests
use novus.Base.{
  ℕ, ◌%◌, ◌^◌, List, [], ◌∷◌, Option, none, some, Bool, bit_and, bit_or, bit_xor, ◌==◌, ltb,
  if◌then◌else◌,
}
use novus.Base.Words.{
  add, sub, mul, neg, div_signed, rem_signed, shift_left, shift_right_signed, inv, less_signed,
  extend, overflows,
}
use novus.Novasm.OpCode
use novus.Novasm.OpCode.{OpCode}

-- The kinds of prog::sym::FuncKind that work on ints and longs alone.
pub data FuncKind : Type 0 where
  add_int sub_int mul_int div_int rem_int negate_int : FuncKind
  shift_left_int shift_right_int and_int or_int xor_int inv_int : FuncKind
  check_eq_int check_le_int check_gt_int : FuncKind
  add_long sub_long mul_long div_long rem_long negate_long : FuncKind
  shift_left_long shift_right_long and_long or_long xor_long inv_long : FuncKind
  check_eq_long check_le_long check_gt_long : FuncKind
  check_int_zero conv_int_long conv_int_char conv_long_int conv_long_char : FuncKind

-- Literals as expressions of the program, the numbers as bit patterns.
pub data Literal : Type 0 where
  lit_int lit_long lit_char lit_enum : ℕ → Literal
  lit_bool : Bool → Literal

-- getInt and getLong on a literal; none where the cast of the node is undefined.
unfoldable pub get_int : Literal → Option ℕ
get_int (lit_int v) = some v
get_int (lit_char v) = some v
get_int (lit_enum v) = some v
get_int _ = none

unfoldable pub get_long : Literal → Option ℕ
get_long (lit_long v) = some v
get_long _ = none

-- What folding a call gives: a literal; nullptr, with which the call is kept; or, where the source has
-- undefined behaviour or a failed assertion, nothing that is known.
pub data Fold : Type 0 where
  literal : Literal → Fold
  kept undefined : Fold

infixl 5 ◌>>=◌
abbrev ◌>>=◌ : {A : Type 0} → Option A → (A → Fold) → Fold
◌>>=◌ none f = undefined
◌>>=◌ (some a) f = f a

-- The shapes of the cases, with the assertion on the number of arguments.
unfoldable pub int_args : (ℕ → ℕ → Fold) → List Literal → Fold
int_args f (x ∷ y ∷ []) = do a ← get_int x; b ← get_int y; f a b
int_args f _ = undefined

unfoldable pub long_args : (ℕ → ℕ → Fold) → List Literal → Fold
long_args f (x ∷ y ∷ []) = do a ← get_long x; b ← get_long y; f a b
long_args f _ = undefined

unfoldable pub long_int_args : (ℕ → ℕ → Fold) → List Literal → Fold
long_int_args f (x ∷ y ∷ []) = do a ← get_long x; b ← get_int y; f a b
long_int_args f _ = undefined

unfoldable pub int_arg : (ℕ → Literal) → List Literal → Fold
int_arg f (x ∷ []) = do a ← get_int x; literal (f a)
int_arg f _ = undefined

unfoldable pub long_arg : (ℕ → Literal) → List Literal → Fold
long_arg f (x ∷ []) = do a ← get_long x; literal (f a)
long_arg f _ = undefined

-- A division or a remainder on w bits: the least number by -1 is undefined.
unfoldable pub unless_zero : ℕ → (ℕ → ℕ → Literal) → ℕ → ℕ → Fold
unless_zero w f a b =
    if b == 0 then kept else if overflows w a b then undefined else literal (f a b)

-- A shift on w bits: a count that is negative, or not below w, is undefined.
unfoldable pub in_width : ℕ → (ℕ → ℕ → Literal) → ℕ → ℕ → Fold
in_width w f a b = if ltb b w then literal (f a b) else undefined

unfoldable pub precompute_intrinsic : FuncKind → List Literal → Fold
precompute_intrinsic add_int = int_args (λ a b. literal (lit_int (add 32 a b)))
precompute_intrinsic sub_int = int_args (λ a b. literal (lit_int (sub 32 a b)))
precompute_intrinsic mul_int = int_args (λ a b. literal (lit_int (mul 32 a b)))
precompute_intrinsic div_int = int_args (unless_zero 32 (λ a b. lit_int (div_signed 32 a b)))
precompute_intrinsic rem_int = int_args (unless_zero 32 (λ a b. lit_int (rem_signed 32 a b)))
precompute_intrinsic negate_int = int_arg (λ a. lit_int (neg 32 a))
precompute_intrinsic shift_left_int = int_args (in_width 32 (λ a b. lit_int (shift_left 32 a b)))
precompute_intrinsic shift_right_int =
    int_args (in_width 32 (λ a b. lit_int (shift_right_signed 32 a b)))
precompute_intrinsic and_int = int_args (λ a b. literal (lit_int (bit_and a b)))
precompute_intrinsic or_int = int_args (λ a b. literal (lit_int (bit_or a b)))
precompute_intrinsic xor_int = int_args (λ a b. literal (lit_int (bit_xor a b)))
precompute_intrinsic inv_int = int_arg (λ a. lit_int (inv 32 a))
precompute_intrinsic check_eq_int = int_args (λ a b. literal (lit_bool (a == b)))
precompute_intrinsic check_le_int = int_args (λ a b. literal (lit_bool (less_signed 32 a b)))
precompute_intrinsic check_gt_int = int_args (λ a b. literal (lit_bool (less_signed 32 b a)))
precompute_intrinsic add_long = long_args (λ a b. literal (lit_long (add 64 a b)))
precompute_intrinsic sub_long = long_args (λ a b. literal (lit_long (sub 64 a b)))
precompute_intrinsic mul_long = long_args (λ a b. literal (lit_long (mul 64 a b)))
precompute_intrinsic div_long = long_args (unless_zero 64 (λ a b. lit_long (div_signed 64 a b)))
precompute_intrinsic rem_long = long_args (unless_zero 64 (λ a b. lit_long (rem_signed 64 a b)))
precompute_intrinsic negate_long = long_arg (λ a. lit_long (neg 64 a))
precompute_intrinsic shift_left_long =
    long_int_args (in_width 64 (λ a b. lit_long (shift_left 64 a b)))
precompute_intrinsic shift_right_long =
    long_int_args (in_width 64 (λ a b. lit_long (shift_right_signed 64 a b)))
precompute_intrinsic and_long = long_args (λ a b. literal (lit_long (bit_and a b)))
precompute_intrinsic or_long = long_args (λ a b. literal (lit_long (bit_or a b)))
precompute_intrinsic xor_long = long_args (λ a b. literal (lit_long (bit_xor a b)))
precompute_intrinsic inv_long = long_arg (λ a. lit_long (inv 64 a))
precompute_intrinsic check_eq_long = long_args (λ a b. literal (lit_bool (a == b)))
precompute_intrinsic check_le_long = long_args (λ a b. literal (lit_bool (less_signed 64 a b)))
precompute_intrinsic check_gt_long = long_args (λ a b. literal (lit_bool (less_signed 64 b a)))
precompute_intrinsic check_int_zero = int_arg (λ a. lit_bool (a == 0))
precompute_intrinsic conv_int_long = int_arg (λ a. lit_long (extend a))
precompute_intrinsic conv_int_char = int_arg (λ a. lit_char (a % 2 ^ 8))
precompute_intrinsic conv_long_int = long_arg (λ a. lit_int (a % 2 ^ 32))
precompute_intrinsic conv_long_char = long_arg (λ a. lit_char (a % 2 ^ 8))

-- The instruction for a call of an intrinsic in `visit(const prog::expr::CallExprNode&)`.
unfoldable pub gen_intrinsic : FuncKind → OpCode
gen_intrinsic add_int = OpCode.add_int
gen_intrinsic sub_int = OpCode.sub_int
gen_intrinsic mul_int = OpCode.mul_int
gen_intrinsic div_int = OpCode.div_int
gen_intrinsic rem_int = OpCode.rem_int
gen_intrinsic negate_int = OpCode.neg_int
gen_intrinsic shift_left_int = OpCode.shift_left_int
gen_intrinsic shift_right_int = OpCode.shift_right_int
gen_intrinsic and_int = OpCode.and_int
gen_intrinsic or_int = OpCode.or_int
gen_intrinsic xor_int = OpCode.xor_int
gen_intrinsic inv_int = OpCode.inv_int
gen_intrinsic check_eq_int = OpCode.check_eq_int
gen_intrinsic check_le_int = OpCode.check_le_int
gen_intrinsic check_gt_int = OpCode.check_gt_int
gen_intrinsic add_long = OpCode.add_long
gen_intrinsic sub_long = OpCode.sub_long
gen_intrinsic mul_long = OpCode.mul_long
gen_intrinsic div_long = OpCode.div_long
gen_intrinsic rem_long = OpCode.rem_long
gen_intrinsic negate_long = OpCode.neg_long
gen_intrinsic shift_left_long = OpCode.shift_left_long
gen_intrinsic shift_right_long = OpCode.shift_right_long
gen_intrinsic and_long = OpCode.and_long
gen_intrinsic or_long = OpCode.or_long
gen_intrinsic xor_long = OpCode.xor_long
gen_intrinsic inv_long = OpCode.inv_long
gen_intrinsic check_eq_long = OpCode.check_eq_long
gen_intrinsic check_le_long = OpCode.check_le_long
gen_intrinsic check_gt_long = OpCode.check_gt_long
gen_intrinsic check_int_zero = OpCode.check_int_zero
gen_intrinsic conv_int_long = OpCode.conv_int_long
gen_intrinsic conv_int_char = OpCode.conv_int_char
gen_intrinsic conv_long_int = OpCode.conv_long_int
gen_intrinsic conv_long_char = OpCode.conv_long_char
