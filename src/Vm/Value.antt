-- ===== src/Vm/Value.antt =====
-- src/vm/internal/value.hpp, ref_ulong.hpp and stack.hpp: the values of the executor and its stack.
use novus.Base.{
  ℕ, ◌+◌, ◌*◌, ◌/◌, ◌%◌, ◌^◌, ◌<◌, ◌≡◌, ap, arith, List, ◌∷◌, Option, none, some, length, ltb, leb,
  if◌then◌else◌,
}

-- A value that is no reference is its raw 64 bits; a reference to a ULongRef, whose content is never
-- changed, is that content.
pub data Value : Type 0 where
  raw ulong_ref : ℕ → Value

unfoldable pub uint_value : ℕ → Value
uint_value val = raw (val * 2 ^ 32 % 2 ^ 64)

-- The assertion in getUInt fails on a reference.
unfoldable pub get_uint : Value → Option ℕ
get_uint (raw m) = some (m / 2 ^ 32 % 2 ^ 32)
get_uint (ulong_ref val) = none

unfoldable pub small_ulong_value : ℕ → Value
small_ulong_value val = raw (val * 2 % 2 ^ 64)

unfoldable pub get_ulong : Value → ℕ
get_ulong (raw m) = m / 2
get_ulong (ulong_ref val) = val

-- The value that PUSH_ULONG pushes: a reference where the most significant bit is set.
unfoldable pub ulong_value : ℕ → Value
ulong_value val = if leb (2 ^ 63) val then ulong_ref val else small_ulong_value val

pub get_uint-uint_value : (val : ℕ) → val < 2 ^ 32 → get_uint (uint_value val) ≡ some val
unfolding get_uint uint_value
get_uint-uint_value val h = ap some (omega arith)

pub get_ulong-ulong_value : (val : ℕ) → val < 2 ^ 64 → get_ulong (ulong_value val) ≡ val
unfolding get_ulong ulong_value small_ulong_value
get_ulong-ulong_value val h = ground arith

pub data ExecState : Type 0 where
  alloc_failed stack_overflow div_by_zero : ExecState

-- How the execution of an instruction ends: with a stack, the top first; stopped in a state; or, in
-- C++ undefined, with a failed assertion.
pub data Outcome : Type 0 where
  running : List Value → Outcome
  stopped : ExecState → Outcome
  undefined : Outcome

abbrev pub capacity : ℕ
capacity = 10240

unfoldable pub push : Value → List Value → Outcome
push v stack =
    if ltb (length stack + 1) capacity then running (v ∷ stack) else stopped stack_overflow
