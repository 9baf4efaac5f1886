-- ===== src/Opt/Intrinsics/Call.antt =====
-- A call of an intrinsic on literals, as the backend generates it and the executor runs it:
-- src/backend/internal/gen_expr.cpp and src/vm/internal/executor.cpp.
use novus.Base.{ℕ, ◌^◌, ◌<◌, ◌≡◌, List, [], ◌∷◌, none, some, true, false}
use novus.Base.Words.{from_bool, is_negative}
use novus.Vm.Value.{
  Value, uint_value, ulong_value, Outcome, running, stopped, undefined, div_by_zero,
}
use novus.Vm.Exec.{Handler, handler, push_uint, push_ulong}
use novus.Opt.Intrinsics
use novus.Opt.Intrinsics.{
  Fold, literal, kept, Literal, lit_int, lit_enum, lit_char, lit_bool, lit_long, FuncKind, get_int,
  get_long, gen_intrinsic, add_int, sub_int, mul_int, div_int, rem_int, negate_int, shift_left_int,
  shift_right_int, and_int, or_int, xor_int, inv_int, check_eq_int, check_le_int, check_gt_int,
  add_long, sub_long, mul_long, div_long, rem_long, negate_long, shift_left_long, shift_right_long,
  and_long, or_long, xor_long, inv_long, check_eq_long, check_le_long, check_gt_long,
  check_int_zero, conv_int_long, conv_int_char, conv_long_int, conv_long_char,
}

-- A literal as a value.
unfoldable pub value_of : Literal → Value
value_of (lit_int v) = uint_value v
value_of (lit_enum v) = uint_value v
value_of (lit_char v) = uint_value v
value_of (lit_bool b) = uint_value (from_bool b)
value_of (lit_long v) = ulong_value v

abbrev pub IsInt : Literal → Type 0
IsInt (lit_int v) = v < 2 ^ 32
IsInt (lit_enum v) = v < 2 ^ 32
IsInt (lit_char v) = v < 2 ^ 8
IsInt _ = ⊥

abbrev pub IsLong : Literal → Type 0
IsLong (lit_long v) = v < 2 ^ 64
IsLong _ = ⊥

pub data Shape : Type 0 where
  two_ints two_longs long_and_int one_int one_long : Shape

abbrev pub shape : FuncKind → Shape
shape add_int = two_ints
shape sub_int = two_ints
shape mul_int = two_ints
shape div_int = two_ints
shape rem_int = two_ints
shape negate_int = one_int
shape shift_left_int = two_ints
shape shift_right_int = two_ints
shape and_int = two_ints
shape or_int = two_ints
shape xor_int = two_ints
shape inv_int = one_int
shape check_eq_int = two_ints
shape check_le_int = two_ints
shape check_gt_int = two_ints
shape add_long = two_longs
shape sub_long = two_longs
shape mul_long = two_longs
shape div_long = two_longs
shape rem_long = two_longs
shape negate_long = one_long
shape shift_left_long = long_and_int
shape shift_right_long = long_and_int
shape and_long = two_longs
shape or_long = two_longs
shape xor_long = two_longs
shape inv_long = one_long
shape check_eq_long = two_longs
shape check_le_long = two_longs
shape check_gt_long = two_longs
shape check_int_zero = one_int
shape conv_int_long = one_int
shape conv_int_char = one_int
shape conv_long_int = one_long
shape conv_long_char = one_long

-- Arguments of the types that the intrinsic is declared with.
abbrev pub Takes : Shape → List Literal → Type 0
Takes two_ints (x ∷ y ∷ []) = IsInt x × IsInt y
Takes two_longs (x ∷ y ∷ []) = IsLong x × IsLong y
Takes long_and_int (x ∷ y ∷ []) = IsLong x × IsInt y
Takes one_int (x ∷ []) = IsInt x
Takes one_long (x ∷ []) = IsLong x
Takes _ _ = ⊥

abbrev pub FirstInt : List Literal → ℕ → Type 0
FirstInt [] a = ⊥
FirstInt (x ∷ _) a = get_int x ≡ some a

abbrev pub FirstLong : List Literal → ℕ → Type 0
FirstLong [] a = ⊥
FirstLong (x ∷ _) a = get_long x ≡ some a

-- A right shift has a first argument that is not negative.
abbrev pub IsPlain : FuncKind → List Literal → Type 0
IsPlain shift_right_int args = (a : ℕ) → FirstInt args a → is_negative 32 a ≡ false
IsPlain shift_right_long args = (a : ℕ) → FirstLong args a → is_negative 64 a ≡ false
IsPlain _ _ = Unit

-- What follows an instruction, where that leaves a stack.
unfoldable pub and_then : Outcome → (List Value → Outcome) → Outcome
and_then (running stack) k = k stack
and_then (stopped state) k = stopped state
and_then undefined k = undefined

-- The instruction for a literal.
unfoldable pub load_lit : Literal → Handler
load_lit (lit_int v) = push_uint v
load_lit (lit_enum v) = push_uint v
load_lit (lit_char v) = push_uint v
load_lit (lit_bool b) = push_uint (from_bool b)
load_lit (lit_long v) = push_ulong v

unfoldable pub operands : List Literal → List Value → Outcome
operands [] stack = running stack
operands (x ∷ xs) stack = and_then (load_lit x true stack) (operands xs)

-- The call as generated by the backend, where allocations succeed.
unfoldable pub run_call : FuncKind → List Literal → List Value → Outcome
run_call kind args stack = elim (handler (gen_intrinsic kind)) [
  | none ↦ undefined
  | some h ↦ and_then (operands args stack) (h true)
]

-- The executor pushes the value of the folded literal, stops where the call is kept, and is undefined
-- where the folding is.
abbrev pub Gives : Fold → Outcome → List Value → Type 0
Gives kept out stack = out ≡ stopped div_by_zero
Gives Intrinsics.undefined out stack = out ≡ undefined
Gives (literal l) out stack = out ≡ running (value_of l ∷ stack)
