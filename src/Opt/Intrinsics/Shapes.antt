-- ===== src/Opt/Intrinsics/Shapes.antt =====
-- The shapes of an intrinsic on literals and the handler of its instruction, one lemma for each.
use novus.Base.{
  ℕ, ◌+◌, ◌<◌, ◌≡◌, refl, arith, List, [], ◌∷◌, some, true, false, Bool-cases, inl, inr, length,
  ◌==◌, ltb,
}
use novus.Base.Words.{is_negative, shift_right_signed, shift_right_unsigned, overflows, from_bool}
use novus.Vm.Value.{
  Value, uint_value, get_uint, get_uint-uint_value, ulong_value, small_ulong_value, ulong_ref,
  get_ulong, get_ulong-ulong_value, running, push, capacity,
}
use novus.Vm.Exec.{
  Handler, push_uint, push_ulong, pop_uint, pop_ulong, ints, longs, long_int, guarded,
  stop_div_by_zero, shifted, unknown,
}
use novus.Opt.Intrinsics.{
  Literal, lit_int, lit_enum, lit_char, lit_bool, lit_long, get_int, get_long, int_args, long_args,
  long_int_args, int_arg, long_arg, unless_zero, in_width, Fold,
}
use novus.Opt.Intrinsics.Call.{
  FirstInt, FirstLong, value_of, IsInt, IsLong, two_ints, two_longs, long_and_int, one_int,
  one_long, Takes, operands, and_then, load_lit, Gives,
}

abbrev pub HasRoom : List Value → Type 0
HasRoom stack = length stack + 1 < capacity

pushed : (v : Value) (stack : List Value) → HasRoom stack → push v stack ≡ running (v ∷ stack)
unfolding push
pushed v stack h = ground arith

pub pushed_long :
    (v : ℕ) (stack : List Value)
    → HasRoom stack
    → push_ulong v true stack ≡ running (ulong_value v ∷ stack)
unfolding push_ulong ulong_value
pushed_long v stack h =
    ground (arith, pushed (ulong_ref v) stack h, pushed (small_ulong_value v) stack h)

pub pushed_uint :
    (v : ℕ) (stack : List Value)
    → HasRoom stack
    → push_uint v true stack ≡ running (uint_value v ∷ stack)
unfolding push_uint
pushed_uint v stack h = pushed (uint_value v) stack h

pub load-running :
    (x : Literal) (stack : List Value)
    → HasRoom stack
    → load_lit x true stack ≡ running (value_of x ∷ stack)
unfolding load_lit value_of
load-running (lit_int v) stack r = pushed_uint v stack r
load-running (lit_enum v) stack r = pushed_uint v stack r
load-running (lit_char v) stack r = pushed_uint v stack r
load-running (lit_bool b) stack r = pushed_uint (from_bool b) stack r
load-running (lit_long v) stack r = pushed_long v stack r

-- Room for the operands, or the result.
abbrev pub Fits : List Literal → List Value → Type 0
Fits args stack = length stack + length args < capacity

operand-running :
    (x : Literal) (stack : List Value)
    → HasRoom stack
    → operands (x ∷ []) stack ≡ running (value_of x ∷ stack)
unfolding operands and_then
operand-running x stack r = rw (load-running x stack r) refl

operands-running :
    (x y : Literal) (stack : List Value)
    → Fits (x ∷ y ∷ []) stack
    → operands (x ∷ y ∷ []) stack ≡ running (value_of y ∷ value_of x ∷ stack)
unfolding operands and_then
operands-running x y stack r =
    rw
      (
        load-running x stack (omega (arith, r)),
        load-running y (value_of x ∷ stack) (omega (arith, r)),
      )
      refl

record IntLiteral (x : Literal) : Type 0 where
  bits : ℕ
  got : get_int x ≡ some bits
  small : get_uint (value_of x) ≡ some bits

IsInt-IntLiteral : (x : Literal) → IsInt x → IntLiteral x
unfolding get_int value_of
IsInt-IntLiteral (lit_int v) h = record { bits = v; got = refl; small = get_uint-uint_value v h }
IsInt-IntLiteral (lit_enum v) h = record { bits = v; got = refl; small = get_uint-uint_value v h }
IsInt-IntLiteral (lit_char v) h = record {
  bits = v;
  got = refl;
  small = get_uint-uint_value v (omega arith);
}
IsInt-IntLiteral (lit_long v) h = absurd h
IsInt-IntLiteral (lit_bool v) h = absurd h

record LongLiteral (x : Literal) : Type 0 where
  bits : ℕ
  got : get_long x ≡ some bits
  same : get_ulong (value_of x) ≡ bits

IsLong-LongLiteral : (x : Literal) → IsLong x → LongLiteral x
unfolding get_long value_of
IsLong-LongLiteral (lit_long v) h = record {
  bits = v;
  got = refl;
  same = get_ulong-ulong_value v h;
}
IsLong-LongLiteral (lit_int v) h = absurd h
IsLong-LongLiteral (lit_enum v) h = absurd h
IsLong-LongLiteral (lit_char v) h = absurd h
IsLong-LongLiteral (lit_bool v) h = absurd h

pub ints-Gives :
    (f : ℕ → ℕ → Fold) (g : ℕ → ℕ → Handler) (args : List Literal) (stack : List Value)
    → Takes two_ints args
    → Fits args stack
    → ((a b : ℕ) → FirstInt args a → HasRoom stack → Gives (f a b) (g a b true stack) stack)
    → Gives (int_args f args) (and_then (operands args stack) (ints g true)) stack
unfolding int_args ints pop_uint and_then
ints-Gives f g [] stack t r h = absurd t
ints-Gives f g (x ∷ []) stack t r h = absurd t
ints-Gives f g (x ∷ y ∷ z ∷ zs) stack t r h = absurd t
ints-Gives f g (x ∷ y ∷ []) stack (hx, hy) r h =
    let a = IsInt-IntLiteral x hx in
    let b = IsInt-IntLiteral y hy in
    rw (operands-running x y stack r, a.got, b.got, ints, pop_uint, b.small, pop_uint, a.small)
      (h a.bits b.bits a.got (omega (arith, r)))

pub longs-Gives :
    (f : ℕ → ℕ → Fold) (g : ℕ → ℕ → Handler) (args : List Literal) (stack : List Value)
    → Takes two_longs args
    → Fits args stack
    → ((a b : ℕ) → FirstLong args a → HasRoom stack → Gives (f a b) (g a b true stack) stack)
    → Gives (long_args f args) (and_then (operands args stack) (longs g true)) stack
unfolding long_args longs pop_ulong and_then
longs-Gives f g [] stack t r h = absurd t
longs-Gives f g (x ∷ []) stack t r h = absurd t
longs-Gives f g (x ∷ y ∷ z ∷ zs) stack t r h = absurd t
longs-Gives f g (x ∷ y ∷ []) stack (hx, hy) r h =
    let a = IsLong-LongLiteral x hx in
    let b = IsLong-LongLiteral y hy in
    rw (operands-running x y stack r, a.got, b.got, b.same, a.same)
      (h a.bits b.bits a.got (omega (arith, r)))

pub long_int-Gives :
    (f : ℕ → ℕ → Fold) (g : ℕ → ℕ → Handler) (args : List Literal) (stack : List Value)
    → Takes long_and_int args
    → Fits args stack
    → ((a b : ℕ) → FirstLong args a → HasRoom stack → Gives (f a b) (g a b true stack) stack)
    → Gives (long_int_args f args) (and_then (operands args stack) (long_int g true)) stack
unfolding long_int_args long_int pop_uint pop_ulong and_then
long_int-Gives f g [] stack t r h = absurd t
long_int-Gives f g (x ∷ []) stack t r h = absurd t
long_int-Gives f g (x ∷ y ∷ z ∷ zs) stack t r h = absurd t
long_int-Gives f g (x ∷ y ∷ []) stack (hx, hy) r h =
    let a = IsLong-LongLiteral x hx in
    let b = IsInt-IntLiteral y hy in
    rw (operands-running x y stack r, a.got, b.got, long_int, pop_uint, b.small, a.same)
      (h a.bits b.bits a.got (omega (arith, r)))

pub int-Gives :
    (f : ℕ → Literal) (g : ℕ → Handler) (args : List Literal) (stack : List Value)
    → Takes one_int args
    → Fits args stack
    → ((a : ℕ) → HasRoom stack → g a true stack ≡ running (value_of (f a) ∷ stack))
    → Gives (int_arg f args) (and_then (operands args stack) (pop_uint g true)) stack
unfolding int_arg pop_uint and_then
int-Gives f g [] stack t r h = absurd t
int-Gives f g (x ∷ y ∷ zs) stack t r h = absurd t
int-Gives f g (x ∷ []) stack hx r h =
    let a = IsInt-IntLiteral x hx in
    rw (operand-running x stack r, a.got, pop_uint, a.small) (h a.bits r)

pub long-Gives :
    (f : ℕ → Literal) (g : ℕ → Handler) (args : List Literal) (stack : List Value)
    → Takes one_long args
    → Fits args stack
    → ((a : ℕ) → HasRoom stack → g a true stack ≡ running (value_of (f a) ∷ stack))
    → Gives (long_arg f args) (and_then (operands args stack) (pop_ulong g true)) stack
unfolding long_arg pop_ulong and_then
long-Gives f g [] stack t r h = absurd t
long-Gives f g (x ∷ y ∷ zs) stack t r h = absurd t
long-Gives f g (x ∷ []) stack hx r h =
    let a = IsLong-LongLiteral x hx in rw (operand-running x stack r, a.got, a.same) (h a.bits r)

-- A division, which stops where the call is kept.
pub guarded-Gives :
    (w : ℕ) (f : ℕ → ℕ → ℕ) (l : ℕ → Literal) (result : ℕ → Handler) (a b : ℕ) (stack : List Value)
    → ((v : ℕ) → result v true stack ≡ running (value_of (l v) ∷ stack))
    → Gives (unless_zero w (λ a b. l (f a b)) a b) (guarded w f result a b true stack) stack
unfolding guarded unless_zero stop_div_by_zero unknown
guarded-Gives w f l result a b stack h = elim (Bool-cases (b == 0)) [
  | inl e ↦ rw e refl
  | inr e ↦ elim (Bool-cases (overflows w a b)) [
    | inl o ↦ rw (e, o) refl
    | inr o ↦ rw (e, o) (h (f a b))
  ]
]

-- A shift, whose result is the same for the counts that are defined.
pub shifted-Gives :
    (w : ℕ) (f g : ℕ → ℕ → ℕ) (l : ℕ → Literal) (result : ℕ → Handler) (a b : ℕ)
    (stack : List Value)
    → f a b ≡ g a b
    → ((v : ℕ) → result v true stack ≡ running (value_of (l v) ∷ stack))
    → Gives (in_width w (λ a b. l (f a b)) a b) (shifted w g result a b true stack) stack
unfolding shifted in_width unknown
shifted-Gives w f g l result a b stack q h = elim (Bool-cases (ltb b w)) [
  | inl e ↦ rw (e, q) (h (g a b))
  | inr e ↦ rw e refl
]

-- On a value that is not negative the two right shifts are the same.
pub plain_shift :
    (w a b : ℕ) → is_negative w a ≡ false → shift_right_signed w a b ≡ shift_right_unsigned a b
unfolding shift_right_signed shift_right_unsigned
plain_shift w a b h = rw h refl
