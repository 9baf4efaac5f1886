-- ===== src/Base/Words.antt =====
-- The C++ operators on integers of w bits. A value stands as its bit pattern, a number below 2 ^ w;
-- a signed operator reads the pattern in two's complement. Signed results that do not fit wrap
-- around, and a count of a shift is not reduced: C++ leaves both undefined.
use Prim.Native.Nat.{ℕ, ◌+◌, ◌-◌, ◌*◌, ◌/◌, ◌%◌, ◌^◌}
use mathlib.Core.Bool.{◌&&◌, Bool, true, false, not}
use novus.Base.Tests.{◌==◌, ltb, leb, if◌then◌else◌}

unfoldable pub is_negative : ℕ → ℕ → Bool
is_negative w a = leb (2 ^ (w - 1)) a

unfoldable pub add : ℕ → ℕ → ℕ → ℕ
add w a b = (a + b) % 2 ^ w

unfoldable pub sub : ℕ → ℕ → ℕ → ℕ
sub w a b = (a + (2 ^ w - b)) % 2 ^ w

unfoldable pub mul : ℕ → ℕ → ℕ → ℕ
mul w a b = a * b % 2 ^ w

unfoldable pub neg : ℕ → ℕ → ℕ
neg w a = (2 ^ w - a) % 2 ^ w

unfoldable pub magnitude : ℕ → ℕ → ℕ
magnitude w a = if is_negative w a then 2 ^ w - a else a

unfoldable pub with_sign : ℕ → Bool → ℕ → ℕ
with_sign w true n = neg w n
with_sign w false n = n

unfoldable pub differ : Bool → Bool → Bool
differ true b = not b
differ false b = b

-- Division rounds towards zero, and a remainder has the sign of the dividend.
unfoldable pub div_signed : ℕ → ℕ → ℕ → ℕ
div_signed w a b =
    with_sign w (differ (is_negative w a) (is_negative w b)) (magnitude w a / magnitude w b)

unfoldable pub rem_signed : ℕ → ℕ → ℕ → ℕ
rem_signed w a b = with_sign w (is_negative w a) (magnitude w a % magnitude w b)

-- The least number divided by -1.
unfoldable pub overflows : ℕ → ℕ → ℕ → Bool
overflows w a b = (a == 2 ^ (w - 1)) && (b == 2 ^ w - 1)

unfoldable pub shift_left : ℕ → ℕ → ℕ → ℕ
shift_left w a b = a * 2 ^ b % 2 ^ w

unfoldable pub shift_right_unsigned : ℕ → ℕ → ℕ
shift_right_unsigned a b = a / 2 ^ b

-- The sign bit is copied into the places that become free.
unfoldable pub shift_right_signed : ℕ → ℕ → ℕ → ℕ
shift_right_signed w a b =
    if is_negative w a then 2 ^ w - 1 - (2 ^ w - 1 - a) / 2 ^ b else a / 2 ^ b

unfoldable pub inv : ℕ → ℕ → ℕ
inv w a = 2 ^ w - 1 - a

unfoldable pub less_signed : ℕ → ℕ → ℕ → Bool
less_signed w a b = ltb ((a + 2 ^ (w - 1)) % 2 ^ w) ((b + 2 ^ (w - 1)) % 2 ^ w)

-- static_cast<int64_t> of an int32_t
unfoldable pub extend : ℕ → ℕ
extend a = if is_negative 32 a then a + (2 ^ 64 - 2 ^ 32) else a

unfoldable pub from_bool : Bool → ℕ
from_bool true = 1
from_bool false = 0
