-- ===== src/Prelude/Float.antt =====
-- Go's `float64` as its IEEE 754 bit pattern: a sign bit, 11 bits of exponent, 52 of fraction.
-- Below the sign bit the patterns of the numbers are ordered as the numbers are.
use Prim.Native.Nat.{ℕ, ◌+◌, ◌/◌, ◌%◌, ◌^◌}
use mathlib.Core.Bool.{Bool, false, not, ◌&&◌, ◌||◌}
use golden_path_control_plan.Prelude.Tests.{ltb, ◌==◌, if◌then◌else◌}

abbrev pub Float64 : Type 0
Float64 = ℕ

magnitude : Float64 → ℕ
magnitude x = x % 2 ^ 63

is_negative : Float64 → Bool
is_negative x = x / 2 ^ 63 == 1

pub is_nan : Float64 → Bool
unfolding magnitude
is_nan x = ltb 0x7FF0000000000000 (magnitude x)

-- x < y on two numbers: both zeros are one number, and no comparison with a NaN holds.
unfoldable pub float_lt : Float64 → Float64 → Bool
unfolding is_nan magnitude is_negative
float_lt x y =
    if is_nan x || is_nan y
    then false
    else if is_negative x
    then (if is_negative y
        then ltb (magnitude y) (magnitude x)
        else ltb 0 (magnitude x + magnitude y))
    else (if is_negative y then false else ltb (magnitude x) (magnitude y))

-- x <= y
unfoldable pub float_le : Float64 → Float64 → Bool
unfolding is_nan float_lt
float_le x y = not (is_nan x) && not (is_nan y) && not (float_lt y x)

abbrev pub float_zero : Float64
float_zero = 0

-- 100.0 is 1.5625 * 2 ^ 6.
abbrev pub float_hundred : Float64
float_hundred = 0x4059000000000000
