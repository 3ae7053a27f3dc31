-- ===== src/Ir/Float.antt =====
-- `f32` as crates/stroma-core/src/ir.rs computes with it and compares it: a pattern of 32 bits, rounded
-- to the nearest and on a tie to the even one. Which NaN an operation gives is not told apart.
pub mod Numbers
use Prim.Native.Nat.{Ordering}
use stromadb.Base.{
  ℕ, zero, suc, ◌+◌, ◌-◌, ◌*◌, min, max, ◌/◌, ◌%◌, ◌^◌, Bool, not, ◌&&◌, ◌||◌, Option, none, some,
}
use stromadb.Base.Int.{ℤ, compareℤ}
use stromadb.Base.Tests.{◌==◌, ltb, if◌then◌else◌}

abbrev pub F32 : Type 0
F32 = ℕ

-- `1.0`
abbrev pub one_f32 : F32
one_f32 = 1065353216

-- The exponent is all ones and the fraction is not zero.
unfoldable pub is_nan : F32 → Bool
is_nan b = (b / 2 ^ 23 % 256 == 255) && not (b % 2 ^ 23 == 0)

-- `-m`
abbrev pub minus : ℕ → ℤ
minus zero = ℤ.pos 0
minus (suc m) = ℤ.negsuc m

-- The patterns that are not NaN in the order of their numbers: both zeros are one.
abbrev pub place : F32 → ℤ
place b = if b / 2 ^ 31 % 2 == 0 then ℤ.pos (b % 2 ^ 31) else minus (b % 2 ^ 31)

-- `f32::partial_cmp`
unfoldable pub partial_cmp : F32 → F32 → Option Ordering
unfolding is_nan
partial_cmp a b = if is_nan a || is_nan b then none else some (compareℤ (place a) (place b))

-- The pattern of infinity, of a NaN, and the bit of the sign.
abbrev pub infinity : F32
infinity = 2139095040

abbrev pub quiet_nan : F32
quiet_nan = 2143289344

abbrev pub signed : Bool → F32 → F32
signed negative b = if negative then 2 ^ 31 + b else b

abbrev pub is_negative : F32 → Bool
is_negative b = not (b / 2 ^ 31 % 2 == 0)

-- The quotient to the nearest number, on a tie to the even one.
abbrev pub nearest : ℕ → ℕ → ℕ
nearest p q =
    let low = p / q in
    let rest = 2 * (p % q) in
    if ltb rest q then low else (if ltb q rest then low + 1 else low + low % 2)

-- The power of two that leaves 24 bits of the quotient, from `t` on.
abbrev pub scale : ℕ → ℕ → ℕ → ℕ → ℕ
scale zero t p q = t
scale (suc fuel) t p q =
    let rest = scale fuel (t + 1) p q in if ltb p (q * 2 ^ (24 + t)) then t else rest

-- The pattern of a quotient of units of 2 ^ -149, without its sign. No scale of a finite number is over
-- 253, and a greater one is infinity.
unfoldable pub rounded : ℕ → ℕ → F32
rounded p q = let t = scale 254 0 p q in min (t * 2 ^ 23 + nearest p (q * 2 ^ t)) infinity

-- The size of a finite pattern in units of 2 ^ -149.
abbrev pub units : F32 → ℕ
units b =
    let exponent = b / 2 ^ 23 % 256 in
    let fraction = b % 2 ^ 23 in
    if exponent == 0 then fraction else (2 ^ 23 + fraction) * 2 ^ (exponent - 1)

abbrev pub is_infinite : F32 → Bool
is_infinite b = b % 2 ^ 31 == infinity

-- `1.0 + d`
unfoldable pub add_one : F32 → F32
unfolding is_nan rounded
add_one d =
    if is_nan d
    then quiet_nan
    else (if is_infinite d
        then d
        else (if is_negative d
            then signed (ltb (2 ^ 149) (units d))
                (rounded (max (2 ^ 149) (units d) - min (2 ^ 149) (units d)) 1)
            else rounded (2 ^ 149 + units d) 1))

-- `1.0 / x`
unfoldable pub inverse : F32 → F32
unfolding is_nan rounded
inverse x =
    if is_nan x
    then quiet_nan
    else signed (is_negative x) (
        if is_infinite x
        then 0
        else (if units x == 0 then infinity else rounded (2 ^ 298) (units x)))

-- `1.0 / (1.0 + d)`
unfoldable pub relevance : F32 → F32
unfolding add_one inverse
relevance d = inverse (add_one d)
