-- ===== src/Ir/Float/Numbers.antt =====
-- crates/stroma-core/src/ir.rs: the relevance of a distance against its being a number.
use stromadb.Base.{ℕ, ◌+◌, ◌≤◌, ◌≡◌, arith, Bool, true, false, min, max, ◌-◌, ◌^◌, inl, inr}
use stromadb.Base.Tests.{◌==◌, ltb, Bool-cases}
use stromadb.Ir.Float.{
  F32, is_nan, infinity, signed, is_negative, is_infinite, units, rounded, add_one, inverse,
  relevance,
}

-- A pattern up to infinity, with either sign, is a number.
signed_number : (negative : Bool) (b : F32) → b ≤ infinity → is_nan (signed negative b) ≡ false
unfolding is_nan
signed_number true b h = ground arith
signed_number false b h = ground arith

rounded_number : (negative : Bool) (p q : ℕ) → is_nan (signed negative (rounded p q)) ≡ false
rounded_number negative p q = signed_number negative (rounded p q) (unfold rounded in omega arith)

add_one_number : (d : F32) → is_nan d ≡ false → is_nan (add_one d) ≡ false
unfolding add_one
add_one_number d h = elim (Bool-cases (is_infinite d)) [
  | inl e ↦ rw (h, e) h
  | inr e ↦ elim (Bool-cases (is_negative d)) [
    | inl n ↦
        rw (h, e, n)
          (rounded_number (ltb (2 ^ 149) (units d))
            (max (2 ^ 149) (units d) - min (2 ^ 149) (units d)) 1)
    | inr n ↦ rw (h, e, n) (rounded_number false (2 ^ 149 + units d) 1)
  ]
]

inverse_number : (x : F32) → is_nan x ≡ false → is_nan (inverse x) ≡ false
unfolding inverse
inverse_number x h = elim (Bool-cases (is_infinite x)) [
  | inl e ↦ rw (h, e) (signed_number (is_negative x) 0 (omega arith))
  | inr e ↦ elim (Bool-cases (units x == 0)) [
    | inl z ↦ rw (h, e, z) (signed_number (is_negative x) infinity (omega arith))
    | inr z ↦ rw (h, e, z) (rounded_number (is_negative x) (2 ^ 298) (units x))
  ]
]

-- The relevance of a distance that is a number is a number.
pub relevance_number : (d : F32) → is_nan d ≡ false → is_nan (relevance d) ≡ false
unfolding relevance
relevance_number d h = inverse_number (add_one d) (add_one_number d h)
