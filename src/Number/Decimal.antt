-- ===== src/Number/Decimal.antt =====
-- How long the decimal digits of a number are.
use native.Mathlib.Nat.{pow-suc}
use libfixc.Base.{
  ℕ, zero, suc, ◌+◌, ◌*◌, ◌/◌, ◌%◌, ◌^◌, ◌≤◌, ◌<◌, ◌≡◌, arith, [], ◌∷◌, length, length-append, ltb,
  Bool-cases, inl, inr, true,
}
use libfixc.Number.{decimal_fuel, decimal}

length-decimal_fuel : (fuel j n : ℕ) → n < 10 ^ suc j → length (decimal_fuel fuel n) ≤ suc j
unfolding decimal_fuel
length-decimal_fuel zero j n h = omega arith
length-decimal_fuel (suc fuel) zero n h =
    let e : ltb n 10 ≡ true = ground arith in rw e (omega arith)
length-decimal_fuel (suc fuel) (suc j) n h =
    let p : 10 ^ suc (suc j) ≡ 10 ^ suc j * 10 = pow-suc 10 (suc j) in
    let front = length-decimal_fuel fuel j (n / 10) (omega (arith, p, h)) in
    elim (Bool-cases (ltb n 10)) [
      | inl e ↦ rw e (omega arith)
      | inr e ↦
          rw e (
            omega (arith, front, length-append (decimal_fuel fuel (n / 10)) ((n % 10 + b'0') ∷ [])))
    ]

-- Numbers below 100000 have five digits at most.
pub length-decimal : (n : ℕ) → n < 100000 → length (decimal n) ≤ 5
unfolding decimal
length-decimal n h = length-decimal_fuel 20 4 n (omega arith)
