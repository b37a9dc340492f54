-- ===== src/Power/Laws.antt =====
-- `__next_2power` rounds up to the next power of two.
use mathlib.Core.WellFounded
use native.Mathlib.Nat.{pow-suc}
use libfixc.Base.{
  ℕ, zero, suc, ◌+◌, ◌-◌, ◌*◌, ◌/◌, ◌%◌, ◌^◌, ◌≤◌, ◌<◌, ◌≡◌, refl, arith, lt_wf, max,
}
use libfixc.Power.{size_mod, smear, smear_all, next_2power}
use libfixc.Power.Bits.{smear_all-Halves, smear_all-odd}

-- The first power of two above `v`, by recursion on the digits of `v`.
abbrev above : ℕ → ℕ
above v = suc (smear_all v)

above_zero : above 0 ≡ 1
unfolding smear_all smear
above_zero = refl

above_step : (v : ℕ) → 0 < v → v < 2 ^ 64 → above v ≡ 2 * above (v / 2)
above_step v p b = omega (arith, smear_all-odd v p b, smear_all-Halves v)

-- Strong induction on the digits of a 64-bit number.
by_halves {ℓ} :
    (P : ℕ → Type ℓ)
    → P 0
    → ((v : ℕ) → 0 < v → v < 2 ^ 64 → P (v / 2) → P v)
    → (v : ℕ) → v < 2 ^ 64
    → P v
by_halves P base step v b = WellFounded.induction lt_wf {C = λ n. n < 2 ^ 64 → P n} v go b
  where
    go : (n : ℕ) → ((m : ℕ) → m < n → m < 2 ^ 64 → P m) → n < 2 ^ 64 → P n
    go zero ih b = base
    go (suc n) ih b = step (suc n) (omega arith) b (ih (suc n / 2) (omega arith) (omega arith))

lt-above : (v : ℕ) → v < 2 ^ 64 → v < above v
lt-above = by_halves (λ v. v < above v) (omega arith) λ v p b ih. omega (arith, above_step v p b)

above-eq-pow : (v : ℕ) → v < 2 ^ 64 → (k : ℕ) × (above v ≡ 2 ^ k)
above-eq-pow =
    by_halves (λ v. (k : ℕ) × (above v ≡ 2 ^ k)) (0, above_zero)
      λ v p b ih. (suc ih.0, omega (arith, above_step v p b, pow-suc 2 ih.0, ih.1))

above_least : (v : ℕ) → v < 2 ^ 64 → (j : ℕ) → v < 2 ^ j → above v ≤ 2 ^ j
above_least =
    by_halves (λ v. (j : ℕ) → v < 2 ^ j → above v ≤ 2 ^ j) (λ j h. omega (arith, above_zero))
      λ v p b ih j h. step v p b ih j h
  where
    step :
        (v : ℕ)
        → 0 < v
        → v < 2 ^ 64
        → ((j : ℕ) → v / 2 < 2 ^ j → above (v / 2) ≤ 2 ^ j)
        → (j : ℕ) → v < 2 ^ j
        → above v ≤ 2 ^ j
    step v p b ih zero h = absurd (omega arith)
    step v p b ih (suc j) h =
        omega (arith, above_step v p b, pow-suc 2 j, ih j (omega (arith, pow-suc 2 j)))

-- Below the middle of the range nothing wraps.
next_2power-above : (v : ℕ) → v < 2 ^ 63 → next_2power (suc v) ≡ above v
unfolding next_2power
next_2power-above v b =
    let same : (suc v + size_mod - 1) % size_mod ≡ v = omega arith in
    rw same (omega (arith, above_least v (omega arith) 63 b))

above-le : (v : ℕ) → v < 2 ^ 64 → above v ≤ max 1 (2 * v)
above-le =
    by_halves (λ v. above v ≤ max 1 (2 * v)) (omega (arith, above_zero))
      λ v p b ih. omega (arith, above_step v p b)

-- From 1 to 2^63, `__next_2power` is a power of two, no smaller than its argument and smaller than
-- twice that: the next power of two.
pub next_2power_lem :
    (v : ℕ)
    → 0 < v
    → v ≤ 2 ^ 63
    → ((k : ℕ) × (next_2power v ≡ 2 ^ k)) × (v ≤ next_2power v) × (next_2power v < 2 * v)
next_2power_lem zero p b = absurd (omega arith)
next_2power_lem (suc v) p b = rw (next_2power-above v (omega arith)) (
  above-eq-pow v (omega arith),
  lt-above v (omega arith),
  omega (arith, above-le v (omega arith)),
)

pub next_2power_least : (v : ℕ) → 0 < v → v ≤ 2 ^ 63 → (j : ℕ) → v ≤ 2 ^ j → next_2power v ≤ 2 ^ j
next_2power_least zero p b = absurd (omega arith)
next_2power_least (suc v) p b = rw (next_2power-above v (omega arith)) (above_least v (omega arith))

-- Whatever fits below a rounded size still rounds up to no more.
pub next_2power-next_2power :
    (a b : ℕ) → 0 < a → 0 < b → b ≤ 2 ^ 63 → a ≤ next_2power b → next_2power a ≤ next_2power b
next_2power-next_2power a b p q h le =
    let ((k, e), _, _) = next_2power_lem b q h in
    rw e (next_2power_least a p (omega (arith, next_2power_least b q h 63 h)) k (rw e at le))

pub le-next_2power : (v : ℕ) → 0 < v → v ≤ 2 ^ 63 → (v ≤ next_2power v) × (next_2power v ≤ 2 ^ 63)
le-next_2power v p b = ((next_2power_lem v p b).1, next_2power_least v p b 63 b)

pub next_2power_mono : (a b : ℕ) → 0 < a → a ≤ b → b ≤ 2 ^ 63 → next_2power a ≤ next_2power b
next_2power_mono a b p le h =
    next_2power-next_2power a b p (omega arith) h (omega (arith, le-next_2power b (omega arith) h))
