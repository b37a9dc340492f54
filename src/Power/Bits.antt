-- ===== src/Power/Bits.antt =====
-- What `v |= v >> k` does to the binary digits of `v`: it commutes with dropping the lowest digit,
-- and the digit that it leaves last is set where `v` has one of two digits set.
use Prim.Native.Nat.{digits, bit_or-bitwise}
use native.Mathlib.Nat.{pow-suc, mul_comm, div-div-eq-div-mul, div-one}
use libfixc.Base.{
  ℕ, zero, suc, ◌+◌, ◌*◌, ◌/◌, ◌%◌, ◌≤◌, ◌<◌, ◌^◌, ◌≡◌, refl, sym, ap, ◌∙◌, arith, max, bit_or,
}
use libfixc.Power.{smear, smear_all}

-- The digits of `a | b`, counted by `n`.
abbrev or_digits : ℕ → ℕ → ℕ → ℕ
or_digits a b n = digits (λ y. y) max n a b

-- More digits than `a` has make no difference.
or_digits_enough : (k l a b : ℕ) → a ≤ l → a ≤ k → or_digits a b k ≡ or_digits a b l
or_digits_enough zero zero _ b _ _ = refl
or_digits_enough (suc k) (suc l) zero b _ _ = refl
or_digits_enough (suc k) zero zero b _ _ = refl
or_digits_enough zero (suc l) zero b _ _ = refl
or_digits_enough (suc k) zero (suc a) b low _ = absurd (omega arith)
or_digits_enough zero (suc l) (suc a) b _ low = absurd (omega arith)
or_digits_enough (suc k) (suc l) (suc a) b low high =
    let half = or_digits_enough k l (suc a / 2) (b / 2) (omega arith) (omega arith) in
    omega (arith, half)

pub bit_or_step : (x y : ℕ) → bit_or x y ≡ max (x % 2) (y % 2) + 2 * bit_or (x / 2) (y / 2)
bit_or_step x y = simp bit_or-bitwise (by_digit x)
  where
    by_digit :
        (x : ℕ) → or_digits x y x ≡ max (x % 2) (y % 2) + 2 * or_digits (x / 2) (y / 2) (x / 2)
    by_digit zero = omega arith
    by_digit (suc x) =
        let fewer =
          or_digits_enough x (suc x / 2) (suc x / 2) (y / 2) (omega arith) (omega arith) in
        omega (arith, fewer)

-- A round that commutes with dropping the lowest digit.
abbrev pub Halves : (ℕ → ℕ) → Type 0
Halves f = (v : ℕ) → f v / 2 ≡ f (v / 2)

-- A zero last digit of `f v` shows that the `k` last digits of `v` are zero.
abbrev pub Sees : ℕ → (ℕ → ℕ) → Type 0
Sees k f = (v : ℕ) → f v % 2 ≡ 0 → v % 2 ^ k ≡ 0

div_swap : (k v : ℕ) → v / 2 ^ k / 2 ≡ v / 2 / 2 ^ k
div_swap k v =
    div-div-eq-div-mul v (2 ^ k) 2
    ∙ ap (λ d. v / d) (mul_comm (2 ^ k) 2)
    ∙ sym (div-div-eq-div-mul v 2 (2 ^ k))

Halves-iter : (f : ℕ → ℕ) (k v : ℕ) → Halves f → f v / 2 ^ k ≡ f (v / 2 ^ k)
Halves-iter f zero v h = div-one (f v) ∙ ap f (sym (div-one v))
Halves-iter f (suc k) v h =
    drop_digit (f v) ∙ rw (h v) (Halves-iter f k (v / 2) h) ∙ ap f (sym (drop_digit v))
  where
    drop_digit : (x : ℕ) → x / 2 ^ suc k ≡ x / 2 / 2 ^ k
    drop_digit x = rw (pow-suc, ← div-div-eq-div-mul) (div_swap k x)

module _ (k : ℕ) (f : ℕ → ℕ) (h : Halves f) where
  smear_step :
      (v : ℕ)
      → smear k (f v) ≡ bit_or (f v / 2) (f v / 2 ^ k / 2) * 2 + max (f v % 2) (f v / 2 ^ k % 2)
  unfolding smear
  smear_step v = omega (arith, bit_or_step (f v) (f v / 2 ^ k))

  Halves-smear : Halves (λ v. smear k (f v))
  Halves-smear v = cut ∙ tail
    where
      cut : smear k (f v) / 2 ≡ bit_or (f v / 2) (f v / 2 ^ k / 2)
      cut = omega (arith, smear_step v)

      tail : bit_or (f v / 2) (f v / 2 ^ k / 2) ≡ smear k (f (v / 2))
      tail = rw (div_swap k (f v), h v) (unfold smear in refl)

  -- A round by `k` takes the digits seen from `k` to `j`; `join` says so of the digits themselves.
  Sees-smear :
      (j : ℕ)
      → Sees k f
      → ((v : ℕ) → v % 2 ^ k ≡ 0 → v / 2 ^ k % 2 ^ k ≡ 0 → v % 2 ^ j ≡ 0)
      → Sees j (λ v. smear k (f v))
  Sees-smear j s join v z =
      join v (s v (omega (arith, smear_step v)))
        (s (v / 2 ^ k) (rw (← Halves-iter f k v h) (omega (arith, smear_step v))))

-- The rounds so far, by the number of digits that the last digit sees.
rounds : ℕ → ℕ → ℕ
rounds zero v = v
rounds (suc n) v = smear (2 ^ n) (rounds n v)

Halves-rounds : (n : ℕ) → Halves (rounds n)
unfolding rounds
Halves-rounds zero v = refl
Halves-rounds (suc n) v = Halves-smear (2 ^ n) (rounds n) (Halves-rounds n) v

abbrev Join : ℕ → ℕ → Type 0
Join k j = (v : ℕ) → v % 2 ^ k ≡ 0 → v / 2 ^ k % 2 ^ k ≡ 0 → v % 2 ^ j ≡ 0

Sees-rounds :
    (n : ℕ) → Sees (2 ^ n) (rounds n) → Join (2 ^ n) (2 ^ suc n) → Sees (2 ^ suc n) (rounds (suc n))
unfolding rounds
Sees-rounds n s join = Sees-smear (2 ^ n) (rounds n) (Halves-rounds n) (2 ^ suc n) s join

Sees-rounds_6 : Sees 64 (rounds 6)
Sees-rounds_6 =
    Sees-rounds 5
      (Sees-rounds 4
        (Sees-rounds 3
          (Sees-rounds 2
            (Sees-rounds 1 (Sees-rounds 0 (unfold rounds in λ v z. z) (λ v a b. omega arith))
              (λ v a b. omega arith))
            (λ v a b. omega arith))
          (λ v a b. omega arith))
        (λ v a b. omega arith))
      (λ v a b. omega arith)

pub smear_all-Halves : Halves smear_all
unfolding smear_all rounds
smear_all-Halves = Halves-rounds 6

pub smear_all-odd : (v : ℕ) → 0 < v → v < 2 ^ 64 → smear_all v % 2 ≡ 1
unfolding smear_all rounds
smear_all-odd v p b =
    let odd : ¬ (smear_all v % 2 ≡ 0) = λ z. absurd (omega (arith, Sees-rounds_6 v z)) in
    omega arith
