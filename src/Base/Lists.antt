-- ===== src/Base/Lists.antt =====
-- Lists measured and indexed by native numbers, under the library's names.
use Prim.Native.Nat.{ℕ, zero, suc, ◌+◌, ◌-◌, ◌≤◌, ◌<◌, min, max}
use mathlib.Core.Path.{◌≡◌, refl, ap}
use mathlib.Core.List.{List, [], ◌∷◌, ◌++◌, append_assoc}
use mathlib.Core.Logic.{◌≢◌}
use mathlib.Core.Option.{Option, none, some}
use native.Mathlib.Omega.{arith}

-- The bytes of a text, as numbers.
abbrev pub Bytes : Type 0
Bytes = List ℕ

module _ {ℓ} {A : Type ℓ} where
  abbrev pub length : List A → ℕ
  length [] = 0
  length (x ∷ xs) = suc (length xs)

  abbrev pub get_elem? : List A → ℕ → Option A
  get_elem? [] i = none
  get_elem? (x ∷ xs) zero = some x
  get_elem? (x ∷ xs) (suc i) = get_elem? xs i

  -- A write out of bounds changes nothing.
  abbrev pub set : List A → ℕ → A → List A
  set [] i v = []
  set (x ∷ xs) zero v = v ∷ xs
  set (x ∷ xs) (suc i) v = x ∷ set xs i v

  abbrev pub take : ℕ → List A → List A
  take zero xs = []
  take (suc n) [] = []
  take (suc n) (x ∷ xs) = x ∷ take n xs

  abbrev pub drop : ℕ → List A → List A
  drop zero xs = xs
  drop (suc n) [] = []
  drop (suc n) (x ∷ xs) = drop n xs

  -- The list with `v` put in front of its `i`-th element, or at the end.
  abbrev pub insert_at : List A → ℕ → A → List A
  insert_at xs zero v = v ∷ xs
  insert_at [] (suc i) v = v ∷ []
  insert_at (x ∷ xs) (suc i) v = x ∷ insert_at xs i v

  -- An element changed in place; out of bounds nothing happens.
  abbrev pub update_at : List A → ℕ → (A → A) → List A
  update_at [] i f = []
  update_at (x ∷ xs) zero f = f x ∷ xs
  update_at (x ∷ xs) (suc i) f = x ∷ update_at xs i f

  abbrev pub drop_last : List A → List A
  drop_last [] = []
  drop_last (x ∷ []) = []
  drop_last (x ∷ y ∷ xs) = x ∷ drop_last (y ∷ xs)

module _ {ℓ} {A : Type ℓ} where
  pub length-append : (xs ys : List A) → length (xs ++ ys) ≡ length xs + length ys
  length-append [] ys = omega arith
  length-append (x ∷ xs) ys = omega (arith, length-append xs ys)

  pub length-set : (xs : List A) (i : ℕ) (v : A) → length (set xs i v) ≡ length xs
  length-set [] i v = refl
  length-set (x ∷ xs) zero v = refl
  length-set (x ∷ xs) (suc i) v = ap suc (length-set xs i v)

  pub length-take : (n : ℕ) (xs : List A) → length (take n xs) ≡ min n (length xs)
  length-take zero xs = omega arith
  length-take (suc n) [] = omega arith
  length-take (suc n) (x ∷ xs) = omega (arith, length-take n xs)

  pub length-insert_at : (xs : List A) (i : ℕ) (v : A) → length (insert_at xs i v) ≡ suc (length xs)
  length-insert_at xs zero v = refl
  length-insert_at [] (suc i) v = refl
  length-insert_at (x ∷ xs) (suc i) v = ap suc (length-insert_at xs i v)

  pub length-drop_last : (xs : List A) → length (drop_last xs) ≡ length xs - 1
  length-drop_last [] = omega arith
  length-drop_last (x ∷ []) = omega arith
  length-drop_last (x ∷ y ∷ xs) = omega (arith, length-drop_last (y ∷ xs))

  pub insert_at_end : (xs : List A) (v : A) → insert_at xs (length xs) v ≡ xs ++ v ∷ []
  insert_at_end [] v = refl
  insert_at_end (x ∷ xs) v = ap (◌∷◌ x) (insert_at_end xs v)

  pub take_all : (xs : List A) (n : ℕ) → length xs ≤ n → take n xs ≡ xs
  take_all [] zero h = refl
  take_all [] (suc n) h = refl
  take_all (x ∷ xs) zero h = absurd (omega arith)
  take_all (x ∷ xs) (suc n) h = ap (◌∷◌ x) (take_all xs n (omega arith))

  pub length-update_at : (xs : List A) (i : ℕ) (f : A → A) → length (update_at xs i f) ≡ length xs
  length-update_at [] i f = refl
  length-update_at (x ∷ xs) zero f = refl
  length-update_at (x ∷ xs) (suc i) f = ap suc (length-update_at xs i f)

  pub take-append_exact : (xs ys : List A) (n : ℕ) → length xs ≡ n → take n (xs ++ ys) ≡ xs
  take-append_exact [] ys n h = rw (← h)
  take-append_exact (x ∷ xs) ys n h =
      rw (← h) (ap (◌∷◌ x) (take-append_exact xs ys (length xs) refl))

  pub drop-append_exact : (xs ys : List A) (n : ℕ) → length xs ≡ n → drop n (xs ++ ys) ≡ ys
  drop-append_exact [] ys n h = rw (← h)
  drop-append_exact (x ∷ xs) ys n h = rw (← h) (drop-append_exact xs ys (length xs) refl)

  pub length-drop : (n : ℕ) (xs : List A) → length (drop n xs) ≡ length xs - n
  length-drop zero xs = omega arith
  length-drop (suc n) [] = omega arith
  length-drop (suc n) (x ∷ xs) = omega (arith, length-drop n xs)

  pub take-append-drop : (n : ℕ) (xs : List A) → take n xs ++ drop n xs ≡ xs
  take-append-drop zero xs = refl
  take-append-drop (suc n) [] = refl
  take-append-drop (suc n) (x ∷ xs) = rw (take-append-drop n xs)

  -- `ys` written over `xs` from index `i` on.
  abbrev pub splice : List A → ℕ → List A → List A
  splice xs i ys = take i xs ++ (ys ++ drop (i + length ys) xs)

module _ {ℓ} {A : Type ℓ} (xs : List A) (i : ℕ) (ys : List A) where
  pub length-splice : i ≤ length xs → length (splice xs i ys) ≡ max (i + length ys) (length xs)
  length-splice h = omega (
    arith,
    length-append (take i xs) (ys ++ drop (i + length ys) xs),
    length-append ys (drop (i + length ys) xs),
    length-take i xs,
    length-drop (i + length ys) xs,
  )

  pub take-splice_end : i ≤ length xs → take (i + length ys) (splice xs i ys) ≡ take i xs ++ ys
  take-splice_end h = rw (← append_assoc (take i xs) ys (drop (i + length ys) xs)) (
      take-append_exact (take i xs ++ ys) (drop (i + length ys) xs) (i + length ys)
        (omega (arith, length-append (take i xs) ys, length-take i xs)))

  pub take-splice : i ≤ length xs → take i (splice xs i ys) ≡ take i xs
  take-splice h = take-append_exact (take i xs) _ i (omega (arith, length-take i xs))

module _ {ℓ} {A : Type ℓ} where
  pub get_elem?-insert_at :
      (xs : List A) (i : ℕ) (v : A) → i ≤ length xs → get_elem? (insert_at xs i v) i ≡ some v
  get_elem?-insert_at xs zero v h = refl
  get_elem?-insert_at [] (suc i) v h = absurd (omega arith)
  get_elem?-insert_at (x ∷ xs) (suc i) v h = get_elem?-insert_at xs i v (omega arith)

  pub get_elem?-insert_at_next :
      (xs : List A) (i : ℕ) (v : A)
      → i ≤ length xs
      → get_elem? (insert_at xs i v) (suc i) ≡ get_elem? xs i
  get_elem?-insert_at_next xs zero v h = refl
  get_elem?-insert_at_next [] (suc i) v h = absurd (omega arith)
  get_elem?-insert_at_next (x ∷ xs) (suc i) v h = get_elem?-insert_at_next xs i v (omega arith)

  pub get_elem?-update_at_ne :
      (xs : List A) (i j : ℕ) (f : A → A) → j ≢ i → get_elem? (update_at xs i f) j ≡ get_elem? xs j
  get_elem?-update_at_ne [] i j f h = refl
  get_elem?-update_at_ne (x ∷ xs) zero zero f h = absurd (h refl)
  get_elem?-update_at_ne (x ∷ xs) zero (suc j) f h = refl
  get_elem?-update_at_ne (x ∷ xs) (suc i) zero f h = refl
  get_elem?-update_at_ne (x ∷ xs) (suc i) (suc j) f h =
      get_elem?-update_at_ne xs i j f (λ e. h (ap suc e))

  pub get_elem?-update_at :
      (xs : List A) (i : ℕ) (f : A → A) {a : A}
      → get_elem? xs i ≡ some a
      → get_elem? (update_at xs i f) i ≡ some (f a)
  get_elem?-update_at [] i f h = cc
  get_elem?-update_at (x ∷ xs) zero f h = ap (λ o. elim o [ none ↦ none | some y ↦ some (f y) ]) h
  get_elem?-update_at (x ∷ xs) (suc i) f h = get_elem?-update_at xs i f h

  pub get_elem?-drop_last :
      (xs : List A) (j : ℕ) → suc j < length xs → get_elem? (drop_last xs) j ≡ get_elem? xs j
  get_elem?-drop_last [] j h = absurd (omega arith)
  get_elem?-drop_last (x ∷ []) j h = absurd (omega arith)
  get_elem?-drop_last (x ∷ y ∷ xs) zero h = refl
  get_elem?-drop_last (x ∷ y ∷ xs) (suc j) h = get_elem?-drop_last (y ∷ xs) j (omega arith)

  pub get_elem?-out : (xs : List A) (j : ℕ) → length xs ≤ j → get_elem? xs j ≡ none
  get_elem?-out [] j h = refl
  get_elem?-out (x ∷ xs) zero h = absurd (omega arith)
  get_elem?-out (x ∷ xs) (suc j) h = get_elem?-out xs j (omega arith)

  pub insert_at-append :
      (xs : List A) (x v : A) → insert_at (xs ++ x ∷ []) (length xs) v ≡ xs ++ (v ∷ x ∷ [])
  insert_at-append [] x v = refl
  insert_at-append (y ∷ xs) x v = ap (◌∷◌ y) (insert_at-append xs x v)

  pub lt-of_get_elem? : (xs : List A) (i : ℕ) {a : A} → get_elem? xs i ≡ some a → i < length xs
  lt-of_get_elem? [] i h = cc
  lt-of_get_elem? (x ∷ xs) zero h = omega arith
  lt-of_get_elem? (x ∷ xs) (suc i) h = omega (arith, lt-of_get_elem? xs i h)
