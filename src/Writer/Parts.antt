-- ===== src/Writer/Parts.antt =====
-- The parts of a component, and `__childp` of src/fixml-wr.c, which looks among them.
use libfixc.Base.{
  ℕ, suc, ◌%◌, ◌^◌, ◌≡◌, ◌<◌, refl, arith, true, some, List, [], ◌∷◌, ◌==◌, Bool-cases, ==_iff, inl,
  inr,
}
use libfixc.Engine.{Engine, Sub}
use libfixc.Fixup.{listed}
use libfixc.Writer.{childp}
use libfixc.Writer.Nested.{IsCtx, IsTree}

-- Contexts of ranks below `r`.
pub data IsParts (rank : ℕ → ℕ) (r : ℕ) : List ℕ → Type 0 where
  no_part : IsParts rank r []
  part : {x : ℕ} {xs : List ℕ} → rank x < r → IsCtx x → IsParts rank r xs → IsParts rank r (x ∷ xs)

listed-IsParts :
    (rank : ℕ → ℕ) (r : ℕ) (xs : List ℕ)
    → ((x : ℕ) → listed x xs ≡ true → (rank x < r) × IsCtx x)
    → IsParts rank r xs
unfolding listed
listed-IsParts rank r [] all = no_part
listed-IsParts rank r (x ∷ xs) all =
    let refl_test : (x == x) ≡ true = (==_iff x x).1 refl in
    let (low, ctx) = all x (rw refl_test refl) in
    part low ctx (
      listed-IsParts rank r xs
        (λ y h. all y (elim (Bool-cases (x == y)) [ inl t ↦ rw t refl | inr t ↦ rw t h ])))

module _ (e : Engine) (rank : ℕ → ℕ) (tree : IsTree e rank) where
  pub childp_lem :
      (n new : ℕ) (sub : Sub) → new < 2 ^ 16 → childp e (suc n) sub new ≡ some (listed new sub.subs)
  unfolding childp
  childp_lem n new sub short =
      let m : new % 2 ^ 16 ≡ new = omega (arith, short) in
      elim (Bool-cases (listed new sub.subs)) [
        | inl h ↦ rw (m, h) refl
        | inr h ↦ rw (m, h, tree.flat sub.ctx) refl
      ]

  pub IsParts-subs : (c : ℕ) {sub : Sub} → e.comp_sub c ≡ some sub → IsParts rank (rank c) sub.subs
  IsParts-subs c {sub} is = listed-IsParts rank (rank c) sub.subs (λ x h. tree.parts c x is h)
