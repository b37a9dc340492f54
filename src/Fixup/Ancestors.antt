-- ===== src/Fixup/Ancestors.antt =====
-- What `fu_ancest_p` of src/fixml-wr.c finds: a context of the field's table among those below a context, three
-- levels deep, and none where there is none.
use libfixc.Base.{
  ℕ, suc, ◌≡◌, ◌≢◌, refl, ap, ◌∙◌, sym, true, false, none, some, List, [], ◌∷◌, ◌⊎◌, ==_iff, ◌==◌,
  Bool-cases, Option-cases, inl, inr,
}
use libfixc.Engine.{Engine, Sub}
use libfixc.Fixup.{listed, first_listed, below_one, below_all, fu_ancest}

pub data Among (x : ℕ) : List ℕ → Type 0 where
  nearest : {xs : List ℕ} → Among x (x ∷ xs)
  farther : {y : ℕ} {xs : List ℕ} → Among x xs → Among x (y ∷ xs)

-- `x` is below `c` in the dictionary, by `k` levels at most.
pub data Within (e : Engine) : ℕ → ℕ → ℕ → Type 0 where
  directly :
      {k c x : ℕ} {sub : Sub} → e.comp_sub c ≡ some sub → Among x sub.subs → Within e (suc k) c x
  deeper :
      {k c y x : ℕ} {sub : Sub}
      → e.comp_sub c ≡ some sub
      → Among y sub.subs
      → Within e k y x
      → Within e (suc k) c x

pub listed-Among : {c : ℕ} (xs : List ℕ) → listed c xs ≡ true → Among c xs
unfolding listed
listed-Among [] h = cc
listed-Among {c} (x ∷ xs) h = elim (Bool-cases (x == c)) [
  | inl b ↦ let same : x ≡ c = (==_iff x c).0 b in rw same nearest
  | inr b ↦ farther (listed-Among xs (rw b at h))
]

pub Among-listed : {c : ℕ} {xs : List ℕ} → Among c xs → listed c xs ≡ true
unfolding listed
Among-listed {c} nearest = let same : (c == c) ≡ true = (==_iff c c).1 refl in rw same refl
Among-listed {c} (farther {y = y} a) = elim (Bool-cases (y == c)) [
  | inl b ↦ rw b refl
  | inr b ↦ rw b (Among-listed a)
]

pub listed-none : {c : ℕ} {xs : List ℕ} → listed c xs ≡ false → ¬ Among c xs
listed-none h a = let both : true ≡ false = sym (Among-listed a) ∙ h in cc

first_listed-Among :
    (fc xs : List ℕ) {z : ℕ} → first_listed fc xs ≡ some z → Among z fc × Among z xs
unfolding first_listed
first_listed-Among fc [] is = cc
first_listed-Among fc (x ∷ xs) {z} is = elim (Bool-cases (listed x fc)) [
  | inl h ↦
      let is' : some x ≡ some z = rw h at is in
      let same : x ≡ z = cc in rw (← same) (listed-Among fc h, nearest)
  | inr h ↦ let (a, b) = first_listed-Among fc xs (rw h at is) in (a, farther b)
]

first_listed-none :
    (fc : List ℕ) {x : ℕ} {xs : List ℕ} → first_listed fc xs ≡ none → Among x xs → ¬ Among x fc
unfolding first_listed
first_listed-none fc {x} (is) (nearest {xs = xs}) = elim (Bool-cases (listed x fc)) [
  | inl h ↦ let is' : some x ≡ none = rw h at is in cc
  | inr h ↦ listed-none h
]
first_listed-none fc is (farther {y = y} a) = elim (Bool-cases (listed y fc)) [
  | inl h ↦ let is' : some y ≡ none = rw h at is in cc
  | inr h ↦ first_listed-none fc (rw h at is) a
]

module _ (e : Engine) where
  Within-zero {ℓ} : {A : Type ℓ} {c x : ℕ} → Within e 0 c x → A
  Within-zero w = elim w [ ]

  one_deep :
      (fc : List ℕ) {y : ℕ} {sub : Sub}
      → e.comp_sub y ≡ some sub
      → first_listed fc sub.subs ≡ none
      → (z : ℕ) → Within e 1 y z
      → ¬ Among z fc
  one_deep fc {sub = sub} n k z (directly {sub = sub'} n' a) =
      let same : sub' ≡ sub = cc in
      let a' : Among z sub.subs = rw same at a in first_listed-none fc k a'
  one_deep fc n k z (deeper n' a w) = Within-zero w

  below_one-Within :
      (fc ys : List ℕ) {z : ℕ}
      → below_one e fc ys ≡ some (some z)
      → Among z fc × (Among z ys ⊎ ((y : ℕ) × Among y ys × Within e 1 y z))
  unfolding below_one
  below_one-Within fc [] is = cc
  below_one-Within fc (y ∷ ys) {z} is = elim (Bool-cases (listed y fc)) [
    | inl h ↦
        let is' : some (some y) ≡ some (some z) = rw h at is in
        let same : y ≡ z = cc in rw (← same) (listed-Among fc h, inl nearest)
    | inr h ↦ elim (Option-cases (e.comp_sub y)) [
      | inl n ↦ let is' : none ≡ some (some z) = rw (below_one, h, n) at is in cc
      | inr (sub, n) ↦ elim (Option-cases (first_listed fc sub.subs)) [
        | inr (x, k) ↦
            let is' : some (some x) ≡ some (some z) = rw (below_one, h, n, k) at is in
            let same : x ≡ z = cc in
            let (a, b) = first_listed-Among fc sub.subs k in
            rw (← same) (a, inr (y, nearest, directly n b))
        | inl k ↦
            let (a, rest) = below_one-Within fc ys (rw (below_one, h, n, k) at is) in
            (a, elim rest [ inl b ↦ inl (farther b) | inr (y', b, w) ↦ inr (y', farther b, w) ])
      ]
    ]
  ]

  below_one-none :
      (fc : List ℕ) {y : ℕ} {ys : List ℕ}
      → below_one e fc ys ≡ some none
      → Among y ys
      → (¬ Among y fc) × ((z : ℕ) → Within e 1 y z → ¬ Among z fc)
  unfolding below_one
  below_one-none fc {y} is (nearest {xs = ys}) = elim (Bool-cases (listed y fc)) [
    | inl h ↦ let is' : some (some y) ≡ some none = rw h at is in cc
    | inr h ↦ elim (Option-cases (e.comp_sub y)) [
      | inl n ↦ let is' : none ≡ some none = rw (below_one, h, n) at is in cc
      | inr (sub, n) ↦ elim (Option-cases (first_listed fc sub.subs)) [
        | inr (x, k) ↦ let is' : some (some x) ≡ some none = rw (below_one, h, n, k) at is in cc
        | inl k ↦ (listed-none h, one_deep fc n k)
      ]
    ]
  ]
  below_one-none fc is (farther {y = x} {xs = ys} a) = elim (Bool-cases (listed x fc)) [
    | inl h ↦ let is' : some (some x) ≡ some none = rw h at is in cc
    | inr h ↦ elim (Option-cases (e.comp_sub x)) [
      | inl n ↦ let is' : none ≡ some none = rw (below_one, h, n) at is in cc
      | inr (sub, n) ↦ elim (Option-cases (first_listed fc sub.subs)) [
        | inr (z, k) ↦ let is' : some (some z) ≡ some none = rw (below_one, h, n, k) at is in cc
        | inl k ↦ below_one-none fc (rw (below_one, h, n, k) at is) a
      ]
    ]
  ]

  below_all-Within :
      (fc xs : List ℕ) {z : ℕ}
      → below_all e fc xs ≡ some (some z)
      → Among z fc × ((x : ℕ) × Among x xs × Within e 2 x z)
  unfolding below_all
  below_all-Within fc [] is = cc
  below_all-Within fc (x ∷ xs) {z} is = elim (Option-cases (e.comp_sub x)) [
    | inl n ↦ let is' : none ≡ some (some z) = rw (below_all, n) at is in cc
    | inr (sub, n) ↦ elim (Option-cases (below_one e fc sub.subs)) [
      | inl k ↦ let is' : none ≡ some (some z) = rw (below_all, n, k) at is in cc
      | inr (o, k) ↦ elim (Option-cases o) [
        | inl j ↦
            let (a, (x', b, w)) = below_all-Within fc xs (rw (below_all, n, k, j) at is) in
            (a, (x', farther b, w))
        | inr (y, j) ↦
            let is' : some (some y) ≡ some (some z) = rw (below_all, n, k, j) at is in
            let same : y ≡ z = cc in
            let (a, rest) = below_one-Within fc sub.subs (k ∙ ap some j) in
            rw (← same)
              (a, (x, nearest, elim rest [ inl b ↦ directly n b | inr (y', b, w) ↦ deeper n b w ]))
      ]
    ]
  ]

  two_deep :
      (fc : List ℕ) {x : ℕ} {sub : Sub}
      → e.comp_sub x ≡ some sub
      → below_one e fc sub.subs ≡ some none
      → (z : ℕ) → Within e 2 x z
      → ¬ Among z fc
  two_deep fc {sub = sub} n k z (directly {sub = sub'} n' a) =
      let same : sub' ≡ sub = cc in
      let a' : Among z sub.subs = rw same at a in (below_one-none fc k a').0
  two_deep fc {sub = sub} n k z (deeper {y = y} {sub = sub'} n' a w) =
      let same : sub' ≡ sub = cc in
      let a' : Among y sub.subs = rw same at a in (below_one-none fc k a').1 z w

  below_all-none :
      (fc : List ℕ) {x : ℕ} {xs : List ℕ}
      → below_all e fc xs ≡ some none
      → Among x xs
      → (z : ℕ) → Within e 2 x z
      → ¬ Among z fc
  unfolding below_all
  below_all-none fc {x} is (nearest {xs = xs}) = elim (Option-cases (e.comp_sub x)) [
    | inl n ↦ let is' : none ≡ some none = rw (below_all, n) at is in cc
    | inr (sub, n) ↦ elim (Option-cases (below_one e fc sub.subs)) [
      | inl k ↦ let is' : none ≡ some none = rw (below_all, n, k) at is in cc
      | inr (o, k) ↦ elim (Option-cases o) [
        | inl j ↦ two_deep fc n (k ∙ ap some j)
        | inr (y, j) ↦ let is' : some (some y) ≡ some none = rw (below_all, n, k, j) at is in cc
      ]
    ]
  ]
  below_all-none fc is (farther {y = x} {xs = xs} a) = elim (Option-cases (e.comp_sub x)) [
    | inl n ↦ let is' : none ≡ some none = rw (below_all, n) at is in cc
    | inr (sub, n) ↦ elim (Option-cases (below_one e fc sub.subs)) [
      | inl k ↦ let is' : none ≡ some none = rw (below_all, n, k) at is in cc
      | inr (o, k) ↦ elim (Option-cases o) [
        | inl j ↦ below_all-none fc (rw (below_all, n, k, j) at is) a
        | inr (y, j) ↦ let is' : some (some y) ≡ some none = rw (below_all, n, k, j) at is in cc
      ]
    ]
  ]

  pub fu_ancest-Within :
      (fc : List ℕ) (c anc : ℕ)
      → fu_ancest e fc c ≡ some anc
      → anc ≢ 0
      → Among anc fc × Within e 3 c anc
  unfolding fu_ancest
  fu_ancest-Within fc c anc is nz = elim (Option-cases (e.comp_sub c)) [
    | inl n ↦ let is' : none ≡ some anc = rw (fu_ancest, n) at is in cc
    | inr (sub, n) ↦ elim (Option-cases (first_listed fc sub.subs)) [
      | inr (x, k) ↦
          let is' : some x ≡ some anc = rw (fu_ancest, n, k) at is in
          let same : x ≡ anc = cc in
          let (a, b) = first_listed-Among fc sub.subs k in rw (← same) (a, directly n b)
      | inl k ↦ elim (Option-cases (below_all e fc sub.subs)) [
        | inl j ↦ let is' : none ≡ some anc = rw (fu_ancest, n, k, j) at is in cc
        | inr (o, j) ↦ elim (Option-cases o) [
          | inl i ↦
              let is' : some 0 ≡ some anc = rw (fu_ancest, n, k, j, i) at is in
              let same : 0 ≡ anc = cc in absurd (nz (sym same))
          | inr (y, i) ↦
              let is' : some y ≡ some anc = rw (fu_ancest, n, k, j, i) at is in
              let same : y ≡ anc = cc in
              let (a, (x, b, w)) = below_all-Within fc sub.subs (j ∙ ap some i) in
              rw (← same) (a, deeper n b w)
        ]
      ]
    ]
  ]

  -- The number 0 is what the code takes for none.
  pub fu_ancest-none :
      (fc : List ℕ) (c : ℕ)
      → fu_ancest e fc c ≡ some 0
      → Among 0 fc ⊎ ((x : ℕ) → Within e 3 c x → ¬ Among x fc)
  unfolding fu_ancest
  fu_ancest-none fc c is = elim (Option-cases (e.comp_sub c)) [
    | inl n ↦ let is' : none ≡ some 0 = rw (fu_ancest, n) at is in cc
    | inr (sub, n) ↦ elim (Option-cases (first_listed fc sub.subs)) [
      | inr (x, k) ↦
          let is' : some x ≡ some 0 = rw (fu_ancest, n, k) at is in
          let same : x ≡ 0 = cc in
          let (a, b) = first_listed-Among fc sub.subs k in inl (rw same at a)
      | inl k ↦ elim (Option-cases (below_all e fc sub.subs)) [
        | inl j ↦ let is' : none ≡ some 0 = rw (fu_ancest, n, k, j) at is in cc
        | inr (o, j) ↦ elim (Option-cases o) [
          | inl i ↦ inr (three_deep fc n k (j ∙ ap some i))
          | inr (y, i) ↦
              let is' : some y ≡ some 0 = rw (fu_ancest, n, k, j, i) at is in
              let same : y ≡ 0 = cc in
              let (a, (x, b, w)) = below_all-Within fc sub.subs (j ∙ ap some i) in
              inl (rw same at a)
        ]
      ]
    ]
  ]
    where
      three_deep :
          (fc : List ℕ) {c : ℕ} {sub : Sub}
          → e.comp_sub c ≡ some sub
          → first_listed fc sub.subs ≡ none
          → below_all e fc sub.subs ≡ some none
          → (z : ℕ) → Within e 3 c z
          → ¬ Among z fc
      three_deep fc {sub = sub} n k j z (directly {sub = sub'} n' a) =
          let same : sub' ≡ sub = cc in
          let a' : Among z sub.subs = rw same at a in first_listed-none fc k a'
      three_deep fc {sub = sub} n k j z (deeper {y = y} {sub = sub'} n' a w) =
          let same : sub' ≡ sub = cc in
          let a' : Among y sub.subs = rw same at a in below_all-none fc j a' z w
