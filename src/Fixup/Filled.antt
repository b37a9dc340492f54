-- ===== src/Fixup/Filled.antt =====
-- What `fixc_fixup_some` of src/fixml-wr.c makes of the fields that `fixc_fixup` leaves without a context.
use libfixc.Base.{
  ℕ, suc, ◌+◌, ◌%◌, ◌^◌, ◌≡◌, ◌≢◌, ◌<◌, refl, ap, arith, Bool, true, false, List, [], ◌∷◌, length,
  map, ◌==◌, Bool-cases, inl, inr, if◌then◌else◌,
}
use libfixc.Message.{Fld}
use libfixc.Fixup.{fixup_some}

-- A field without its context and number.
abbrev pub bare : Fld → Fld
bare f = record f { tpc = 0; cnt = 0 }

-- Fields before and after. `last` is the context of the field that the last streak starts with, 0 where there
-- is none, and `n` counts from that field on, or from 1 at the first field of all.
pub data Filled : ℕ → ℕ → List Fld → List Fld → Type 0 where
  no_more : {last n : ℕ} → Filled last n [] []
  -- A field without a context joins the streak.
  joins_in :
      {last n : ℕ} {f : Fld} {fs gs : List Fld}
      → f.tpc ≡ 0
      → f.cnt ≡ 0
      → Filled last (suc n) fs gs
      → Filled last n (f ∷ fs) (record f { tpc = last % 2 ^ 16; cnt = n % 2 ^ 16 } ∷ gs)
  -- The number 0 in the context of the streak: the streak goes on, with its next number.
  counts_on :
      {last n : ℕ} {f : Fld} {fs gs : List Fld}
      → f.tpc ≢ 0
      → f.tpc ≡ last
      → f.cnt ≡ 0
      → Filled last (suc n) fs gs
      → Filled last n (f ∷ fs) (record f { cnt = n % 2 ^ 16 } ∷ gs)
  -- The number 0 in another context: a streak starts.
  starts_one :
      {last n : ℕ} {f : Fld} {fs gs : List Fld}
      → f.tpc ≢ 0
      → f.tpc ≢ last
      → f.cnt ≡ 0
      → Filled f.tpc 1 fs gs
      → Filled last n (f ∷ fs) (f ∷ gs)
  -- A field with a number stays as it is.
  passes :
      {last n : ℕ} {f : Fld} {fs gs : List Fld}
      → f.cnt ≢ 0
      → Filled last (suc n) fs gs
      → Filled last n (f ∷ fs) (f ∷ gs)

-- Only where a field has found no context, the fields are gone over.
pub data Settled : Bool → List Fld → List Fld → Type 0 where
  as_they_are : {fs : List Fld} → Settled false fs fs
  gone_over : {fs gs : List Fld} → Filled 0 1 fs gs → Settled true fs gs

pub fixup_some-Filled :
    (last n : ℕ) (fs : List Fld) → n + length fs < 2 ^ 32 → Filled last n fs (fixup_some last n fs)
unfolding fixup_some
fixup_some-Filled last n [] few = no_more
fixup_some-Filled last n (f ∷ fs) few =
    let next : (n + 1) % 2 ^ 32 ≡ suc n = omega arith in
    let on = fixup_some-Filled last (suc n) fs (omega arith) in
    let reset = fixup_some-Filled f.tpc 1 fs (omega arith) in
    elim (Bool-cases (f.cnt == 0)) [
      | inr c ↦
          rw (next, c)
            (elim (Bool-cases (f.tpc == 0)) [
              | inl t ↦ rw t (passes (ground arith) on)
              | inr t ↦ rw t (passes (ground arith) on)
            ])
      | inl c ↦ elim (Bool-cases (f.tpc == 0)) [
        | inl t ↦ rw (next, c, t) (joins_in (ground arith) (ground arith) on)
        | inr t ↦ elim (Bool-cases (f.tpc == last)) [
          | inl l ↦ rw (next, c, t, l) (counts_on (ground arith) (ground arith) (ground arith) on)
          | inr l ↦
              rw (next, c, t, l) (starts_one (ground arith) (ground arith) (ground arith) reset)
        ]
      ]
    ]

pub Settled-some :
    (out : Bool) (fs : List Fld)
    → length fs < 2 ^ 30
    → (gs : List Fld) × ((if out then fixup_some 0 1 fs else fs) ≡ gs) × Settled out fs gs
Settled-some true fs few =
    (fixup_some 0 1 fs, refl, gone_over (fixup_some-Filled 0 1 fs (omega arith)))
Settled-some false fs few = (fs, refl, as_they_are)

Filled-bare : {last n : ℕ} {fs gs : List Fld} → Filled last n fs gs → map bare gs ≡ map bare fs
Filled-bare no_more = refl
Filled-bare (joins_in {f = f} t c r) = ap (◌∷◌ (bare f)) (Filled-bare r)
Filled-bare (counts_on {f = f} t l c r) = ap (◌∷◌ (bare f)) (Filled-bare r)
Filled-bare (starts_one {f = f} t l c r) = ap (◌∷◌ (bare f)) (Filled-bare r)
Filled-bare (passes {f = f} c r) = ap (◌∷◌ (bare f)) (Filled-bare r)

-- Nothing but contexts and numbers changes.
pub Settled-bare : {out : Bool} {fs gs : List Fld} → Settled out fs gs → map bare gs ≡ map bare fs
Settled-bare as_they_are = refl
Settled-bare (gone_over r) = Filled-bare r
