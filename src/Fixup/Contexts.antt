-- ===== src/Fixup/Contexts.antt =====
-- `fixc_fixup` on whole messages: with a complete dictionary, with none, and on user-defined messages.
use libfixc.Base.{
  ℕ, zero, suc, ◌+◌, ◌%◌, ◌^◌, ◌≡◌, ◌<◌, refl, ap, ◌∙◌, arith, Bool, true, false, none, some, List,
  [], ◌∷◌, length, map, get_elem?,
}
use libfixc.Message.{Fld, Msg, nflds, low32}
use libfixc.Engine.{Engine, husks}
use libfixc.Fixup.{ctx_udef, Stk, push, mark, tick, round, rounds, rounds_udef, fixup}
use libfixc.Fixup.Reasons.{bottom}
use libfixc.Fixup.Stack.{push_lem}
use libfixc.Fixup.Filled.{bare}
use libfixc.Fixup.Streak.{Run, done, goes_on, starts, starts_again, is_lost, IsAt}

pub Run-length :
    {e : Engine} {own : ℕ} {all : List Fld} {ctx n : ℕ} {fs gs : List Fld} {out : Bool}
    → Run e own all ctx n fs gs out
    → length gs ≡ length fs
Run-length done = refl
Run-length (goes_on ef r r') = ap suc (Run-length r')
Run-length (starts new ef un r r') = ap suc (Run-length r')
Run-length (starts_again j g ef th ea ta r r') = ap suc (Run-length r')
Run-length (is_lost ef miss r') = ap suc (Run-length r')

get_elem?-rounds_udef :
    (own n : ℕ) (fs : List Fld) (i : ℕ) {f : Fld}
    → n + length fs < 2 ^ 31
    → get_elem? fs i ≡ some f
    → get_elem? (rounds_udef own n fs) i ≡ some (mark f own (n + i))
unfolding rounds_udef tick
get_elem?-rounds_udef own n [] i few there = cc
get_elem?-rounds_udef own n (g ∷ fs) zero {f} few there =
    let same : g ≡ f = cc in
    let first : n + 0 ≡ n = omega arith in rw first (ap (λ x. some (mark x own n)) same)
get_elem?-rounds_udef own n (g ∷ fs) (suc i) {f} few there =
    let next : (n + 1) % 2 ^ 32 ≡ suc n = omega arith in
    let count : suc n + i ≡ n + suc i = omega arith in
    rw (next, ← count) (get_elem?-rounds_udef own (suc n) fs i (omega arith) there)

rounds_udef-bare : (own n : ℕ) (fs : List Fld) → map bare (rounds_udef own n fs) ≡ map bare fs
unfolding rounds_udef mark
rounds_udef-bare own n [] = refl
rounds_udef-bare own n (f ∷ fs) = ap (◌∷◌ (bare f)) (rounds_udef-bare own (tick n) fs)

-- The first frame.
pub start_lem :
    (own size : ℕ)
    → (s : Stk) × (push own 0 (record { frames = []; size = size; streak = 0 }) ≡ some s)
      × IsAt own 0 s (record { ctx = own; idx = 0 })
      × (s.streak ≡ 0)
start_lem own size =
    let (s, run, p) =
      push_lem own 0 (record { frames = []; size = size; streak = 0 }) (omega arith) in
    (
      s,
      run,
      record {
        below = [];
        here = p.frames;
        over = rw p.frames (bottom refl);
        within = omega (arith, p.again);
        depth = omega (arith, ap length p.frames);
      },
      p.again,
    )

mark_from :
    (i : ℕ) (f : Fld) (own : ℕ)
    → some (mark f own (0 + i)) ≡ some (record f { tpc = own % 2 ^ 16; cnt = i % 2 ^ 16 })
unfolding mark
mark_from i f own = let e : 0 + i ≡ i = omega arith in rw e

-- On a user-defined message all fields get the message's own type for context, and their index for number;
-- no dictionary is asked.
pub fixup_udef :
    (e : Engine) (size : ℕ) (m : Msg) (i : ℕ) {f : Fld}
    → ctx_udef (low32 m.f35) ≡ true
    → nflds m < 2 ^ 30
    → get_elem? m.flds i ≡ some f
    → (m' : Msg) × (size' : ℕ) × (fixup e size m ≡ some (m', size'))
      × (get_elem? m'.flds i ≡ some (record f { tpc = low32 m.f35 % 2 ^ 16; cnt = i % 2 ^ 16 }))
      × (map bare m'.flds ≡ map bare m.flds)
unfolding fixup
fixup_udef e size m i {f} user few there =
    let (s, run, at, again) = start_lem (low32 m.f35) size in
    let first : some (mark f (low32 m.f35) (0 + i))
        ≡ some (record f { tpc = low32 m.f35 % 2 ^ 16; cnt = i % 2 ^ 16 }) =
      mark_from i f (low32 m.f35) in
    (
      record m { flds = rounds_udef (low32 m.f35) 0 m.flds },
      s.size,
      rw (user, run),
      get_elem?-rounds_udef (low32 m.f35) 0 m.flds i (omega arith) there ∙ first,
      rounds_udef-bare (low32 m.f35) 0 m.flds,
    )

-- Before an engine is loaded, `fixc_fixup` reads through a null pointer as soon as there is a field.
pub fixup-husks :
    (size : ℕ) (m : Msg) (f : Fld) (fs : List Fld)
    → ctx_udef (low32 m.f35) ≡ false
    → m.flds ≡ f ∷ fs
    → fixup husks size m ≡ none
unfolding fixup rounds round husks
fixup-husks size m f fs plain some_fld =
    let (s, run, at, again) = start_lem (low32 m.f35) size in rw (plain, some_fld, run)
