-- ===== src/Extract/Deep/Taken.antt =====
-- The fields that `fixc_extr_ctxt_deep` of src/fix.c copies where all occurrences are asked for, described
-- without its loops.
use libfixc.Base.{
  ℕ, suc, ◌%◌, ◌^◌, ◌≡◌, refl, ap, ◌∙◌, sym, Bool, true, false, ◌&&◌, ◌||◌, none, some, ◌>>=◌, List,
  [], ◌∷◌, length, ◌==◌, if◌then◌else◌, Bool-cases, Option-cases, inl, inr,
}
use libfixc.Message.{Fld, Msg, make_fixc_msg}
use libfixc.Engine.{Engine, Sub}
use libfixc.Fixup.{listed}
use libfixc.Extract.{turn, count_on, with_contexts}
use libfixc.Extract.Chosen.{copies, copied}
use libfixc.Extract.Deep.{
  ancestp, is_part, Mode, out, just, kids, goes_below, behind_last, deep_from, extr_ctxt_deep,
}

-- `t` is one of `ts`.
unfoldable pub among : ℕ → List ℕ → Bool
among t [] = false
among t (x ∷ xs) = if x == t then true else among t xs

-- Of fields in front of a place, the nearest first: the nearest is in the context `c`, or it is in a context
-- directly below, and the same is true of the fields in front of it.
unfoldable pub in_run : ℕ → Sub → List Fld → Bool
in_run c sub [] = false
in_run c sub (f ∷ pre) = f.tpc == c || (among f.tpc (sub.ctx ∷ sub.subs) && in_run c sub pre)

-- The indices of the fields that are at the end of such a run.
abbrev pub taken : ℕ → Sub → List Fld → List Fld → List ℕ
taken c sub pre [] = []
taken c sub pre (f ∷ fs) =
    if in_run c sub (f ∷ pre)
    then length pre ∷ taken c sub (f ∷ pre) fs
    else taken c sub (f ∷ pre) fs

listed-among : (t : ℕ) (xs : List ℕ) → listed t xs ≡ among t xs
unfolding listed among
listed-among t [] = refl
listed-among t (x ∷ xs) = elim (Bool-cases (x == t)) [
  | inl b ↦ rw b refl
  | inr b ↦ rw b (listed-among t xs)
]

ancestp-among : (sub : Sub) (t : ℕ) → among t (sub.ctx ∷ sub.subs) ≡ ancestp sub t
unfolding ancestp among
ancestp-among sub t = elim (Bool-cases (sub.ctx == t)) [
  | inl b ↦ rw b refl
  | inr b ↦ rw b (sym (listed-among t sub.subs))
]

module _ (src : Msg) (c : ℕ) (sub : Sub) (b : Fld) (stops : ancestp sub b.tpc ≡ false) where
  deep_from-copies :
      (pre fs : List Fld) (i cnt last : ℕ) (mode : Mode) (res : Msg)
      → i ≡ length pre
      → goes_below mode ≡ in_run c sub pre
      → deep_from src c none (some sub) (some b) i cnt last mode fs res
        ≡ copies src (taken c sub pre fs) res
  unfolding deep_from copies turn in_run behind_last goes_below is_part
  deep_from-copies pre [] i cnt last out res at run = refl
  deep_from-copies pre [] i cnt last just res at run = refl
  deep_from-copies pre [] i cnt last kids res at run = elim (Bool-cases (b.tpc == c)) [
    | inl own ↦ rw own refl
    | inr other ↦ rw (other, stops) refl
  ]
  deep_from-copies pre (f ∷ fs) i cnt last mode res at run = elim (Bool-cases (f.tpc == c)) [
    | inl own ↦ rw own (
        copied src res i (length pre) (taken c sub (f ∷ pre) fs) _ at (λ res'.
          deep_from-copies (f ∷ pre) fs (suc i) (count_on f cnt last) f.cnt just res' (ap suc at)
            (rw (in_run, own) refl)))
    | inr other ↦ elim (Bool-cases (goes_below mode)) [
      | inl below ↦
          let run' : in_run c sub pre ≡ true = rw run at below in
          elim (Bool-cases (ancestp sub f.tpc)) [
            | inl part ↦
                let part' = ancestp-among sub f.tpc ∙ part in
                rw (other, below, part, part', run')
                  (copied src res i (length pre) (taken c sub (f ∷ pre) fs) _ at (λ res'.
                    deep_from-copies (f ∷ pre) fs (suc i) cnt last kids res' (ap suc at)
                      (rw (in_run, other, part', run') refl)))
            | inr no_part ↦
                let no_part' = ancestp-among sub f.tpc ∙ no_part in
                rw (other, below, no_part, no_part')
                  (deep_from-copies (f ∷ pre) fs (suc i) cnt last out res (ap suc at)
                    (rw (in_run, other, no_part') refl))
          ]
      | inr beside ↦
          let run' : in_run c sub pre ≡ false = rw run at beside in
          elim (Bool-cases (ancestp sub f.tpc)) [
            | inl part ↦
                let part' = ancestp-among sub f.tpc ∙ part in
                rw (other, beside, part', run')
                  (deep_from-copies (f ∷ pre) fs (suc i) cnt last out res (ap suc at)
                    (rw (in_run, other, part', run') refl))
            | inr no_part ↦
                let no_part' = ancestp-among sub f.tpc ∙ no_part in
                rw (other, beside, no_part')
                  (deep_from-copies (f ∷ pre) fs (suc i) cnt last out res (ap suc at)
                    (rw (in_run, other, no_part') refl))
          ]
    ]
  ]

-- `fixc_extr_ctxt_deep`, asked for all occurrences of a context that the dictionary knows, copies to an empty
-- message of the context, in their order, the fields of the context, and those of contexts directly below it
-- that come behind such a field with no others between. So it does where the slot behind the last field can be
-- read and is neither in the dictionary's entry for the context nor below it, which is asked for because the code reads that slot where the
-- message ends in such a run. A message without contexts is fixed up first.
pub extr_ctxt_deep-copies :
    (e : Engine) (size : ℕ) (m : Msg) (ctx : ℕ) (sub : Sub) (b : Fld)
    → e.comp_sub ctx ≡ some sub
    → among b.tpc (sub.ctx ∷ sub.subs) ≡ false
    → extr_ctxt_deep e size (some b) m ctx none ≡ (do
      (src, size') ← with_contexts e size m
      res ← copies src (taken (ctx % 2 ^ 16) sub [] src.flds) (make_fixc_msg ctx)
      some (res, src, size'))
unfolding extr_ctxt_deep goes_below in_run
extr_ctxt_deep-copies e size m ctx sub b es stops = elim (Option-cases (with_contexts e size m)) [
  | inl h ↦ rw h refl
  | inr ((src, size'), h) ↦
      let c = ctx % 2 ^ 16 in
      let loop =
        deep_from-copies src c sub b (sym (ancestp-among sub b.tpc) ∙ stops) [] src.flds 0 0 0 out
          (make_fixc_msg ctx) refl refl in
      rw (h, es, loop) refl
]
