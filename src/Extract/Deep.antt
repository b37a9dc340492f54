-- ===== src/Extract/Deep.antt =====
-- `fixc_extr_ctxt_deep` of src/fix.c: a context with the contexts directly below it.
-- The code's inner loops run on the same index as the outer one; here they are the mode of one loop.
pub mod Taken
use libfixc.Base.{
  ℕ, suc, ◌%◌, ◌^◌, Bool, true, false, ◌||◌, Option, none, some, ◌>>=◌, List, [], ◌∷◌, ◌==◌,
  if◌then◌else◌,
}
use libfixc.Message.{Fld, Msg, make_fixc_msg}
use libfixc.Engine.{Engine, Sub}
use libfixc.Fixup.{listed}
use libfixc.Extract.{cpy_fld, early, here, past, turn, count_on, with_contexts}

-- `__ancestp`.
unfoldable pub ancestp : Sub → ℕ → Bool
ancestp ancest desc = ancest.ctx == desc || listed desc ancest.subs

-- A slot in a context directly below `c`: what the loop over such a context goes on for.
unfoldable pub is_part : ℕ → Sub → Fld → Bool
is_part c sub f = if f.tpc == c then false else ancestp sub f.tpc

-- Where the loop is: outside, behind a field of the context (`just_been_in`), or in the loop over a
-- context below it.
pub data Mode : Type 0 where
  out just kids : Mode

-- The yield is reset behind the fields below.
unfoldable pub settle : Mode → Mode
settle out = out
settle just = just
settle kids = out

unfoldable pub goes_below : Mode → Bool
goes_below out = false
goes_below just = true
goes_below kids = true

-- Behind the last field. The loop over a context below reads the slot there, which is no field of the message:
-- `behind` is what stands in it, `none` where it is outside the message's block. Such a slot is not asked for
-- its place in the message: where its context is below `c` the code copies it, and reads on behind it, for
-- which the model has `none`, too.
unfoldable pub behind_last : ℕ → Option Sub → Option Fld → Mode → Msg → Option Msg
behind_last c chld behind out res = some res
behind_last c chld behind just res = some res
behind_last c chld behind kids res = do
  sub ← chld
  b ← behind
  if is_part c sub b then none else some res

-- The loop.
unfoldable pub deep_from :
    Msg → ℕ → Option ℕ → Option Sub → Option Fld → ℕ → ℕ → ℕ → Mode → List Fld → Msg → Option Msg
deep_from src c n chld behind i cnt last mode [] res = behind_last c chld behind mode res
deep_from src c n chld behind i cnt last mode (f ∷ fs) res =
    if f.tpc == c
    then elim (turn n (count_on f cnt last)) [
      | past ↦ some res
      | early ↦
          deep_from src c n chld behind (suc i) (count_on f cnt last) f.cnt (settle mode) fs res
      | here ↦ do
        res' ← cpy_fld res src i
        deep_from src c n chld behind (suc i) (count_on f cnt last) f.cnt just fs res'
    ]
    else if goes_below mode
    then elim chld [
      | none ↦ none
      | some sub ↦
          if ancestp sub f.tpc
          then (do
            res' ← cpy_fld res src i
            deep_from src c n chld behind (suc i) cnt last kids fs res')
          else deep_from src c n chld behind (suc i) cnt last out fs res
    ]
    else deep_from src c n chld behind (suc i) cnt last out fs res

-- `fixc_extr_ctxt_deep`, what stands behind the last field being given. A null pointer for the
-- sub-components is read through by `__ancestp` only.
unfoldable pub extr_ctxt_deep :
    Engine → ℕ → Option Fld → Msg → ℕ → Option ℕ → Option (Msg × Msg × ℕ)
extr_ctxt_deep e size behind m ctx n = do
  (src, size') ← with_contexts e size m
  res ←
      deep_from src (ctx % 2 ^ 16) n (e.comp_sub ctx) behind 0 0 0 out src.flds (make_fixc_msg ctx)
  some (res, src, size')
