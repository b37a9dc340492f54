-- ===== src/Extract.antt =====
-- The extraction of a context from a message: `__cpy_fld` and `fixc_extr_ctxt` of src/fix.c.
-- `none` is a fault, as in `Edit`, or a text that is read outside the values. The occurrence that is asked
-- for is `none` where the code has a negative number: all of them.
pub mod Chosen
pub mod Deep
use libfixc.Base.{
  ℕ, zero, suc, ◌+◌, ◌-◌, ◌%◌, ◌^◌, ◌≡◌, Bool, true, false, Option, none, some, ◌>>=◌, List, [],
  ◌∷◌, ◌++◌, Bytes, length, get_elem?, take, drop, update_at, ltb, leb, ◌==◌, if◌then◌else◌,
}
use libfixc.Message.{Fld, Msg, nflds, make_fixc_msg}
use libfixc.Message.Typ
use libfixc.Edit.{TagData, add_fld, add_tag, get_tag_data}
use libfixc.Engine.{Engine}
use libfixc.Fixup.{needs_fixup, fixup}

-- The bytes that `fixc_get_tag_data` points to.
unfoldable pub data_text : Msg → TagData → Option Bytes
data_text m d = elim (d.s) [
  | none ↦ some []
  | some pos ↦ if leb (pos + d.z) (length m.pr) then some (take d.z (drop pos m.pr)) else none
]

-- The context and the number of a field, in the slot behind the fields that there were.
unfoldable pub copy_slot : ℕ → Fld → Msg → Option Msg
copy_slot jdx f m =
    if ltb jdx m.fspc
    then some
        (record m { flds = update_at m.flds jdx (λ g. record g { tpc = f.tpc; cnt = f.cnt }) })
    else none

-- `__cpy_fld`.
unfoldable pub cpy_fld : Msg → Msg → ℕ → Option Msg
cpy_fld tgt src idx = do
  f ← get_elem? src.flds idx
  if f.typ == Typ.off
      then (do
        d ← get_tag_data src idx
        text ← data_text src d
        r ← add_tag tgt f.tag text
        copy_slot (nflds tgt) f r.1)
      else (do r ← add_fld tgt f; some r.1)

-- What the tests on the occurrence come to.
pub data Turn : Type 0 where
  early here past : Turn

unfoldable pub turn : Option ℕ → ℕ → Turn
turn none cnt = here
turn (some n) cnt = if ltb n cnt then past else if ltb cnt n then early else here

abbrev pub count_on : Fld → ℕ → ℕ → ℕ
count_on f cnt last = if ltb f.cnt last then cnt + 1 else cnt

-- The loop, from the field at `i` on.
unfoldable pub extr_from : Msg → ℕ → Option ℕ → ℕ → ℕ → ℕ → List Fld → Msg → Option Msg
extr_from src c n i cnt last [] res = some res
extr_from src c n i cnt last (f ∷ fs) res =
    if f.tpc == c
    then elim (turn n (count_on f cnt last)) [
      | past ↦ some res
      | early ↦ extr_from src c n (suc i) (count_on f cnt last) f.cnt fs res
      | here ↦ do
        res' ← cpy_fld res src i
        extr_from src c n (suc i) (count_on f cnt last) f.cnt fs res'
    ]
    else extr_from src c n (suc i) cnt last fs res

-- The test at the beginning: a message without contexts gets them.
unfoldable pub with_contexts : Engine → ℕ → Msg → Option (Msg × ℕ)
with_contexts e size m = if needs_fixup m.flds then fixup e size m else some (m, size)

-- `fixc_extr_ctxt`: what it returns, the message as it leaves it, and the size of the stack of `fixc_fixup`.
unfoldable pub extr_ctxt : Engine → ℕ → Msg → ℕ → Option ℕ → Option (Msg × Msg × ℕ)
extr_ctxt e size m ctx n = do
  (src, size') ← with_contexts e size m
  res ← extr_from src (ctx % 2 ^ 16) n 0 0 0 src.flds (make_fixc_msg ctx)
  some (res, src, size')
