-- ===== src/Tests/Extraction.antt =====
-- Contexts extracted from the order of `Contexts`.
use libfixc.Base.{◌≡◌, refl, some, none, ◌>>=◌, [], ◌∷◌}
use libfixc.Message.{fld_zero, make_fixc_msg}
use libfixc.Extract.{extr_ctxt, with_contexts}
use libfixc.Extract.Chosen.{is_chosen, chosen, copies, extr_ctxt-copies}
use libfixc.Extract.Deep.{extr_ctxt_deep}
use libfixc.Extract.Deep.Taken.{among, in_run, taken, extr_ctxt_deep-copies}
use libfixc.Tests.Contexts.{small, placed, parts}

-- The party of the order is its second field.
party : chosen 7 (some 0) [] placed.flds ≡ 1 ∷ []
unfolding is_chosen
party = refl

extr_ctxt-copies_example : extr_ctxt small 0 placed 7 (some 0) ≡ (do
  (src, size') ← with_contexts small 0 placed
  res ← copies src (chosen 7 (some 0) [] src.flds) (make_fixc_msg 7)
  some (res, src, size'))
extr_ctxt-copies_example = extr_ctxt-copies small 0 placed 7 (some 0)

-- Behind the party stands a slot that has never been written, and holds zeros.
both_taken : taken 0x4400 (record { ctx = 0x4400; subs = parts 0x4400 }) [] placed.flds ≡ 0 ∷ 1 ∷ []
unfolding in_run among
both_taken = refl

extr_ctxt_deep-copies_example : extr_ctxt_deep small 0 (some fld_zero) placed 0x4400 none ≡ (do
  (src, size') ← with_contexts small 0 placed
  res ←
      copies src
        (taken 0x4400 (record { ctx = 0x4400; subs = parts 0x4400 }) [] src.flds)
        (make_fixc_msg 0x4400)
  some (res, src, size'))
unfolding among
extr_ctxt_deep-copies_example =
    extr_ctxt_deep-copies small 0 placed 0x4400 (record { ctx = 0x4400; subs = parts 0x4400 })
      fld_zero refl refl
