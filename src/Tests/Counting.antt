-- ===== src/Tests/Counting.antt =====
-- Counters of repeating blocks that are found, and that are not.
use libfixc.Base.{
  ℕ, ◌≡◌, ◌<◌, refl, arith, ◌==◌, if◌then◌else◌, none, some, List, [], ◌∷◌, ◌++◌, length,
}
use libfixc.Message.{Fld}
use libfixc.Power.Laws.{next_2power_lem}
use libfixc.Edit.{off_fld}
use libfixc.Edit.Valid.{IsWell}
use libfixc.Engine.{Engine, husks}
use libfixc.Reader.{fixml_husk}
use libfixc.Reader.Namespaces.{no_spaces}
use libfixc.Reader.Cells.{Cell, Pool, current, peek, cell_at}
use libfixc.Reader.Context.{Ctx, count_up, rptb_fld, check_rptblk}
use libfixc.Reader.Document.{typed_husk}
use libfixc.Reader.Counters.{own, check_rptblk-IsBehind}
use libfixc.Reader.Uncounted.{uncounted_child, check_rptblk-IsNew}

-- Parties (300, counted by 453) with sub-elements (310) that no tag counts.
abbrev parties : Engine
parties = record husks { comp_rptb = λ c. if c == 300 then 453 else 0 }

-- The state of a party, in whose context one field was counted, and the state given back last.
abbrev party : Cell
party = record { next = none; otag = 300; cnt = 0; cns = 1; old = none }

abbrev sub : Cell
sub = record { next = none; otag = 310; cnt = 1; cns = 1; old = some 0 }

abbrev states : Pool
states = record { cells = party ∷ sub ∷ []; head = some 1; state = some 0 }

abbrev text : ℕ → ℕ → Fld
text tag otag = record (off_fld tag 0) { tpc = otag }

abbrev counter : Fld
counter = rptb_fld 453 300

abbrev holding : List Fld → Ctx
holding fs = record {
  spaces = no_spaces;
  pool = states;
  msg = record (typed_husk 8 68 5) { flds = fs };
}

-- A second party.
abbrev one_party : List Fld
one_party = text 54 68 ∷ counter ∷ text 448 300 ∷ []

check_rptblk-IsBehind_example :
    check_rptblk parties (holding one_party)
    ≡ some (holding (text 54 68 ∷ count_up counter ∷ text 448 300 ∷ []))
unfolding current cell_at
check_rptblk-IsBehind_example =
    check_rptblk-IsBehind parties 453 (holding one_party) party refl refl (omega arith)
      (omega arith) (text 54 68 ∷ []) counter refl refl (own [] (text 448 300) refl refl)

-- A second party behind one with a sub-element.
abbrev party_sub : List Fld
party_sub = text 54 68 ∷ counter ∷ text 448 300 ∷ text 523 310 ∷ []

holding-IsWell : (fs : List Fld) → length fs < 256 → IsWell (holding fs).msg
unfolding fixml_husk
holding-IsWell fs few = record {
  storage = record {
    written = omega arith;
    values_in = omega arith;
    flds_in = omega (arith, few);
    room = λ _. omega (arith, next_2power_lem 1 (omega arith) (omega arith));
  };
  typed = record { tag_is = λ _. refl; typ_is = λ _ z. absurd (omega (arith, z)) };
}

check_rptblk-IsNew_example :
    (ctx' : Ctx) × (check_rptblk parties (holding party_sub) ≡ some ctx')
    × IsWell ctx'.msg
    × (ctx'.msg.flds ≡ party_sub ++ rptb_fld 453 300 ∷ [])
unfolding current cell_at peek fixml_husk
check_rptblk-IsNew_example =
    check_rptblk-IsNew parties 453 (holding party_sub) party refl refl (omega arith) (omega arith)
      (record { not_special = refl; not_type = refl }) (holding-IsWell party_sub (omega arith))
      (record { few = omega arith; short = omega arith })
      (uncounted_child [] (text 448 300 ∷ []) [] (text 54 68) counter (text 523 310) (omega arith)
        refl (omega arith) refl (omega arith) refl refl)
