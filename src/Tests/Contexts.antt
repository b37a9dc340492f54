-- ===== src/Tests/Contexts.antt =====
-- The fix-up and the FIXML writer at messages of two fields, with a small dictionary: an order with a
-- list of parties in it.
use libfixc.Base.{
  ℕ, suc, zero, ◌+◌, ◌^◌, ◌≡◌, ◌<◌, ◌≤◌, refl, arith, true, false, none, some, List, [], ◌∷◌, ◌++◌,
  Bytes, ◌||◌, ltb, ◌==◌, if◌then◌else◌, length, map, get_elem?, Bool-cases, inl, inr,
}
use libfixc.Message.{Fld, Msg, husk, fld_zero}
use libfixc.Edit.{strlen}
use libfixc.Version.{codes}
use libfixc.Engine.{Engine, Sub, husks}
use libfixc.Fixup.{fixup, ctx_udef, listed}
use libfixc.Fixup.Stack.{IsComplete}
use libfixc.Fixup.Streak.{Run}
use libfixc.Fixup.Filled.{bare}
use libfixc.Fixup.Contexts.{fixup_udef, fixup-husks}
use libfixc.Writer.States.{name_or}
use libfixc.Writer.{render_body, tag_name}
use libfixc.Writer.Nested.{Nested, IsTree, IsCtx, IsPrintable, shown, attr_name, value_of}
use libfixc.Writer.Ends.{head, foot}
use libfixc.Writer.Document.{render_body-Nested}
use libfixc.Writer.Whole.{IsTabled, IsPlain, render_fixml-Nested, render_body-stray}
use libfixc.Fixup.{needs_fixup, fu_ancest, first_listed}
use libfixc.Fixup.Reached.{IsReached, at_top, below_top, fixup-IsReached}
use libfixc.Writer.{render_fixml}
use libfixc.Writer.States.{unrendered}

-- An order is the context 0x4400, a party the component 7.
abbrev pub parts : ℕ → List ℕ
parts c = if c == 0x4400 then 7 ∷ [] else []

abbrev pub small : Engine
small = record {
  comp_sub = λ c. some (record { ctx = c; subs = parts c });
  comp_rptb = λ c. 453;
  comp_orb = λ c. 0;
  fld_ctx = λ t. some (if t == 448 then 7 ∷ [] else 0x4400 ∷ []);
  msgt_fixmlify = λ m. some (codes "Order");
  comp_fixmlify = λ c. some (codes "Pty");
  attr_fixmlify = λ c a. some (if a == 448 then codes "R" else codes "ID");
  get_aid = λ c attr alen. 0;
  get_cid = λ c elem elen. 0;
  get_mty = λ elem elen. 0;
}

small-IsComplete : IsComplete small
small-IsComplete = record { fld_ctx = λ t. (_, refl); comp_sub = λ c. (_, refl) }

abbrev pub order : Msg
order = record husk {
  pr = codes "7" ++ 0 ∷ codes "ME" ++ 0 ∷ [];
  pz = 5;
  vspc = 64;
  f35 = record fld_zero { tag = 35; typ = 6; val = 0x4400 };
  flds = record fld_zero { tag = 11 } ∷ record fld_zero { tag = 448; val = 2 } ∷ [];
  fspc = 32;
}

-- A message of a type that the user has made.
abbrev own_message : Msg
own_message = record order { f35 = record fld_zero { tag = 35; typ = 6; val = 0x5531 } }

fixup_udef_example :
    (m' : Msg) × (size' : ℕ) × (fixup small 0 own_message ≡ some (m', size'))
    × (get_elem? m'.flds 1 ≡ some (record fld_zero { tag = 448; val = 2; tpc = 0x5531; cnt = 1 }))
    × (map bare m'.flds ≡ map bare own_message.flds)
unfolding ctx_udef
fixup_udef_example = fixup_udef small 0 own_message 1 refl (omega arith) refl

fixup-husks_example : fixup husks 0 order ≡ none
unfolding ctx_udef
fixup-husks_example =
    fixup-husks 0 order (record fld_zero { tag = 11 }) (record fld_zero { tag = 448; val = 2 } ∷ [])
      refl refl

-- An order has the rank 1, all else the rank 0.
abbrev pub rank : ℕ → ℕ
rank c = if c == 0x4400 then 1 else 0

rank-low : (c : ℕ) → rank c < 16
rank-low c = ground arith

-- The order with its contexts.
abbrev pub placed : Msg
placed = record order {
  flds =
      record fld_zero { tag = 11; tpc = 0x4400 }
      ∷ record fld_zero { tag = 448; val = 2; tpc = 7 }
      ∷ [];
}

party-IsCtx : IsCtx 7
party-IsCtx = record { nonzero = omega arith; short = omega arith; single = omega arith }

order-IsCtx : IsCtx 0x4400
order-IsCtx = record { nonzero = omega arith; short = omega arith; single = omega arith }

small-parts :
    (c x : ℕ) {sub : Sub}
    → small.comp_sub c ≡ some sub
    → listed x sub.subs ≡ true
    → (rank x < rank c) × IsCtx x
unfolding listed
small-parts c x {sub} is h = elim (Bool-cases (c == 0x4400)) [
  | inr other ↦
      let is' : some (record { ctx = c; subs = [] }) ≡ some sub = rw other at is in
      let same : record { ctx = c; subs = [] } ≡ sub = cc in
      let none_listed : false ≡ true = rw (← same) at h in cc
  | inl here ↦
      let is' : some (record { ctx = c; subs = 7 ∷ [] }) ≡ some sub = rw here at is in
      let same : record { ctx = c; subs = 7 ∷ [] } ≡ sub = cc in
      let one : ((7 == x) || false) ≡ true = rw (← same) at h in
      let seven : x ≡ 7 = ground arith in rw (here, seven) (omega arith, party-IsCtx)
]

small-named : (c : ℕ) → (name : Bytes) × (tag_name small c ≡ some name)
unfolding tag_name name_or
small-named c = elim (Bool-cases (c == 0xffff)) [
  | inl a ↦ (codes "Batch", rw a refl)
  | inr a ↦ elim (Bool-cases (ctx_udef c)) [
    | inl b ↦ (codes "User", rw (a, b) refl)
    | inr b ↦ elim (Bool-cases (ltb 0x2000 c)) [
      | inl d ↦ (codes "Order", rw (a, b, d) refl)
      | inr d ↦ (codes "Pty", rw (a, b, d) refl)
    ]
  ]
]

small-attr_named : (f : Fld) → (name : Bytes) × (attr_name small f ≡ some name)
unfolding attr_name name_or
small-attr_named f = elim (Bool-cases (f.tag == 448)) [
  | inl a ↦ (codes "R", rw a refl)
  | inr a ↦ (codes "ID", rw a refl)
]

pub small-IsTree : IsTree small rank
small-IsTree = record {
  comp_sub = λ c. (_, refl);
  parts = λ c x {sub}. small-parts c x;
  flat = λ c. refl;
  low = rank-low;
  named = small-named;
  attr_named = small-attr_named;
}

pub placed-IsPrintable :
    (i : ℕ) (f : Fld) → get_elem? placed.flds i ≡ some f → IsPrintable placed.pr f
unfolding value_of strlen
placed-IsPrintable zero f is =
    let same : record fld_zero { tag = 11; tpc = 0x4400 } ≡ f = cc in
    rw (← same) (record {
      ctx = record { nonzero = omega arith; short = omega arith; single = omega arith };
      value = (codes "7", refl);
    })
placed-IsPrintable (suc zero) f is =
    let same : record fld_zero { tag = 448; val = 2; tpc = 7 } ≡ f = cc in
    rw (← same) (record { ctx = party-IsCtx; value = (codes "ME", refl) })
placed-IsPrintable (suc (suc i)) f is = cc

render_body-Nested_example :
    (body : Bytes) × Nested small placed.pr (shown small placed.flds) body
    × ((cap : ℕ)
        → length (head placed ++ body ++ foot placed) + 2 ≤ cap
        → cap < 2 ^ 64
        → render_body small cap placed ≡ some (head placed ++ body ++ foot placed))
render_body-Nested_example =
    render_body-Nested small rank placed small-IsTree placed-IsPrintable (omega arith)

small-IsTabled : IsTabled small
unfolding listed
small-IsTabled = record {
  tables = λ t c {fc} ef h. elim (Bool-cases (t == 448)) [
    | inl party ↦
        let ef' : some (7 ∷ []) ≡ some fc = rw party at ef in
        let same : 7 ∷ [] ≡ fc = cc in
        let one : ((7 == c) || false) ≡ true = rw (← same) at h in
        let seven : c ≡ 7 = ground arith in rw seven party-IsCtx
    | inr other ↦
        let ef' : some (0x4400 ∷ []) ≡ some fc = rw other at ef in
        let same : 0x4400 ∷ [] ≡ fc = cc in
        let one : ((0x4400 == c) || false) ≡ true = rw (← same) at h in
        let top : c ≡ 0x4400 = ground arith in rw top order-IsCtx
  ];
}

order-IsReached : (i : ℕ) (f : Fld) → get_elem? order.flds i ≡ some f → IsReached small 0x4400 f
unfolding listed fu_ancest first_listed
order-IsReached zero f is =
    let same : record fld_zero { tag = 11 } ≡ f = cc in rw (← same) (at_top refl refl)
order-IsReached (suc zero) f is =
    let same : record fld_zero { tag = 448; val = 2 } ≡ f = cc in
    rw (← same) (below_top 7 refl refl (omega arith))
order-IsReached (suc (suc i)) f is = cc

order-IsPlain : (i : ℕ) (f : Fld) → get_elem? order.flds i ≡ some f → IsPlain order.pr f
unfolding value_of strlen
order-IsPlain zero f is =
    let same : record fld_zero { tag = 11 } ≡ f = cc in
    rw (← same) (record { value = (codes "7", refl); ordinary = omega arith })
order-IsPlain (suc zero) f is =
    let same : record fld_zero { tag = 448; val = 2 } ≡ f = cc in
    rw (← same) (record { value = (codes "ME", refl); ordinary = omega arith })
order-IsPlain (suc (suc i)) f is = cc

render_fixml-Nested_example :
    (gs : List Fld) × (size' : ℕ) × (body : Bytes) × Run small 0x4400 order.flds 0x4400 0 order.flds
      gs false
    × Nested small order.pr (shown small gs) body
    × ((cap : ℕ)
        → length (head order ++ body ++ foot order) + 2 ≤ cap
        → cap < 2 ^ 64
        → render_fixml small cap 0 order
          ≡ some (head order ++ body ++ foot order, record order { flds = gs }, size'))
unfolding ctx_udef needs_fixup
render_fixml-Nested_example =
    render_fixml-Nested small rank 0 order small-IsComplete small-IsTree small-IsTabled refl refl
      (omega arith) order-IsReached order-IsPlain

-- A first field that is numbered without a context.
abbrev stray : Msg
stray = record order { flds = record fld_zero { tag = 5001; cnt = 1 } ∷ [] }

render_body-stray_example : render_body small 400 stray ≡ none
unfolding unrendered
render_body-stray_example =
    render_body-stray small 400 stray (record fld_zero { tag = 5001; cnt = 1 }) [] refl refl
      (omega arith) (omega arith) refl

fixup-IsReached_example :
    (gs : List Fld) × (size' : ℕ) × (fixup small 0 order ≡ some (record order { flds = gs }, size'))
    × Run small 0x4400 order.flds 0x4400 0 order.flds gs false
unfolding ctx_udef
fixup-IsReached_example =
    fixup-IsReached small 0 order small-IsComplete refl (omega arith) order-IsReached
