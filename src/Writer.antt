-- ===== src/Writer.antt =====
-- The FIXML writer of src/fixml-wr.c, up to `fixc_render_fixml`.
-- The text is the list of the bytes from `buf` to the writer's place `p`: none of them is written twice.
-- `cap` is the size of the buffer, `ep - buf`. `none` is a fault: a byte stored outside the buffer, a null
-- pointer that is read through, a text without an end, or a place that is moved over bytes nobody stored.
pub mod States
pub mod Nested
pub mod Resize
pub mod Resized
pub mod Spine
pub mod Steps
pub mod Elements
pub mod Attributes
pub mod Parts
pub mod Search
pub mod Descent
pub mod Loop
pub mod Fields
pub mod Ends
pub mod Document
pub mod Whole
use libfixc.Base.{
  ℕ, zero, suc, ◌+◌, ◌-◌, ◌*◌, ◌/◌, ◌%◌, ◌^◌, ◌≡◌, Bool, true, false, ◌&&◌, ◌||◌, not, Option, none,
  some, ◌>>=◌, List, [], ◌∷◌, ◌++◌, Bytes, length, take, drop, ltb, leb, ◌==◌, if◌then◌else◌,
}
use libfixc.Message.{Fld, Msg, nflds, low32, low8, off, msgt_batch}
use libfixc.Message.Typ
use libfixc.Power.{size_mod}
use libfixc.Edit.{strlen}
use libfixc.Number.{decimal, signed_decimal, ui8tostr, digit}
use libfixc.Version
use libfixc.Version.{codes, ver_fixmlify, ver_fixml_v_ify, of_number, v50_sp2}
use libfixc.Render.{sub_size}
use libfixc.Engine.{Engine, Sub}
use libfixc.Fixup.{ctx_udef, listed, needs_fixup, fixup}
use libfixc.Writer.States.{
  sputc, sncpy, sprint, State, Wr, pool, ptx_init, pop_ctxcb, push_ctxcb, push_state, pop_state,
  missing, name_or, unrendered, attr_value, attr_text, count_attr, open_parent, named, uri_of, v_of,
  is_batch, store,
}

module _ (e : Engine) where
  -- `__fixmlify`, less the copy.
  unfoldable pub tag_name : ℕ → Option Bytes
  tag_name ctx =
      let miss = b'g' ∷ decimal ctx in
      if ctx == msgt_batch
      then name_or (some (codes "Batch")) miss
      else if ctx_udef ctx
      then name_or (some (codes "User")) miss
      else if ltb 0x2000 ctx
      then name_or (e.msgt_fixmlify ctx) miss
      else name_or (e.comp_fixmlify ctx) miss

  -- `__childp`: the optimised blocks are followed for as long as there are any, and `fuel` bounds that.
  unfoldable pub childp : ℕ → Sub → ℕ → Option Bool
  childp zero parent child = none
  childp (suc fuel) parent child =
      let tmp = e.comp_orb parent.ctx in
      let rest : Option Bool = elim (e.comp_sub tmp) [
        | none ↦ none
        | some next ↦ childp fuel next child
      ] in
      if listed (child % 2 ^ 16) parent.subs
      then some true
      else if tmp == 0
      then some false
      else rest

module _ (e : Engine) (cap : ℕ) where
  unfoldable pub fixmlify : ℕ → Bytes → Option Bytes
  fixmlify ctx out = do name ← tag_name e ctx; sncpy cap name out

  -- `__render_attr` in the context `t`.
  unfoldable pub render_attr : ℕ → Bytes → Fld → Wr → Option Wr
  render_attr t b fld w = if unrendered fld.typ then some w else (do
    name ← name_or (e.attr_fixmlify t fld.tag) (b'f' ∷ decimal fld.tag)
    out ← attr_text cap name b fld w.out
    count_attr (record w { out = out }))

  -- `push_rndr_state`.
  unfoldable pub push_rndr_state : ℕ → Wr → Option Wr
  push_rndr_state otag w =
      if not (e.comp_orb otag == 0)
      then some w
      else if otag % 2 ^ 16 == msgt_batch
      then some w
      else (do
        let w1 = open_parent cap w
        out ← fixmlify otag (sputc cap b'<' w1.out)
        push_state otag (record w1 { out = out }))

  -- The end of an element.
  unfoldable pub end_tag : State → Bytes → Option Bytes
  end_tag s out = if s.cntc == 0 then some (sputc cap b'>' (sputc cap b'/' out)) else (do
    out' ← fixmlify s.osub (sputc cap b'/' (sputc cap b'<' out))
    some (sputc cap b'>' out'))

  unfoldable pub pop_rndr_state : Wr → Option (ℕ × Wr)
  pop_rndr_state w = elim w.states [
    | [] ↦ some (0, w)
    | s ∷ ss ↦ do out ← end_tag s w.out; some (pop_state (record w { out = out }))
  ]

  -- `__ancest_rndr`: the loops of a level each; what is returned is a component, and 0 where none is found.
  unfoldable pub rndr_two : List ℕ → ℕ → ℕ → ℕ → Wr → Option (Option ℕ × Wr)
  rndr_two [] x y to w = some (none, w)
  rndr_two (z ∷ zs) x y to w =
      let rest = rndr_two zs x y to w in
      if z == to
      then (do w1 ← push_rndr_state x w; w2 ← push_rndr_state y w1; some (some z, w2))
      else rest

  unfoldable pub rndr_one : List ℕ → ℕ → ℕ → Wr → Option (Option ℕ × Wr)
  rndr_one [] x to w = some (none, w)
  rndr_one (y ∷ ys) x to w =
      if y == to then (do w1 ← push_rndr_state x w; some (some y, w1)) else (do
        sub ← e.comp_sub y
        r ← rndr_two sub.subs x y to w
        elim r.0 [ none ↦ rndr_one ys x to w | some z ↦ some (some z, r.1) ])

  unfoldable pub ancest_rndr : List ℕ → ℕ → Wr → Option (ℕ × Wr)
  ancest_rndr [] to w = some (0, w)
  ancest_rndr (x ∷ xs) to w = if x == to then some (x, w) else (do
    sub ← e.comp_sub x
    r ← rndr_one sub.subs x to w
    elim r.0 [ none ↦ ancest_rndr xs to w | some z ↦ some (z, r.1) ])

  -- The contexts have 16 bits: after as many blocks a block comes again.
  abbrev pub orb_fuel : ℕ
  orb_fuel = 2 ^ 16

  -- The test in `__change_ctx`: a child, or below a child, in which case the elements between are opened.
  unfoldable pub is_below : ℕ → ℕ → Wr → Option (Bool × Wr)
  is_below osub new w = do
    sub ← e.comp_sub osub
    b ← childp e orb_fuel sub new
    if b
        then some (true, w)
        else (do r ← ancest_rndr sub.subs (new % 2 ^ 16) w; some (not (r.0 == 0), r.1))

  -- `__change_ctx`. A round closes an element or is the last; `fuel` bounds the rounds.
  unfoldable pub change_from : ℕ → ℕ → Wr → Option Wr
  change_from zero new w = elim w.states [ [] ↦ push_rndr_state new w | _ ∷ _ ↦ none ]
  change_from (suc fuel) new w = elim w.states [
    | [] ↦ push_rndr_state new w
    | s ∷ ss ↦ do
      r ← is_below s.osub new w
      if r.0 then push_rndr_state new r.1 else (do p ← pop_rndr_state r.1; change_from fuel new p.1)
  ]

  unfoldable pub change_ctx : ℕ → Wr → Option Wr
  change_ctx new w = change_from pool new w

  -- A round of the loop over the fields: `otpc` is the context of the last field that was rendered.
  unfoldable pub field_round : Bytes → Fld → ℕ → Wr → Option (ℕ × Wr)
  field_round b f otpc w =
      if f.tag == e.comp_rptb f.tpc
      then some (otpc, w)
      else if not (f.tpc == otpc)
      then (do w1 ← change_ctx f.tpc w; w2 ← render_attr f.tpc b f w1; some (f.tpc, w2))
      else if f.cnt == 0
      then (do
        r ← pop_rndr_state w
        w1 ← push_rndr_state r.0 r.1
        w2 ← render_attr r.0 b f w1
        some (otpc, w2))
      else (do w1 ← render_attr f.tpc b f w; some (otpc, w1))

  unfoldable pub field_rounds : Bytes → List Fld → ℕ → Wr → Option Wr
  field_rounds b [] otpc w = some w
  field_rounds b (f ∷ fs) otpc w = do r ← field_round b f otpc w; field_rounds b fs r.0 r.1

  -- `while (pop_rndr_state(&ctx).i);`
  unfoldable pub unwind : List State → Wr → Option Wr
  unwind [] w = some w
  unwind (s ∷ ss) w = do r ← pop_rndr_state w; if r.0 == 0 then some r.1 else unwind ss r.1

  -- `__render_hdr`, up to the root's opening tag, and what is in it of a batch.
  unfoldable pub open_root : Msg → Option Bytes
  open_root m = do
    out1 ← sncpy cap (codes "<?xml version=\"1.0\"?>") []
    out2 ← store cap 10 out1
    out3 ← sncpy cap (codes "FIXML") (sputc cap b'<' out2)
    out4 ← named cap (codes "xmlns") (uri_of m) out3
    out5 ← named cap (codes "v") (v_of m) out4
    some (sputc cap b'>' out5)

  unfoldable pub render_hdr : Msg → Option Bytes
  render_hdr m = do
    out ← open_root m
    if is_batch m
        then (do out' ← fixmlify msgt_batch (sputc cap b'<' out); some (sputc cap b'>' out'))
        else some out

  -- `__render_ftr`.
  unfoldable pub close_batch : Msg → Bytes → Option Bytes
  close_batch m out =
      if is_batch m
      then (do
        out' ← fixmlify msgt_batch (sputc cap b'/' (sputc cap b'<' out))
        some (sputc cap b'>' out'))
      else some out

  unfoldable pub render_ftr : Msg → Bytes → Option Bytes
  render_ftr m out = do
    out1 ← close_batch m out
    out2 ← sncpy cap (codes "FIXML") (sputc cap b'/' (sputc cap b'<' out1))
    some (sputc cap 10 (sputc cap b'>' out2))

  -- What `fixc_render_fixml` does once the fields have contexts; the length is returned, and the text is
  -- the buffer up to it, with a NUL behind that has to be in the buffer too.
  unfoldable pub render_body : Msg → Option Bytes
  render_body m = do
    hdr ← render_hdr m
    w ← field_rounds m.pr m.flds 0 (ptx_init hdr)
    w' ← unwind w.states w
    out ← render_ftr m w'.out
    if ltb (length out) cap then some out else none

-- `fixc_render_fixml`, on the static size of the stack of `fixc_fixup` too.
unfoldable pub render_fixml : Engine → ℕ → ℕ → Msg → Option (Bytes × Msg × ℕ)
render_fixml e cap size m =
    if needs_fixup m.flds
    then (do (m', size') ← fixup e size m; out ← render_body e cap m'; some (out, m', size'))
    else (do out ← render_body e cap m; some (out, m, size))
