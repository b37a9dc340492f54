-- ===== src/Reader/Uncounted.antt =====
-- The counters of repeating blocks in the FIXML reader: where `__upd_rptb` adds one, and where it adds one too many.
use libfixc.Base.{
  ℕ, suc, ◌+◌, ◌%◌, ◌^◌, ◌≡◌, ◌<◌, ◌≢◌, refl, ap, ◌∙◌, arith, true, false, some, List, [], ◌∷◌,
  ◌++◌, append_assoc, length, get_elem?, ltb, ◌==◌, length-append, insert_at_end,
}
use libfixc.Message.{Fld, Msg, nflds}
use libfixc.Message.Tag
use libfixc.Message.Typ
use libfixc.Storage.Grow.{IsSmall}
use libfixc.Edit.{add_fld}
use libfixc.Edit.Text.{IsPlain}
use libfixc.Edit.View.{View, view, put, add_fld_spec}
use libfixc.Edit.Valid.{IsWell}
use libfixc.Edit.Refine.{add_fld_at_refines}
use libfixc.Engine.{Engine}
use libfixc.Reader.Cells.{Cell, Pool, current, peek}
use libfixc.Reader.Context.{Ctx, rptb_index, rptb_fld, first_rptb, upd_rptb, check_rptblk}
use libfixc.Reader.Counters.{get_elem?-middle, by_child, upd_rptb_found, counted_block}

-- Where a block gets a new counter: its state counts nothing yet; or the fields end in those of an element within
-- the block that has no counter, and the field in front of the block's counter is none for the block.
pub data IsNew (c cns tag : ℕ) (p : Pool) (fs : List Fld) : Type 0 where
  fresh : cns ≡ 0 → IsNew c cns tag p fs
  uncounted_child :
      {cell : Cell} (xs ys zs : List Fld) (y x l : Fld)
      → cns ≢ 0
      → fs ≡ xs ++ y ∷ (x ∷ (ys ++ (zs ++ l ∷ [])))
      → y.tag ≢ tag
      → length ys ≡ cns
      → l.tpc ≢ c
      → peek p ≡ some cell
      → suc (length zs) ≡ cell.cns
      → IsNew c cns tag p fs

-- `fixc_add_fld` of a counter.
spec_fld :
    (v : View) (f : Fld)
    → IsPlain f.tag
    → f.typ ≡ Typ.int
    → (add_fld_spec v f (length v.flds)).1 ≡ put v f (length v.flds)
unfolding add_fld_spec
spec_fld v f plain typ =
    let not_off : (f.typ == Typ.off) ≡ false = ground (arith, typ) in
    let inside : ltb (length v.flds) (length v.flds) ≡ false = ground arith in
    let known : (f.tag == Tag.unk) ≡ false = ground (arith, plain.not_special) in
    let not_8 : (f.tag == Tag.begin_string) ≡ false = ground (arith, plain.not_special) in
    let not_9 : (f.tag == Tag.body_length) ≡ false = ground (arith, plain.not_special) in
    let not_10 : (f.tag == Tag.check_sum) ≡ false = ground (arith, plain.not_special) in
    rw (not_off, inside, known, not_8, not_9, not_10, plain.not_type)

first_rptb_lem :
    (t otag : ℕ) (ctx : Ctx)
    → IsPlain (t % 2 ^ 16)
    → IsWell ctx.msg
    → IsSmall ctx.msg 2 0
    → (ctx' : Ctx) × (first_rptb t otag ctx ≡ some ctx')
      × IsWell ctx'.msg
      × (ctx'.msg.flds ≡ ctx.msg.flds ++ rptb_fld t otag ∷ [])
unfolding first_rptb add_fld
first_rptb_lem t otag ctx plain w small =
    let (m', run, w', v) = add_fld_at_refines ctx.msg (rptb_fld t otag) (nflds ctx.msg) w small in
    let placed = v ∙ spec_fld (view ctx.msg) (rptb_fld t otag) plain refl in
    (
      record ctx { msg = m' },
      rw run,
      w',
      ap (λ (x : View). x.flds) placed ∙ insert_at_end ctx.msg.flds (rptb_fld t otag),
    )

-- The code looks in front of the block's counter.
module _ (m : Msg) (p : Pool) (cur : Cell) (few : nflds m < 2 ^ 32) where
  rptb_index-child :
      {cell : Cell} (xs ys zs : List Fld) (y x l : Fld)
      → m.flds ≡ xs ++ y ∷ (x ∷ (ys ++ (zs ++ l ∷ [])))
      → length ys ≡ cur.cns
      → l.tpc ≢ cur.otag
      → peek p ≡ some cell
      → suc (length zs) ≡ cell.cns
      → rptb_index m p cur ≡ some (length xs)
  rptb_index-child {cell} xs ys zs y x l e size other at size' =
      let whole = xs ++ y ∷ (x ∷ (ys ++ zs)) in
      let front : xs ++ y ∷ (x ∷ (ys ++ (zs ++ l ∷ []))) ≡ whole ++ l ∷ [] = simp append_assoc in
      let long = ap length (e ∙ front) in
      let parts = length-append xs (y ∷ (x ∷ (ys ++ zs))) in
      let parts' = length-append ys zs in
      let all = length-append whole (l ∷ []) in
      let few_z : cell.cns + 1 < 2 ^ 32 = omega (arith, size', parts, parts', few, long, all) in
      by_child m p cur few whole l (e ∙ front) other at few_z (length xs)
        (omega (arith, size, size', parts, parts', few, long, all))

module _ (e : Engine) (t : ℕ) (ctx : Ctx) (cur : Cell) (at : current ctx.pool ≡ some cur)
    (counter : e.comp_rptb cur.otag ≡ t) (real : t ≢ 0) (few : nflds ctx.msg < 2 ^ 32) where
  counter_added :
      IsNew cur.otag cur.cns t ctx.pool ctx.msg.flds
      → check_rptblk e ctx ≡ first_rptb t cur.otag ctx
  unfolding upd_rptb
  counter_added (fresh none_yet) =
      let idle : (cur.cns == 0) ≡ true = ground (arith, none_yet) in
      counted_block e t ctx cur at counter real few ∙ rw (at, idle)
  counter_added (uncounted_child xs ys zs y x l some_of flds other_tag size other top size') =
      let index =
        rptb_index-child ctx.msg ctx.pool cur few xs ys zs y x l flds size other top size' in
      let behind = x ∷ (ys ++ (zs ++ l ∷ [])) in
      let there : get_elem? ctx.msg.flds (length xs) ≡ some y =
        rw flds (get_elem?-middle xs y behind) in
      let counts : (cur.cns == 0) ≡ false = ground arith in
      let no_counter : (y.tag == t) ≡ false = ground arith in
      counted_block e t ctx cur at counter real few
      ∙ (upd_rptb_found t (length xs) ctx at counts index there ∙ rw no_counter)

  -- At an element of a repeating block, in a well-formed message of fewer than 2^32 fields: where the block's
  -- state counts nothing yet, `check_rptblk` appends a counter with the value 1. So it does, although the block
  -- has a counter already, behind the fields of an element within the block that has no counter of its own,
  -- unless the field in front of the block's counter has the counter's tag.
  pub check_rptblk-IsNew :
      IsPlain (t % 2 ^ 16)
      → IsWell ctx.msg
      → IsSmall ctx.msg 2 0
      → IsNew cur.otag cur.cns t ctx.pool ctx.msg.flds
      → (ctx' : Ctx) × (check_rptblk e ctx ≡ some ctx')
        × IsWell ctx'.msg
        × (ctx'.msg.flds ≡ ctx.msg.flds ++ rptb_fld t cur.otag ∷ [])
  check_rptblk-IsNew plain w small new =
      let (ctx', run, w', flds) = first_rptb_lem t cur.otag ctx plain w small in
      (ctx', counter_added new ∙ run, w', flds)
