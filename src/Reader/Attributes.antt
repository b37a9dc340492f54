-- ===== src/Reader/Attributes.antt =====
-- Attributes in the FIXML reader: `bang_attr` and `proc_FIXML_attr` add to the message what the attribute says.
use libfixc.Base.{
  ℕ, suc, ◌+◌, ◌%◌, ◌^◌, ◌≡◌, ◌<◌, refl, ap, ◌∙◌, arith, true, Option, none, some, List, [], ◌∷◌,
  ◌++◌, Bytes, length,
}
use libfixc.Message.{Msg, nflds}
use libfixc.Storage.Grow.{IsSmall}
use libfixc.Edit.{ok, add_tag}
use libfixc.Edit.Text.{IsPlain}
use libfixc.Edit.View.{View, view}
use libfixc.Edit.Valid.{IsWell}
use libfixc.Engine.{Engine}
use libfixc.Reader.Namespaces.{Ns, Spaces, ns_at, is_fixml}
use libfixc.Reader.Cells.{Cell, Pool, current, set_current}
use libfixc.Reader.Moves.{current_lem, IsStack-set_current}
use libfixc.Reader.Stack.{OpenElt, IsStack}
use libfixc.Reader.Markup.{Item, last_of, drop_same, item_fld, append_item, put_item}
use libfixc.Reader.Context.{Ctx, last_tag, stand_for, mark_last, bang_attr}
use libfixc.Reader.Marks.{
  IsRead, last_tag_lem, without_same, without_same_lem, add_tag_lem, add_marked,
}

-- The default name space is that of a version with a handler.
pub record IsFixmlSpace (s : Spaces) : Type 0 where
  pub ns : Ns
  pub first : ns_at 0 s ≡ some ns
  pub default : ns.pref ≡ none
  pub version : is_fixml ns.nsid ≡ true

-- What is kept while elements are read: the name spaces, the elements that are open, and the message.
pub record IsReading (fs : List OpenElt) (ctx : Ctx) : Type 0 where
  pub plain : IsFixmlSpace ctx.spaces
  pub stack : IsStack fs ctx.pool
  pub read : IsRead ctx.msg

-- A run that goes through, and leaves a message of the view `v`.
abbrev pub Reads : Option Ctx → List OpenElt → View → Type 0
Reads run fs v = (ctx' : Ctx) × (run ≡ some ctx') × IsReading fs ctx' × (view ctx'.msg ≡ v)

-- A field is added, so the message has one.
IsRead-marked : (m2 : Msg) {n : ℕ} → IsWell m2 → nflds m2 ≡ suc n → IsRead m2
IsRead-marked m2 w e = record { well = w; front = λ none. absurd (omega (arith, none, e)) }

-- The number of a field counts in 16 bits only.
put_item-num :
    (i : Item) (n : ℕ) (v : View)
    → i.num % 2 ^ 16 ≡ n % 2 ^ 16
    → put_item i v ≡ put_item (record i { num = n }) v
unfolding put_item
put_item-num i n v h =
    ap
      (λ k. record (append_item i (drop_same i.tag v)) {
        flds =
            (drop_same i.tag v).flds
            ++ record (item_fld i (length (drop_same i.tag v).values)) { cnt = k } ∷ [];
      })
      h

-- The change of the current state.
counted : ℕ → Cell → Cell
counted otag c = record c { otag = otag; cnt = (c.cnt + 1) % 2 ^ 32; cns = (c.cns + 1) % 2 ^ 32 }

-- The steps of `bang_attr`, where each goes through.
bang_attr_run :
    (e : Engine) (tag : ℕ) (val : Bytes) (ctx : Ctx) {m1 m2 : Msg} {cur : Cell} {p : Pool} {o k : ℕ}
    → last_tag ctx.msg ≡ some (last_of ctx.msg.flds)
    → add_tag (without_same tag ctx.msg) tag val ≡ some (ok, m1)
    → current ctx.pool ≡ some cur
    → cur.otag ≡ o
    → cur.cnt ≡ k
    → mark_last (stand_for e o) k m1 ≡ some m2
    → set_current (counted (stand_for e o)) ctx.pool ≡ some p
    → bang_attr e tag val ctx ≡ some (record ctx { pool = p; msg = m2 })
unfolding bang_attr without_same counted
bang_attr_run e tag val ctx last add at otag cnt mark change =
    rw (last, add, at, otag, cnt, mark, change)

module _ (e : Engine) (tag n : ℕ) (val : Bytes) {f : OpenElt} {fs : List OpenElt} (ctx : Ctx)
    (r : IsReading (f ∷ fs) ctx) (plain : IsPlain tag) (low : tag < 2 ^ 16)
    (small : IsSmall ctx.msg 2 (length val + 1)) (nth : f.cnt ≡ n % 2 ^ 32) where
  -- `bang_attr` adds the field with its context and number, and the element counts it.
  pub bang_attr_lem :
      Reads
        (bang_attr e tag val ctx)
        (record { otag = stand_for e f.otag; cnt = (n + 1) % 2 ^ 32 } ∷ fs)
        (put_item
          (record { tag = tag; ctx = stand_for e f.otag; num = n; val = val })
          (view ctx.msg))
  unfolding put_item counted
  bang_attr_lem =
      let item : Item = record { tag = tag; ctx = stand_for e f.otag; num = f.cnt; val = val } in
      let (w, v, few, short) = without_same_lem tag ctx.msg r.read.well in
      let m = without_same tag ctx.msg in
      let (m1, run, a) = add_tag_lem m tag val w (omega (arith, small, few, short)) plain in
      let (cur, at, otag, cnt) = current_lem r.stack in
      let (m2, mark, w2, v2, count, size) =
        add_marked m tag (stand_for e f.otag) f.cnt val m1 low a in
      let (p, change, s) =
        IsStack-set_current r.stack (counted (stand_for e f.otag))
          (record { otag = stand_for e f.otag; cnt = (n + 1) % 2 ^ 32 })
          (λ c _ h. (refl, omega (arith, h, nth), refl)) in
      (
        record ctx { pool = p; msg = m2 },
        bang_attr_run e tag val ctx (last_tag_lem ctx.msg r.read) run at otag cnt mark change,
        record { plain = r.plain; stack = s; read = IsRead-marked m2 w2 count },
        v2 ∙ ap (append_item item) v ∙ put_item-num item n (view ctx.msg) (omega (arith, nth)),
      )
