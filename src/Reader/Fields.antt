-- ===== src/Reader/Fields.antt =====
-- The attributes of an element in the FIXML reader: `proc_FIXML_attr`, one after the other.
use libfixc.Base.{
  ℕ, suc, ◌+◌, ◌%◌, ◌^◌, ◌≡◌, ◌<◌, ◌≢◌, refl, ap, ◌∙◌, arith, true, false, none, some, List, [],
  ◌∷◌, Bytes, length, ◌==◌,
}
use libfixc.Storage.Grow.{IsSmall}
use libfixc.Edit.Text.{IsPlain}
use libfixc.Edit.View.{view}
use libfixc.Engine.{Engine}
use libfixc.Reader.Namespaces.{Spaces, colon, lookup_len}
use libfixc.Reader.Moves.{otag_now_lem}
use libfixc.Reader.Stack.{OpenElt}
use libfixc.Reader.Markup.{
  Item, attr_items, ctx_after, put_items, text_size, AreKnown, no_attr, unknown, known,
}
use libfixc.Reader.Attributes.{IsReading, Reads, bang_attr_lem}
use libfixc.Reader.Context.{Ctx, stand_for, bang_attr}
use libfixc.Reader.{attr_v, proc_fixml_attr, fixml_attrs}
use libfixc.Reader.Sizes.{IsSmall-put_items}

lookup_len_lem :
    (s : Spaces) (name : Bytes) → colon name ≡ none → lookup_len s name ≡ some (length name)
unfolding lookup_len
lookup_len_lem s name h = rw (lookup_len, h)

stand_for-nonzero : (e : Engine) (c : ℕ) → c ≢ 0 → stand_for e c ≢ 0
unfolding stand_for
stand_for-nonzero e c h = ground arith

module _ (e : Engine) (name val : Bytes) {f : OpenElt} {fs : List OpenElt} (ctx : Ctx)
    (r : IsReading (f ∷ fs) ctx) (plain : colon name ≡ none) where
  attr_skipped : e.get_aid f.otag name (length name) ≡ 0 → proc_fixml_attr e name val ctx ≡ some ctx
  unfolding proc_fixml_attr
  attr_skipped h = rw (lookup_len_lem ctx.spaces name plain, otag_now_lem r.stack, h) (ground arith)

  attr_taken :
      {tag : ℕ}
      → f.otag ≢ 0
      → e.get_aid f.otag name (length name) ≡ tag
      → IsPlain tag
      → tag < attr_v
      → proc_fixml_attr e name val ctx ≡ bang_attr e tag val ctx
  unfolding proc_fixml_attr
  attr_taken own h p low =
      rw (lookup_len_lem ctx.spaces name plain, otag_now_lem r.stack, h)
        (ground (arith, p.not_special))

-- What the next attribute adds.
module _ (e : Engine) (c n : ℕ) (name val : Bytes) (attrs : List (Bytes × Bytes)) where
  attr_items-unknown :
      e.get_aid c name (length name) ≡ 0
      → (attr_items e c n ((name, val) ∷ attrs) ≡ attr_items e c n attrs)
        × (ctx_after e c ((name, val) ∷ attrs) ≡ ctx_after e c attrs)
  unfolding attr_items ctx_after
  attr_items-unknown h =
      let none_of : (e.get_aid c name (length name) == 0) ≡ true = ground (arith, h) in
      (rw none_of, rw none_of)

  attr_items-known :
      {tag : ℕ}
      → e.get_aid c name (length name) ≡ tag
      → IsPlain tag
      → (attr_items e c n ((name, val) ∷ attrs)
          ≡ record { tag = tag; ctx = stand_for e c; num = n; val = val }
            ∷ attr_items e (stand_for e c) (n + 1) attrs)
        × (ctx_after e c ((name, val) ∷ attrs) ≡ ctx_after e (stand_for e c) attrs)
  unfolding attr_items ctx_after
  attr_items-known {tag = tag} h p =
      let some_of : (tag == 0) ≡ false = ground (arith, p.not_special) in
      (rw (h, some_of), rw (h, some_of))

-- All attributes of an element.
pub fixml_attrs_lem :
    (e : Engine) (attrs : List (Bytes × Bytes)) (n : ℕ) {f : OpenElt} {fs : List OpenElt}
    (ctx : Ctx)
    → IsReading (f ∷ fs) ctx
    → f.otag ≢ 0
    → f.cnt ≡ n % 2 ^ 32
    → AreKnown e f.otag attrs
    → IsSmall ctx.msg
        (length (attr_items e f.otag n attrs) + 1)
        (text_size (attr_items e f.otag n attrs))
    → (k : ℕ) × Reads
        (fixml_attrs e attrs ctx)
        (record { otag = ctx_after e f.otag attrs; cnt = k } ∷ fs)
        (put_items (attr_items e f.otag n attrs) (view ctx.msg))
unfolding fixml_attrs put_items text_size
fixml_attrs_lem e [] n {f = f} ctx r own nth no_attr small =
    unfold attr_items ctx_after in (f.cnt, (ctx, refl, r, refl))
fixml_attrs_lem e ((name, val) ∷ attrs) n {f = f} {fs = fs} ctx r own nth (unknown plain h known')
      small =
    let (is, c) = attr_items-unknown e f.otag n name val attrs h in
    let (k, (ctx', run, r', v)) = fixml_attrs_lem e attrs n ctx r own nth known' (rw is at small) in
    rw (is, c, attr_skipped e name val ctx r plain h) (k, (ctx', run, r', v))
fixml_attrs_lem e ((name, val) ∷ attrs) n {f = f} {fs = fs} ctx r own nth
      (known tag plain h p low known') small =
    let (is, c) = attr_items-known e f.otag n name val attrs h p in
    let item : Item = record { tag = tag; ctx = stand_for e f.otag; num = n; val = val } in
    let rest = attr_items e (stand_for e f.otag) (n + 1) attrs in
    let all : IsSmall ctx.msg (suc (length rest) + 1) (length val + 1 + text_size rest) =
      rw is at small in
    let (ctx1, run1, r1, v1) =
      bang_attr_lem e tag n val ctx r p (omega (arith, low)) (omega (arith, all)) nth in
    let left : IsSmall ctx1.msg (length rest + 1) (text_size rest) =
      IsSmall-put_items (item ∷ []) ctx.msg ctx1.msg r.read r1.read v1 (omega (arith, all)) in
    let (k, (ctx', run, r', v)) =
      fixml_attrs_lem e attrs (n + 1) ctx1 r1 (stand_for-nonzero e f.otag own) refl known' left in
    rw (is, c, attr_taken e name val ctx r plain own h p low, run1)
      (k, (ctx', run, r', v ∙ ap (put_items rest) v1))
