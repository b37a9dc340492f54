-- ===== src/Reader/Walk.antt =====
-- Elements in the FIXML reader: the handlers walk over a tree of familiar elements and add to the message what
-- the tree says, in its order.
use libfixc.Base.{
  ℕ, zero, suc, >>=-eq-some, ◌+◌, ◌≡◌, ◌≤◌, ◌<◌, ◌≢◌, refl, ap, sym, ◌∙◌, arith, false, Option,
  none, some, List, [], ◌∷◌, ◌++◌, Bytes, length, ◌==◌,
}
use libfixc.Storage.Grow.{IsSmall}
use libfixc.Edit.View.{view}
use libfixc.Engine.{Engine}
use libfixc.Reader.Namespaces.{colon}
use libfixc.Reader.Moves.{current_lem, otag_now_lem, IsStack-pop_state, old_otag_lem, below_otag}
use libfixc.Reader.Stack.{OpenElt}
use libfixc.Reader.Markup.{
  Elements, no_elt, elt, events_of, attr_items, ctx_after, items, put_items, text_size, AreKnown,
  IsFamiliar, all_read, familiar,
}
use libfixc.Reader.Attributes.{IsReading, Reads}
use libfixc.Reader.Context.{Ctx, check_rptblk}
use libfixc.Reader.{
  Event, elt_end, comp_fixml, open_elt, bo_fixml_elt, eo_fixml_elt, el_sta, el_end, handle,
  handle_all,
}
use libfixc.Reader.Sizes.{IsSmall-put_items, IsSmall-same, IsSmall-append, put_items-append3}
use libfixc.Reader.Fields.{fixml_attrs_lem}
use libfixc.Reader.Steps.{el_sta_ours, el_end_ours, push_state_lem}

no_counter :
    (e : Engine) {f : OpenElt} {fs : List OpenElt} (ctx : Ctx)
    → IsReading (f ∷ fs) ctx
    → e.comp_rptb f.otag ≡ 0
    → check_rptblk e ctx ≡ some ctx
unfolding check_rptblk
no_counter e ctx r h = let (cur, at, otag, _) = current_lem r.stack in rw (at, otag, h)

-- The default branch of `sax_bo_FIXML_elt`, for a context without a counter.
pub open_elt_lem :
    (e : Engine) (d : ℕ) (attrs : List (Bytes × Bytes)) {fs : List OpenElt} (ctx : Ctx)
    → IsReading fs ctx
    → length fs < 15
    → d ≢ 0
    → e.comp_rptb d ≡ 0
    → AreKnown e d attrs
    → IsSmall ctx.msg (length (attr_items e d 0 attrs) + 1) (text_size (attr_items e d 0 attrs))
    → (k : ℕ) × Reads
        (open_elt e d attrs ctx)
        (record { otag = ctx_after e d attrs; cnt = k } ∷ fs)
        (put_items (attr_items e d 0 attrs) (view ctx.msg))
unfolding open_elt put_items text_size
open_elt_lem e d attrs ctx r room own single attrs_known small =
    let (ctx1, push, r1, v1) = push_state_lem d ctx r room in
    let is = attr_items e d 0 attrs in
    let small1 : IsSmall ctx1.msg (length is + 1) (text_size is) =
      IsSmall-same ctx.msg ctx1.msg r.read r1.read v1 small in
    let (k, (ctx2, run, r2, v2)) = fixml_attrs_lem e attrs 0 ctx1 r1 own refl attrs_known small1 in
    (k, (ctx2, rw (push, no_counter e ctx1 r1 single, run), r2, v2 ∙ ap (put_items is) v1))

-- The end of a familiar element gives its state back.
pub el_end_lem :
    (e : Engine) (name : Bytes) {f g : OpenElt} {fs : List OpenElt} (ctx : Ctx)
    → IsReading (f ∷ g ∷ fs) ctx
    → colon name ≡ none
    → e.get_cid g.otag name (length name) ≢ 0
    → Reads (el_end e name ctx) (g ∷ fs) (view ctx.msg)
unfolding eo_fixml_elt below_otag
el_end_lem e name {g = g} ctx r plain is_ours =
    let some_of : (e.get_cid g.otag name (length name) == 0) ≡ false = ground arith in
    let (p, pop, s) = IsStack-pop_state r.stack in
    (
      record ctx { pool = p },
      rw (el_end_ours name plain e ctx r.plain, old_otag_lem r.stack, some_of, pop),
      record { plain = r.plain; stack = s; read = r.read },
      refl,
    )

pub handle_all-append :
    (e : Engine) (ps qs : List Event) (ctx : Ctx) {ctx' : Ctx}
    → handle_all e ps ctx ≡ some ctx'
    → handle_all e (ps ++ qs) ctx ≡ handle_all e qs ctx'
unfolding handle_all
handle_all-append e [] qs ctx h =
    ap (λ (o : Option Ctx). elim o [ none ↦ none | some x ↦ handle_all e qs x ]) h
handle_all-append e (a ∷ ps) qs ctx h =
    let (ctx1, first, rest) = >>=-eq-some (handle e a ctx) (handle_all e ps) h in
    rw first (handle_all-append e ps qs ctx1 rest)

-- The beginning of a familiar element.
pub el_sta_lem :
    (e : Engine) (name : Bytes) (attrs : List (Bytes × Bytes)) (d : ℕ) {f : OpenElt}
    {fs : List OpenElt} (ctx : Ctx)
    → IsReading (f ∷ fs) ctx
    → colon name ≡ none
    → e.get_cid f.otag name (length name) ≡ d
    → d ≢ 0
    → d ≢ comp_fixml
    → el_sta e name attrs ctx ≡ open_elt e d attrs ctx
unfolding bo_fixml_elt
el_sta_lem e name attrs d {f = f} ctx r plain is_d some_of inner =
    let not_0 : (d == 0) ≡ false = ground arith in
    let not_1 : (d == comp_fixml) ≡ false = ground arith in
    rw (el_sta_ours name plain e ctx r.plain attrs, otag_now_lem r.stack, is_d, not_0, not_1)

items_elt :
    (e : Engine) (c d : ℕ) (name : Bytes) (attrs : List (Bytes × Bytes)) (kids rest : Elements)
    → e.get_cid c name (length name) ≡ d
    → items e c (elt name attrs kids rest)
      ≡ attr_items e d 0 attrs ++ (items e (ctx_after e d attrs) kids ++ items e c rest)
unfolding items
items_elt e c d name attrs kids rest h = rw h

-- While an element is open, and fewer than 2^56 fields and 2^60 bytes of values come together, the handlers
-- go through the events of a tree of elements that the dictionary knows, with no counted repeating block
-- among them, where together with those that are open no more than 15 are open at a time. They
-- leave the same elements open, and what the tree says added to the message.
pub handle_all-events_of :
    (e : Engine) (es : Elements) (k : ℕ) {f : OpenElt} {fs : List OpenElt} (ctx : Ctx)
    → IsReading (f ∷ fs) ctx
    → IsFamiliar e k f.otag es
    → k + length fs ≤ 14
    → IsSmall ctx.msg (length (items e f.otag es) + 1) (text_size (items e f.otag es))
    → Reads
        (handle_all e (events_of es) ctx)
        (f ∷ fs)
        (put_items (items e f.otag es) (view ctx.msg))
unfolding events_of handle_all handle
handle_all-events_of e no_elt k ctx r all_read room small =
    unfold items put_items in (ctx, refl, r, refl)
handle_all-events_of e (elt name attrs kids rest) zero ctx r deep room small = elim deep [ ]
handle_all-events_of e (elt name attrs kids rest) (suc k) {f = f} {fs = fs} ctx r
      (familiar d plain is_d some_of inner single attrs_known kids_known rest_known) room small =
    let own = attr_items e d 0 attrs in
    let below = items e (ctx_after e d attrs) kids in
    let behind = items e f.otag rest in
    let parts = items_elt e f.otag d name attrs kids rest is_d in
    let small0 = IsSmall-append ctx.msg own below behind (rw parts at small) in
    let (n, (ctx1, run1, r1, v1)) =
      open_elt_lem e d attrs ctx r (omega (arith, room)) some_of single attrs_known
        (omega (arith, small0)) in
    let small1 = IsSmall-put_items own ctx.msg ctx1.msg r.read r1.read v1 small0 in
    let (ctx2, run2, r2, v2) =
      handle_all-events_of e kids k ctx1 r1 kids_known (omega (arith, room))
        (omega (arith, small1)) in
    let small2 = IsSmall-put_items below ctx1.msg ctx2.msg r1.read r2.read v2 small1 in
    let (ctx3, run3, r3, v3) = el_end_lem e name ctx2 r2 plain (λ z. some_of (sym is_d ∙ z)) in
    let small3 = IsSmall-same ctx2.msg ctx3.msg r2.read r3.read v3 small2 in
    let (ctx4, run4, r4, v4) = handle_all-events_of e rest (suc k) ctx3 r3 rest_known room small3 in
    let start = el_sta_lem e name attrs d ctx r plain is_d some_of inner in
    let across = handle_all-append e (events_of kids) (elt_end name ∷ events_of rest) ctx1 run2 in
    rw parts (
      ctx4,
      rw (start, run1, across, run3, run4),
      r4,
      put_items-append3 own below behind _ _ _ _ _ v1 v2 v3 v4,
    )
