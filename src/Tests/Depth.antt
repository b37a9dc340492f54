-- ===== src/Tests/Depth.antt =====
-- Elements that are read while others are open, elements too deep, and a document without its first element.
use libfixc.Base.{
  ℕ, zero, suc, ◌-◌, ap, ◌∙◌, ◌+◌, ◌≡◌, ◌≢◌, ◌≤◌, refl, arith, none, some, List, [], ◌∷◌, length,
  get_elem?,
}
use libfixc.Message.{Msg, nflds}
use libfixc.Power.Laws.{next_2power_lem}
use libfixc.Edit.{off_fld}
use libfixc.Edit.View.{View, view}
use libfixc.Edit.Valid.{length-values}
use libfixc.Storage.Grow.{IsSmall}
use libfixc.Reader.Walk.{handle_all-events_of}
use libfixc.Version.{codes, equal, number, fixml_nsiddify, v50_sp2}
use libfixc.Engine.{husks}
use libfixc.Reader.Namespaces.{no_spaces, ns_at, reg_ns, move_first, nsid_from_href, colon}
use libfixc.Reader.Marks.{IsRead}
use libfixc.Reader.Attributes.{IsReading, Reads}
use libfixc.Reader.Steps.{push_state_lem}
use libfixc.Reader.Cells.{no_pool, init_ctxcb}
use libfixc.Reader.Stack.{OpenElt, IsStack-init_ctxcb}
use libfixc.Reader.Markup.{
  events_of, Elements, no_elt, attr_items, ctx_after, items, put_items, text_size,
}
use libfixc.Reader.Head.{by_both}
use libfixc.Reader.Document.{typed_husk}
use libfixc.Reader.Faults.{last_state, el_sta-deep, from_fixml-no_root}
use libfixc.Reader.Context.{Ctx, stand_for}
use libfixc.Reader.{elt_start, fixml_husk, el_sta, handle_all, from_fixml}
use libfixc.Tests.Handling.{dictionary, instrument, order, five, knows_events, twins-IsUnderstood}

-- A document that is only a message.
from_fixml-no_root_example :
    from_fixml dictionary (knows_events (elt_start (codes "Order") order.head ∷ [])) five ≡ none
unfolding fixml_nsiddify colon equal number
from_fixml-no_root_example =
    from_fixml-no_root dictionary 8 68 (codes "Order")
      (codes "xmlns", codes "http://www.fixprotocol.org/FIXML-5-0-SP2")
      ((codes "v", codes "5.0 SP2") ∷ []) (by_both {ver = v50_sp2} refl refl refl refl refl) refl
      refl refl (λ z. absurd (omega (arith, z)))
      (knows_events (elt_start (codes "Order") order.head ∷ [])) five [] refl

-- Fifteen elements are open, and the last field is the message's.
abbrev side : Msg
side = record (typed_husk 8 68 5) {
  pr = 49 ∷ 0 ∷ [];
  pz = 2;
  flds = record (off_fld 54 0) { tpc = 68 } ∷ [];
}

side-IsRead : IsRead side
unfolding fixml_husk
side-IsRead = record {
  well = record {
    storage = record {
      written = omega arith;
      values_in = omega arith;
      flds_in = omega arith;
      room = λ _. omega (arith, next_2power_lem 3 (omega arith) (omega arith));
    };
    typed = record { tag_is = λ _. refl; typ_is = λ _ z. absurd (omega (arith, z)) };
  };
  front = λ _. refl;
}

frames : ℕ → List OpenElt
frames zero = []
frames (suc n) = record { otag = 68; cnt = 0 } ∷ frames n

length-frames : (n : ℕ) → length (frames n) ≡ n
unfolding frames
length-frames zero = refl
length-frames (suc n) = ap suc (length-frames n)

nested : (n : ℕ) → n ≤ 15 → (ctx : Ctx) × IsReading (frames n) ctx × (view ctx.msg ≡ view side)
unfolding frames no_spaces ns_at reg_ns move_first nsid_from_href fixml_nsiddify number equal
    no_pool
nested zero h =
    let s = reg_ns none (codes "5.0") no_spaces in
    (
      record { spaces = s; pool = init_ctxcb no_pool; msg = side },
      record {
        plain = record { ns = _; first = refl; default = refl; version = refl };
        stack = IsStack-init_ctxcb no_pool refl;
        read = side-IsRead;
      },
      refl,
    )
nested (suc n) h =
    let (ctx, r, v) = nested n (omega (arith, h)) in
    let (ctx', run, r', v') = push_state_lem 68 ctx r (omega (arith, h, length-frames n)) in
    (ctx', r', v' ∙ v)

deepest : (ctx : Ctx) × IsReading (frames 15) ctx × (view ctx.msg ≡ view side)
deepest = nested 15 (omega arith)

el_sta-deep_example : el_sta dictionary (codes "Instrmt") [] deepest.0 ≡ none
unfolding frames colon equal
el_sta-deep_example =
    el_sta-deep dictionary (codes "Instrmt") [] 300 deepest.0 deepest.1 refl refl
      (λ z. absurd (omega (arith, z))) (λ z. absurd (omega (arith, z)))
      (last_state (record (off_fld 54 0) { tpc = 68 }) (length-frames 15)
        (some_flds deepest.0.msg deepest.2) (the_last deepest.0.msg deepest.2)
        (λ z. absurd (omega (arith, z))))
  where
    some_flds : (m : Msg) → view m ≡ view side → nflds m ≢ 0
    some_flds m e z = absurd (omega (arith, z, ap (λ (x : View). length x.flds) e))

    the_last :
        (m : Msg)
        → view m ≡ view side
        → get_elem? m.flds (nflds m - 1) ≡ some (record (off_fld 54 0) { tpc = 68 })
    the_last m e = ap (λ (x : View). get_elem? x.flds (length x.flds - 1)) e

first_ctx : (ctx : Ctx) × IsReading (frames 1) ctx × (view ctx.msg ≡ view side)
first_ctx = nested 1 (omega arith)

abbrev two_elts : Elements
two_elts = instrument (codes "AB") (instrument (codes "CD") no_elt)

two_elts-IsSmall :
    IsSmall first_ctx.0.msg
      (length (items dictionary 68 two_elts) + 1)
      (text_size (items dictionary 68 two_elts))
unfolding items attr_items text_size ctx_after stand_for equal frames husks
two_elts-IsSmall = omega (
  arith,
  ap (λ (x : View). length x.flds) first_ctx.2,
  ap (λ (x : View). length x.values) first_ctx.2,
  length-values first_ctx.0.msg first_ctx.1.read.well.storage,
)

handle_all-events_of_example :
    Reads
      (handle_all dictionary (events_of two_elts) first_ctx.0)
      (record { otag = 68; cnt = 0 } ∷ [])
      (put_items (items dictionary 68 two_elts) (view first_ctx.0.msg))
unfolding frames ctx_after
handle_all-events_of_example =
    handle_all-events_of dictionary two_elts 13 first_ctx.0 first_ctx.1
      twins-IsUnderstood.kids_known (omega arith) two_elts-IsSmall
