-- ===== src/Reader/Document.antt =====
-- A whole FIXML document with one message in it: what `make_fixc_from_fixml` makes of it.
use libfixc.Base.{
  ℕ, ◌+◌, ◌^◌, ◌≡◌, ◌≤◌, ◌<◌, ◌≢◌, refl, ap, sym, ◌∙◌, arith, true, none, some, List, [], ◌∷◌, ◌++◌,
  Bytes, length, length-append, length-take,
}
use libfixc.Message.{Msg, low32, set_low32}
use libfixc.Message.Tag
use libfixc.Message.Typ
use libfixc.Storage.Grow.{IsSmall}
use libfixc.Edit.View.{View, view}
use libfixc.Edit.Valid.{IsWell, length-values}
use libfixc.Engine.{Engine}
use libfixc.Reader.Namespaces.{colon}
use libfixc.Reader.Markup.{
  Elements, events_of, Item, attr_items, ctx_after, items, drop_same, put_item, put_items,
  text_size, AreKnown, IsFamiliar,
}
use libfixc.Reader.Marks.{IsRead}
use libfixc.Reader.Attributes.{IsReading, Reads}
use libfixc.Reader.Sizes.{put_items-append, text_size-append, IsSmall-put_items}
use libfixc.Reader.Walk.{open_elt_lem, handle_all-append, handle_all-events_of}
use libfixc.Reader.Head.{IsHead}
use libfixc.Reader.Context.{Ctx}
use libfixc.Reader.{
  Event, elt_start, elt_end, comp_fixml, set_version, set_type, open_elt, el_sta, el_end, handle,
  handle_all, fixml_husk, Parsed, from_fixml,
}
use libfixc.Reader.Root.{fixml, start_ctx, root_lem, IsRead-set_type}
use libfixc.Reader.Ends.{message_run, message_end, root_end}

-- A document: the attributes of its first element, and the message in it.
pub record Document : Type 0 where
  pub head : List (Bytes × Bytes)
  pub name : Bytes
  pub attrs : List (Bytes × Bytes)
  pub kids : Elements

unfoldable pub document_events : Document → List Event
document_events d =
    elt_start fixml d.head
    ∷ elt_start d.name d.attrs
    ∷ (events_of d.kids ++ (elt_end d.name ∷ elt_end fixml ∷ []))

-- What it says: the fields of its message, of the type `mty`.
unfoldable pub document_items : Engine → ℕ → Document → List Item
document_items e mty d = attr_items e mty 0 d.attrs ++ items e (ctx_after e mty d.attrs) d.kids

-- The message before its fields.
abbrev pub typed_husk : ℕ → ℕ → ℕ → Msg
typed_husk ver mty doclen = set_type mty (set_version ver (fixml_husk doclen))

-- What the dictionary knows of a document: it is of the version `ver`, and its message of the type `mty`.
pub record IsUnderstood (e : Engine) (ver mty : ℕ) (d : Document) : Type 0 where
  pub head_known : IsHead e ver d.head
  pub root : e.get_cid 0 fixml 5 ≡ comp_fixml
  pub plain : colon d.name ≡ none
  pub no_comp : e.get_cid comp_fixml d.name (length d.name) ≡ 0
  pub is_mty : e.get_mty d.name (length d.name) ≡ mty
  pub real : mty ≢ 0
  pub short : mty < 2 ^ 32
  pub uncounted : e.comp_rptb mty ≡ 0
  pub attrs_known : AreKnown e mty d.attrs
  pub kids_known : IsFamiliar e 13 (ctx_after e mty d.attrs) d.kids

put_items-f35 : (is : List Item) (v : View) → (put_items is v).f35 ≡ v.f35
unfolding put_items put_item drop_same
put_items-f35 [] v = refl
put_items-f35 (i ∷ is) v = put_items-f35 is (put_item i v) ∙ ground arith

-- The steps of the whole document, where each goes through.
document_run :
    (e : Engine) (d : Document) (doclen : ℕ) {ctx1 ctx2 ctx3 ctx4 ctx5 : Ctx}
    → el_sta e fixml d.head (start_ctx doclen) ≡ some ctx1
    → el_sta e d.name d.attrs ctx1 ≡ some ctx2
    → handle_all e (events_of d.kids) ctx2 ≡ some ctx3
    → el_end e d.name ctx3 ≡ some ctx4
    → el_end e fixml ctx4 ≡ some ctx5
    → handle_all e (document_events d) (start_ctx doclen) ≡ some ctx5
unfolding document_events handle_all handle
document_run e d doclen {ctx2 = ctx2} root message kids message_ends root_ends = rw (
  root,
  message,
  handle_all-append e (events_of d.kids) (elt_end d.name ∷ elt_end fixml ∷ []) ctx2 kids,
  message_ends,
  root_ends,
)

-- The message with everything in it, from a message that is still empty.
message_lem :
    (e : Engine) (ver mty : ℕ) (d : Document) (ctx : Ctx)
    → IsUnderstood e ver mty d
    → IsReading (record { otag = comp_fixml; cnt = 0 } ∷ []) ctx
    → low32 ctx.msg.f35 ≡ mty
    → IsSmall ctx.msg (length (document_items e mty d) + 1) (text_size (document_items e mty d))
    → (ctx2 ctx3 ctx4 : Ctx) × (open_elt e mty d.attrs ctx ≡ some ctx2)
      × (handle_all e (events_of d.kids) ctx2 ≡ some ctx3)
      × (el_end e d.name ctx3 ≡ some ctx4)
      × IsReading (record { otag = comp_fixml; cnt = 0 } ∷ []) ctx4
      × (view ctx4.msg ≡ put_items (document_items e mty d) (view ctx.msg))
unfolding document_items
message_lem e ver mty d ctx u r same small =
    let own = attr_items e mty 0 d.attrs in
    let below = items e (ctx_after e mty d.attrs) d.kids in
    let parts : IsSmall ctx.msg (length own + (length below + 1))
        (text_size own + text_size below) =
      omega (arith, small, length-append own below, text_size-append own below) in
    let (k, (ctx2, run2, r2, v2)) =
      open_elt_lem e mty d.attrs ctx r (omega arith) u.real u.uncounted u.attrs_known
        (omega (arith, parts)) in
    let small2 = IsSmall-put_items own ctx.msg ctx2.msg r.read r2.read v2 parts in
    let (ctx3, run3, r3, v3) =
      handle_all-events_of e d.kids 13 ctx2 r2 u.kids_known (omega arith) small2 in
    let v = v3 ∙ (ap (put_items below) v2 ∙ sym (put_items-append own below (view ctx.msg))) in
    let f35 = ap (λ (x : View). x.f35) v ∙ put_items-f35 (own ++ below) (view ctx.msg) in
    let (ctx4, run4, r4, v4) =
      message_end e d.name mty ctx3 r3 u.plain u.no_comp u.is_mty u.real (ap low32 f35 ∙ same) in
    (ctx2, ctx3, ctx4, run2, run3, run4, r4, v4 ∙ v)

-- The handlers go through a document that is understood, and leave no element open and a message of the
-- document's type, with its items.
module _ (e : Engine) (ver mty doclen : ℕ) (d : Document) (u : IsUnderstood e ver mty d)
    (few : doclen < 2 ^ 60)
    (bounded : (length (document_items e mty d) + 1 ≤ 2 ^ 56)
      × (text_size (document_items e mty d) < 2 ^ 60)) where
  pub handle_all-document_events :
      Reads
        (handle_all e (document_events d) (start_ctx doclen))
        []
        (put_items (document_items e mty d) (view (typed_husk ver mty doclen)))
  unfolding fixml_husk
  handle_all-document_events =
      let (ctx1, run1, r1, v1) = root_lem e ver doclen d.head few u.head_known u.root in
      let ctx1' : Ctx = record ctx1 { msg = set_type mty ctx1.msg } in
      let r1' : IsReading (record { otag = comp_fixml; cnt = 0 } ∷ []) ctx1' = record {
        plain = r1.plain;
        stack = r1.stack;
        read = IsRead-set_type mty ctx1.msg r1.read;
      } in
      let typed : view ctx1'.msg ≡ view (typed_husk ver mty doclen) =
        ap
          (λ (x : View). record x {
            f35 = set_low32 (record (x.f35) { tag = Tag.msg_type; typ = Typ.msgtyp }) mty;
          })
          v1 in
      let (ctx2, ctx3, ctx4, run2, run3, run4, r4, v4) =
        message_lem e ver mty d ctx1' u r1' (omega (arith, u.short))
          (empty ctx1'.msg r1'.read typed) in
      let (ctx5, run5, r5, v5) = root_end e ctx4 r4 u.root in
      let message = message_run e d.name d.attrs mty ctx1 r1 u.plain u.no_comp u.is_mty u.real in
      (
        ctx5,
        document_run e d doclen run1 (message ∙ run2) run3 run4 run5,
        r5,
        v5 ∙ (v4 ∙ ap (put_items (document_items e mty d)) typed),
      )
    where
      empty :
          (m : Msg)
          → IsRead m
          → view m ≡ view (typed_husk ver mty doclen)
          → IsSmall m (length (document_items e mty d) + 1) (text_size (document_items e mty d))
      empty m r v = omega (
        arith,
        ap (λ (x : View). length x.flds) v,
        ap (λ (x : View). length x.values) v,
        length-values m r.well.storage,
        length-take 0 (typed_husk ver mty doclen).pr,
        bounded,
      )

  -- `make_fixc_from_fixml` of a text, shorter than 2^60 bytes, in which expat finds a document that the dictionary
  -- understands, with fewer than 2^56 items and 2^60 bytes of values, returns a message, with no fault: it is
  -- well-formed, and has the document's version and type and a field for each attribute that the dictionary knows, in the
  -- order of the text, with the context and the number that the tree gives it, a field taking the place of
  -- one of the same tag right before it.
  pub from_fixml-document :
      (expat : Bytes → Parsed) (doc : Bytes)
      → length doc ≡ doclen
      → expat doc ≡ record { events = document_events d; whole = true }
      → (m : Msg) × (from_fixml e expat doc ≡ some (some m))
        × IsWell m
        × (view m ≡ put_items (document_items e mty d) (view (typed_husk ver mty doclen)))
  unfolding from_fixml
  from_fixml-document expat doc len parsed =
      let (ctx, run, r, v) = handle_all-document_events in
      (ctx.msg, rw (parsed, len, run), r.read.well, v)
