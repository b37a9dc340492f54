-- ===== src/Reader/Again.antt =====
-- The FIXML reader of src/fixml-rd.c and the writer of src/fixml-wr.c together: a document that is read and written again.
use libfixc.Base.{
  ℕ, zero, suc, ◌+◌, ◌*◌, ◌^◌, ◌≡◌, ◌≤◌, ◌<◌, ◌≢◌, refl, ap, arith, true, false, some, List, [],
  ◌∷◌, ◌++◌, Bytes, length, get_elem?,
}
use libfixc.Message.{Fld, Msg}
use libfixc.Engine.{Engine}
use libfixc.Fixup.{needs_fixup}
use libfixc.Writer.{render_fixml}
use libfixc.Writer.Nested.{IsTree, IsCtx, IsPrintable, Nested, shown}
use libfixc.Writer.Ends.{head, foot}
use libfixc.Writer.Document.{render_body-Nested}
use libfixc.Reader.Markup.{Item, text_size}
use libfixc.Reader.Document.{Document, document_events, document_items, IsUnderstood}
use libfixc.Reader.Told.{AreTexts, Told, told_none, told}
use libfixc.Reader.Kept.{AreDistinct, from_fixml-distinct}
use libfixc.Reader.{Parsed, from_fixml}

-- Items in contexts that an element can have.
unfoldable pub AreCtx : List Item → Type 0
AreCtx [] = Unit
AreCtx (i ∷ is) = IsCtx i.ctx × AreCtx is

length-Told : {b : Bytes} {is : List Item} {fs : List Fld} → Told b is fs → length fs ≡ length is
length-Told told_none = refl
length-Told (told i f t c n v rest) = ap suc (length-Told rest)

Told-IsPrintable :
    {b : Bytes} {is : List Item} {fs : List Fld}
    → Told b is fs
    → AreCtx is
    → (i : ℕ) (f : Fld) → get_elem? fs i ≡ some f
    → IsPrintable b f
unfolding AreCtx
Told-IsPrintable told_none cs i f at = cc
Told-IsPrintable {b = b} (told item g t c n v rest) (is_ctx, cs) zero f at =
    let same : g ≡ f = cc in
    let own : g.tpc ≡ item.ctx = omega (arith, c, is_ctx.short) in
    rw (← same) (record { ctx = rw own is_ctx; value = (item.val, v) })
Told-IsPrintable (told item g t c n v rest) (is_ctx, cs) (suc i) f at =
    Told-IsPrintable rest cs i f at

-- Fields with contexts are not fixed up.
Told-needs_fixup :
    {b : Bytes} {is : List Item} {fs : List Fld} → Told b is fs → AreCtx is → needs_fixup fs ≡ false
unfolding needs_fixup AreCtx
Told-needs_fixup told_none cs = refl
Told-needs_fixup (told i f t c n v rest) (is_ctx, cs) =
    let own : f.tpc ≢ 0 = omega (arith, c, is_ctx.short, is_ctx.nonzero) in ground arith

module _ (e : Engine) (ver mty : ℕ) (d : Document) (u : IsUnderstood e ver mty d)
    (expat : Bytes → Parsed) (doc : Bytes) (short : length doc < 2 ^ 60)
    (parsed : expat doc ≡ record { events = document_events d; whole = true }) where
  -- A text, shorter than 2^60 bytes, in which expat finds a document that the dictionary understands, with fewer
  -- than 21846 items and 2^60 bytes of values, in contexts of elements, no item having the tag of the one before
  -- it and no value a NUL in it, is read by `make_fixc_from_fixml` and written again by `fixc_render_fixml`,
  -- given a dictionary that the writer can follow: the message says what the items say, it is not fixed up, and every
  -- buffer with room for the new document and two bytes more gets the whole of it, well-nested elements with
  -- the fields that are shown as attributes, in the order of the text that was read, each in an element of its context.
  pub render_fixml-from_fixml :
      (rank : ℕ → ℕ) (size : ℕ)
      → IsTree e rank
      → 3 * length (document_items e mty d) < 2 ^ 16
      → text_size (document_items e mty d) < 2 ^ 60
      → AreDistinct 0 (document_items e mty d)
      → AreTexts (document_items e mty d)
      → AreCtx (document_items e mty d)
      → (m : Msg) × (body : Bytes) × (from_fixml e expat doc ≡ some (some m))
        × Told m.pr (document_items e mty d) m.flds
        × Nested e m.pr (shown e m.flds) body
        × ((cap : ℕ)
            → length (head m ++ body ++ foot m) + 2 ≤ cap
            → cap < 2 ^ 64
            → render_fixml e cap size m ≡ some (head m ++ body ++ foot m, m, size))
  unfolding render_fixml
  render_fixml-from_fixml rank size tree few small distinct ts cs =
      let (m, run, w, says) =
        from_fixml-distinct e ver mty d u expat doc short (omega (arith, few), small) parsed
          distinct ts in
      let printable = Told-IsPrintable says cs in
      let (body, nested, written) =
        render_body-Nested e rank m tree printable (omega (arith, few, length-Told says)) in
      (
        m,
        body,
        run,
        says,
        nested,
        λ cap room low. rw (Told-needs_fixup says cs, written cap room low),
      )
