-- ===== src/Reader/Kept.antt =====
-- What is kept of a FIXML document: all of it where no field follows one of the same tag, and the last of fields
-- that all have the same tag.
use libfixc.Base.{
  ℕ, ◌+◌, ◌^◌, ◌≡◌, ◌≤◌, ◌<◌, ◌≢◌, refl, ap, sym, ◌∙◌, arith, true, false, some, List, [], ◌∷◌,
  ◌++◌, append_assoc, append-nil, Bytes, length, take, drop, ◌==◌, length-append, take-append-drop,
}
use libfixc.Message.{Fld, Msg, nflds}
use libfixc.Edit.View.{View, view}
use libfixc.Edit.Valid.{IsWell}
use libfixc.Engine.{Engine}
use libfixc.Reader.Markup.{
  Item, item_fld, last_of, drop_same, append_item, put_item, put_items, text_size,
}
use libfixc.Reader.Document.{
  Document, document_events, document_items, typed_husk, IsUnderstood, from_fixml-document,
}
use libfixc.Reader.{Parsed, from_fixml, fixml_husk}
use libfixc.Reader.Told.{AreTexts, fields_from, texts, Told, Told-fields_from}

-- Each tag is another than that of the field before it.
pub data AreDistinct : ℕ → List Item → Type 0 where
  no_item : {t : ℕ} → AreDistinct t []
  next_item :
      {t : ℕ} {is : List Item} (i : Item)
      → i.tag ≢ t
      → AreDistinct i.tag is
      → AreDistinct t (i ∷ is)

last_of-append : (fs : List Fld) (f : Fld) → last_of (fs ++ f ∷ []) ≡ f.tag
unfolding last_of
last_of-append [] f = refl
last_of-append (x ∷ []) f = refl
last_of-append (x ∷ y ∷ fs) f = last_of-append (y ∷ fs) f

put_item_kept : (i : Item) (v : View) → i.tag ≢ last_of v.flds → put_item i v ≡ append_item i v
unfolding put_item drop_same
put_item_kept i v other = let kept : (last_of v.flds == i.tag) ≡ false = ground arith in rw kept

-- The fields and the values of items behind others.
extended : View → List Item → View
extended v is = record v {
  flds = v.flds ++ fields_from (length v.values) is;
  values = v.values ++ texts is;
}

extended-append_item :
    (i : Item) (is : List Item) (v : View) → extended (append_item i v) is ≡ extended v (i ∷ is)
unfolding extended fields_from texts
extended-append_item i is v =
    let size : length (v.values ++ (i.val ++ 0 ∷ [])) ≡ length v.values + (length i.val + 1) =
      omega (arith, length-append v.values (i.val ++ 0 ∷ []), length-append i.val (0 ∷ [])) in
    rw (
      size,
      append_assoc v.flds (item_fld i (length v.values) ∷ [])
          (fields_from (length v.values + (length i.val + 1)) is),
      append_assoc v.values (i.val ++ 0 ∷ []) (texts is),
      append_assoc i.val (0 ∷ []) (texts is),
    )

put_items_distinct :
    (is : List Item) (v : View) → AreDistinct (last_of v.flds) is → put_items is v ≡ extended v is
unfolding put_items extended fields_from texts
put_items_distinct [] v d =
    λ i. record v { flds = sym (append-nil v.flds) i; values = sym (append-nil v.values) i }
put_items_distinct (i ∷ is) v (next_item _ other d) =
    let last = last_of-append v.flds (item_fld i (length v.values)) in
    let rest = put_items_distinct is (append_item i v) (rw last d) in
    ap (put_items is) (put_item_kept i v other) ∙ (rest ∙ extended-append_item i is v)

-- A message of the view that some items make of an empty one.
Told-view :
    (m : Msg) (is : List Item) (v : View)
    → AreTexts is
    → v.flds ≡ []
    → v.values ≡ []
    → view m ≡ extended v is
    → Told m.pr is m.flds
unfolding extended
Told-view m is v ts no_flds no_values e =
    let values : take m.pz m.pr ≡ texts is = ap (λ (x : View). x.values) e ∙ rw no_values in
    let flds : m.flds ≡ fields_from 0 is = ap (λ (x : View). x.flds) e ∙ rw (no_flds, no_values) in
    let bytes : texts is ++ drop m.pz m.pr ≡ m.pr =
      ap (λ x. x ++ drop m.pz m.pr) (sym values) ∙ take-append-drop m.pz m.pr in
    let all : Told (texts is ++ drop m.pz m.pr) is (fields_from 0 is) =
      Told-fields_from [] (drop m.pz m.pr) is ts in
    rw flds (rw bytes at all)

-- Fields that all have one tag: each takes the place of the one before.
unfoldable pub AreOf : ℕ → List Item → Type 0
AreOf t [] = Unit
AreOf t (i ∷ is) = (i.tag ≡ t) × AreOf t is

put_item_same :
    (i : Item) (t : ℕ) (v : View) {f : Fld}
    → i.tag ≡ t
    → v.flds ≡ f ∷ []
    → f.tag ≡ t
    → (put_item i v).flds ≡ item_fld i (length v.values) ∷ []
unfolding put_item drop_same last_of
put_item_same i t v {f = f} is_t one same =
    let dropped : (f.tag == i.tag) ≡ true = ground (arith, is_t, same) in rw (one, dropped)

put_items_same :
    (is : List Item) (t : ℕ) (v : View) {f : Fld}
    → AreOf t is
    → v.flds ≡ f ∷ []
    → f.tag ≡ t
    → length (put_items is v).flds ≡ 1
unfolding put_items AreOf
put_items_same [] t v of_t one same = ap length one
put_items_same (i ∷ is) t v (is_t, of_t) one same =
    put_items_same is t (put_item i v) of_t (put_item_same i t v is_t one same) is_t

module _ (e : Engine) (ver mty : ℕ) (d : Document) (u : IsUnderstood e ver mty d)
    (expat : Bytes → Parsed) (doc : Bytes) (few : length doc < 2 ^ 60)
    (bounded : (length (document_items e mty d) + 1 ≤ 2 ^ 56)
      × (text_size (document_items e mty d) < 2 ^ 60))
    (parsed : expat doc ≡ record { events = document_events d; whole = true }) where
  -- Where no item of such a document has the tag of the one before it, and no value a NUL in it, nothing is
  -- lost: the message has a field for each item, in order, with its tag, context and number, and the field's text is the
  -- item's value.
  pub from_fixml-distinct :
      AreDistinct 0 (document_items e mty d)
      → AreTexts (document_items e mty d)
      → (m : Msg) × (from_fixml e expat doc ≡ some (some m))
        × IsWell m
        × Told m.pr (document_items e mty d) m.flds
  unfolding fixml_husk last_of
  from_fixml-distinct distinct ts =
      let v = view (typed_husk ver mty (length doc)) in
      let (m, run, w, same) =
        from_fixml-document e ver mty (length doc) d u few bounded expat doc refl parsed in
      (
        m,
        run,
        w,
        Told-view m (document_items e mty d) v ts refl refl
            (same ∙ put_items_distinct (document_items e mty d) v distinct),
      )

  -- Where all items of such a document, one at least, have the same tag, the message has one field, however
  -- many elements they come from.
  pub from_fixml-same :
      (t : ℕ) {i : Item} {is : List Item}
      → t ≢ 0
      → document_items e mty d ≡ i ∷ is
      → AreOf t (i ∷ is)
      → (m : Msg) × (from_fixml e expat doc ≡ some (some m)) × (nflds m ≡ 1)
  unfolding fixml_husk last_of AreOf put_items
  from_fixml-same t {i = i} {is = is} real items_are (is_t, of_t) =
      let v = view (typed_husk ver mty (length doc)) in
      let (m, run, w, same) =
        from_fixml-document e ver mty (length doc) d u few bounded expat doc refl parsed in
      let first : put_item i v ≡ append_item i v = put_item_kept i v (ground (arith, is_t)) in
      let one = put_items_same is t (put_item i v) of_t (ap (λ (x : View). x.flds) first) is_t in
      (m, run, ap (λ (x : View). length x.flds) (same ∙ ap (λ x. put_items x v) items_are) ∙ one)
