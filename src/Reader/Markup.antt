-- ===== src/Reader/Markup.antt =====
-- What a FIXML document says, for a reader that has a dictionary: elements as a tree, and the fields that
-- their attributes stand for, in the order of the text. This is without cells, handlers or a message's storage.
use libfixc.Base.{
  ℕ, suc, ◌+◌, ◌%◌, ◌^◌, ◌≡◌, ◌<◌, ◌≢◌, none, List, [], ◌∷◌, ◌++◌, Bytes, length, drop_last, ◌==◌,
  if◌then◌else◌,
}
use libfixc.Message.{Fld}
use libfixc.Message.Typ
use libfixc.Edit.Text.{IsPlain}
use libfixc.Edit.View.{View}
use libfixc.Engine.{Engine}
use libfixc.Reader.Namespaces.{colon}
use libfixc.Reader.Context.{stand_for}
use libfixc.Reader.{Event, elt_start, elt_end, comp_fixml, attr_v}

-- A sequence of elements: the name, attributes and elements of the first, and those behind it.
pub data Elements : Type 0 where
  no_elt : Elements
  elt : Bytes → List (Bytes × Bytes) → Elements → Elements → Elements

-- What expat reports of them.
unfoldable pub events_of : Elements → List Event
events_of no_elt = []
events_of (elt name attrs kids rest) =
    elt_start name attrs ∷ (events_of kids ++ (elt_end name ∷ events_of rest))

-- What an attribute says: a tag, its context, its number in its element, and the value.
pub record Item : Type 0 where
  pub tag : ℕ
  pub ctx : ℕ
  pub num : ℕ
  pub val : Bytes

-- The attributes of an element of context `c` from the `n`-th field on, and the context that they make of `c`.
unfoldable pub attr_items : Engine → ℕ → ℕ → List (Bytes × Bytes) → List Item
attr_items e c n [] = []
attr_items e c n ((name, val) ∷ attrs) =
    let tag = e.get_aid c name (length name) in
    let rest = attr_items e (stand_for e c) (n + 1) attrs in
    let skipped = attr_items e c n attrs in
    if tag == 0
    then skipped
    else record { tag = tag; ctx = stand_for e c; num = n; val = val } ∷ rest

unfoldable pub ctx_after : Engine → ℕ → List (Bytes × Bytes) → ℕ
ctx_after e c [] = c
ctx_after e c ((name, val) ∷ attrs) =
    let rest = ctx_after e (stand_for e c) attrs in
    let skipped = ctx_after e c attrs in
    if e.get_aid c name (length name) == 0 then skipped else rest

-- The elements in an element of context `c`.
unfoldable pub items : Engine → ℕ → Elements → List Item
items e c no_elt = []
items e c (elt name attrs kids rest) =
    let d = e.get_cid c name (length name) in
    attr_items e d 0 attrs ++ (items e (ctx_after e d attrs) kids ++ items e c rest)

-- The tag of the last field, 0 where there is none.
unfoldable pub last_of : List Fld → ℕ
last_of [] = 0
last_of (f ∷ []) = f.tag
last_of (f ∷ g ∷ fs) = last_of (g ∷ fs)

-- A last field of the same tag is replaced, and its text stays where it is.
unfoldable pub drop_same : ℕ → View → View
drop_same tag v = if last_of v.flds == tag then record v { flds = drop_last v.flds } else v

abbrev pub item_fld : Item → ℕ → Fld
item_fld i pos = record {
  tag = i.tag;
  typ = Typ.off;
  tpc = i.ctx % 2 ^ 16;
  cnt = i.num % 2 ^ 16;
  val = pos;
}

abbrev pub append_item : Item → View → View
append_item i v = record v {
  flds = v.flds ++ (item_fld i (length v.values) ∷ []);
  values = v.values ++ (i.val ++ 0 ∷ []);
}

unfoldable pub put_item : Item → View → View
put_item i v = append_item i (drop_same i.tag v)

unfoldable pub put_items : List Item → View → View
put_items [] v = v
put_items (i ∷ is) v = put_items is (put_item i v)

-- The bytes that the values take.
unfoldable pub text_size : List Item → ℕ
text_size [] = 0
text_size (i ∷ is) = length i.val + 1 + text_size is

-- What the reader understands in full: names without a prefix, attributes that the dictionary does not know or has
-- a usual tag for, elements that it knows below the one they are in, no counted repeating block among them, nested
-- no deeper than `k`.
pub data AreKnown (e : Engine) : ℕ → List (Bytes × Bytes) → Type 0 where
  no_attr : {c : ℕ} → AreKnown e c []
  unknown :
      {c : ℕ} {name val : Bytes} {attrs : List (Bytes × Bytes)}
      → colon name ≡ none
      → e.get_aid c name (length name) ≡ 0
      → AreKnown e c attrs
      → AreKnown e c ((name, val) ∷ attrs)
  known :
      {c : ℕ} {name val : Bytes} {attrs : List (Bytes × Bytes)} (tag : ℕ)
      → colon name ≡ none
      → e.get_aid c name (length name) ≡ tag
      → IsPlain tag
      → tag < attr_v
      → AreKnown e (stand_for e c) attrs
      → AreKnown e c ((name, val) ∷ attrs)

pub data IsFamiliar (e : Engine) : ℕ → ℕ → Elements → Type 0 where
  all_read : {k c : ℕ} → IsFamiliar e k c no_elt
  familiar :
      {k c : ℕ} {name : Bytes} {attrs : List (Bytes × Bytes)} {kids rest : Elements} (d : ℕ)
      → colon name ≡ none
      → e.get_cid c name (length name) ≡ d
      → d ≢ 0
      → d ≢ comp_fixml
      → e.comp_rptb d ≡ 0
      → AreKnown e d attrs
      → IsFamiliar e k (ctx_after e d attrs) kids
      → IsFamiliar e (suc k) c rest
      → IsFamiliar e (suc k) c (elt name attrs kids rest)
