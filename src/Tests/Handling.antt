-- ===== src/Tests/Handling.antt =====
-- FIXML documents that are read, with a dictionary of one message and one component.
use libfixc.Base.{
  ℕ, ◌+◌, ◌≡◌, ◌&&◌, ◌||◌, not, ◌<◌, ◌≤◌, ◌^◌, refl, arith, true, false, some, List, [], ◌∷◌, Bytes,
  length, ◌==◌, if◌then◌else◌,
}
use libfixc.Message.{Msg, nflds}
use libfixc.Edit.View.{view}
use libfixc.Edit.Valid.{IsWell}
use libfixc.Version.{codes, equal, number, fixml_nsiddify, v50_sp2}
use libfixc.Engine.{Engine, husks}
use libfixc.Reader.Namespaces.{colon}
use libfixc.Reader.Markup.{
  Elements, no_elt, elt, attr_items, ctx_after, items, put_items, text_size, no_attr, unknown,
  known, IsFamiliar, all_read, familiar,
}
use libfixc.Reader.Head.{by_both}
use libfixc.Reader.Root.{fixml}
use libfixc.Reader.Document.{
  Document, document_events, document_items, typed_husk, IsUnderstood, from_fixml-document,
}
use libfixc.Reader.Told.{Told, end, next, AreTexts, no_text, next_text}
use libfixc.Reader.Kept.{
  AreDistinct, no_item, next_item, AreOf, from_fixml-distinct, from_fixml-same,
}
use libfixc.Reader.Context.{stand_for}
use libfixc.Reader.{Event, Parsed, from_fixml}

abbrev pub aid : Bytes → ℕ
aid name =
    if equal name (codes "xmlns")
    then 65535
    else if equal name (codes "v")
    then 65534
    else if equal name (codes "ID")
    then 11
    else if equal name (codes "Px")
    then 44
    else if equal name (codes "Sym")
    then 55
    else 0

abbrev cid : ℕ → Bytes → ℕ
cid ctx name =
    if equal name fixml
    then 1
    else if not (ctx == 0 || ctx == 1) && equal name (codes "Instrmt")
    then 300
    else 0

abbrev pub dictionary : Engine
dictionary = record husks {
  get_aid = λ ctx name len. aid name;
  get_cid = λ ctx name len. cid ctx name;
  get_mty = λ name len. if equal name (codes "Order") then 68 else 0;
}

abbrev pub instrument : Bytes → Elements → Elements
instrument sym rest = elt (codes "Instrmt") ((codes "Sym", sym) ∷ []) no_elt rest

abbrev pub order : Document
order = record {
  head =
      (codes "xmlns", codes "http://www.fixprotocol.org/FIXML-5-0-SP2")
      ∷ (codes "v", codes "5.0 SP2")
      ∷ [];
  name = codes "Order";
  attrs = (codes "ID", codes "7") ∷ (codes "Side", codes "1") ∷ (codes "Px", codes "1.5") ∷ [];
  kids = instrument (codes "AB") no_elt;
}

-- An expat that knows one document.
abbrev pub knows : Document → Bytes → Parsed
knows d doc =
    if length doc == 5
    then record { events = document_events d; whole = true }
    else record { events = []; whole = false }

abbrev pub knows_events : List Event → Bytes → Parsed
knows_events evs doc = record { events = evs; whole = true }

order-IsUnderstood : IsUnderstood dictionary 8 68 order
unfolding fixml_nsiddify colon stand_for ctx_after equal number husks
order-IsUnderstood = record {
  head_known = by_both {ver = v50_sp2} refl refl refl refl refl;
  root = refl;
  plain = refl;
  no_comp = refl;
  is_mty = refl;
  real = λ z. absurd (omega (arith, z));
  short = omega arith;
  uncounted = refl;
  attrs_known =
      known 11 refl refl (record { not_special = refl; not_type = refl }) (omega arith)
        (unknown refl refl (
          known 44 refl refl (record { not_special = refl; not_type = refl }) (omega arith)
            no_attr));
  kids_known =
      familiar 300 refl refl (λ z. absurd (omega (arith, z))) (λ z. absurd (omega (arith, z))) refl
        (known 55 refl refl (record { not_special = refl; not_type = refl }) (omega arith) no_attr)
        all_read all_read;
}

few_items :
    (length (document_items dictionary 68 order) + 1 ≤ 2 ^ 56)
    × (text_size (document_items dictionary 68 order) < 2 ^ 60)
unfolding document_items attr_items items ctx_after text_size stand_for equal
few_items = (omega arith, omega arith)

abbrev pub five : Bytes
five = codes "<...>"

order_texts : AreTexts (document_items dictionary 68 order)
unfolding document_items attr_items items ctx_after stand_for equal
order_texts = next_text _ (next (omega arith) end) (
    next_text _ (next (omega arith) (next (omega arith) (next (omega arith) end)))
      (next_text _ (next (omega arith) (next (omega arith) end)) no_text))

order_distinct : AreDistinct 0 (document_items dictionary 68 order)
unfolding document_items attr_items items ctx_after stand_for equal
order_distinct =
    next_item _ (omega arith) (next_item _ (omega arith) (next_item _ (omega arith) no_item))

from_fixml-document_example :
    (m : Msg) × (from_fixml dictionary (knows order) five ≡ some (some m))
    × IsWell m
    × (view m ≡ put_items (document_items dictionary 68 order) (view (typed_husk 8 68 5)))
from_fixml-document_example =
    from_fixml-document dictionary 8 68 5 order order-IsUnderstood (omega arith) few_items
      (knows order) five refl refl

from_fixml-distinct_example :
    (m : Msg) × (from_fixml dictionary (knows order) five ≡ some (some m))
    × IsWell m
    × Told m.pr (document_items dictionary 68 order) m.flds
from_fixml-distinct_example =
    from_fixml-distinct dictionary 8 68 order order-IsUnderstood (knows order) five (omega arith)
      few_items refl order_distinct order_texts

-- Two instruments with one attribute each.
abbrev twins : Document
twins = record order { attrs = []; kids = instrument (codes "AB") (instrument (codes "CD") no_elt) }

pub twins-IsUnderstood : IsUnderstood dictionary 8 68 twins
unfolding fixml_nsiddify colon stand_for ctx_after equal number husks
twins-IsUnderstood = record {
  head_known = order-IsUnderstood.head_known;
  root = refl;
  plain = refl;
  no_comp = refl;
  is_mty = refl;
  real = order-IsUnderstood.real;
  short = omega arith;
  uncounted = refl;
  attrs_known = no_attr;
  kids_known = one_more (codes "AB") refl (one_more (codes "CD") refl all_read);
}
  where
    one_more :
        (sym : Bytes)
        → sym ≡ sym
        → {rest : Elements} → IsFamiliar dictionary 13 68 rest
        → IsFamiliar dictionary 13 68 (instrument sym rest)
    one_more sym _ rest =
        familiar 300 refl refl (λ z. absurd (omega (arith, z))) (λ z. absurd (omega (arith, z)))
          refl
          (known 55 refl refl (record { not_special = refl; not_type = refl }) (omega arith)
            no_attr)
          all_read rest

few_twins :
    (length (document_items dictionary 68 twins) + 1 ≤ 2 ^ 56)
    × (text_size (document_items dictionary 68 twins) < 2 ^ 60)
unfolding document_items attr_items items ctx_after text_size stand_for equal
few_twins = (omega arith, omega arith)

from_fixml-same_example :
    (m : Msg) × (from_fixml dictionary (knows twins) five ≡ some (some m)) × (nflds m ≡ 1)
unfolding document_items attr_items items ctx_after stand_for equal AreOf husks
from_fixml-same_example =
    from_fixml-same dictionary 8 68 twins twins-IsUnderstood (knows twins) five (omega arith)
      few_twins refl 55 (λ z. absurd (omega (arith, z))) refl (refl, (refl, tt))
