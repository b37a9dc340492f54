-- ===== src/Tests/Cycle.antt =====
-- A FIXML document that is read and written again.
use libfixc.Base.{
  ℕ, ◌+◌, ◌*◌, ◌^◌, ◌≡◌, ◌≤◌, ◌<◌, ◌&&◌, refl, arith, some, [], ◌∷◌, ◌++◌, Bytes, length, ◌==◌,
  if◌then◌else◌,
}
use libfixc.Message.{Msg}
use libfixc.Version.{codes, equal, number, fixml_nsiddify, v50_sp2}
use libfixc.Engine.{Engine}
use libfixc.Writer.{tag_name, render_fixml}
use libfixc.Writer.Nested.{IsTree, Nested, shown, attr_name}
use libfixc.Writer.Ends.{head, foot}
use libfixc.Reader.Namespaces.{colon}
use libfixc.Reader.Markup.{
  no_elt, elt, attr_items, ctx_after, items, text_size, no_attr, known, all_read, familiar,
}
use libfixc.Reader.Head.{by_both}
use libfixc.Reader.Root.{fixml}
use libfixc.Reader.Document.{Document, document_items, IsUnderstood}
use libfixc.Reader.Told.{Told, end, next, AreTexts, no_text, next_text}
use libfixc.Reader.Kept.{AreDistinct, no_item, next_item}
use libfixc.Reader.Again.{AreCtx, render_fixml-from_fixml}
use libfixc.Reader.Context.{stand_for}
use libfixc.Reader.{from_fixml}
use libfixc.Tests.Contexts.{small, rank, small-IsTree}
use libfixc.Tests.Handling.{aid, order, five, knows}

-- Orders with parties.
abbrev both : Engine
both = record small {
  comp_rptb = λ c. 0;
  get_aid = λ ctx name len. if equal name (codes "R") then 448 else aid name;
  get_cid = λ ctx name len.
      if equal name fixml then 1 else if ctx == 0x4400 && equal name (codes "Pty") then 7 else 0;
  get_mty = λ name len. if equal name (codes "Order") then 0x4400 else 0;
}

both-IsTree : IsTree both rank
unfolding tag_name attr_name
both-IsTree = record {
  comp_sub = small-IsTree.comp_sub;
  parts = small-IsTree.parts;
  flat = small-IsTree.flat;
  low = small-IsTree.low;
  named = small-IsTree.named;
  attr_named = small-IsTree.attr_named;
}

abbrev traded : Document
traded = record order {
  attrs = (codes "ID", codes "7") ∷ [];
  kids = elt (codes "Pty") ((codes "R", codes "ME") ∷ []) no_elt no_elt;
}

traded-IsUnderstood : IsUnderstood both 8 0x4400 traded
unfolding fixml_nsiddify colon stand_for ctx_after equal number
traded-IsUnderstood = record {
  head_known = by_both {ver = v50_sp2} refl refl refl refl refl;
  root = refl;
  plain = refl;
  no_comp = refl;
  is_mty = refl;
  real = λ z. absurd (omega (arith, z));
  short = omega arith;
  uncounted = refl;
  attrs_known =
      known 11 refl refl (record { not_special = refl; not_type = refl }) (omega arith) no_attr;
  kids_known =
      familiar 7 refl refl (λ z. absurd (omega (arith, z))) (λ z. absurd (omega (arith, z))) refl
        (known 448 refl refl (record { not_special = refl; not_type = refl }) (omega arith) no_attr)
        all_read all_read;
}

small_enough :
    (3 * length (document_items both 0x4400 traded) < 2 ^ 16)
    × (text_size (document_items both 0x4400 traded) < 2 ^ 60)
unfolding document_items attr_items items ctx_after text_size stand_for equal
small_enough = (omega arith, omega arith)

traded-AreDistinct : AreDistinct 0 (document_items both 0x4400 traded)
unfolding document_items attr_items items ctx_after stand_for equal
traded-AreDistinct = next_item _ (omega arith) (next_item _ (omega arith) no_item)

traded-AreTexts : AreTexts (document_items both 0x4400 traded)
unfolding document_items attr_items items ctx_after stand_for equal
traded-AreTexts =
    next_text _ (next (omega arith) end)
      (next_text _ (next (omega arith) (next (omega arith) end)) no_text)

traded-AreCtx : AreCtx (document_items both 0x4400 traded)
unfolding document_items attr_items items ctx_after stand_for equal AreCtx
traded-AreCtx = (
  record { nonzero = omega arith; short = omega arith; single = omega arith },
  (record { nonzero = omega arith; short = omega arith; single = omega arith }, tt),
)

render_fixml-from_fixml_example :
    (m : Msg) × (body : Bytes) × (from_fixml both (knows traded) five ≡ some (some m))
    × Told m.pr (document_items both 0x4400 traded) m.flds
    × Nested both m.pr (shown both m.flds) body
    × ((cap : ℕ)
        → length (head m ++ body ++ foot m) + 2 ≤ cap
        → cap < 2 ^ 64
        → render_fixml both cap 0 m ≡ some (head m ++ body ++ foot m, m, 0))
render_fixml-from_fixml_example =
    render_fixml-from_fixml both 8 0x4400 traded traded-IsUnderstood (knows traded) five
      (omega arith) refl rank 0 both-IsTree small_enough.0 small_enough.1 traded-AreDistinct
      traded-AreTexts traded-AreCtx
