-- ===== src/Reader/Ends.antt =====
-- The beginning and the end of a message in a FIXML document, and the end of the document's element.
use libfixc.Base.{ℕ, ◌≡◌, ◌≢◌, refl, arith, true, false, none, List, [], ◌∷◌, Bytes, length, ◌==◌}
use libfixc.Message.{low32}
use libfixc.Edit.View.{view}
use libfixc.Engine.{Engine}
use libfixc.Reader.Namespaces.{colon}
use libfixc.Reader.Moves.{IsStack-pop_state, old_otag_lem, below_otag, otag_now_lem}
use libfixc.Reader.Stack.{OpenElt}
use libfixc.Reader.Attributes.{IsReading, Reads}
use libfixc.Reader.Steps.{el_sta_ours, el_end_ours}
use libfixc.Reader.Context.{Ctx}
use libfixc.Reader.{
  comp_fixml, set_type, note_type, open_elt, bo_fixml_elt, eo_fixml_elt, el_sta, el_end,
}
use libfixc.Reader.Root.{fixml}

-- The beginning of the message.
module _ (e : Engine) (name : Bytes) (attrs : List (Bytes × Bytes)) (mty : ℕ) (ctx : Ctx)
    (r : IsReading (record { otag = comp_fixml; cnt = 0 } ∷ []) ctx) (plain : colon name ≡ none)
    (no_comp : e.get_cid comp_fixml name (length name) ≡ 0)
    (is_mty : e.get_mty name (length name) ≡ mty) (real : mty ≢ 0) where
  pub message_run :
      el_sta e name attrs ctx ≡ open_elt e mty attrs (record ctx { msg = set_type mty ctx.msg })
  unfolding bo_fixml_elt note_type
  message_run =
      let not_0 : (mty == 0) ≡ false = ground arith in
      rw (el_sta_ours name plain e ctx r.plain attrs, otag_now_lem r.stack, no_comp, is_mty, not_0)

-- The ends of the message and of the first element.
pub message_end :
    (e : Engine) (name : Bytes) (mty : ℕ) {f : OpenElt} (ctx : Ctx)
    → IsReading (f ∷ record { otag = comp_fixml; cnt = 0 } ∷ []) ctx
    → colon name ≡ none
    → e.get_cid comp_fixml name (length name) ≡ 0
    → e.get_mty name (length name) ≡ mty
    → mty ≢ 0
    → low32 ctx.msg.f35 ≡ mty
    → Reads (el_end e name ctx) (record { otag = comp_fixml; cnt = 0 } ∷ []) (view ctx.msg)
unfolding eo_fixml_elt below_otag
message_end e name mty ctx r plain no_comp is_mty real same =
    let not_0 : (mty == 0) ≡ false = ground arith in
    let own : (mty == low32 ctx.msg.f35) ≡ true = ground arith in
    let (p, pop, s) = IsStack-pop_state r.stack in
    (
      record ctx { pool = p },
      rw (
        el_end_ours name plain e ctx r.plain,
        old_otag_lem r.stack,
        no_comp,
        is_mty,
        not_0,
        own,
        pop,
      ),
      record { plain = r.plain; stack = s; read = r.read },
      refl,
    )

pub root_end :
    (e : Engine) (ctx : Ctx) {f : OpenElt}
    → IsReading (f ∷ []) ctx
    → e.get_cid 0 fixml 5 ≡ comp_fixml
    → Reads (el_end e fixml ctx) [] (view ctx.msg)
unfolding eo_fixml_elt below_otag colon
root_end e ctx r root =
    let (p, pop, s) = IsStack-pop_state r.stack in
    (
      record ctx { pool = p },
      rw (el_end_ours fixml refl e ctx r.plain, old_otag_lem r.stack, root, pop),
      record { plain = r.plain; stack = s; read = r.read },
      refl,
    )
