-- ===== src/Edit/Batch.antt =====
-- Adding a second message type: `fixc_add_fld` turns the message into a batch, with the old type as its
-- first field. The index at which the new type goes is computed before the old one is put in.
use libfixc.Base.{
  suc, ◌≡◌, ◌≢◌, ap, ◌∙◌, arith, some, true, List, ◌∷◌, [], ◌++◌, length, insert_at,
  insert_at-append, length-append,
}
use libfixc.Message.{Fld, Msg, nflds, low32, msgt_batch}
use libfixc.Message.Tag
use libfixc.Message.Typ
use libfixc.Storage.Grow.{IsSmall}
use libfixc.Edit.{ok, add_fld}
use libfixc.Edit.View.{View, view, has_type, demote, put, add_fld_spec}
use libfixc.Edit.Valid.{IsWell}
use libfixc.Edit.Refine.{add_fld_at_refines}

module _ (m : Msg) (fld : Fld) (kind : fld.tag ≡ Tag.msg_type) (storable : fld.typ ≢ Typ.off)
    (own : has_type (view m) ≡ true) where
  spec_second_type : add_fld_spec (view m) fld (nflds m) ≡ (ok, put (demote (view m)) fld (nflds m))
  unfolding add_fld_spec
  spec_second_type = ground arith

second :
    (l fs : List Fld) (g fld f : Fld)
    → l ≡ fs ++ f ∷ []
    → insert_at (g ∷ l) (length l) fld ≡ g ∷ (fs ++ (fld ∷ f ∷ []))
second l fs g fld f e =
    let n : length l ≡ suc (length fs) = rw e (omega (arith, length-append fs (f ∷ []))) in
    rw (n, e) (ap (◌∷◌ g) (insert_at-append fs f fld))

-- To a well-formed message of its own type with fields `fs` and a last field `f`, with sizes far below
-- the address space, `fixc_add_fld` adds a second type in front of `f`, not behind it; the message
-- becomes a batch that begins with its old type.
pub add_fld_second_type :
    (m : Msg) (fld : Fld) (fs : List Fld) (f : Fld)
    → IsWell m
    → IsSmall m 2 0
    → fld.tag ≡ Tag.msg_type
    → fld.typ ≢ Typ.off
    → has_type (view m) ≡ true
    → m.flds ≡ fs ++ f ∷ []
    → (m' : Msg) × (add_fld m fld ≡ some (ok, m'))
      × (low32 m'.f35 ≡ msgt_batch)
      × (m'.flds ≡ record m.f35 { cnt = 0; tpc = msgt_batch } ∷ (fs ++ (fld ∷ f ∷ [])))
unfolding add_fld
add_fld_second_type m fld fs f w small kind storable own flds =
    let (m', e, _, v) = add_fld_at_refines m fld (nflds m) w small in
    let s = spec_second_type m fld kind storable own in
    let after : view m' ≡ put (demote (view m)) fld (nflds m) = v ∙ ap (λ r. r.1) s in
    (
      m',
      e ∙ ap (λ r. some (r.0, m')) s,
      ap (λ (x : View). low32 x.f35) after ∙ rw own (omega arith),
      ap (λ (x : View). x.flds) after ∙ rw own (second m.flds fs _ fld f flds),
    )
