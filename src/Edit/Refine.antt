-- ===== src/Edit/Refine.antt =====
-- On every branch `fixc_add_fld_at` and `fixc_add_tag_at` return what the specification of `View`
-- says, with no fault, and leave a well-formed message of the specified view.
use libfixc.Base.{
  ℕ, ◌+◌, ◌≡◌, refl, ap, ◌∙◌, arith, Bool-cases, some, ◌≢◌, [], ◌∷◌, Bytes, length, ◌==◌, ltb, inl,
  inr, true, false,
}
use libfixc.Message.{Fld, Msg, nflds, low32, msgt_unk, msgt_batch}
use libfixc.Message.Tag
use libfixc.Message.Typ
use libfixc.Storage.Grow.{IsValid, IsSmall}
use libfixc.Edit.{
  ok, err, insert_fld, add_type, add_by_tag, add_fld_body, add_fld_at, insert_tag, add_type_tag,
  add_tag_at, set_mtyp,
}
use libfixc.Edit.View.{
  view, has_type, put, put_text, IsTyped, add_type_spec, add_by_tag_spec, add_fld_spec, is_special,
  add_type_tag_spec, add_tag_spec,
}
use libfixc.Edit.Valid.{
  IsWell, Gives, Gives-insert, Gives-insert_tag, Gives-nested, add_fld_at_ends,
}

-- The test of the type slot, where it is neither empty nor a batch.
own_type :
    (m : Msg)
    → (low32 m.f35 == msgt_unk) ≡ false
    → (low32 m.f35 == msgt_batch) ≡ false
    → (low32 m.f35 ≢ msgt_unk) × (has_type (view m) ≡ true)
own_type m old own = (ground arith, rw (old, own))

module _ (m : Msg) (fld : Fld) (idx : ℕ) (w : IsWell m) (small : IsSmall m 2 0) where
  insert : Gives (insert_fld m fld idx) (ok, put (view m) fld idx)
  insert = Gives-insert m fld idx w (omega (arith, small))

  slot_in : (m' : Msg) → IsValid m' → m'.f35 ≡ m.f35 → IsWell m'
  slot_in m' v e = record { storage = v; typed = rw e w.typed }

  type_refines :
      fld.tag ≡ Tag.msg_type
      → fld.typ ≢ Typ.off
      → Gives (add_type add_fld_at m fld idx) (add_type_spec (view m) fld idx)
  unfolding add_type
  type_refines t o = elim (Bool-cases (low32 m.f35 == msgt_unk)) [
    | inl fresh ↦ rw fresh (
      record m { f35 = fld },
      refl,
      record { storage = valid; typed = record { tag_is = λ _. t; typ_is = λ _. o } },
      refl,
    )
    | inr old ↦ rw old (elim (Bool-cases (low32 m.f35 == msgt_batch)) [
      | inl batch ↦ rw batch insert
      | inr own ↦
          let (typed, h) = own_type m old own in
          let (n, e, w', v, s) = Gives-nested m w typed small h in
          let (n', e', w'', v') = Gives-insert n fld idx w' s in
          rw own (n', rw e e', w'', v' ∙ (ap (λ x. put x fld idx) v ∙ rw (old, own)))
    ])
  ]
    where
      valid : IsValid (record m { f35 = fld })
      valid = omega arith

  refused : Gives (some (err, m)) (err, view m)
  refused = (m, refl, w, refl)

  by_tag_refines :
      fld.typ ≢ Typ.off
      → fld.tag ≢ Tag.unk
      → Gives (add_by_tag add_fld_at m fld idx) (add_by_tag_spec (view m) fld idx)
  unfolding add_by_tag
  by_tag_refines o known = elim (Bool-cases (fld.tag == Tag.msg_type)) [
    | inl is_type ↦
        let not_8 : (fld.tag == Tag.begin_string) ≡ false = ground arith in
        let not_9 : (fld.tag == Tag.body_length) ≡ false = ground arith in
        let not_10 : (fld.tag == Tag.check_sum) ≡ false = ground arith in
        let not_0 : (fld.tag == Tag.unk) ≡ false = ground arith in
        rw (is_type, not_0, not_8, not_9, not_10) (type_refines (ground arith) o)
    | inr other ↦
        let not_0 : (fld.tag == Tag.unk) ≡ false = ground arith in
        rw (not_0, other)
          (elim (Bool-cases (fld.tag == Tag.begin_string)) [
            | inl e ↦ rw e (record m { f8 = fld }, refl, slot_in _ (omega arith) refl, refl)
            | inr not_8 ↦ rw not_8 (elim (Bool-cases (fld.tag == Tag.body_length)) [
              | inl e ↦ rw e (record m { f9 = fld }, refl, slot_in _ (omega arith) refl, refl)
              | inr not_9 ↦ rw not_9 (elim (Bool-cases (fld.tag == Tag.check_sum)) [
                | inl e ↦ rw e (record m { f10 = fld }, refl, slot_in _ (omega arith) refl, refl)
                | inr not_10 ↦ rw not_10 insert
              ])
            ])
          ])
  ]

  no_tag : (fld.tag == Tag.unk) ≡ true → add_by_tag add_fld_at m fld idx ≡ some (err, m)
  unfolding add_by_tag
  no_tag e = rw e

  -- On a well-formed message, with sizes far below the address space, `fixc_add_fld_at` returns -1
  -- exactly where the specification does, and otherwise puts the field where the specification does; it
  -- does not leave the message's block, and keeps the message well-formed.
  pub add_fld_at_refines : Gives (add_fld_at m fld idx) (add_fld_spec (view m) fld idx)
  unfolding add_fld_body add_fld_spec
  add_fld_at_refines =
      rw (add_fld_at_ends add_fld_at add_fld_at m fld idx).2
        (elim (Bool-cases (fld.typ == Typ.off)) [
          | inl e ↦ rw e refused
          | inr stored ↦ rw stored (elim (Bool-cases (ltb (nflds m) idx)) [
            | inl e ↦ rw e refused
            | inr inside ↦ rw inside (elim (Bool-cases (fld.tag == Tag.unk)) [
              | inl e ↦ rw (e, no_tag e) refused
              | inr known ↦ rw known (by_tag_refines (ground arith) (ground arith))
            ])
          ])
        ])

module _ (m : Msg) (tag : ℕ) (val : Bytes) (idx : ℕ) (w : IsWell m)
    (small : IsSmall m 2 (length val + 1)) where
  insert_tag_refines : Gives (insert_tag m tag val idx) (ok, put_text (view m) tag val idx)
  insert_tag_refines = Gives-insert_tag m tag val idx w (omega (arith, small))

  IsTyped-set_mtyp :
      (f : Fld) (v : Bytes) → f.tag ≡ Tag.msg_type → f.typ ≢ Typ.off → IsTyped (set_mtyp f v)
  unfolding set_mtyp
  IsTyped-set_mtyp f [] t o = record { tag_is = λ _. t; typ_is = λ _. o }
  IsTyped-set_mtyp f (x ∷ []) t o = record { tag_is = λ _. t; typ_is = λ _. o }
  IsTyped-set_mtyp f (x ∷ y ∷ []) t o = record { tag_is = λ _. t; typ_is = λ _. o }
  IsTyped-set_mtyp f (x ∷ y ∷ z ∷ r) t o = record { tag_is = λ _. t; typ_is = λ _. o }

  type_tag_refines : Gives (add_type_tag m tag val idx) (add_type_tag_spec (view m) tag val idx)
  unfolding add_type_tag
  type_tag_refines = elim (Bool-cases (low32 m.f35 == msgt_unk)) [
    | inl fresh ↦ rw fresh (
      _,
      refl,
      record { storage = valid _; typed = IsTyped-set_mtyp _ val refl (λ e. absurd (omega arith)) },
      refl,
    )
    | inr old ↦ rw old (elim (Bool-cases (low32 m.f35 == msgt_batch)) [
      | inl batch ↦ rw batch insert_tag_refines
      | inr own ↦
          let (typed, h) = own_type m old own in
          let (n, e, w', v, s) = Gives-nested m w typed small h in
          let (n', e', w'', v') = Gives-insert_tag n tag val idx w' s in
          rw own (n', rw e e', w'', v' ∙ (ap (λ x. put_text x tag val idx) v ∙ rw (old, own)))
    ])
  ]
    where
      valid : (f : Fld) → IsValid (record m { f35 = f })
      valid f = omega arith

  -- On a well-formed message, with sizes far below the address space, `fixc_add_tag_at` too returns what
  -- its specification says and makes the view that it says, does not leave the message's block, and
  -- keeps the message well-formed.
  pub add_tag_at_refines : Gives (add_tag_at m tag val idx) (add_tag_spec (view m) tag val idx)
  unfolding add_tag_at add_tag_spec
  add_tag_at_refines = elim (Bool-cases (ltb (nflds m) idx)) [
    | inl e ↦ rw e (m, refl, w, refl)
    | inr inside ↦ rw inside (elim (Bool-cases (is_special tag)) [
      | inl e ↦ rw e (m, refl, w, refl)
      | inr plain ↦ rw plain (elim (Bool-cases (tag == Tag.msg_type)) [
        | inl e ↦ rw e type_tag_refines
        | inr other ↦ rw other insert_tag_refines
      ])
    ])
  ]
