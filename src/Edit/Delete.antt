-- ===== src/Edit/Delete.antt =====
-- `fixc_del_fld` deletes the field named, and no other.
use libfixc.Base.{
  ℕ, zero, suc, ap, List, [], ◌∷◌, drop_last, update_at, ◌+◌, ◌≤◌, ◌<◌, ◌≡◌, refl, arith,
  Bool-cases, length, leb, ◌==◌, inl, inr, length-drop_last, length-update_at,
}
use libfixc.Message.{Fld, Msg, nflds}
use libfixc.Message.Tag
use libfixc.Edit.{del_fld}
use libfixc.Edit.View.{view}
use libfixc.Edit.Valid.{IsWell}

del_fld-IsWell : (m : Msg) (n : ℕ) → IsWell m → IsWell (del_fld m n)
unfolding del_fld
del_fld-IsWell m n w =
    ground
      (arith, length-drop_last m.flds, length-update_at m.flds n (λ f. record f { tag = Tag.unk }))

-- A list of fields with one deleted: it goes if it is the last, and loses its tag otherwise.
unfoldable pub without : List Fld → ℕ → List Fld
without [] n = []
without (f ∷ []) zero = []
without (f ∷ g ∷ fs) zero = record f { tag = Tag.unk } ∷ g ∷ fs
without (f ∷ fs) (suc n) = f ∷ without fs n

without_out : (fs : List Fld) (n : ℕ) → length fs ≤ n → without fs n ≡ fs
unfolding without
without_out [] n h = refl
without_out (f ∷ []) zero h = absurd (omega arith)
without_out (f ∷ g ∷ fs) zero h = absurd (omega arith)
without_out (f ∷ []) (suc n) h = refl
without_out (f ∷ g ∷ fs) (suc n) h = ap (◌∷◌ f) (without_out (g ∷ fs) n (omega arith))

without_last : (fs : List Fld) (n : ℕ) → n + 1 ≡ length fs → without fs n ≡ drop_last fs
unfolding without
without_last [] n h = refl
without_last (f ∷ []) zero h = refl
without_last (f ∷ []) (suc n) h = absurd (omega arith)
without_last (f ∷ g ∷ fs) zero h = absurd (omega arith)
without_last (f ∷ g ∷ fs) (suc n) h = ap (◌∷◌ f) (without_last (g ∷ fs) n (omega arith))

without_inner :
    (fs : List Fld) (n : ℕ)
    → n + 1 < length fs
    → without fs n ≡ update_at fs n (λ f. record f { tag = Tag.unk })
unfolding without
without_inner [] n h = absurd (omega arith)
without_inner (f ∷ []) n h = absurd (omega arith)
without_inner (f ∷ g ∷ fs) zero h = refl
without_inner (f ∷ g ∷ fs) (suc n) h = ap (◌∷◌ f) (without_inner (g ∷ fs) n (omega arith))

-- `fixc_del_fld` keeps a well-formed message well-formed and deletes the field named: it goes if it is
-- the last, loses its tag otherwise, and nothing else in the view changes; out of range nothing happens.
pub del_fld_lem :
    (m : Msg) (n : ℕ)
    → IsWell m
    → IsWell (del_fld m n) × (view (del_fld m n) ≡ record (view m) { flds = without m.flds n })
unfolding del_fld
del_fld_lem m n w = (del_fld-IsWell m n w, by_case)
  where
    by_case : view (del_fld m n) ≡ record (view m) { flds = without m.flds n }
    by_case = elim (Bool-cases (leb (nflds m) n)) [
      | inl out ↦ rw (out) (rw (without_out m.flds n (ground arith)))
      | inr within ↦ elim (Bool-cases (n + 1 == nflds m)) [
        | inl last ↦ rw (within, last) (rw (without_last m.flds n (ground arith)))
        | inr inner ↦ rw (within, inner) (rw (without_inner m.flds n (ground arith)))
      ]
    ]
