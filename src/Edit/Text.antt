-- ===== src/Edit/Text.antt =====
-- What is added as text is read back: `fixc_add_tag`, then `fixc_get_tag_data`. And where it is not:
-- behind a text that was put in front of older ones.
use native.Mathlib.Nat.{le_refl}
use native.Mathlib.Numerals.{add-one}
use libfixc.Base.{
  ℕ, ◌+◌, ◌-◌, ◌^◌, ◌≤◌, ◌<◌, ◌≡◌, ◌≢◌, refl, ap, ◌∙◌, arith, some, false, [], ◌∷◌, ◌++◌,
  append_assoc, Bytes, length, take, drop, get_elem?, ◌==◌, get_elem?-insert_at,
  get_elem?-insert_at_next, lt-of_get_elem?, take-append-drop, take-append_exact, drop-append_exact,
  length-insert_at, length-take,
}
use libfixc.Message.{Fld, Msg, nflds, off}
use libfixc.Message.Tag
use libfixc.Message.Typ
use libfixc.Storage.Grow.{IsValid, IsSmall}
use libfixc.Edit.{
  ok, add_tag, add_tag_at, insert_tag, off_fld, gap, tag_size, get_tag, get_tag_data,
}
use libfixc.Edit.Place.{Tagged, insert_tag_lem}
use libfixc.Edit.View.{is_special}

-- A tag that is neither refused nor the message type.
pub record IsPlain (tag : ℕ) : Type 0 where
  pub not_special : is_special tag ≡ false
  pub not_type : (tag == Tag.msg_type) ≡ false

module _ (m : Msg) (tag : ℕ) (val : Bytes) (idx : ℕ) (valid : IsValid m) (plain : IsPlain tag)
    (small : IsSmall m 1 (length val + 1)) (inside : idx ≤ nflds m) where
  plain_tag : add_tag_at m tag val idx ≡ insert_tag m tag val idx
  unfolding add_tag_at
  plain_tag = ground (arith, plain.not_special, plain.not_type)

  added : (m' : Msg) × (add_tag_at m tag val idx ≡ some (ok, m')) × Tagged m tag val idx m'
  added = let (m', e, t) = insert_tag_lem m tag val idx valid small in (m', plain_tag ∙ e, t)

  module _ (m' : Msg) (t : Tagged m tag val idx m') where
    tag_of_new : get_tag m' idx ≡ some m.pz
    unfolding get_tag
    tag_of_new = rw (t.placed, get_elem?-insert_at m.flds idx (off_fld tag m.pz) inside)

    -- The bytes at the new offset are the value.
    bytes_of_new : take (length val) (drop m.pz m'.pr) ≡ val
    bytes_of_new =
        let shown = take m.pz m.pr in
        let rest = drop m'.pz m'.pr in
        rw (← take-append-drop m'.pz m'.pr, t.values, append_assoc shown (val ++ 0 ∷ []) rest)
          (rw
            (drop-append_exact shown ((val ++ 0 ∷ []) ++ rest) m.pz
              (omega (arith, length-take m.pz m.pr, valid.written)))
            (rw (append_assoc val (0 ∷ []) rest)
              (take-append_exact val (0 ∷ rest) (length val) refl)))

data_of :
    (n : Msg) (idx : ℕ) {pos z : ℕ}
    → get_tag n idx ≡ some pos
    → tag_size n idx pos ≡ some z
    → get_tag_data n idx ≡ some (record { s = some pos; z = z })
unfolding get_tag_data
data_of n idx e e' = rw (e, get_tag_data) (rw e')

size_at_end :
    (n : Msg) (idx pos z : ℕ) → idx + 1 ≡ nflds n → gap n.pz pos ≡ z → tag_size n idx pos ≡ some z
unfolding tag_size
size_at_end n idx pos z last e = ground arith

size_by_next :
    (n : Msg) (idx pos : ℕ) {next : Fld}
    → idx + 1 ≢ nflds n
    → get_elem? n.flds (idx + 1) ≡ some next
    → next.typ ≡ Typ.off
    → tag_size n idx pos ≡ some (gap (off next) pos)
unfolding tag_size
size_by_next n idx pos inner e text = ground arith

-- A text added to a valid message behind all fields, with a tag that is neither refused nor 35 and with
-- sizes far below the address space, is read back: `fixc_get_tag_data` gives the place and the length
-- of exactly the bytes that `fixc_add_tag` was given.
pub get_tag_data-add_tag :
    (m : Msg) (tag : ℕ) (val : Bytes)
    → IsValid m
    → IsPlain tag
    → IsSmall m 1 (length val + 1)
    → (m' : Msg) × (add_tag m tag val ≡ some (ok, m'))
      × (get_tag_data m' (nflds m) ≡ some (record { s = some m.pz; z = length val }))
      × (take (length val) (drop m.pz m'.pr) ≡ val)
unfolding add_tag
get_tag_data-add_tag m tag val valid plain small =
    let here = le_refl (nflds m) in
    let (m', e, t) = added m tag val (nflds m) valid plain small here in
    let size : gap m'.pz m.pz ≡ length val = omega (arith, t.grown_pz, small) in
    let last : nflds m + 1 ≡ nflds m' =
      rw t.placed (omega (arith, length-insert_at m.flds (nflds m) (off_fld tag m.pz))) in
    let found = tag_of_new m tag val (nflds m) valid plain small here m' t in
    (
      m',
      e,
      data_of m' (nflds m) found (size_at_end m' (nflds m) m.pz (length val) last size),
      bytes_of_new m tag val (nflds m) valid plain small here m' t,
    )

-- A text added to a valid message (tag and sizes as before) in front of a field whose text is stored
-- among the values: the size that `fixc_get_tag_data` gives it is not its length but the distance back
-- to that text, less one, in 64 bits, by an unsigned subtraction that wraps.
pub get_tag_data-add_tag_at :
    (m : Msg) (tag : ℕ) (val : Bytes) (idx : ℕ) {next : Fld}
    → IsValid m
    → IsPlain tag
    → IsSmall m 1 (length val + 1)
    → get_elem? m.flds idx ≡ some next
    → next.typ ≡ Typ.off
    → off next < m.pz
    → (m' : Msg) × (add_tag_at m tag val idx ≡ some (ok, m'))
      × (get_tag_data m' idx ≡ some (record { s = some m.pz; z = 2 ^ 64 + off next - m.pz - 1 }))
get_tag_data-add_tag_at m tag val idx {next} valid plain small there text below =
    let inside : idx < nflds m = lt-of_get_elem? m.flds idx there in
    let new = off_fld tag m.pz in
    let (m', e, t) = added m tag val idx valid plain small (omega arith) in
    let found = tag_of_new m tag val idx valid plain small (omega arith) m' t in
    let inner : idx + 1 ≢ nflds m' = rw t.placed (omega (arith, length-insert_at m.flds idx new)) in
    let behind : get_elem? m'.flds (idx + 1) ≡ some next =
      rw (t.placed, add-one) (get_elem?-insert_at_next m.flds idx new (omega arith) ∙ there) in
    let wraps : gap (off next) m.pz ≡ 2 ^ 64 + off next - m.pz - 1 = omega (arith, small) in
    (m', e, data_of m' idx found (size_by_next m' idx m.pz inner behind text ∙ ap some wraps))
