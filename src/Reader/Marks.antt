-- ===== src/Reader/Marks.antt =====
-- The last field of a message that the FIXML reader reads into: a text is added behind all fields, in place of a
-- last one of the same tag, and marked with its context and number.
use libfixc.Base.{
  ℕ, suc, ◌+◌, ◌-◌, ◌%◌, ◌^◌, ◌≡◌, ◌≤◌, ◌<◌, refl, ap, ◌∙◌, arith, true, false, Bool-cases, inl,
  inr, some, List, [], ◌∷◌, ◌++◌, Bytes, length, get_elem?, ltb, update_at, drop_last, ◌==◌,
  if◌then◌else◌, insert_at_end, length-append, length-drop_last,
}
use libfixc.Message.{Fld, Msg, nflds}
use libfixc.Storage.Grow.{IsSmall}
use libfixc.Edit.{Ret, ok, add_tag, off_fld}
use libfixc.Edit.Text.{IsPlain}
use libfixc.Edit.View.{View, view, add_tag_spec}
use libfixc.Edit.Valid.{IsWell, length-values}
use libfixc.Edit.Refine.{add_tag_at_refines}
use libfixc.Reader.Markup.{last_of, drop_same, append_item}
use libfixc.Reader.Context.{last_tag, mark_last}

-- A message that is being read into: without a field it still is in the block that it was made in.
pub record IsRead (m : Msg) : Type 0 where
  pub well : IsWell m
  pub front : nflds m ≡ 0 → m.embedded ≡ true

get_elem?-last :
    (f : Fld) (fs : List Fld)
    → (x : Fld) × (get_elem? (f ∷ fs) (length fs) ≡ some x) × (x.tag ≡ last_of (f ∷ fs))
unfolding last_of
get_elem?-last f [] = (f, refl, refl)
get_elem?-last f (g ∷ fs) = get_elem?-last g fs

pub last_tag_lem : (m : Msg) → IsRead m → last_tag m ≡ some (last_of m.flds)
unfolding last_tag last_of
last_tag_lem m r = by_flds m.flds refl
  where
    by_flds : (fs : List Fld) → m.flds ≡ fs → last_tag m ≡ some (last_of m.flds)
    by_flds [] e = rw (e, r.front (ap length e))
    by_flds (f ∷ fs) e =
        let (x, at, same) = get_elem?-last f fs in
        let some_of : (suc (length fs) == 0) ≡ false = ground arith in
        let index : suc (length fs) - 1 ≡ length fs = omega arith in
        rw (e, some_of, index, at, same)

-- The mark on the field that has just been added.
update_at_end :
    {A : Type 0} (xs : List A) (x : A) (g : A → A)
    → update_at (xs ++ x ∷ []) (length xs) g ≡ xs ++ g x ∷ []
update_at_end [] x g = refl
update_at_end (y ∷ xs) x g = ap (◌∷◌ y) (update_at_end xs x g)

marked : Fld → ℕ → ℕ → Fld
marked f otag cnt = record f { tpc = otag % 2 ^ 16; cnt = cnt % 2 ^ 16 }

mark_last_lem :
    (otag cnt : ℕ) (m : Msg) (xs : List Fld) (x : Fld)
    → m.flds ≡ xs ++ x ∷ []
    → mark_last otag cnt m ≡ some (record m { flds = xs ++ marked x otag cnt ∷ [] })
unfolding mark_last marked
mark_last_lem otag cnt m xs x e =
    let some_of : (length m.flds == 0) ≡ false =
      ground (arith, ap length e, length-append xs (x ∷ [])) in
    let index : length m.flds - 1 ≡ length xs =
      omega (arith, ap length e, length-append xs (x ∷ [])) in
    rw (some_of, index, e, update_at_end xs x)

-- Fewer fields, or changed ones, leave a message well-formed.
IsWell-flds :
    (m : Msg) (fs : List Fld) → length fs ≤ nflds m → IsWell m → IsWell (record m { flds = fs })
IsWell-flds m fs le w = record {
  storage = record {
    written = w.storage.written;
    values_in = w.storage.values_in;
    flds_in = omega (arith, w.storage.flds_in);
    room = w.storage.room;
  };
  typed = w.typed;
}

-- The message without a last field of the tag.
unfoldable pub without_same : ℕ → Msg → Msg
without_same tag m = if last_of m.flds == tag then record m { flds = drop_last m.flds } else m

pub without_same_lem :
    (tag : ℕ) (m : Msg)
    → IsWell m
    → IsWell (without_same tag m)
      × (view (without_same tag m) ≡ drop_same tag (view m))
      × (nflds (without_same tag m) ≤ nflds m)
      × ((without_same tag m).pz ≡ m.pz)
unfolding without_same drop_same
without_same_lem tag m w = elim (Bool-cases (last_of m.flds == tag)) [
  | inl e ↦ rw e (
    IsWell-flds m (drop_last m.flds) (omega (arith, length-drop_last m.flds)) w,
    refl,
    omega (arith, length-drop_last m.flds),
    refl,
  )
  | inr e ↦ rw e (w, refl, omega arith, refl)
]

-- A text behind all fields.
abbrev append_text : View → ℕ → Bytes → View
append_text v tag val = record v {
  flds = v.flds ++ off_fld tag (length v.values) ∷ [];
  values = v.values ++ (val ++ 0 ∷ []);
}

spec_plain :
    (v : View) (tag : ℕ) (val : Bytes)
    → IsPlain tag
    → add_tag_spec v tag val (length v.flds) ≡ (ok, append_text v tag val)
unfolding add_tag_spec
spec_plain v tag val plain =
    let inside : ltb (length v.flds) (length v.flds) ≡ false = ground arith in
    rw (
      inside,
      plain.not_special,
      plain.not_type,
      insert_at_end v.flds (off_fld tag (length v.values)),
    )

-- What adding a text makes of a message.
pub record Appended (m : Msg) (tag : ℕ) (val : Bytes) (m1 : Msg) : Type 0 where
  pub well : IsWell m1
  pub same : view m1 ≡ append_text (view m) tag val
  pub count : nflds m1 ≡ suc (nflds m)
  pub grown : m1.pz ≡ m.pz + length val + 1

pub add_tag_lem :
    (m : Msg) (tag : ℕ) (val : Bytes)
    → IsWell m
    → IsSmall m 2 (length val + 1)
    → IsPlain tag
    → (m1 : Msg) × (add_tag m tag val ≡ some (ok, m1)) × Appended m tag val m1
unfolding add_tag
add_tag_lem m tag val w small plain =
    let (m1, run, w1, v1) = add_tag_at_refines m tag val (nflds m) w small in
    let spec = spec_plain (view m) tag val plain in
    let same : view m1 ≡ append_text (view m) tag val = v1 ∙ ap (λ r. r.1) spec in
    (
      m1,
      run ∙ ap (λ (r : Ret × View). some (r.0, m1)) spec,
      record {
        well = w1;
        same = same;
        count =
            ap (λ (v : View). length v.flds) same
            ∙ omega (arith, length-append m.flds (off_fld tag (length (view m).values) ∷ []));
        grown = omega (
          arith,
          length-values m1 w1.storage,
          length-values m w.storage,
          ap (λ (v : View). length v.values) same,
          length-append (view m).values (val ++ 0 ∷ []),
          length-append val (0 ∷ []),
        );
      },
    )

-- The text with its mark.
pub add_marked :
    (m : Msg) (tag otag cnt : ℕ) (val : Bytes) (m1 : Msg)
    → tag < 2 ^ 16
    → Appended m tag val m1
    → (m2 : Msg) × (mark_last otag cnt m1 ≡ some m2)
      × IsWell m2
      × (view m2 ≡ append_item (record { tag = tag; ctx = otag; num = cnt; val = val }) (view m))
      × (nflds m2 ≡ suc (nflds m))
      × (m2.pz ≡ m1.pz)
unfolding marked
add_marked m tag otag cnt val m1 low a =
    let old : Fld = off_fld tag (length (view m).values) in
    let new : Fld = marked old otag cnt in
    let count = length-append m.flds (new ∷ []) in
    let exact : tag % 2 ^ 16 ≡ tag = omega arith in
    (
      record m1 { flds = m.flds ++ new ∷ [] },
      mark_last_lem otag cnt m1 m.flds old (ap (λ (v : View). v.flds) a.same),
      IsWell-flds m1 (m.flds ++ new ∷ []) (omega (arith, count, a.count)) a.well,
      ap (λ (v : View). record v { flds = m.flds ++ new ∷ [] }) a.same
          ∙ ap
              (λ t. record (append_text (view m) tag val) {
                flds = m.flds ++ record new { tag = t } ∷ [];
              })
              exact,
      omega (arith, count),
      refl,
    )
