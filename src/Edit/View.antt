-- ===== src/Edit/View.antt =====
-- What a client of src/fix.c knows of a message, with no storage in it, and what `fixc_add_fld_at`
-- and `fixc_add_tag_at` promise of it.
use libfixc.Base.{
  ℕ, ◌||◌, Bool, true, false, ◌≡◌, ◌≢◌, Bytes, List, [], ◌∷◌, ◌++◌, length, take, insert_at, ltb,
  ◌==◌, if◌then◌else◌,
}
use libfixc.Message.{Fld, Msg, low32, set_low32, msgt_unk, msgt_batch}
use libfixc.Message.Tag
use libfixc.Message.Typ
use libfixc.Edit.{Ret, ok, err, off_fld, set_mtyp}

-- The special fields, the fields, and the bytes of the values.
pub record View : Type 0 where
  pub f8 : Fld
  pub f9 : Fld
  pub f35 : Fld
  pub f10 : Fld
  pub flds : List Fld
  pub values : Bytes

abbrev pub view : Msg → View
view m = record {
  f8 = m.f8;
  f9 = m.f9;
  f35 = m.f35;
  f10 = m.f10;
  flds = m.flds;
  values = take m.pz m.pr;
}

abbrev pub has_type : View → Bool
has_type v =
    if low32 v.f35 == msgt_unk then false else if low32 v.f35 == msgt_batch then false else true

-- A type slot that says something is the slot of tag 35, of a kind that can be stored as a field.
pub record IsTyped (f35 : Fld) : Type 0 where
  pub tag_is : low32 f35 ≢ msgt_unk → f35.tag ≡ Tag.msg_type
  pub typ_is : low32 f35 ≢ msgt_unk → f35.typ ≢ Typ.off

-- A message of its own type becomes a batch, and the old type its first field.
abbrev pub demote : View → View
demote v =
    if has_type v
    then record v {
      f35 = set_low32 (record v.f35 { tpc = 0; cnt = 0 }) msgt_batch;
      flds = record v.f35 { cnt = 0; tpc = msgt_batch } ∷ v.flds;
    }
    else v

abbrev pub put : View → Fld → ℕ → View
put v fld idx = record v { flds = insert_at v.flds idx fld }

abbrev pub add_type_spec : View → Fld → ℕ → Ret × View
add_type_spec v fld idx =
    if low32 v.f35 == msgt_unk then (ok, record v { f35 = fld }) else (ok, put (demote v) fld idx)

abbrev pub add_by_tag_spec : View → Fld → ℕ → Ret × View
add_by_tag_spec v fld idx =
    if fld.tag == Tag.begin_string
    then (ok, record v { f8 = fld })
    else if fld.tag == Tag.body_length
    then (ok, record v { f9 = fld })
    else if fld.tag == Tag.check_sum
    then (ok, record v { f10 = fld })
    else if fld.tag == Tag.msg_type
    then add_type_spec v fld idx
    else (ok, put v fld idx)

unfoldable pub add_fld_spec : View → Fld → ℕ → Ret × View
add_fld_spec v fld idx =
    if fld.typ == Typ.off || ltb (length v.flds) idx || fld.tag == Tag.unk
    then (err, v)
    else add_by_tag_spec v fld idx

-- The text goes behind the values with its NUL, and the field refers to where it starts.
abbrev pub put_text : View → ℕ → Bytes → ℕ → View
put_text v tag val idx = record v {
  flds = insert_at v.flds idx (off_fld tag (length v.values));
  values = v.values ++ (val ++ 0 ∷ []);
}

abbrev pub add_type_tag_spec : View → ℕ → Bytes → ℕ → Ret × View
add_type_tag_spec v tag val idx =
    if low32 v.f35 == msgt_unk
    then (
      ok,
      record v {
        f35 =
            set_mtyp (record v.f35 { tag = Tag.msg_type; typ = Typ.msgtyp; tpc = 0; cnt = 0 }) val;
      },
    )
    else (ok, put_text (demote v) tag val idx)

-- Tags that `fixc_add_tag_at` refuses.
abbrev pub is_special : ℕ → Bool
is_special tag =
    tag == Tag.unk || tag == Tag.begin_string || tag == Tag.body_length || tag == Tag.check_sum

unfoldable pub add_tag_spec : View → ℕ → Bytes → ℕ → Ret × View
add_tag_spec v tag val idx =
    if ltb (length v.flds) idx || is_special tag
    then (err, v)
    else if tag == Tag.msg_type
    then add_type_tag_spec v tag val idx
    else (ok, put_text v tag val idx)
