-- ===== src/Tests.antt =====
-- The theorems at concrete messages and texts.
pub mod Reading
pub mod Handling
pub mod Depth
pub mod Counting
pub mod Cycle
pub mod Printing
pub mod Engines
pub mod Copying
pub mod Contexts
pub mod Buffers
pub mod Extraction
use libfixc.Base.{
  ℕ, ◌+◌, ◌-◌, ◌*◌, ◌^◌, ◌<◌, ◌≤◌, ◌≡◌, ◌≢◌, refl, arith, true, false, some, none, List, [], ◌∷◌,
  ◌++◌, Bytes, length, take, drop,
}
use libfixc.Power.{next_2power}
use libfixc.Power.Laws.{next_2power_lem}
use libfixc.Message.{Fld, Msg, husk, fld_zero, nflds, off, low32, msgt_batch, make_fixc_msg}
use libfixc.Message.Typ
use libfixc.Storage.{check_size, msg_z, msg_optz, msg_minz}
use libfixc.Storage.Sizes.{msg_minz-msg_optz}
use libfixc.Storage.Grow.{IsValid, IsSmall, Grown, check_size_lem}
use libfixc.Edit.{
  ok, err, off_fld, add_fld_at, add_fld_body, add_fld, add_tag_at, add_tag, del_fld, get_tag_data,
}
use libfixc.Edit.View.{IsTyped, View, view, has_type, add_fld_spec, add_tag_spec}
use libfixc.Edit.Valid.{IsWell, Gives, add_fld_at_ends}
use libfixc.Edit.Refine.{add_fld_at_refines, add_tag_at_refines}
use libfixc.Edit.Delete.{without, del_fld_lem}
use libfixc.Edit.Text.{IsPlain, get_tag_data-add_tag, get_tag_data-add_tag_at}
use libfixc.Edit.Batch.{add_fld_second_type}
use libfixc.Edit.Script.{
  Call, fld_at, tag_at, del, calls, calls_spec, bytes_of, calls-make_fixc_msg,
}
use libfixc.Number.{strtoui16, ui16tostr}
use libfixc.Number.RoundTrip.{tag_digits, strtoui16-tag_digits, ui16tostr_room}
use libfixc.Version
use libfixc.Version.{
  Ver, v44, v50_sp1, fix_verify, ver_fixify, fixml_nsiddify, ver_fixmlify, ver_fixml_v_ify,
}
use libfixc.Version.RoundTrip.{fix_verify-ver_fixify, fixml_nsiddify-ver_fixmlify}

-- A message of a type, with two texts: `55=A`, `44=B`.
abbrev pub kind : Fld
kind = record fld_zero { tag = 35; typ = 6; val = 68 }

abbrev pub two_texts : Msg
two_texts = record husk {
  pr = 65 ∷ 0 ∷ 66 ∷ 0 ∷ [];
  pz = 4;
  vspc = 128;
  f35 = kind;
  flds = off_fld 55 0 ∷ off_fld 44 2 ∷ [];
  fspc = 64;
}

pub two_texts-IsValid : IsValid two_texts
two_texts-IsValid = record {
  written = omega arith;
  values_in = omega arith;
  flds_in = omega arith;
  room = λ _. omega (arith, next_2power_lem 5 (omega arith) (omega arith));
}

pub two_texts-IsWell : IsWell two_texts
two_texts-IsWell = record {
  storage = two_texts-IsValid;
  typed = record { tag_is = λ _. refl; typ_is = λ _. omega arith };
}

pub two_texts-IsSmall : (f v : ℕ) → f < 1000 → v < 1000 → IsSmall two_texts f v
two_texts-IsSmall f v p q = record { few = omega arith; short = omega arith }

next_2power_lem_example :
    ((k : ℕ) × (next_2power 129 ≡ 2 ^ k)) × (129 ≤ next_2power 129) × (next_2power 129 < 2 * 129)
next_2power_lem_example = next_2power_lem 129 (omega arith) (omega arith)

check_size_lem_example :
    (m : Msg) × (check_size two_texts 70 500 ≡ some m) × Grown two_texts 70 500 m
check_size_lem_example =
    check_size_lem two_texts 70 500 (two_texts-IsSmall 70 500 (omega arith) (omega arith))
      two_texts-IsValid (omega arith)

add_fld_at_ends_example :
    (add_fld_body (add_fld_body (λ m fld idx. none)) two_texts kind 1
      ≡ add_fld_body (add_fld_body (λ m fld idx. some (err, m))) two_texts kind 1)
    × (add_fld_at two_texts kind 1
        ≡ add_fld_body (add_fld_body (λ m fld idx. none)) two_texts kind 1)
    × (add_fld_at two_texts kind 1 ≡ add_fld_body add_fld_at two_texts kind 1)
add_fld_at_ends_example =
    add_fld_at_ends (λ m fld idx. none) (λ m fld idx. some (err, m)) two_texts kind 1

add_fld_at_refines_example :
    Gives (add_fld_at two_texts kind 1) (add_fld_spec (view two_texts) kind 1)
add_fld_at_refines_example =
    add_fld_at_refines two_texts kind 1 two_texts-IsWell
      (two_texts-IsSmall 2 0 (omega arith) (omega arith))

add_tag_at_refines_example :
    Gives
      (add_tag_at two_texts 58 (72 ∷ 105 ∷ []) 1)
      (add_tag_spec (view two_texts) 58 (72 ∷ 105 ∷ []) 1)
add_tag_at_refines_example =
    add_tag_at_refines two_texts 58 (72 ∷ 105 ∷ []) 1 two_texts-IsWell
      (two_texts-IsSmall 2 3 (omega arith) (omega arith))

del_fld_lem_example :
    IsWell (del_fld two_texts 0)
    × (view (del_fld two_texts 0) ≡ record (view two_texts) { flds = without two_texts.flds 0 })
del_fld_lem_example = del_fld_lem two_texts 0 two_texts-IsWell

IsPlain-58 : IsPlain 58
IsPlain-58 = record { not_special = refl; not_type = refl }

get_tag_data-add_tag_example :
    (m : Msg) × (add_tag two_texts 58 (72 ∷ 105 ∷ []) ≡ some (ok, m))
    × (get_tag_data m 2 ≡ some (record { s = some 4; z = 2 }))
    × (take 2 (drop 4 m.pr) ≡ 72 ∷ 105 ∷ [])
get_tag_data-add_tag_example =
    get_tag_data-add_tag two_texts 58 (72 ∷ 105 ∷ []) two_texts-IsValid IsPlain-58
      (two_texts-IsSmall 1 3 (omega arith) (omega arith))

get_tag_data-add_tag_at_example :
    (m : Msg) × (add_tag_at two_texts 58 (72 ∷ 105 ∷ []) 0 ≡ some (ok, m))
    × (get_tag_data m 0 ≡ some (record { s = some 4; z = 2 ^ 64 - 5 }))
get_tag_data-add_tag_at_example =
    get_tag_data-add_tag_at two_texts 58 (72 ∷ 105 ∷ []) 0 two_texts-IsValid IsPlain-58
      (two_texts-IsSmall 1 3 (omega arith) (omega arith)) refl refl (omega arith)

add_fld_second_type_example :
    (m : Msg) × (add_fld two_texts kind ≡ some (ok, m))
    × (low32 m.f35 ≡ msgt_batch)
    × (m.flds ≡ record kind { cnt = 0; tpc = msgt_batch } ∷ off_fld 55 0 ∷ kind ∷ off_fld 44 2 ∷ [])
add_fld_second_type_example =
    add_fld_second_type two_texts kind (off_fld 55 0 ∷ []) (off_fld 44 2) two_texts-IsWell
      (two_texts-IsSmall 2 0 (omega arith) (omega arith)) refl (omega arith) refl refl

abbrev some_calls : List Call
some_calls =
    tag_at 55 (73 ∷ 66 ∷ 77 ∷ []) 0
    ∷ fld_at kind 0
    ∷ fld_at kind 1
    ∷ tag_at 58 (72 ∷ 105 ∷ []) 1
    ∷ del 1
    ∷ tag_at 8 [] 0
    ∷ []

calls-make_fixc_msg_example :
    (m : Msg) × (calls some_calls (make_fixc_msg 0x2044) ≡ some m)
    × IsWell m
    × (view m ≡ calls_spec some_calls (view (make_fixc_msg 0x2044)))
unfolding bytes_of
calls-make_fixc_msg_example = calls-make_fixc_msg 0x2044 some_calls (omega arith) (omega arith)

strtoui16-tag_digits_example : strtoui16 (tag_digits 35) ≡ 35
strtoui16-tag_digits_example = strtoui16-tag_digits 35 (omega arith)

ui16tostr_room_example : ui16tostr 6 10035 ≡ tag_digits 10035 ++ b'=' ∷ []
ui16tostr_room_example = ui16tostr_room 6 10035 (omega arith) (omega arith)

fix_verify-ver_fixify_example : fix_verify (ver_fixify v44) ≡ some v44
unfolding ver_fixify
fix_verify-ver_fixify_example = fix_verify-ver_fixify v44 (λ p. cc)

fixml_nsiddify-ver_fixmlify_example :
    (fixml_nsiddify (ver_fixmlify v50_sp1) ≡ some v50_sp1)
    × (fixml_nsiddify (ver_fixml_v_ify v50_sp1) ≡ some v50_sp1)
unfolding ver_fixmlify
fixml_nsiddify-ver_fixmlify_example = fixml_nsiddify-ver_fixmlify v50_sp1 (λ p. cc)

msg_minz-msg_optz_example :
    (msg_minz two_texts ≤ msg_optz two_texts)
    × (msg_optz two_texts < msg_minz two_texts + 32 * 16 + 128)
    × (msg_minz two_texts ≤ msg_z two_texts)
msg_minz-msg_optz_example = msg_minz-msg_optz two_texts (omega arith) (omega arith) (omega arith)
