-- ===== src/Edit.antt =====
-- Adding and deleting fields in src/fix.c, and reading a field's text back.
-- `none` is an access outside the block of the message; `err` is the code's return of -1.
pub mod Copy
pub mod Place
pub mod View
pub mod Valid
pub mod Refine
pub mod Delete
pub mod Text
pub mod Batch
pub mod Script
use libfixc.Base.{
  ℕ, ◌+◌, ◌-◌, ◌*◌, ◌%◌, ◌^◌, ◌||◌, Option, none, some, ◌>>=◌, List, [], ◌∷◌, ◌++◌, Bytes, length,
  splice, drop, update_at, drop_last, get_elem?, insert_at, ltb, leb, ◌==◌, if◌then◌else◌,
}
use libfixc.Message.{Fld, Msg, nflds, fld_zero, off, low32, set_low32, msgt_unk, msgt_batch}
use libfixc.Message.Tag
use libfixc.Message.Typ
use libfixc.Power.{size_mod}
use libfixc.Storage.{check_size}

pub data Ret : Type 0 where
  ok err : Ret

-- What an adding function returns, with the message as it leaves it.
abbrev pub Result : Type 0
Result = Option (Ret × Msg)

-- `memmove` of the fields from `idx` on, `nflds++` and the write of the field: all of it stays in the
-- block where a slot is free.
pub put_slot : Msg → ℕ → Fld → Option Msg
put_slot m idx fld =
    if ltb (nflds m) m.fspc then some (record m { flds = insert_at m.flds idx fld }) else none

-- The `default` branch of `fixc_add_fld_at`.
pub insert_fld : Msg → Fld → ℕ → Result
unfolding put_slot
insert_fld m fld idx = do m' ← check_size m 1 0; m'' ← put_slot m' idx fld; some (ok, m'')

-- The message once its own type has been turned into a batch, and the field that takes the old type.
pub as_batch : Msg → Msg
as_batch m = record m { f35 = set_low32 (record m.f35 { tpc = 0; cnt = 0 }) msgt_batch }

pub old_type : Msg → Fld
old_type m = record m.f35 { cnt = 0; tpc = msgt_batch }

-- The case of tag 35: `again` is the call that `fixc_add_fld_at` makes of itself.
pub add_type : (Msg → Fld → ℕ → Result) → Msg → Fld → ℕ → Result
unfolding insert_fld as_batch old_type
add_type again m fld idx =
    if low32 m.f35 == msgt_unk
    then some (ok, record m { f35 = fld })
    else if low32 m.f35 == msgt_batch
    then insert_fld m fld idx
    else (do (_, m') ← again (as_batch m) (old_type m) 0; insert_fld m' fld idx)

-- The switch on the tag.
pub add_by_tag : (Msg → Fld → ℕ → Result) → Msg → Fld → ℕ → Result
unfolding add_type
add_by_tag again m fld idx =
    if fld.tag == Tag.unk
    then some (err, m)
    else if fld.tag == Tag.msg_type
    then add_type again m fld idx
    else if fld.tag == Tag.begin_string
    then some (ok, record m { f8 = fld })
    else if fld.tag == Tag.body_length
    then some (ok, record m { f9 = fld })
    else if fld.tag == Tag.check_sum
    then some (ok, record m { f10 = fld })
    else insert_fld m fld idx

-- The body of `fixc_add_fld_at`.
pub add_fld_body : (Msg → Fld → ℕ → Result) → Msg → Fld → ℕ → Result
add_fld_body again m fld idx =
    if fld.typ == Typ.off
    then some (err, m)
    else if ltb (nflds m) idx
    then some (err, m)
    else add_by_tag again m fld idx

-- The call that the body makes of itself is on a batch, and makes no further one.
unfoldable pub add_fld_at : Msg → Fld → ℕ → Result
unfolding add_fld_body add_by_tag
add_fld_at = add_fld_body (add_fld_body (λ m fld idx. none))

unfoldable pub add_fld : Msg → Fld → Result
unfolding add_fld_at
add_fld m fld = add_fld_at m fld (nflds m)

-- A `char` read as an `int` and then as an `unsigned int`: bytes from 128 on are negative.
abbrev pub char_to_uint : ℕ → ℕ
char_to_uint c = if ltb c 128 then c else c + 2 ^ 32 - 256

-- The macro `_(x, y)` of `fixc_add_tag_at`.
abbrev pub pack_mtyp : ℕ → ℕ → ℕ
pack_mtyp x y = (char_to_uint x * 256 + char_to_uint y) % 2 ^ 32

-- The type slot after a value of one or two bytes; any other value leaves the type.
pub set_mtyp : Fld → Bytes → Fld
set_mtyp f (x ∷ []) = set_low32 f (pack_mtyp x 0)
set_mtyp f (x ∷ y ∷ []) = set_low32 f (pack_mtyp x y)
set_mtyp f _ = f

-- The copy of `val` behind the values, with its NUL.
pub put_value : Msg → Bytes → Option Msg
put_value m val =
    if leb (m.pz + length val + 1) m.vspc
    then some (record m { pr = splice m.pr m.pz (val ++ 0 ∷ []); pz = m.pz + length val + 1 })
    else none

-- The field that refers to a value at `pos`.
abbrev pub off_fld : ℕ → ℕ → Fld
off_fld tag pos = record { tag = tag % 2 ^ 16; typ = Typ.off; tpc = 0; cnt = 0; val = pos }

-- The slot and the value, once there is room for them.
pub put_tag : Msg → ℕ → Bytes → ℕ → Result
unfolding put_slot put_value
put_tag m tag val idx = do
  m' ← put_slot m idx (off_fld tag m.pz)
  m'' ← put_value m' val
  some (ok, m'')

-- The `default` branch of `fixc_add_tag_at`.
pub insert_tag : Msg → ℕ → Bytes → ℕ → Result
unfolding put_tag
insert_tag m tag val idx = do m' ← check_size m 1 (length val + 1); put_tag m' tag val idx

-- The case of tag 35.
pub add_type_tag : Msg → ℕ → Bytes → ℕ → Result
unfolding insert_tag as_batch old_type set_mtyp
add_type_tag m tag val idx =
    if low32 m.f35 == msgt_unk
    then some (
      ok,
      record m {
        f35 =
            set_mtyp (record m.f35 { tag = Tag.msg_type; typ = Typ.msgtyp; tpc = 0; cnt = 0 }) val;
      },
    )
    else if low32 m.f35 == msgt_batch
    then insert_tag m tag val idx
    else (do (_, m') ← add_fld_at (as_batch m) (old_type m) 0; insert_tag m' tag val idx)

-- `fixc_add_tag_at`; the list `val` is the `vsz` bytes at the pointer.
unfoldable pub add_tag_at : Msg → ℕ → Bytes → ℕ → Result
unfolding add_type_tag
add_tag_at m tag val idx =
    if ltb (nflds m) idx
    then some (err, m)
    else if tag == Tag.unk
        || tag == Tag.begin_string
        || tag == Tag.body_length
        || tag == Tag.check_sum
    then some (err, m)
    else if tag == Tag.msg_type
    then add_type_tag m tag val idx
    else insert_tag m tag val idx

unfoldable pub add_tag : Msg → ℕ → Bytes → Result
unfolding add_tag_at
add_tag m tag val = add_tag_at m tag val (nflds m)

-- The last field is dropped, any other keeps its place with no tag.
unfoldable pub del_fld : Msg → ℕ → Msg
del_fld m n =
    if leb (nflds m) n
    then m
    else if n + 1 == nflds m
    then record m { flds = drop_last m.flds }
    else record m { flds = update_at m.flds n (λ f. record f { tag = Tag.unk }) }

-- `strlen`: the bytes before the first NUL, if there is one among those written.
unfoldable pub strlen : Bytes → Option ℕ
strlen [] = none
strlen (c ∷ cs) = let rest = strlen cs in if c == 0 then some 0 else (do n ← rest; some (n + 1))

-- `fixc_get_tag`: the offset of the text, `none` for NULL.
unfoldable pub get_tag : Msg → ℕ → Option ℕ
get_tag m idx = do f ← get_elem? m.flds idx; if f.typ == Typ.off then some (off f) else none

pub record TagData : Type 0 where
  pub s : Option ℕ
  pub z : ℕ

abbrev pub no_data : TagData
no_data = record { s = none; z = 0 }

-- `a - b - 1` in `size_t`.
abbrev pub gap : ℕ → ℕ → ℕ
gap a b = (a + 2 * size_mod - b - 1) % size_mod

-- The size that `fixc_get_tag_data` gives a text at `pos`: by the end of the values, by the next
-- field, or by its NUL.
pub tag_size : Msg → ℕ → ℕ → Option ℕ
unfolding strlen
tag_size m idx pos = if idx + 1 == nflds m then some (gap m.pz pos) else (do
  next ← get_elem? m.flds (idx + 1)
  if next.typ == Typ.off then some (gap (off next) pos) else strlen (drop pos m.pr))

-- `none` is a fault: the text has no end.
unfoldable pub get_tag_data : Msg → ℕ → Option TagData
get_tag_data m idx = elim (get_tag m idx) [
  | none ↦ some no_data
  | some pos ↦ do z ← tag_size m idx pos; some (record { s = some pos; z = z })
]
