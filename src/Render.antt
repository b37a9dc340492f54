-- ===== src/Render.antt =====
-- Printing a message in src/fix.c: `fixc_chksum`, `fixc_render_fld` and `fixc_render_fix`.
-- A buffer is the list of its bytes, as long as the memory that the caller owns; `at` stands for the
-- pointer into it, and `bsz` for the size that the code believes to have from there on, in `size_t`.
-- `none` is a fault: a write behind the buffer, a text without an end, or a call of `abort`.
pub mod Store
pub mod Field
pub mod Prefix
pub mod Body
pub mod Join
pub mod Sum
pub mod Whole
use libfixc.Base.{
  ℕ, zero, suc, ◌+◌, ◌-◌, ◌*◌, ◌/◌, ◌%◌, ◌^◌, Bool, true, false, Option, none, some, ◌>>=◌, List,
  [], ◌∷◌, ◌++◌, Bytes, length, take, drop, splice, ltb, leb, ◌==◌, if◌then◌else◌,
}
use libfixc.Message.{Fld, Msg, nflds, off, low32, low8, fld_zero, set_low8}
use libfixc.Message.Tag
use libfixc.Message.Typ
use libfixc.Power.{size_mod, add_size}
use libfixc.Storage.{round_up}
use libfixc.Edit.{strlen, char_to_uint}
use libfixc.Number.{ui16tostr, ui8tostr, decimal, signed_decimal}
use libfixc.Version.{ver_fixify, of_number}
use libfixc.Parse.{soh}

-- `fixc_chksum`: the sum of the bytes as `char`, in `unsigned int`.
pub sum_from : ℕ → Bytes → ℕ
sum_from res [] = res
sum_from res (c ∷ cs) = sum_from ((res + char_to_uint c) % 2 ^ 32) cs

unfoldable pub chksum : Bytes → ℕ
unfolding sum_from
chksum str = sum_from 0 str % 256

-- A store of bytes.
unfoldable pub write : Bytes → ℕ → Bytes → Option Bytes
write buf at xs = if leb (at + length xs) (length buf) then some (splice buf at xs) else none

-- `size_t` subtraction.
abbrev pub sub_size : ℕ → ℕ → ℕ
sub_size a b = (a + size_mod - b) % size_mod

-- `snprintf` into `room` bytes: as much of the text as fits with a NUL behind it.
unfoldable pub snprintf : Bytes → ℕ → ℕ → Bytes → Option Bytes
unfolding write
snprintf buf at room text =
    if room == 0 then some buf else write buf at (take (room - 1) text ++ 0 ∷ [])

-- A buffer and the number of bytes that the code counts in it.
abbrev pub Out : Type 0
Out = Option (Bytes × ℕ)

-- `buf[res] = SOHC; return res + 1`.
unfoldable pub finish : Bytes → ℕ → ℕ → Out
unfolding write
finish buf at res = do buf' ← write buf (at + res) (soh ∷ []); some (buf', res + 1)

-- A text behind the tag, copied without a test.
unfoldable pub store_text : Bytes → ℕ → ℕ → Bytes → Out
unfolding write finish
store_text buf at res text = do buf' ← write buf (at + res) text; finish buf' at (res + length text)

-- A number behind the tag.
unfoldable pub store_number : Bytes → ℕ → ℕ → ℕ → Bytes → Out
unfolding snprintf finish
store_number buf at bsz res text = do
  buf' ← snprintf buf (at + res) (sub_size bsz res) text
  finish buf' at (res + length text)

-- `case FIXC_TYP_OFF`.
unfoldable pub store_off : Bytes → ℕ → ℕ → ℕ → Bytes → Out
unfolding store_text strlen
store_off buf at bsz res text = do
  stz ← strlen text
  if ltb (sub_size bsz res) (stz + 1) then some (buf, 0) else store_text buf at res (take stz text)

-- `case FIXC_TYP_MSGTYP`: a zero byte is stored and not counted.
unfoldable pub store_type : Bytes → ℕ → ℕ → ℕ → Out
store_type buf at res mtyp = do
  let hi = mtyp / 256 % 256
  let lo = mtyp % 256
  buf' ← write buf (at + res) (hi ∷ [])
  let res' = if hi == 0 then res else res + 1
  buf'' ← write buf' (at + res') (lo ∷ [])
  finish buf'' at (if lo == 0 then res' else res' + 1)

-- The switch of `fixc_render_fld`, once `res` bytes of the tag are there.
unfoldable pub store_value : Bytes → ℕ → ℕ → ℕ → Bytes → Fld → Out
unfolding store_off store_text store_number store_type finish
store_value buf at bsz res b fld =
    if fld.typ == Typ.off
    then store_off buf at bsz res (drop (off fld) b)
    else if fld.typ == Typ.ver
    then store_text buf at res (ver_fixify (of_number (low32 fld)))
    else if fld.typ == Typ.uchar
    then store_text buf at res (ui8tostr (sub_size bsz res) (low8 fld))
    else if fld.typ == Typ.char
    then store_text buf at res (low8 fld ∷ [])
    else if fld.typ == Typ.int
    then store_number buf at bsz res (signed_decimal (2 ^ 31) (low32 fld))
    else if fld.typ == Typ.long
    then store_number buf at bsz res (signed_decimal (2 ^ 63) fld.val)
    else if fld.typ == Typ.msgtyp
    then store_type buf at res (low32 fld)
    else if fld.typ == Typ.ptr
    then none
    else finish buf at res

-- What `__ui16tostr` stores: the tag, or a NUL that it does not count.
abbrev pub tag_bytes : Bytes → Bytes
tag_bytes [] = 0 ∷ []
tag_bytes (c ∷ cs) = c ∷ cs

-- `fixc_render_fld`.
unfoldable pub render_fld : Bytes → ℕ → ℕ → Bytes → Fld → Out
unfolding store_value write
render_fld buf at bsz b fld = do
  let tag = ui16tostr bsz fld.tag
  buf' ← write buf at (tag_bytes tag)
  store_value buf' at bsz (length tag) b fld

-- The loop over the fields: `pos` is `buf + totz`, `bsz` the size from there on.
unfoldable pub render_flds : Bytes → ℕ → ℕ → Bytes → List Fld → ℕ → Out
unfolding render_fld
render_flds buf pos bsz b [] blen = some (buf, blen)
render_flds buf pos bsz b (f ∷ fs) blen =
    let next = (do
      (buf', n) ← render_fld buf (pos + blen) (bsz - blen) b f
      render_flds buf' pos bsz b fs (add_size blen n)) in
    if ltb blen bsz then next else some (buf, blen)

-- The two fields in front, then room, then the message type and the fields.
pub record Drawn : Type 0 where
  pub buf : Bytes
  pub hdrz : ℕ
  pub lenz : ℕ
  pub totz : ℕ
  pub blen : ℕ

unfoldable pub draw : Bytes → ℕ → Msg → Option Drawn
draw buf bsz m = do
  (buf1, hdrz) ← render_fld buf 0 bsz m.pr m.f8
  (buf2, len9) ← render_fld buf1 hdrz (sub_size bsz hdrz) m.pr m.f9
  let lenz = round_up len9 8
  let totz = round_up (hdrz + lenz) 8
  let left = sub_size bsz totz
  (buf3, typz) ← render_fld buf2 totz left m.pr m.f35
  (buf4, blen) ← render_flds buf3 totz left m.pr m.flds typz
  some (record { buf = buf4; hdrz = hdrz; lenz = lenz; totz = totz; blen = blen })

-- The length goes in front, and the body is moved to it.
unfoldable pub join : Drawn → Out
join d = do
  let digits = decimal (sub_size d.blen 1)
  buf1 ← snprintf d.buf (d.hdrz + 2) (sub_size d.lenz 1) digits
  let hdrz = d.hdrz + 2 + length digits
  buf2 ← write buf1 hdrz (soh ∷ [])
  buf3 ← write buf2 (hdrz + 1) (take d.blen (drop d.totz buf2))
  some (buf3, hdrz + 1 + d.blen)

-- The checksum where there is room for it, less its SOH, and a NUL.
unfoldable pub close : Msg → ℕ → Bytes → ℕ → Option (Bytes × ℕ × Msg)
close m bsz buf totz =
    if ltb (totz + 5) bsz
    then (do
      let f10 =
          set_low8 (record fld_zero { tag = Tag.check_sum; typ = Typ.uchar })
            (chksum (take totz buf))
      (buf1, n) ← render_fld buf totz (sub_size bsz totz) m.pr f10
      buf2 ← write buf1 (sub_size (totz + n) 1) (0 ∷ [])
      some (buf2, sub_size (totz + n) 1, record m { f10 = f10 }))
    else (do buf1 ← write buf totz (0 ∷ []); some (buf1, totz, m))

-- `fixc_render_fix`: the buffer, the length and the message as they are left.
unfoldable pub render_fix : Bytes → ℕ → Msg → Option (Bytes × ℕ × Msg)
unfolding draw join close
render_fix buf bsz msg = do
  let m = record msg {
    f8 = record msg.f8 { tag = Tag.begin_string };
    f9 = record msg.f9 { tag = Tag.body_length };
  }
  d ← draw buf bsz m
  (buf', totz) ← join d
  close m bsz buf' totz
