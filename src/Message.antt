-- ===== src/Message.antt =====
-- The data of src/fix.h: `struct fixc_fld_s`, `struct fixc_msg_s` and, in the children, the enums of
-- known tags and of tag types; and `make_fixc_msg` of src/fix.c, which makes an empty message.
-- The versions, message types and contexts of the headers that fix.h includes are numbers here.
pub mod Tag
pub mod Typ
use libfixc.Base.{
  ℕ, ◌+◌, ◌*◌, ◌/◌, ◌%◌, ◌^◌, Bool, true, false, List, [], Bytes, length, ltb, if◌then◌else◌,
}

-- A field. `val` is the union, its eight bytes read as a number, lowest byte first.
pub record Fld : Type 0 where
  pub tag : ℕ
  pub typ : ℕ
  pub tpc : ℕ
  pub cnt : ℕ
  pub val : ℕ

abbrev pub fld_zero : Fld
fld_zero = record { tag = 0; typ = 0; tpc = 0; cnt = 0; val = 0 }

-- The members of the union: `off` and `i64` are the eight bytes, `i32`, `ver`, `mtyp` and `ctx` the
-- low four (as a bit pattern), `u8` and `c` the lowest.
abbrev pub off : Fld → ℕ
off f = f.val

abbrev pub low32 : Fld → ℕ
low32 f = f.val % 2 ^ 32

abbrev pub low8 : Fld → ℕ
low8 f = f.val % 2 ^ 8

-- An assignment to a member leaves the bytes above it.
abbrev pub set_low32 : Fld → ℕ → Fld
set_low32 f v = record f { val = f.val / 2 ^ 32 * 2 ^ 32 + v % 2 ^ 32 }

abbrev pub set_low8 : Fld → ℕ → Fld
set_low8 f v = record f { val = f.val / 2 ^ 8 * 2 ^ 8 + v % 2 ^ 8 }

-- A message. `pr` holds the bytes of the value space that have been written, `pz` the length that
-- the code keeps, `vspc` the bytes that are allocated from `pr` on. `flds` holds the `nflds` fields in
-- use, `fspc` the number of slots allocated, and `embedded` says that `flds` is the array `these`
-- at the end of the message itself.
pub record Msg : Type 0 where
  pub pr : Bytes
  pub pz : ℕ
  pub vspc : ℕ
  pub f8 : Fld
  pub f9 : Fld
  pub f35 : Fld
  pub f10 : Fld
  pub flds : List Fld
  pub fspc : ℕ
  pub embedded : Bool

abbrev pub nflds : Msg → ℕ
nflds m = length m.flds

-- `FIXC_MSGT_UNK` and `FIXC_MSGT_BATCH` of src/fixml-canon-msgt.h.
abbrev pub msgt_unk : ℕ
msgt_unk = 0

abbrev pub msgt_batch : ℕ
msgt_batch = 0xffff

-- `calloc` of the bare message: no slot, no value space.
abbrev pub husk : Msg
husk = record {
  pr = [];
  pz = 0;
  vspc = 0;
  f8 = fld_zero;
  f9 = fld_zero;
  f35 = fld_zero;
  f10 = fld_zero;
  flds = [];
  fspc = 0;
  embedded = false;
}

-- `make_fixc_msg`; the test reads the low 16 bits of the context.
unfoldable pub make_fixc_msg : ℕ → Msg
make_fixc_msg ctx =
    let typ = if ltb 0x2000 (ctx % 2 ^ 16) then Typ.msgtyp else Typ.ctxt in
    record husk { f35 = set_low32 (record fld_zero { tag = Tag.msg_type; typ = typ }) ctx }
