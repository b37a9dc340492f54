-- ===== src/Parse.antt =====
-- Reading a FIX message in src/fix.c: `fixc_parse_tag`, `fixc_parse_mtyp`, `fixc_parse_fld`, the loop
-- `anal` and `make_fixc_from_fix`, in a build with no zlib (`HAVE_ZLIB_H` undefined).
-- The text is cut at the reader's place `q`: `done` are the bytes before it, with the NULs that the
-- loop has put at the ends of tags and values, `rest` the bytes from it to the end.
pub mod Pairs
pub mod Loop
pub mod Message
pub mod Slots
use libfixc.Base.{
  ℕ, zero, suc, ◌+◌, ◌-◌, ◌*◌, ◌/◌, ◌%◌, ◌^◌, ◌&&◌, Bool, true, false, Option, none, some, ◌>>=◌,
  List, [], ◌∷◌, ◌++◌, Bytes, length, take, get_elem?, ltb, leb, ◌==◌, if◌then◌else◌,
}
use libfixc.Message.{Fld, Msg, nflds, fld_zero, low32, set_low32, set_low8, husk}
use libfixc.Message.Tag
use libfixc.Message.Typ
use libfixc.Number.{strtoui16, strtol}
use libfixc.Power.{add_size}
use libfixc.Storage.{fld_size, msg_size, round_up, fspc_rnd, vspc_rnd}
use libfixc.Version
use libfixc.Version.{Ver}

-- `kv_state_t`.
pub data KvState : Type 0 where
  key value error : KvState

-- `fixc_parse_tag`.
unfoldable pub parse_tag : Bytes → Fld
parse_tag s = record fld_zero { tag = strtoui16 s }

-- The byte at `str[i]`; every text that is read here has a NUL behind it.
abbrev pub byte_at : Bytes → ℕ → ℕ
byte_at [] i = 0
byte_at (c ∷ cs) zero = c
byte_at (c ∷ cs) (suc i) = byte_at cs i

-- `fixc_parse_mtyp`.
unfoldable pub parse_mtyp : Bytes → ℕ → ℕ
parse_mtyp str len =
    if leb 1 len && leb len 2 then byte_at str 0 % 256 * 256 + byte_at str 1 % 256 else 0

-- The version of a text, `FIXC_VER_UNK` if it names none.
abbrev pub ver_of : Option Ver → ℕ
ver_of none = 0
ver_of (some v) = Version.number v

-- `fixc_parse_fld`: `cur` is the slot behind the fields, `str` the text from offset `pos` on.
pub parse_fld : Msg → Fld → ℕ → Bytes → ℕ → Msg
parse_fld m cur pos str len =
    if cur.tag == Tag.begin_string
    then record m {
      f8 =
          set_low32 (record m.f8 { tag = Tag.begin_string; typ = Typ.ver })
            (ver_of (Version.fix_verify (take len str)));
    }
    else if cur.tag == Tag.body_length
    then record m {
      f9 = set_low32 (record m.f9 { tag = Tag.body_length; typ = Typ.int }) (strtol str);
    }
    else if cur.tag == Tag.check_sum
    then record m {
      f10 = set_low8 (record m.f10 { tag = Tag.check_sum; typ = Typ.uchar }) (byte_at str 0);
    }
    else if cur.tag == Tag.msg_type
    then record m {
      f35 = set_low32 (record m.f35 { tag = Tag.msg_type; typ = Typ.msgtyp }) (parse_mtyp str len);
    }
    else if cur.tag == Tag.unk
    then m
    else record m { flds = m.flds ++ (record cur { val = pos } ∷ []) }

-- `while (*p++ != d && p < ep)` from a `p` below `ep`: the bytes before the `d`, and those behind it;
-- `none` if `p` has reached the end.
pub until : ℕ → Bytes → Option (Bytes × Bytes)
until d [] = none
until d (c ∷ []) = none
until d (c ∷ x ∷ xs) =
    let found = until d (x ∷ xs) in
    if c == d then some ([], x ∷ xs) else (do (a, b) ← found; some (c ∷ a, b))

-- What `anal` keeps from round to round, `cur` being `CUR_FLD`.
pub record Anal : Type 0 where
  pub msg : Msg
  pub cur : Fld
  pub st : KvState
  pub done : Bytes
  pub rest : Bytes

pub data Round : Type 0 where
  again : Anal → Round
  out : Anal → Round

-- `case KEY`. Where all slots are in use the code writes the tag behind them, over the text that stands there in
-- the same block, and goes on with what is left of it: this is not modelled, and `none` here.
pub key_round : Anal → Option (Bytes × Bytes) → Option Round
key_round a none = some (out a)
key_round a (some (k, behind)) =
    if ltb (nflds a.msg) a.msg.fspc
    then some (
        again (record a {
          cur = parse_tag k;
          st = value;
          done = a.done ++ (k ++ 0 ∷ []);
          rest = behind;
        }))
    else none

-- `case VALUE`; the last value of a message needs no delimiter if it is the checksum.
pub value_round : Anal → Option (Bytes × Bytes) → Option Round
unfolding parse_fld
value_round a (some (v, behind)) = some (
    again (record a {
      msg = parse_fld a.msg a.cur (length a.done) (v ++ (0 ∷ behind)) (length v);
      st = key;
      done = a.done ++ (v ++ 0 ∷ []);
      rest = behind;
    }))
value_round a none =
    if a.cur.tag == Tag.check_sum
    then some (
        again (record a {
          msg = parse_fld a.msg a.cur (length a.done) (a.rest ++ 0 ∷ []) (length a.rest - 1);
          st = key;
          done = a.done ++ a.rest;
          rest = [];
        }))
    else some (out a)

abbrev pub soh : ℕ
soh = 1

pub round_in : KvState → Anal → Option Round
unfolding until key_round value_round
round_in key a = key_round a (until b'=' a.rest)
round_in value a = value_round a (until soh a.rest)
round_in error a = some (out a)

-- The check for a compressed message at the end of a round: `f9.i32 > 0` on a bit pattern.
abbrev pub compressed : Msg → Bool
compressed m = low32 m.f8 == 10 && (ltb 0 (low32 m.f9) && ltb (low32 m.f9) (2 ^ 31))

pub record Anald : Type 0 where
  pub msg : Msg
  pub st : KvState
  pub done : Bytes
  pub rest : Bytes

abbrev leave : Anal → KvState → Anald
leave a st = record { msg = a.msg; st = st; done = a.done; rest = a.rest }

-- The loop of `anal`. Every round takes at least a byte, so the number of bytes left is fuel enough.
pub anal : ℕ → Anal → Option Anald
unfolding round_in
anal zero a = if length a.rest == 0 then some (leave a a.st) else none
anal (suc fuel) a = if length a.rest == 0 then some (leave a a.st) else (do
  r ← round_in a.st a
  elim r [
    | out b ↦ some (leave b b.st)
    | again b ↦ let next = anal fuel b in if compressed b.msg then some (leave b error) else next
  ])

-- The block that `make_fixc_from_fix` allocates for `len` bytes, before it is read.
unfoldable pub from_fix_husk : ℕ → Msg
from_fix_husk len =
    let fspc = round_up (len / 4) fspc_rnd in
    let vspc = round_up (add_size len 1) vspc_rnd in
    let totz = round_up (add_size (add_size msg_size (fspc * fld_size)) vspc) 8 in
    record husk {
      pz = len;
      fspc = fspc;
      vspc = totz - (msg_size + fspc * fld_size);
      embedded = true;
    }

-- `if (anal(...))`: every state but `KEY` is non-zero.
pub kept : Anald → Option Msg
kept a = elim a.st [ key ↦ some (record a.msg { pr = a.done ++ (a.rest ++ 0 ∷ []) }) | _ ↦ none ]

-- `make_fixc_from_fix`: `some none` is the NULL of an error, `none` a text with more fields than there are
-- slots for, as in `key_round`.
unfoldable pub from_fix : Bytes → Option (Option Msg)
unfolding from_fix_husk anal kept
from_fix text = do
  a ← anal (length text) (record {
    msg = from_fix_husk (length text);
    cur = fld_zero;
    st = key;
    done = [];
    rest = text;
  })
  some (kept a)
