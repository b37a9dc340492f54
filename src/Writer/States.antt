-- ===== src/Writer/States.antt =====
-- The bytes and the states of the FIXML writer of src/fixml-wr.c: what is stored in the buffer, the text of an
-- attribute, and the pool of `struct ptx_ctxcb_s`.
use libfixc.Base.{
  ℕ, ◌+◌, ◌-◌, ◌%◌, ◌^◌, Bool, ◌&&◌, ◌||◌, not, Option, none, some, ◌>>=◌, List, [], ◌∷◌, ◌++◌,
  Bytes, length, take, drop, ltb, leb, ◌==◌, if◌then◌else◌,
}
use libfixc.Message.{Fld, Msg, low32, low8, off, msgt_batch}
use libfixc.Message.Typ
use libfixc.Edit.{strlen}
use libfixc.Number.{signed_decimal, digit}
use libfixc.Version.{ver_fixmlify, ver_fixml_v_ify, of_number, v50_sp2}
use libfixc.Render.{sub_size}

-- `sputc` and `sncpy`.
unfoldable pub sputc : ℕ → ℕ → Bytes → Bytes
sputc cap c out = if leb cap (length out + 1) then out else out ++ c ∷ []

unfoldable pub sncpy : ℕ → Bytes → Bytes → Option Bytes
sncpy cap s out =
    if ltb cap (length out)
    then none
    else if leb cap (length out + length s)
    then some (out ++ take (cap - length out) s)
    else some (out ++ s)

-- `p += snprintf(p, ep - p - 1, ...)`.
unfoldable pub sprint : ℕ → Bytes → Bytes → Option Bytes
sprint cap s out =
    if ltb (length s) (sub_size (sub_size cap (length out)) 1) && ltb (length out + length s) cap
    then some (out ++ s)
    else none

-- A state of `struct ptx_ctxcb_s`, less its links.
pub record State : Type 0 where
  pub osub : ℕ
  pub cnta : ℕ
  pub cntc : ℕ

-- `struct __ctx_s`: the text, the states, the newest in front, and the number of states left in the pool.
pub record Wr : Type 0 where
  pub out : Bytes
  pub states : List State
  pub free : ℕ

-- `countof(ctx->ctxcb_pool)`, and the context after `ptx_init`.
abbrev pub pool : ℕ
pool = 16

abbrev pub ptx_init : Bytes → Wr
ptx_init out = record { out = out; states = []; free = pool }

-- `pop_ctxcb` and `push_ctxcb`: a state taken from the pool, and given back. A pool that is empty gives a
-- null pointer, and `push_state` writes to that.
abbrev pub pop_ctxcb : Wr → Option Wr
pop_ctxcb w = if w.free == 0 then none else some (record w { free = w.free - 1 })

abbrev pub push_ctxcb : Wr → Wr
push_ctxcb w = record w { free = w.free + 1 }

unfoldable pub push_state : ℕ → Wr → Option Wr
push_state otag w = do
  w' ← pop_ctxcb w
  some (record w' { states = record { osub = otag; cnta = 0; cntc = 0 } ∷ w'.states })

-- `pop_state`: the context that is returned is 0 where there is no state.
abbrev pub pop_state : Wr → ℕ × Wr
pop_state w = elim w.states [
  | [] ↦ (0, w)
  | s ∷ ss ↦ (s.osub, push_ctxcb (record w { states = ss }))
]

-- `snprintf(miss, sizeof(miss), ...)` and the copy of as many bytes as it returns.
unfoldable pub missing : Bytes → Option Bytes
missing s =
    if leb (length s) 7 then some s else if length s == 8 then some (take 7 s ++ 0 ∷ []) else none

-- A name, and what stands for one that is empty.
unfoldable pub name_or : Option Bytes → Bytes → Option Bytes
name_or none miss = none
name_or (some []) miss = missing miss
name_or (some (c ∷ cs)) miss = some (c ∷ cs)

-- Types without text in FIXML.
unfoldable pub unrendered : ℕ → Bool
unrendered typ = typ == Typ.ver || typ == Typ.msgtyp || typ == Typ.ctxt

-- The switch of `__render_attr` on the type.
unfoldable pub attr_value : ℕ → Bytes → Fld → Bytes → Option Bytes
attr_value cap b fld out =
    if fld.typ == Typ.off
    then elim (strlen (drop (off fld) b)) [
      | none ↦ none
      | some n ↦ sncpy cap (take n (drop (off fld) b)) out
    ]
    else if fld.typ == Typ.uchar
    then sprint cap (digit (low8 fld) 100 ∷ digit (low8 fld) 10 ∷ digit (low8 fld) 1 ∷ []) out
    else if fld.typ == Typ.char
    then some (sputc cap (low8 fld) out)
    else if fld.typ == Typ.int
    then sprint cap (signed_decimal (2 ^ 31) (low32 fld)) out
    else some out

-- ` name="value"`.
unfoldable pub attr_text : ℕ → Bytes → Bytes → Fld → Bytes → Option Bytes
attr_text cap name b fld out = do
  out1 ← sncpy cap name (sputc cap b' ' out)
  out2 ← attr_value cap b fld (sputc cap b'"' (sputc cap b'=' out1))
  some (sputc cap b'"' out2)

-- `ctx->state->cnta++`.
unfoldable pub count_attr : Wr → Option Wr
count_attr w = elim w.states [
  | [] ↦ none
  | s ∷ ss ↦ some (record w { states = record s { cnta = (s.cnta + 1) % 2 ^ 16 } ∷ ss })
]

-- `ctx->state->cntc++`, and the end of the parent's opening tag.
unfoldable pub open_parent : ℕ → Wr → Wr
open_parent cap w = elim w.states [
  | [] ↦ w
  | s ∷ ss ↦ record w {
    out = if s.cntc == 0 then sputc cap b'>' w.out else w.out;
    states = record s { cntc = (s.cntc + 1) % 2 ^ 16 } ∷ ss;
  }
]

-- `__render_xmlns` and `__render_v`.
unfoldable pub named : ℕ → Bytes → Bytes → Bytes → Option Bytes
named cap name value out = do
  out1 ← sncpy cap name (sputc cap b' ' out)
  out2 ← sncpy cap value (sputc cap b'"' (sputc cap b'=' out1))
  some (sputc cap b'"' out2)

unfoldable pub uri_of : Msg → Bytes
uri_of m =
    if not (m.f8.typ == Typ.ver) || low32 m.f8 == 0
    then ver_fixmlify v50_sp2
    else ver_fixmlify (of_number (low32 m.f8))

unfoldable pub v_of : Msg → Bytes
v_of m =
    if not (m.f8.typ == Typ.ver) || ltb (low32 m.f8) 5
    then ver_fixml_v_ify v50_sp2
    else ver_fixml_v_ify (of_number (low32 m.f8))

abbrev pub is_batch : Msg → Bool
is_batch m = low32 m.f35 == msgt_batch

-- A byte stored without a test.
unfoldable pub store : ℕ → ℕ → Bytes → Option Bytes
store cap c out = if ltb (length out) cap then some (out ++ c ∷ []) else none
