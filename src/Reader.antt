-- ===== src/Reader.antt =====
-- The FIXML reader of src/fixml-rd.c: the handlers that it gives expat, and `make_fixc_from_fixml`.
-- Expat is a parameter: the calls that it makes of the handlers, and whether it succeeds. Names and values are
-- the bytes before their NUL. `none` is a fault: a null pointer, an access outside the arrays or the message,
-- or a call of `abort`.
pub mod Namespaces
pub mod Cells
pub mod Context
pub mod Stack
pub mod Moves
pub mod Markup
pub mod Marks
pub mod Attributes
pub mod Sizes
pub mod Fields
pub mod Steps
pub mod Walk
pub mod Head
pub mod Root
pub mod Ends
pub mod Document
pub mod Told
pub mod Kept
pub mod Faults
pub mod Counters
pub mod Uncounted
pub mod Again
use libfixc.Base.{
  ℕ, zero, suc, ◌+◌, ◌-◌, ◌*◌, ◌/◌, ◌%◌, ◌^◌, Bool, true, false, ◌&&◌, ◌||◌, not, Option, none,
  some, ◌>>=◌, List, [], ◌∷◌, Bytes, length, get_elem?, set, drop, drop_last, update_at, ltb, leb,
  ◌==◌, if◌then◌else◌,
}
use libfixc.Message.{Fld, Msg, husk, fld_zero, nflds, low32, set_low32, msgt_batch}
use libfixc.Message.Tag
use libfixc.Message.Typ
use libfixc.Power.{size_mod}
use libfixc.Storage.{round_up, vspc_rnd, fspc_rnd}
use libfixc.Edit.{Ret, ok, err, add_fld, add_tag}
use libfixc.Version.{equal, codes}
use libfixc.Engine.{Engine}
use libfixc.Reader.Namespaces.{
  Ns, Spaces, no_spaces, colon, real_name, pref_len, lookup_len, pref_to_ns, reg_ns, ns_at,
  is_fixml, v50_sp2_id,
}
use libfixc.Reader.Context.{
  Ctx, last_tag, keeps, push_state, rptb_index, count_up, rptb_fld, first_rptb, upd_rptb,
  check_rptblk, stand_for, mark_last, bang_attr,
}
use libfixc.Reader.Cells.{
  Cell, Pool, no_pool, init_ctxcb, current, set_current, otag_now, peek, push_cell, pop_state,
}

-- What expat reports.
pub data Event : Type 0 where
  elt_start : Bytes → List (Bytes × Bytes) → Event
  elt_end : Bytes → Event

abbrev pub comp_fixml : ℕ
comp_fixml = 1

abbrev pub attr_xmlns : ℕ
attr_xmlns = 65535

abbrev pub attr_v : ℕ
attr_v = 65534

-- `proc_FIXC_xmlns`.
unfoldable pub proc_xmlns : Bytes → Bytes → Ctx → Ctx
proc_xmlns attr value ctx = record ctx {
  spaces =
      reg_ns (elim (colon attr) [ none ↦ none | some p ↦ some (drop (p + 1) attr) ]) value
        ctx.spaces;
}

abbrev pub is_xmlns : ℕ → Bool
is_xmlns aid = aid == attr_xmlns || aid == attr_v

unfoldable pub proc_unk_attr : Engine → Bytes → Bytes → Ctx → Option Ctx
proc_unk_attr e attr value ctx = do
  alen ← lookup_len ctx.spaces attr
  otag ← otag_now ctx.pool
  some (if is_xmlns (e.get_aid otag attr alen) then proc_xmlns attr value ctx else ctx)

unfoldable pub proc_fixml_attr : Engine → Bytes → Bytes → Ctx → Option Ctx
proc_fixml_attr e attr value ctx = do
  alen ← lookup_len ctx.spaces attr
  otag ← otag_now ctx.pool
  let aid = e.get_aid otag attr alen
  if otag == 0
      then some ctx
      else if is_xmlns aid
      then some (proc_xmlns attr value ctx)
      else if aid == 0
      then some ctx
      else bang_attr e aid value ctx

unfoldable pub fixml_attrs : Engine → List (Bytes × Bytes) → Ctx → Option Ctx
fixml_attrs e [] ctx = some ctx
fixml_attrs e ((attr, value) ∷ attrs) ctx = do
  ctx' ← proc_fixml_attr e attr value ctx
  fixml_attrs e attrs ctx'

unfoldable pub unk_attrs : Engine → List (Bytes × Bytes) → Ctx → Option Ctx
unk_attrs e [] ctx = some ctx
unk_attrs e ((attr, value) ∷ attrs) ctx = do
  ctx' ← proc_unk_attr e attr value ctx
  unk_attrs e attrs ctx'

-- `sax_bo_FIXML_elt`: the message element in a batch is a field, any other is the message's type.
abbrev pub batch_fld : ℕ → Fld
batch_fld mty = record {
  tag = Tag.msg_type;
  typ = Typ.msgtyp;
  tpc = msgt_batch;
  cnt = 1;
  val = mty % 2 ^ 32;
}

abbrev pub set_type : ℕ → Msg → Msg
set_type mty m = record m {
  f35 = set_low32 (record (m.f35) { tag = Tag.msg_type; typ = Typ.msgtyp }) mty;
}

unfoldable pub note_type : ℕ → ℕ → Ctx → Option Ctx
note_type otag mty ctx =
    if otag == msgt_batch
    then (do (_, m) ← add_fld ctx.msg (batch_fld mty); some (record ctx { msg = m }))
    else some (record ctx { msg = set_type mty ctx.msg })

-- The default branch.
unfoldable pub open_elt : Engine → ℕ → List (Bytes × Bytes) → Ctx → Option Ctx
open_elt e cid attrs ctx = do
  ctx1 ← push_state cid ctx
  ctx2 ← check_rptblk e ctx1
  fixml_attrs e attrs ctx2

unfoldable pub bo_fixml_elt : Engine → Bytes → List (Bytes × Bytes) → Ctx → Option Ctx
bo_fixml_elt e elem attrs ctx = do
  otag ← otag_now ctx.pool
  let cid = e.get_cid otag elem (length elem)
  let mty = e.get_mty elem (length elem)
  if cid == comp_fixml
      then push_state comp_fixml (record ctx { pool = init_ctxcb ctx.pool })
      else if not (cid == 0)
      then open_elt e cid attrs ctx
      else if mty == 0
      then some ctx
      else (do ctx1 ← note_type otag mty ctx; open_elt e mty attrs ctx1)

-- `sax_eo_FIXML_elt`; the context is that of the state before the current one. An end that is none of the
-- message's type calls `abort`.
unfoldable pub old_otag : Pool → Option ℕ
old_otag p = do
  cur ← current p
  elim cur.old [ none ↦ some 0 | some i ↦ do c ← get_elem? p.cells i; some c.otag ]

unfoldable pub eo_fixml_elt : Engine → Bytes → Ctx → Option Ctx
eo_fixml_elt e elem ctx = do
  otag ← old_otag ctx.pool
  let mty = e.get_mty elem (length elem)
  if not (e.get_cid otag elem (length elem) == 0)
      then (do p ← pop_state ctx.pool; some (record ctx { pool = p }))
      else if mty == 0
      then some ctx
      else if otag == msgt_batch || mty == low32 ctx.msg.f35
      then (do p ← pop_state ctx.pool; some (record ctx { pool = p }))
      else none

-- `el_sta` in an unknown name space: the attributes may say which one it is.
unfoldable pub name_fixml : Spaces → Spaces
name_fixml s = elim (ns_at 0 s) [
  | none ↦ s
  | some first ↦ record s { ns = set s.ns 0 (record first { nsid = v50_sp2_id }) }
]

unfoldable pub guess : Bytes → List (Bytes × Bytes) → Ctx → Ctx
guess elem [] ctx =
    if equal elem (codes "FIXML") then record ctx { spaces = name_fixml ctx.spaces } else ctx
guess elem (a ∷ attrs) ctx = ctx

abbrev pub set_version : ℕ → Msg → Msg
set_version ver m = record m {
  f8 = set_low32 (record (m.f8) { tag = Tag.begin_string; typ = Typ.ver }) ver;
}

-- The version that is taken, and the context.
unfoldable pub learn : Engine → Bytes → List (Bytes × Bytes) → Ctx → Option (ℕ × Ctx)
learn e elem attrs ctx = do
  ctx1 ← unk_attrs e attrs ctx
  let ctx2 = guess elem attrs ctx1
  first ← ns_at 0 ctx2.spaces
  some (first.nsid, record ctx2 { msg = set_version first.nsid ctx2.msg })

-- `el_sta`: an unknown name space is tried twice.
unfoldable pub retry : Engine → Bytes → List (Bytes × Bytes) → ℕ → Ctx → Option Ctx
retry e elem attrs nsid ctx =
    if is_fixml nsid
    then bo_fixml_elt e (real_name elem) attrs ctx
    else if nsid == 0
    then (do r ← learn e elem attrs ctx; some r.1)
    else some ctx

unfoldable pub el_sta : Engine → Bytes → List (Bytes × Bytes) → Ctx → Option Ctx
el_sta e elem attrs ctx = do
  found ← pref_to_ns ctx.spaces elem (pref_len elem)
  elim found [
    | none ↦ some ctx
    | some i ↦ do
      s ← ns_at i ctx.spaces
      if is_fixml s.nsid
          then bo_fixml_elt e (real_name elem) attrs ctx
          else if s.nsid == 0
          then (do (nsid, ctx1) ← learn e elem attrs ctx; retry e elem attrs nsid ctx1)
          else some ctx
  ]

-- `el_end`: a name space that is not found is read through.
unfoldable pub el_end : Engine → Bytes → Ctx → Option Ctx
el_end e elem ctx = do
  found ← pref_to_ns ctx.spaces elem (pref_len elem)
  i ← found
  s ← ns_at i ctx.spaces
  if is_fixml s.nsid then eo_fixml_elt e (real_name elem) ctx else some ctx

unfoldable pub handle : Engine → Event → Ctx → Option Ctx
handle e (elt_start elem attrs) ctx = el_sta e elem attrs ctx
handle e (elt_end elem) ctx = el_end e elem ctx

unfoldable pub handle_all : Engine → List Event → Ctx → Option Ctx
handle_all e [] ctx = some ctx
handle_all e (ev ∷ evs) ctx = do ctx' ← handle e ev ctx; handle_all e evs ctx'

-- The message that is made for a text of `doclen` bytes, with its fields in the message itself.
abbrev pub fspc_start : ℕ
fspc_start = 256

abbrev pub tail_room : ℕ → ℕ
tail_room doclen = round_up (round_up (doclen / 2 + 1) vspc_rnd) 8

unfoldable pub fixml_husk : ℕ → Msg
fixml_husk doclen = record husk { vspc = tail_room doclen; fspc = fspc_start; embedded = true }

-- What expat does with a text: the calls of the handlers, and whether they are all.
pub record Parsed : Type 0 where
  pub events : List Event
  pub whole : Bool

-- `make_fixc_from_fixml`, expat being there; `some none` for NULL.
unfoldable pub from_fixml : Engine → (Bytes → Parsed) → Bytes → Option (Option Msg)
from_fixml e expat doc = do
  ctx ←
      handle_all e (expat doc).events
        (record { spaces = no_spaces; pool = no_pool; msg = fixml_husk (length doc) })
  some (if (expat doc).whole then some ctx.msg else none)
