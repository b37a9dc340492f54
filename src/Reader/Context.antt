-- ===== src/Reader/Context.antt =====
-- The state of the FIXML reader of src/fixml-rd.c, `struct __ctx_s`, and what changes its message: `push_state`,
-- the counters of repeating blocks, and `bang_attr`.
use libfixc.Base.{
  ℕ, ◌+◌, ◌-◌, ◌*◌, ◌%◌, ◌^◌, Bool, true, not, Option, none, some, ◌>>=◌, Bytes, get_elem?,
  drop_last, update_at, ◌==◌, if◌then◌else◌,
}
use libfixc.Message.{Fld, Msg, nflds, low32, set_low32}
use libfixc.Message.Typ
use libfixc.Power.{size_mod}
use libfixc.Edit.{ok, err, add_fld, add_tag}
use libfixc.Engine.{Engine}
use libfixc.Reader.Namespaces.{Spaces}
use libfixc.Reader.Cells.{Cell, Pool, current, set_current, peek, push_cell}

-- `struct __ctx_s`; `sbuf` and its kin are not used.
pub record Ctx : Type 0 where
  pub spaces : Spaces
  pub pool : Pool
  pub msg : Msg

-- The field at `nflds - 1`. In front of the fields that are part of the message its number of fields
-- stands, in front of others nothing that belongs to the program.
unfoldable pub last_tag : Msg → Option ℕ
last_tag m =
    if nflds m == 0
    then (if m.embedded then some 0 else none)
    else (do f ← get_elem? m.flds (nflds m - 1); some f.tag)

-- `push_state`: the counter `cns` of a state of the same context that was popped last is kept, unless
-- the fields show that there was something else in between.
unfoldable pub keeps : Msg → Pool → ℕ → Option Bool
keeps m p otag = if nflds m == 0 then some true else (do
  f ← get_elem? m.flds (nflds m - 1)
  if f.tpc == otag then some true else (do c ← peek p; some (not (c.cns == 0))))

unfoldable pub push_state : ℕ → Ctx → Option Ctx
push_state otag ctx = do
  top ← peek ctx.pool
  let cns = if top.otag == otag then top.cns else 0
  p ← push_cell otag cns ctx.pool
  b ← keeps ctx.msg p otag
  p' ← (if b then some p else set_current (λ c. record c { cns = 0 }) p)
  some (record ctx { pool = p' })

-- `__upd_rptb`: the index of the counter of a repeating block, in `size_t`.
unfoldable pub rptb_index : Msg → Pool → Cell → Option ℕ
rptb_index m p cur =
    let i = (nflds m + size_mod - 1) % size_mod in
    if nflds m == 0 then some ((i + size_mod - cur.cns) % size_mod) else (do
      f ← get_elem? m.flds i
      if f.tpc == cur.otag then some ((i + size_mod - cur.cns) % size_mod) else (do
        c ← peek p
        some ((i + 2 * size_mod - (c.cns + 1) % 2 ^ 32 - cur.cns) % size_mod)))

abbrev pub count_up : Fld → Fld
count_up f = set_low32 f (low32 f + 1)

-- The field that is the first such counter. Its upper four bytes are not set by the code, and 0 here.
abbrev pub rptb_fld : ℕ → ℕ → Fld
rptb_fld tag otag = record {
  tag = tag % 2 ^ 16;
  typ = Typ.int;
  tpc = otag % 2 ^ 16;
  cnt = 0;
  val = 1;
}

unfoldable pub first_rptb : ℕ → ℕ → Ctx → Option Ctx
first_rptb tag otag ctx = do
  (_, m) ← add_fld ctx.msg (rptb_fld tag otag)
  some (record ctx { msg = m })

-- An index that is in front of the fields counts as a fault, although the code then reads the head of the
-- message where its fields lie right behind that.
unfoldable pub upd_rptb : ℕ → Ctx → Option Ctx
upd_rptb tag ctx = do
  cur ← current ctx.pool
  if cur.cns == 0 then first_rptb tag cur.otag ctx else (do
    i ← rptb_index ctx.msg ctx.pool cur
    f ← get_elem? ctx.msg.flds i
    if f.tag == tag
        then some
            (record ctx { msg = record (ctx.msg) { flds = update_at ctx.msg.flds i count_up } })
        else first_rptb tag cur.otag ctx)

unfoldable pub check_rptblk : Engine → Ctx → Option Ctx
check_rptblk e ctx = do
  cur ← current ctx.pool
  if e.comp_rptb cur.otag == 0 then some ctx else upd_rptb (e.comp_rptb cur.otag) ctx

-- The end of `bang_attr`, once the field is there: the context of an optimised block is replaced, the field
-- gets its context and number, and both counters go on.
unfoldable pub stand_for : Engine → ℕ → ℕ
stand_for e otag = if e.comp_orb otag == 0 then otag else e.comp_orb otag

unfoldable pub mark_last : ℕ → ℕ → Msg → Option Msg
mark_last otag cnt m =
    if nflds m == 0
    then none
    else some (record m {
      flds =
          update_at m.flds (nflds m - 1)
            (λ f. record f { tpc = otag % 2 ^ 16; cnt = cnt % 2 ^ 16 });
    })

unfoldable pub bang_attr : Engine → ℕ → Bytes → Ctx → Option Ctx
bang_attr e tag val ctx = do
  last ← last_tag ctx.msg
  let m = if last == tag then record (ctx.msg) { flds = drop_last ctx.msg.flds } else ctx.msg
  (r, m1) ← add_tag m tag val
  elim r [
    | err ↦ some (record ctx { msg = m1 })
    | ok ↦ do
      cur ← current ctx.pool
      let otag = stand_for e cur.otag
      m2 ← mark_last otag cur.cnt m1
      p ←
          set_current
            (λ c. record c { otag = otag; cnt = (c.cnt + 1) % 2 ^ 32; cns = (c.cns + 1) % 2 ^ 32 })
            ctx.pool
      some (record ctx { pool = p; msg = m2 })
  ]
