-- ===== src/Storage.antt =====
-- The storage of a message in src/fix.c: the two sizes that `check_size` reckons with, its resizing
-- of the block that holds slots and values, and the sizes that `fixc_msg_z` and its kin report.
pub mod Grow
pub mod Sizes
use libfixc.Base.{
  ℕ, ◌+◌, ◌-◌, ◌*◌, ◌/◌, ◌%◌, Bool, true, false, ◌&&◌, not, Option, none, some, length, take, ltb,
  leb, if◌then◌else◌,
}
use libfixc.Message.{Msg, nflds}
use libfixc.Power.{size_mod, add_size, next_2power}

-- `sizeof(struct fixc_fld_s)` and `sizeof(struct fixc_msg_s)` where pointers have eight bytes.
abbrev pub fld_size : ℕ
fld_size = 16

abbrev pub msg_size : ℕ
msg_size = 96

-- `ROUND(s, a)`; every product here stays below 2^64 where the sum does.
abbrev pub round_up : ℕ → ℕ → ℕ
round_up s a = a * ((add_size s (a - 1)) / a)

abbrev pub vspc_rnd : ℕ
vspc_rnd = 128

abbrev pub fspc_rnd : ℕ
fspc_rnd = 32

-- What the code takes for the size of the value space: it is computed from `pz`, not kept.
pub allocd_vspc : Msg → ℕ
allocd_vspc m = next_2power (add_size m.pz 1)

-- The distance from `flds` to `pr` in slots.
pub allocd_fspc : Msg → ℕ
allocd_fspc m = m.fspc

-- The test at the start of `check_size`.
pub has_room : Msg → ℕ → ℕ → Bool
unfolding allocd_fspc allocd_vspc
has_room m add_flds add_vspc =
    ltb (add_size add_flds (nflds m)) (allocd_fspc m)
    && ltb (add_size add_vspc m.pz) (allocd_vspc m)

-- A fresh block of `vspc_nu` bytes behind `fspc_nu` slots. The fields in use, the slot behind them
-- where there is one, and `pz` bytes of values are copied; a copy that leaves the block faults, and
-- so does an assertion that fails.
pub move_block : Msg → ℕ → ℕ → Option Msg
unfolding allocd_fspc
move_block m fspc_nu vspc_nu =
    let new_sz = add_size vspc_nu (fspc_nu * fld_size % size_mod) in
    let slots = if ltb (nflds m) (allocd_fspc m) then nflds m + 1 else nflds m in
    let kept = ltb (nflds m) fspc_nu && ltb (add_size (nflds m * fld_size) m.pz) new_sz in
    if kept && (leb (slots * fld_size) new_sz && leb (fspc_nu * fld_size + m.pz) new_sz)
    then some (record m {
      pr = take m.pz m.pr;
      vspc = new_sz - fspc_nu * fld_size;
      fspc = fspc_nu;
      embedded = false;
    })
    else none

unfoldable pub check_size : Msg → ℕ → ℕ → Option Msg
unfolding has_room move_block allocd_vspc
check_size m add_flds add_vspc =
    if has_room m add_flds add_vspc
    then some m
    else move_block m (next_2power (add_size (nflds m) add_flds))
        (next_2power (add_size (add_size (allocd_vspc m) add_vspc) 1))

-- `fixc_msg_z`, `fixc_msg_optz` and `fixc_msg_minz`.
pub msg_z : Msg → ℕ
msg_z m =
    add_size (add_size (round_up (add_size m.pz 1) vspc_rnd) (m.fspc * fld_size % size_mod))
      msg_size

pub msg_optz : Msg → ℕ
msg_optz m =
    add_size
      (add_size (round_up (add_size m.pz 1) vspc_rnd)
        (round_up (nflds m) fspc_rnd * fld_size % size_mod))
      msg_size

unfoldable pub msg_minz : Msg → ℕ
msg_minz m = add_size (add_size (add_size m.pz 1) (nflds m * fld_size % size_mod)) msg_size
