-- ===== src/Storage/Sizes.antt =====
-- The sizes that `fixc_msg_minz`, `fixc_msg_optz` and `fixc_msg_z` report.
use libfixc.Base.{◌+◌, ◌*◌, ◌^◌, ◌≤◌, ◌<◌, arith}
use libfixc.Message.{Msg, nflds}
use libfixc.Storage.{msg_z, msg_optz, msg_minz}

-- For fewer than 2^56 fields and slots and fewer than 2^60 bytes, the fields being in the slots: the
-- minimum size is no more than the optimal one, which exceeds it by less than a rounding of 32 slots and
-- 128 bytes, and the size of a message is at least its minimum size too.
pub msg_minz-msg_optz :
    (m : Msg)
    → nflds m ≤ m.fspc
    → m.fspc < 2 ^ 56
    → m.pz < 2 ^ 60
    → (msg_minz m ≤ msg_optz m) × (msg_optz m < msg_minz m + 32 * 16 + 128) × (msg_minz m ≤ msg_z m)
unfolding msg_minz msg_optz msg_z
msg_minz-msg_optz m within few short = (omega arith, omega arith, omega arith)
