-- ===== src/Tests/Copying.antt =====
-- The message of two texts copied into a buffer of 200 bytes.
use libfixc.Base.{◌+◌, ◌*◌, ◌≡◌, ◌≤◌, ◌<◌, refl, arith, some}
use libfixc.Message.{Msg, nflds}
use libfixc.Storage.{msg_minz, msg_size, fld_size}
use libfixc.Edit.View.{view}
use libfixc.Edit.Copy.{standalone, msg_cpy, msg_cpy-view}
use libfixc.Tests.{two_texts, two_texts-IsValid, two_texts-IsSmall}

msg_cpy-view_example :
    (m' : Msg) × (msg_cpy 200 two_texts ≡ some (standalone m', msg_minz two_texts))
    × (view m' ≡ view two_texts)
    × (msg_size + m'.fspc * fld_size + m'.vspc ≡ 200)
    × (nflds m' ≤ m'.fspc)
    × (m'.pz < m'.vspc)
unfolding msg_minz
msg_cpy-view_example =
    msg_cpy-view 200 two_texts two_texts-IsValid (two_texts-IsSmall 0 0 (omega arith) (omega arith))
      refl (omega arith) (omega arith)
