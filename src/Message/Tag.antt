-- ===== src/Message/Tag.antt =====
-- The enum of known tags of src/fix.h.
use libfixc.Base.{ℕ}

abbrev pub unk : ℕ
unk = 0

abbrev pub begin_string : ℕ
begin_string = 8

abbrev pub body_length : ℕ
body_length = 9

abbrev pub check_sum : ℕ
check_sum = 10

abbrev pub msg_type : ℕ
msg_type = 35
