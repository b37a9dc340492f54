-- ===== src/Message/Typ.antt =====
-- The enum of tag types of src/fix.h; `unk` and `off` are one value there.
use libfixc.Base.{ℕ}

abbrev pub off : ℕ
off = 0

abbrev pub ver : ℕ
ver = 1

abbrev pub uchar : ℕ
uchar = 2

abbrev pub char : ℕ
char = 3

abbrev pub int : ℕ
int = 4

abbrev pub long : ℕ
long = 5

abbrev pub msgtyp : ℕ
msgtyp = 6

abbrev pub ctxt : ℕ
ctxt = 7

abbrev pub ptr : ℕ
ptr = 8
