-- ===== src/Edit/Copy.antt =====
-- `fixc_msg_cpy` of src/fix.c: a message copied into a buffer of `tsz` bytes.
use libfixc.Base.{
  ℕ, zero, suc, ◌+◌, ◌-◌, ◌*◌, ◌≡◌, ◌≤◌, ◌<◌, refl, ap, arith, true, false, Option, none, some,
  List, [], ◌∷◌, take, ltb, if◌then◌else◌,
}
use libfixc.Message.{Msg, nflds}
use libfixc.Storage.{msg_minz, msg_size, fld_size}
use libfixc.Storage.Grow.{IsValid, IsSmall}
use libfixc.Edit.View.{view}

-- The copy in the buffer. One of a message with its fields in `these` keeps the pointer to them: its fields
-- and values are in the block of the message that is copied, the values behind the fields in use.
pub data Copy : Type 0 where
  refused : Copy
  standalone : Msg → Copy
  shared : Msg → Copy

-- The values up to the NUL; the bytes of it that have been written are in the list.
unfoldable pub copied : ℕ → Msg → Msg
copied vspc m = record m { pr = take (suc m.pz) m.pr; vspc = vspc; fspc = nflds m }

-- `fixc_msg_cpy`, and what it returns.
unfoldable pub msg_cpy : ℕ → Msg → Option (Copy × ℕ)
msg_cpy tsz m =
    if ltb tsz (msg_minz m)
    then some (refused, 0)
    else if ltb m.vspc (m.pz + 1)
    then none
    else if m.embedded
    then some (
      shared (record (copied (m.vspc + (m.fspc - nflds m) * fld_size) m) { embedded = false }),
      msg_minz m,
    )
    else some (
      standalone (record (copied (tsz - msg_size - nflds m * fld_size) m) { embedded = true }),
      msg_minz m,
    )

take-take_more : {A : Type 0} (n : ℕ) (xs : List A) → take n (take (suc n) xs) ≡ take n xs
take-take_more zero xs = refl
take-take_more (suc n) [] = refl
take-take_more (suc n) (x ∷ xs) = ap (◌∷◌ x) (take-take_more n xs)

msg_minz-sum : (m : Msg) → IsSmall m 0 0 → msg_minz m ≡ m.pz + 1 + nflds m * 16 + 96
unfolding msg_minz
msg_minz-sum m small = omega (arith, small.few, small.short)

-- A valid message of a size far below the address space, whose fields are not in `these` and which has a byte
-- for a NUL behind its values, copied into a buffer of `fixc_msg_minz` bytes at least: the copy stands on its
-- own, has the same fields and values, and the buffer, after the structure and the fields, has room for the
-- values and the NUL.
pub msg_cpy-view :
    (tsz : ℕ) (m : Msg)
    → IsValid m
    → IsSmall m 0 0
    → m.embedded ≡ false
    → m.pz < m.vspc
    → msg_minz m ≤ tsz
    → (m' : Msg) × (msg_cpy tsz m ≡ some (standalone m', msg_minz m))
      × (view m' ≡ view m)
      × (msg_size + m'.fspc * fld_size + m'.vspc ≡ tsz)
      × (nflds m' ≤ m'.fspc)
      × (m'.pz < m'.vspc)
unfolding msg_cpy copied
msg_cpy-view tsz m valid small apart room enough =
    let size = msg_minz-sum m small in
    let fits : ltb tsz (msg_minz m) ≡ false = ground arith in
    let nul : ltb m.vspc (m.pz + 1) ≡ false = ground arith in
    (
      record (copied (tsz - msg_size - nflds m * fld_size) m) { embedded = true },
      rw (fits, nul, apart) refl,
      ap (λ v. record (view m) { values = v }) (take-take_more m.pz m.pr),
      omega (arith, size),
      omega arith,
      omega (arith, size),
    )
