-- ===== src/Reader/Counters.antt =====
-- The counters of repeating blocks in the FIXML reader: where `__upd_rptb` looks for the counter, and what it does to
-- the message.
use libfixc.Base.{
  ℕ, suc, ◌+◌, ◌-◌, ◌*◌, ◌%◌, ◌^◌, ◌≡◌, ◌<◌, ◌≢◌, refl, ap, sym, ◌∙◌, arith, true, false, some,
  List, [], ◌∷◌, ◌++◌, append_assoc, length, get_elem?, update_at, ◌==◌, if◌then◌else◌,
  length-append,
}
use libfixc.Message.{Fld, Msg, nflds}
use libfixc.Power.{size_mod}
use libfixc.Engine.{Engine}
use libfixc.Reader.Cells.{Cell, Pool, current, peek}
use libfixc.Reader.Context.{Ctx, rptb_index, count_up, first_rptb, upd_rptb, check_rptblk}

pub get_elem?-middle :
    (xs : List Fld) (x : Fld) (ys : List Fld) → get_elem? (xs ++ x ∷ ys) (length xs) ≡ some x
get_elem?-middle [] x ys = refl
get_elem?-middle (z ∷ xs) x ys = get_elem?-middle xs x ys

update_at-middle :
    (xs : List Fld) (x : Fld) (ys : List Fld) (g : Fld → Fld)
    → update_at (xs ++ x ∷ ys) (length xs) g ≡ xs ++ g x ∷ ys
update_at-middle [] x ys g = refl
update_at-middle (z ∷ xs) x ys g = ap (◌∷◌ z) (update_at-middle xs x ys g)

-- The fields behind the counter of a block of context `c`: as many as the block's state counts, the last of them of the
-- block itself; or the block's, and behind them those of a block within the block, with a counter of its own in
-- front of as many as the state counts that was given back last.
pub data IsBehind (c cns : ℕ) (p : Pool) : List Fld → Type 0 where
  own :
      (ys : List Fld) (l : Fld)
      → suc (length ys) ≡ cns
      → l.tpc ≡ c
      → IsBehind c cns p (ys ++ l ∷ [])
  child :
      {cell : Cell} (ys zs : List Fld) (l : Fld)
      → cns ≢ 0
      → length ys ≡ cns
      → l.tpc ≢ c
      → peek p ≡ some cell
      → length zs ≡ cell.cns
      → IsBehind c cns p (ys ++ (zs ++ l ∷ []))

-- The last field of a message, by the index that the code computes.
last_at :
    (m : Msg) (xs : List Fld) (l : Fld)
    → nflds m < 2 ^ 32
    → m.flds ≡ xs ++ l ∷ []
    → ((nflds m + size_mod - 1) % size_mod ≡ length xs)
      × (get_elem? m.flds (length xs) ≡ some l)
      × ((nflds m == 0) ≡ false)
last_at m xs l few e =
    let size : nflds m ≡ suc (length xs) = omega (arith, ap length e, length-append xs (l ∷ [])) in
    (omega (arith, size, few), rw e (get_elem?-middle xs l []), ground (arith, size))

-- The index of the counter.
module _ (m : Msg) (p : Pool) (cur : Cell) (few : nflds m < 2 ^ 32) where
  by_own :
      (xs : List Fld) (l : Fld) (k : ℕ)
      → m.flds ≡ xs ++ l ∷ []
      → l.tpc ≡ cur.otag
      → length xs ≡ k + cur.cns
      → rptb_index m p cur ≡ some k
  unfolding rptb_index
  by_own xs l k e is_c size =
      let (index, last, some_of) = last_at m xs l few e in
      let same : (l.tpc == cur.otag) ≡ true = ground (arith, is_c) in
      rw (some_of, index, last, same)
        (ap some (omega (arith, size, few, ap length e, length-append xs (l ∷ []))))

  pub by_child :
      {cell : Cell} (xs : List Fld) (l : Fld)
      → m.flds ≡ xs ++ l ∷ []
      → l.tpc ≢ cur.otag
      → peek p ≡ some cell
      → cell.cns + 1 < 2 ^ 32
      → (i : ℕ) → (length xs + 2 * size_mod - (cell.cns + 1) - cur.cns) % size_mod ≡ i
      → rptb_index m p cur ≡ some i
  unfolding rptb_index
  by_child xs l e other at low i size =
      let (index, last, some_of) = last_at m xs l few e in
      let differs : (l.tpc == cur.otag) ≡ false = ground arith in
      rw (some_of, index, last, differs, at) (ap some (omega (arith, size, low)))

  rptb_index_lem :
      {behind : List Fld} (xs : List Fld) (x : Fld)
      → m.flds ≡ xs ++ x ∷ behind
      → IsBehind cur.otag cur.cns p behind
      → (rptb_index m p cur ≡ some (length xs)) × ((cur.cns == 0) ≡ false)
  rptb_index_lem xs x e (own ys l size is_c) =
      let front = append_assoc xs (x ∷ ys) (l ∷ []) in
      (
        by_own (xs ++ x ∷ ys) l (length xs) (e ∙ sym front) is_c
            (omega (arith, size, length-append xs (x ∷ ys))),
        ground (arith, size),
      )
  rptb_index_lem xs x e (child {cell} ys zs l some_of size other at size') =
      let front : xs ++ x ∷ (ys ++ (zs ++ l ∷ [])) ≡ (xs ++ x ∷ (ys ++ zs)) ++ l ∷ [] =
        simp append_assoc in
      let long = ap length (e ∙ front) in
      let parts = length-append xs (x ∷ (ys ++ zs)) in
      let parts' = length-append ys zs in
      let all = length-append (xs ++ x ∷ (ys ++ zs)) (l ∷ []) in
      let few_z : cell.cns + 1 < 2 ^ 32 = omega (arith, size', parts, parts', few, long, all) in
      (
        by_child (xs ++ x ∷ (ys ++ zs)) l (e ∙ front) other at few_z (length xs)
            (omega (arith, size, size', parts, parts', few, long, all)),
        ground (arith, some_of),
      )

pub upd_rptb_found :
    (tag i : ℕ) (ctx : Ctx) {cur : Cell} {x : Fld}
    → current ctx.pool ≡ some cur
    → (cur.cns == 0) ≡ false
    → rptb_index ctx.msg ctx.pool cur ≡ some i
    → get_elem? ctx.msg.flds i ≡ some x
    → upd_rptb tag ctx ≡ (
        if x.tag == tag
        then some
            (record ctx { msg = record (ctx.msg) { flds = update_at ctx.msg.flds i count_up } })
        else first_rptb tag cur.otag ctx)
unfolding upd_rptb
upd_rptb_found tag i ctx at some_of index there = rw (at, some_of, index, there)

module _ (e : Engine) (t : ℕ) (ctx : Ctx) (cur : Cell) (at : current ctx.pool ≡ some cur)
    (counter : e.comp_rptb cur.otag ≡ t) (real : t ≢ 0) (few : nflds ctx.msg < 2 ^ 32) where
  pub counted_block : check_rptblk e ctx ≡ upd_rptb t ctx
  unfolding check_rptblk
  counted_block = let not_0 : (t == 0) ≡ false = ground arith in rw (at, counter, not_0)

  -- At an element of a repeating block, in a message of fewer than 2^32 fields: where the counter of the block is
  -- followed by as many fields as the block's state counts, the last of them the block's, or by those and the
  -- fields of a block within it that has a counter of its own, `check_rptblk` adds one to this very counter
  -- and changes nothing else.
  pub check_rptblk-IsBehind :
      {behind : List Fld} (xs : List Fld) (x : Fld)
      → ctx.msg.flds ≡ xs ++ x ∷ behind
      → x.tag ≡ t
      → IsBehind cur.otag cur.cns ctx.pool behind
      → check_rptblk e ctx
        ≡ some (record ctx { msg = record (ctx.msg) { flds = xs ++ count_up x ∷ behind } })
  check_rptblk-IsBehind {behind} xs x flds is_t b =
      let (index, some_of) = rptb_index_lem ctx.msg ctx.pool cur few xs x flds b in
      let there : get_elem? ctx.msg.flds (length xs) ≡ some x =
        rw flds (get_elem?-middle xs x behind) in
      let is_counter : (x.tag == t) ≡ true = ground (arith, is_t) in
      counted_block
      ∙ (upd_rptb_found t (length xs) ctx at some_of index there
          ∙ rw is_counter (
              ap (λ fs. some (record ctx { msg = record (ctx.msg) { flds = fs } }))
                (ap (λ fs. update_at fs (length xs) count_up) flds
                  ∙ update_at-middle xs x behind count_up)))
