-- ===== src/Fixup.antt =====
-- `fixc_fixup` and `fixc_fixup_some` of src/fixml-wr.c: the contexts of the fields of a message, found by
-- the dictionary, and `fixc_msg_needs_fixup_p` of src/fix-private.h.
-- The stack is a list with its top in front; `none` is a fault: a null pointer that the dictionary has
-- returned, or an access outside the stack's memory.
pub mod Stack
pub mod Contexts
pub mod Filled
pub mod Reasons
pub mod Streak
pub mod Reached
pub mod Ancestors
use libfixc.Base.{
  ℕ, zero, suc, ◌+◌, ◌-◌, ◌*◌, ◌/◌, ◌%◌, ◌^◌, ◌≡◌, Bool, true, false, ◌&&◌, ◌||◌, not, Option, none,
  some, ◌>>=◌, List, [], ◌∷◌, ◌++◌, length, get_elem?, ltb, leb, ◌==◌, if◌then◌else◌,
}
use libfixc.Message.{Fld, Msg, nflds, low32}
use libfixc.Message.Tag
use libfixc.Power.{next_2power, add_size}
use libfixc.Engine.{Engine, Sub}

-- `fixc_msg_needs_fixup_p`.
unfoldable pub needs_fixup : List Fld → Bool
needs_fixup [] = false
needs_fixup (f ∷ fs) = f.tpc == 0

-- `ctx_udef_p`.
unfoldable pub ctx_udef : ℕ → Bool
ctx_udef ctx = ctx / 256 % 256 == 0x55

-- `fld_ctx_p` and the like: a search in a table.
unfoldable pub listed : ℕ → List ℕ → Bool
listed c [] = false
listed c (x ∷ xs) = x == c || listed c xs

-- The first of some contexts that is in a table: the first loop of `fu_ancest_p`, and its innermost.
unfoldable pub first_listed : List ℕ → List ℕ → Option ℕ
unfolding listed
first_listed fc [] = none
first_listed fc (x ∷ xs) = let rest = first_listed fc xs in if listed x fc then some x else rest

pub record Frame : Type 0 where
  pub ctx : ℕ
  pub idx : ℕ

-- The stack, the static number of its slots, and the counter of a streak.
pub record Stk : Type 0 where
  pub frames : List Frame
  pub size : ℕ
  pub streak : ℕ

abbrev pub min_size : ℕ
min_size = 32

-- `next2p` is `__next_2power` of src/fix.c again.
abbrev pub next2p : ℕ → ℕ
next2p z = next_2power z

-- `push(x, i)`, `chck_stk` included: the index of the new top decides about the memory, and has to lie in it.
unfoldable pub push : ℕ → ℕ → Stk → Option Stk
push x i s =
    let top = length s.frames in
    let size = if leb s.size top then next2p (add_size top min_size) else s.size in
    if ltb top size
    then some (record { frames = record { ctx = x; idx = i } ∷ s.frames; size = size; streak = 0 })
    else none

-- What the loop over a field's contexts comes to.
pub data Sought : Type 0 where
  found : Stk → Sought
  lost : Stk → Sought

-- What a field gets at `succ`, from the top of the stack and the counter; the counter starts again where
-- the field has the tag that the first field of the context has. `tags` are the fields' tags.
unfoldable pub streak_at : List Fld → Fld → ℕ → Frame → ℕ → ℕ
streak_at all f i top streak = elim (get_elem? all (top.idx + 1)) [
  | none ↦ streak
  | some g ↦ if ltb (top.idx + 1) i && g.tag == f.tag then 0 else streak
]

unfoldable pub tick : ℕ → ℕ
tick streak = (streak + 1) % 2 ^ 32

unfoldable pub mark : Fld → ℕ → ℕ → Fld
mark f ctx n = record f { tpc = ctx % 2 ^ 16; cnt = n % 2 ^ 16 }

-- A round of the loop over the fields: the field, whether it found no context, and the stack. The
-- message's own type, `own`, is pushed again where there is none.
unfoldable pub place : List Fld → Fld → ℕ → Sought → ℕ → Option (Fld × Bool × Stk)
unfolding streak_at mark tick
place all f i (lost s) own = do s' ← push own 0 s; some (f, true, s')
place all f i (found s) own = elim s.frames [
  | [] ↦ none
  | top ∷ frames ↦
      let n = streak_at all f i top s.streak in
      some (mark f top.ctx n, false, record s { streak = tick n })
]

-- The loop for messages that the user has defined.
unfoldable pub rounds_udef : ℕ → ℕ → List Fld → List Fld
unfolding mark tick
rounds_udef own n [] = []
rounds_udef own n (f ∷ fs) = mark f own n ∷ rounds_udef own (tick n) fs

module _ (e : Engine) where
  -- The two inner loops of `fu_ancest_p`: a sub-component, and then each of its own.
  unfoldable pub below_one : List ℕ → List ℕ → Option (Option ℕ)
  unfolding first_listed listed
  below_one fc [] = some none
  below_one fc (y ∷ ys) =
      let rest = below_one fc ys in
      if listed y fc then some (some y) else (elim (e.comp_sub y) [
        | none ↦ none
        | some sub ↦ elim (first_listed fc sub.subs) [ none ↦ rest | some z ↦ some (some z) ]
      ])

  -- The second loop.
  unfoldable pub below_all : List ℕ → List ℕ → Option (Option ℕ)
  unfolding below_one
  below_all fc [] = some none
  below_all fc (x ∷ xs) =
      let rest = below_all fc xs in
      elim (e.comp_sub x) [
        | none ↦ none
        | some sub ↦ elim (below_one fc sub.subs) [
          | none ↦ none
          | some none ↦ rest
          | some (some y) ↦ some (some y)
        ]
      ]

  -- `fu_ancest_p`, 0 being `FIXC_COMP_UNK`.
  unfoldable pub fu_ancest : List ℕ → ℕ → Option ℕ
  unfolding below_all first_listed
  fu_ancest fc c = elim (e.comp_sub c) [
    | none ↦ none
    | some sub ↦ elim (first_listed fc sub.subs) [
      | some x ↦ some x
      | none ↦ elim (below_all fc sub.subs) [
        | none ↦ none
        | some none ↦ some 0
        | some (some y) ↦ some y
      ]
    ]
  ]

  -- The context that is pushed for an ancestor: an optimised block stands in for its component.
  unfoldable pub stand_in : ℕ → ℕ
  stand_in anc = if e.comp_orb anc == 0 then anc else e.comp_orb anc

  -- The `do` loop: down the stack until a context is found for the field `f` at `i`.
  unfoldable pub seek : List ℕ → Fld → ℕ → Stk → List Frame → Option Sought
  seek fc f i s [] = some (lost (record s { frames = []; streak = 0 }))
  seek fc f i s (top ∷ frames) =
      let here = record s { frames = top ∷ frames } in
      let rest = seek fc f i (record s { streak = 0 }) frames in
      if listed top.ctx fc
      then some (found here)
      else if f.tag == Tag.msg_type
      then (do s' ← push (low32 f) i here; some (found s'))
      else elim (fu_ancest fc top.ctx) [
        | none ↦ none
        | some anc ↦
            if anc == 0 then rest else (do s' ← push (stand_in anc) i here; some (found s'))
      ]

  unfoldable pub round : List Fld → ℕ → Fld → ℕ → Stk → Option (Fld × Bool × Stk)
  round all own f i s = elim (e.fld_ctx f.tag) [
    | none ↦ none
    | some fc ↦ do t ← seek fc f i s s.frames; place all f i t own
  ]

  -- The loop: the fields, whether the stack ran out once (`out_of_stack_p`), and the stack.
  unfoldable pub rounds : List Fld → ℕ → ℕ → List Fld → Stk → Option (List Fld × Bool × Stk)
  unfolding round
  rounds all own i [] s = some ([], false, s)
  rounds all own i (f ∷ fs) s = do
    (g, b, s1) ← round all own f i s
    (gs, bs, s2) ← rounds all own (suc i) fs s1
    some (g ∷ gs, b || bs, s2)

-- `fixc_fixup_some`: `last` and `streak` go from field to field.
unfoldable pub fixup_some : ℕ → ℕ → List Fld → List Fld
fixup_some last streak [] = []
fixup_some last streak (f ∷ fs) =
    let next = (streak + 1) % 2 ^ 32 in
    let on = fixup_some last next fs in
    let reset = fixup_some f.tpc 1 fs in
    if f.tpc == 0 && f.cnt == 0
    then record f { tpc = last % 2 ^ 16; cnt = streak % 2 ^ 16 } ∷ on
    else if f.cnt == 0 && f.tpc == last
    then record f { cnt = streak % 2 ^ 16 } ∷ on
    else if f.cnt == 0
    then f ∷ reset
    else f ∷ on

-- `fixc_fixup` on a message and the static size of the stack.
unfoldable pub fixup : Engine → ℕ → Msg → Option (Msg × ℕ)
fixup e size m =
    let own = low32 m.f35 in
    let start = push own 0 (record { frames = []; size = size; streak = 0 }) in
    if ctx_udef own
    then elim start [
      | none ↦ none
      | some s ↦ some (record m { flds = rounds_udef own 0 m.flds }, s.size)
    ]
    else (do
      s ← start
      (fs, out, s') ← rounds e m.flds own 0 m.flds s
      some (
        record m { flds = if out then fixup_some 0 1 fs else fs },
        if ltb min_size s'.size then min_size else s'.size,
      ))
