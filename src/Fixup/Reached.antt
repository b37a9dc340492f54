-- ===== src/Fixup/Reached.antt =====
-- `fixc_fixup` on messages whose fields are all reached from the message's own type: the stack does not run
-- out.
use libfixc.Base.{
  ℕ, suc, ◌+◌, ◌^◌, ◌≡◌, ◌≤◌, ◌<◌, ◌≢◌, ◌⊎◌, refl, ap, ◌∙◌, sym, arith, true, false, Option, some,
  ◌>>=◌, List, [], ◌∷◌, length, get_elem?, ltb, ◌==◌, if◌then◌else◌, Bool-cases, ==_iff, inl, inr,
}
use libfixc.Message.{Fld, Msg, nflds, low32}
use libfixc.Message.Tag
use libfixc.Engine.{Engine}
use libfixc.Fixup.{
  ctx_udef, listed, Frame, Stk, push, Sought, found, fu_ancest, stand_in, seek, streak_at, tick,
  mark, place, round, rounds, fixup, min_size,
}
use libfixc.Fixup.Reasons.{IsOver, bottom, higher}
use libfixc.Fixup.Stack.{IsComplete, push_lem, fu_ancest-some}
use libfixc.Fixup.Streak.{Run, rounds_lem}
use libfixc.Fixup.Contexts.{start_lem}

-- The context `c` is in the field's table, or has one of the table below it.
pub data IsReached (e : Engine) (c : ℕ) (f : Fld) : Type 0 where
  at_top : {fc : List ℕ} → e.fld_ctx f.tag ≡ some fc → listed c fc ≡ true → IsReached e c f
  below_top :
      {fc : List ℕ} (anc : ℕ)
      → e.fld_ctx f.tag ≡ some fc
      → fu_ancest e fc c ≡ some anc
      → anc ≢ 0
      → IsReached e c f

-- A search that does not run out of the stack.
record Finds (own : ℕ) (n : ℕ) (o : Option Sought) : Type 0 where
  after : Stk
  finds : o ≡ some (found after)
  ends : IsOver own after.frames
  few : length after.frames ≤ suc n

IsOver-cons :
    {own : ℕ} {f : Frame} {fs : List Frame} → IsOver own (f ∷ fs) → (f.ctx ≡ own) ⊎ IsOver own fs
IsOver-cons (bottom is) = inl is
IsOver-cons (higher ends) = inr ends

IsOver-nil {ℓ} : {A : Type ℓ} {own : ℕ} → IsOver own [] → A
IsOver-nil ends = elim ends [ ]

-- The search does not pass by a context that a field is reached from.
IsReached-stops :
    {e : Engine} {c anc : ℕ} {f : Fld} {fc : List ℕ}
    → IsReached e c f
    → e.fld_ctx f.tag ≡ some fc
    → listed c fc ≡ false
    → fu_ancest e fc c ≡ some anc
    → anc ≢ 0
IsReached-stops {e} {c} {fc = fc} (at_top {fc = fc'} ef' in_it) ef out ea =
    let same : fc' ≡ fc = cc in
    let in_it' : listed c fc ≡ true = rw same at in_it in
    let clash : true ≡ false = sym in_it' ∙ out in cc
IsReached-stops {e} {c} {anc} {fc = fc} (below_top {fc = fc'} anc' ef' ea' nz) ef out ea =
    let same : fc' ≡ fc = cc in
    let ea'' : fu_ancest e fc c ≡ some anc' = rw same at ea' in
    let same' : anc' ≡ anc = cc in rw same' at nz

module _ (e : Engine) (complete : IsComplete e) (own : ℕ) where
  Finds-along : {n k : ℕ} {o p : Option Sought} → o ≡ p → n ≤ k → Finds own n p → Finds own k o
  Finds-along same le h = record {
    after = h.after;
    finds = same ∙ h.finds;
    ends = h.ends;
    few = omega (arith, h.few);
  }

  Finds-push :
      {o : Option Sought} (x i : ℕ) (s : Stk)
      → IsOver own s.frames
      → length s.frames < 2 ^ 62
      → o ≡ (do s' ← push x i s; some (found s'))
      → Finds own (length s.frames) o
  Finds-push x i s ends few same =
      let (s', run, p) = push_lem x i s few in
      record {
        after = s';
        finds = same ∙ rw run refl;
        ends = rw (p.frames) (higher ends);
        few = omega (arith, ap length p.frames);
      }

  seek-Finds :
      (fc : List ℕ) (f : Fld) (i : ℕ) (s : Stk) (frames : List Frame)
      → e.fld_ctx f.tag ≡ some fc
      → IsReached e own f
      → IsOver own frames
      → length frames < 2 ^ 62
      → Finds own (length frames) (seek e fc f i s frames)
  unfolding seek
  seek-Finds fc f i s [] ef reached ends few = IsOver-nil ends
  seek-Finds fc f i s (top ∷ frames) ef reached ends few =
      let here = record s { frames = top ∷ frames } in
      elim (Bool-cases (listed top.ctx fc)) [
        | inl h ↦ record { after = here; finds = rw h refl; ends = ends; few = omega arith }
        | inr h ↦ elim (Bool-cases (f.tag == Tag.msg_type)) [
          | inl ty ↦ Finds-push (low32 f) i here ends few (rw (seek, h, ty) refl)
          | inr other ↦
              let (anc, ea) = fu_ancest-some e complete fc top.ctx in
              elim (Bool-cases (anc == 0)) [
                | inr some_anc ↦
                    Finds-push (stand_in e anc) i here ends few
                      (rw (seek, h, other, ea, some_anc) refl)
                | inl zero_anc ↦ elim (IsOver-cons ends) [
                  | inr ends' ↦ Finds-along (rw (seek, h, other, ea, zero_anc) refl) (omega arith) (
                      seek-Finds fc f i (record s { streak = 0 }) frames ef reached ends'
                        (omega arith))
                  | inl is ↦
                      let from_top : IsReached e top.ctx f = rw (← is) at reached in
                      absurd (IsReached-stops from_top ef h ea ((==_iff anc 0).0 zero_anc))
                ]
              ]
        ]
      ]

  place-top :
      (all : List Fld) (f : Fld) (i : ℕ) (s : Stk)
      → IsOver own s.frames
      → (g : Fld) × (n : ℕ) × (place all f i (found s) own
          ≡ some (g, false, record s { streak = n }))
  unfolding place
  place-top all f i s ends = go s.frames refl ends
    where
      go :
          (frames : List Frame)
          → s.frames ≡ frames
          → IsOver own frames
          → (g : Fld) × (n : ℕ) × (place all f i (found s) own
              ≡ some (g, false, record s { streak = n }))
      go [] same ends' = IsOver-nil ends'
      go (top ∷ below) same ends' = (
        mark f top.ctx (streak_at all f i top s.streak),
        tick (streak_at all f i top s.streak),
        rw (place, same)
            (ap
              (λ l. some (
                mark f top.ctx (streak_at all f i top s.streak),
                false,
                record {
                  frames = l;
                  size = s.size;
                  streak = tick (streak_at all f i top s.streak);
                },
              ))
              same),
      )

  rounds-found :
      (all fs : List Fld) (i : ℕ) (s : Stk)
      → IsOver own s.frames
      → length s.frames + length fs < 2 ^ 62
      → ((j : ℕ) (f : Fld) → get_elem? fs j ≡ some f → IsReached e own f)
      → (gs : List Fld) × (s' : Stk) × (rounds e all own i fs s ≡ some (gs, false, s'))
  unfolding rounds round
  rounds-found all [] i s ends few reached = ([], s, refl)
  rounds-found all (f ∷ fs) i s ends few reached =
      let (fc, ef) = complete.fld_ctx f.tag in
      let h = seek-Finds fc f i s s.frames ef (reached 0 f refl) ends (omega arith) in
      let (g, n, p) = place-top all f i h.after h.ends in
      let (gs, s', r) =
        rounds-found all fs (suc i) (record (h.after) { streak = n }) h.ends (omega (arith, h.few))
          (λ j. reached (suc j)) in
      let first : round e all own f i s ≡ some (g, false, record (h.after) { streak = n }) =
        rw (round, ef, h.finds) p in
      (g ∷ gs, s', rw (rounds, first, r) refl)

-- With a complete dictionary and fewer than 2^30 fields, on a message that is not user-defined: where every
-- field is reached from the message's own type, that is, its table has that type or something that
-- `fu_ancest_p` finds below it, `fixc_fixup` finds a context for every field, with the reasons and numbers
-- of a `Run`.
pub fixup-IsReached :
    (e : Engine) (size : ℕ) (m : Msg)
    → IsComplete e
    → ctx_udef (low32 m.f35) ≡ false
    → nflds m < 2 ^ 30
    → ((i : ℕ) (f : Fld) → get_elem? m.flds i ≡ some f → IsReached e (low32 m.f35) f)
    → (gs : List Fld) × (size' : ℕ) × (fixup e size m ≡ some (record m { flds = gs }, size'))
      × Run e (low32 m.f35) m.flds (low32 m.f35) 0 m.flds gs false
unfolding fixup
fixup-IsReached e size m complete plain few reached =
    let own = low32 m.f35 in
    let (s, run, at, again) = start_lem own size in
    let ends = at.over in
    let (gs, out, s', runs, r) =
      rounds_lem e complete m.flds own m.flds 0 s _ at (omega (arith, few)) (omega arith) in
    let (gs2, s2, runs2) =
      rounds-found e complete own m.flds m.flds 0 s ends (omega (arith, few, at.depth)) reached in
    let both : some (gs, out, s') ≡ some (gs2, false, s2) = sym runs ∙ runs2 in
    let all_found : out ≡ false = cc in
    let r' : Run e own m.flds own 0 m.flds gs out = rw again at r in
    (
      gs,
      (if ltb min_size s'.size then min_size else s'.size),
      rw (plain, run, runs, all_found) refl,
      rw all_found at r',
    )
