-- ===== src/Fixup/Stack.antt =====
-- The stack of `fixc_fixup` stays in its memory, and with a complete dictionary the loop runs through.
use libfixc.Base.{
  ℕ, suc, ◌+◌, ◌^◌, ◌≡◌, ◌≤◌, ◌<◌, refl, ap, arith, true, Option, none, some, List, [], ◌∷◌, length,
  ltb, leb, ◌==◌, Bool-cases, Option-cases, ==_iff, inl, inr, ◌⊎◌,
}
use libfixc.Message.{Fld, low32}
use libfixc.Message.Tag
use libfixc.Power.{next_2power, add_size}
use libfixc.Power.Laws.{next_2power_lem}
use libfixc.Engine.{Engine, Sub}
use libfixc.Fixup.Ancestors.{listed-Among, listed-none, fu_ancest-none}
use libfixc.Fixup.Reasons.{
  higher, TopUnlisted, TopUnlisted-cons, Lies, Lies-pop, Reason, in_table, own_type, IsMissed,
  Reason-ancestor, AllMissed, none_left, missed,
}
use libfixc.Fixup.{
  listed, first_listed, Frame, Stk, push, Sought, found, lost, below_one, below_all, fu_ancest,
  stand_in, seek, min_size,
}

-- A dictionary that answers every question for a table.
pub record IsComplete (e : Engine) : Type 0 where
  pub fld_ctx : (t : ℕ) → (fc : List ℕ) × (e.fld_ctx t ≡ some fc)
  pub comp_sub : (c : ℕ) → (sub : Sub) × (e.comp_sub c ≡ some sub)

-- What `push` leaves: the new frame on top, and its index in the memory.
pub record Pushed (x i : ℕ) (s s' : Stk) : Type 0 where
  pub frames : s'.frames ≡ record { ctx = x; idx = i } ∷ s.frames
  pub inside : length s'.frames ≤ s'.size
  pub again : s'.streak ≡ 0

pub push_lem :
    (x i : ℕ) (s : Stk)
    → length s.frames < 2 ^ 62
    → (s' : Stk) × (push x i s ≡ some s') × Pushed x i s s'
unfolding push
push_lem x i s few = elim (Bool-cases (leb s.size (length s.frames))) [
  | inl full ↦
      let top = length s.frames in
      let more = next_2power (add_size top min_size) in
      let exact : add_size top min_size ≡ top + 32 = omega arith in
      let (_, le, _) = next_2power_lem (top + 32) (omega arith) (omega arith) in
      let room : top < more = rw exact (omega arith) in
      let in_it : ltb top more ≡ true = ground arith in
      (
        record { frames = record { ctx = x; idx = i } ∷ s.frames; size = more; streak = 0 },
        rw (full, in_it),
        record { frames = refl; inside = omega arith; again = refl },
      )
  | inr free ↦
      let in_it : ltb (length s.frames) s.size ≡ true = ground arith in
      (
        record { frames = record { ctx = x; idx = i } ∷ s.frames; size = s.size; streak = 0 },
        rw (free, in_it),
        record { frames = refl; inside = ground arith; again = refl },
      )
]

module _ (e : Engine) where
  -- What a search among `frames`, the counter being `n`, comes to: a top with a reason, or an empty stack
  -- where every frame is missed. At most one frame is new, and it lies on old ones; where the stack has
  -- changed the counter starts again, and the old top is not listed.
  pub data Ends (fc : List ℕ) (f : Fld) (frames : List Frame) (n : ℕ) : Sought → Type 0 where
    at_top :
        (s : Stk) (top : Frame) (below : List Frame)
        → s.frames ≡ top ∷ below
        → length s.frames ≤ suc (length frames)
        → ((s.frames ≡ frames) × (s.streak ≡ n)) ⊎ ((s.streak ≡ 0) × TopUnlisted fc frames)
        → Reason e fc f top.ctx
        → Lies frames s.frames
        → Ends fc f frames n (found s)
    at_end : (s : Stk) → s.frames ≡ [] → AllMissed e fc f frames → Ends fc f frames n (lost s)

  Ends-Pushed :
      {fc : List ℕ} {f : Fld} {x i n : ℕ} {s s' : Stk} {b : Frame} {bs : List Frame}
      → s.frames ≡ b ∷ bs
      → TopUnlisted fc s.frames
      → Pushed x i s s'
      → Reason e fc f x
      → Ends fc f s.frames n (found s')
  Ends-Pushed {s = s} {s' = s'} some_frame out p r =
      at_top s' _ s.frames p.frames (omega (arith, ap length p.frames)) (inr (p.again, out)) r
        (record {
          first = _;
          others = _;
          some_frame = some_frame;
          keeps = λ own o. rw p.frames (higher o);
        })

  Ends-pop :
      {fc : List ℕ} {f : Fld} {frames : List Frame} {n : ℕ} {t : Sought} (top : Frame)
      → IsMissed e fc f top.ctx
      → Ends fc f frames 0 t
      → Ends fc f (top ∷ frames) n t
  Ends-pop top miss (at_top s top' below here few (inl (_, z)) r l) =
      at_top s top' below here (omega arith) (inr (z, TopUnlisted-cons _ _ (miss.unlisted))) r
        (Lies-pop top l)
  Ends-pop top miss (at_top s top' below here few (inr (z, _)) r l) =
      at_top s top' below here (omega arith) (inr (z, TopUnlisted-cons _ _ (miss.unlisted))) r
        (Lies-pop top l)
  Ends-pop top miss (at_end s empty all) = at_end s empty (missed miss all)

module _ (e : Engine) (complete : IsComplete e) where
  below_one-some : (fc ys : List ℕ) → (o : Option ℕ) × (below_one e fc ys ≡ some o)
  unfolding below_one
  below_one-some fc [] = (none, refl)
  below_one-some fc (y ∷ ys) =
      let (sub, es) = complete.comp_sub y in
      let (o, eo) = below_one-some fc ys in
      elim (Bool-cases (listed y fc)) [
        | inl h ↦ (some y, rw h)
        | inr h ↦ elim (Option-cases (first_listed fc sub.subs)) [
          | inl n ↦ (o, rw (h, es, n) eo)
          | inr (z, n) ↦ (some z, rw (h, es, n))
        ]
      ]

  below_all-some : (fc xs : List ℕ) → (o : Option ℕ) × (below_all e fc xs ≡ some o)
  unfolding below_all
  below_all-some fc [] = (none, refl)
  below_all-some fc (x ∷ xs) =
      let (sub, es) = complete.comp_sub x in
      let (o, eo) = below_all-some fc xs in
      let (b, eb) = below_one-some fc sub.subs in
      elim (Option-cases b) [
        | inl n ↦ (o, rw (below_all, es, eb, n) eo)
        | inr (y, n) ↦ (some y, rw (below_all, es, eb, n))
      ]

  pub fu_ancest-some : (fc : List ℕ) (c : ℕ) → (anc : ℕ) × (fu_ancest e fc c ≡ some anc)
  unfolding fu_ancest
  fu_ancest-some fc c =
      let (sub, es) = complete.comp_sub c in
      let (b, eb) = below_all-some fc sub.subs in
      elim (Option-cases (first_listed fc sub.subs)) [
        | inr (x, n) ↦ (x, rw (fu_ancest, es, n))
        | inl n ↦ elim (Option-cases b) [
          | inl n' ↦ (0, rw (fu_ancest, es, n, eb, n'))
          | inr (y, n') ↦ (y, rw (fu_ancest, es, n, eb, n'))
        ]
      ]

  pub seek_lem :
      (fc : List ℕ) (f : Fld) (i : ℕ) (s : Stk) (frames : List Frame)
      → length frames < 2 ^ 62
      → (t : Sought) × (seek e fc f i s frames ≡ some t) × Ends e fc f frames s.streak t
  unfolding seek
  seek_lem fc f i s [] few =
      (lost (record s { frames = []; streak = 0 }), refl, at_end _ refl none_left)
  seek_lem fc f i s (top ∷ frames) few =
      let here = record s { frames = top ∷ frames } in
      elim (Bool-cases (listed top.ctx fc)) [
        | inl h ↦ (
          found here,
          rw h,
          at_top here top frames refl (omega arith) (inl (refl, refl))
              (in_table (listed-Among fc h))
              (record { first = _; others = _; some_frame = refl; keeps = λ own o. o }),
        )
        | inr h ↦ elim (Bool-cases (f.tag == Tag.msg_type)) [
          | inl ty ↦
              let (s', e', p) = push_lem (low32 f) i here few in
              (
                found s',
                rw (seek, h, ty, e'),
                Ends-Pushed e refl (TopUnlisted-cons _ _ (listed-none h)) p
                    (own_type ((==_iff f.tag Tag.msg_type).0 ty) refl),
              )
          | inr other ↦
              let (anc, ea) = fu_ancest-some fc top.ctx in
              elim (Bool-cases (anc == 0)) [
                | inl zero_anc ↦
                    let miss : IsMissed e fc f top.ctx = record {
                      no_type = ground arith;
                      unlisted = listed-none h;
                      no_ancestor =
                          fu_ancest-none e fc top.ctx (rw ((==_iff anc 0).0 zero_anc) at ea);
                    } in
                    let (t, et, en) =
                      seek_lem fc f i (record s { streak = 0 }) frames (omega arith) in
                    (t, rw (seek, h, other, ea, zero_anc) et, Ends-pop e top miss en)
                | inr some_anc ↦
                    let (s', e', p) = push_lem (stand_in e anc) i here few in
                    (
                      found s',
                      rw (seek, h, other, ea, some_anc, e'),
                      Ends-Pushed e refl (TopUnlisted-cons _ _ (listed-none h)) p
                          (Reason-ancestor e fc f top.ctx anc ea (ground arith)),
                    )
              ]
        ]
      ]
