-- ===== src/Fixup/Streak.antt =====
-- What the loop of `fixc_fixup` makes of the fields: contexts with a reason, numbered in streaks.
use libfixc.Base.{
  ℕ, suc, ◌+◌, ◌^◌, ◌≡◌, ◌≤◌, ◌<◌, refl, ap, ◌∙◌, arith, Bool, true, false, ◌&&◌, ◌||◌, Option,
  some, List, [], ◌∷◌, length, get_elem?, ltb, ◌==◌, Bool-cases, Option-cases, inl, inr, ◌⊎◌,
}
use libfixc.Message.{Fld}
use libfixc.Engine.{Engine}
use libfixc.Fixup.{Frame, Stk, Sought, found, lost, streak_at, tick, mark, place, round, rounds}
use libfixc.Fixup.Ancestors.{Among}
use libfixc.Fixup.Reasons.{Reason, IsMissed, IsOver, bottom, AllMissed-own}
use libfixc.Fixup.Stack.{IsComplete, push_lem, Ends, at_top, at_end, seek_lem}

-- Fields before and after, the last context being `ctx` and `n` the next number in it: a field goes on in
-- the context; or starts a streak in another one, where the last context is not listed for its tag; or starts
-- a streak in the last context, where an earlier one of the fields, `all`, has its tag; or stays as it is
-- where no context is found, not even below the message's own, which is then the last.
pub data Run (e : Engine) (own : ℕ) (all : List Fld)
    : ℕ → ℕ → List Fld → List Fld → Bool → Type 0 where
  done : {ctx n : ℕ} → Run e own all ctx n [] [] false
  goes_on :
      {ctx n : ℕ} {f : Fld} {fs gs : List Fld} {out : Bool} {fc : List ℕ}
      → e.fld_ctx f.tag ≡ some fc
      → Reason e fc f ctx
      → Run e own all ctx (suc n) fs gs out
      → Run e own all ctx n (f ∷ fs) (mark f ctx n ∷ gs) out
  starts :
      {ctx n : ℕ} {f : Fld} {fs gs : List Fld} {out : Bool} {fc : List ℕ} (new : ℕ)
      → e.fld_ctx f.tag ≡ some fc
      → ¬ Among ctx fc
      → Reason e fc f new
      → Run e own all new 1 fs gs out
      → Run e own all ctx n (f ∷ fs) (mark f new 0 ∷ gs) out
  starts_again :
      {ctx n : ℕ} {f : Fld} {fs gs : List Fld} {out : Bool} {fc : List ℕ} (j : ℕ) (g : Fld)
      → e.fld_ctx f.tag ≡ some fc
      → get_elem? all j ≡ some g
      → j + suc (length fs) < length all
      → g.tag ≡ f.tag
      → Reason e fc f ctx
      → Run e own all ctx 1 fs gs out
      → Run e own all ctx n (f ∷ fs) (mark f ctx 0 ∷ gs) out
  is_lost :
      {ctx n : ℕ} {f : Fld} {fs gs : List Fld} {out : Bool} {fc : List ℕ}
      → e.fld_ctx f.tag ≡ some fc
      → IsMissed e fc f own
      → Run e own all own 0 fs gs out
      → Run e own all ctx n (f ∷ fs) (f ∷ gs) true

-- An earlier field has the tag of the `i`-th one.
abbrev pub Repeats : List Fld → ℕ → Fld → Type 0
Repeats all i f = (j : ℕ) × (g : Fld) × (get_elem? all j ≡ some g) × (j < i) × (g.tag ≡ f.tag)

-- The counter of a field is the one it has, or 0 where its tag repeats.
streak_at-cases :
    (all : List Fld) (f : Fld) (i : ℕ) (top : Frame) (n : ℕ)
    → (streak_at all f i top n ≡ n) ⊎ ((streak_at all f i top n ≡ 0) × Repeats all i f)
unfolding streak_at
streak_at-cases all f i top n = elim (Option-cases (get_elem? all (top.idx + 1))) [
  | inl h ↦ inl (rw (streak_at, h))
  | inr (g, h) ↦ elim (Bool-cases (ltb (top.idx + 1) i && g.tag == f.tag)) [
    | inl b ↦ inr (rw (streak_at, h, b), (top.idx + 1, g, h, ground arith, ground arith))
    | inr b ↦ inl (rw (streak_at, h, b))
  ]
]

placed_at :
    (all : List Fld) (own : ℕ) (f : Fld) (i n : ℕ) (s : Stk) (top : Frame) (below : List Frame)
    → s.frames ≡ top ∷ below
    → streak_at all f i top s.streak ≡ n
    → n < 2 ^ 31
    → place all f i (found s) own ≡ some (mark f top.ctx n, false, record s { streak = suc n })
unfolding place tick
placed_at all own f i n s top below here k few =
    let next : tick n ≡ suc n = omega arith in
    rw (place, here, k, next)
      (ap
        (λ l. some (mark f top.ctx n, false, record { frames = l; size = s.size; streak = suc n }))
        here)

-- The stack at the `i`-th field: not empty, with the message's own context at its bottom, and small.
pub record IsAt (own i : ℕ) (s : Stk) (top : Frame) : Type 0 where
  pub below : List Frame
  pub here : s.frames ≡ top ∷ below
  pub over : IsOver own s.frames
  pub within : s.streak ≤ i
  pub depth : length s.frames ≤ suc i

module _ (e : Engine) (complete : IsComplete e) (all : List Fld) (own : ℕ) where
  -- A round in terms of `Run`: what it returns, and how the rest of the fields goes on from there.
  record Stepped (f : Fld) (i ctx n : ℕ) (o : Option (Fld × Bool × Stk)) : Type 0 where
    g : Fld
    b : Bool
    after : Stk
    top' : Frame
    runs : o ≡ some (g, b, after)
    stays : IsAt own (suc i) after top'
    joins :
        (fs gs : List Fld) (out : Bool)
        → i + suc (length fs) ≡ length all
        → Run e own all top'.ctx after.streak fs gs out
        → Run e own all ctx n (f ∷ fs) (g ∷ gs) (b || out)

  -- The context is the old one, and so is the counter, or it starts again.
  stays_put :
      (fc : List ℕ) (f : Fld) (i : ℕ) (s : Stk) (top : Frame) (below : List Frame)
      → e.fld_ctx f.tag ≡ some fc
      → s.frames ≡ top ∷ below
      → s.streak ≤ i
      → i < 2 ^ 31
      → length s.frames ≤ suc (suc i)
      → Reason e fc f top.ctx
      → IsOver own s.frames
      → Stepped f i top.ctx s.streak (place all f i (found s) own)
  stays_put fc f i s top below ef here within few depth r over =
      elim (streak_at-cases all f i top s.streak) [
        | inl k ↦ record {
          g = mark f top.ctx s.streak;
          b = false;
          after = record s { streak = suc s.streak };
          top' = top;
          runs = placed_at all own f i s.streak s top below here k (omega arith);
          stays = record {
            below = below;
            here = here;
            over = over;
            within = omega arith;
            depth = depth;
          };
          joins = λ fs gs out count r'. goes_on ef r r';
        }
        | inr (k, (j, g', there, earlier, same_tag)) ↦ record {
          g = mark f top.ctx 0;
          b = false;
          after = record s { streak = 1 };
          top' = top;
          runs = placed_at all own f i 0 s top below here k (omega arith);
          stays = record {
            below = below;
            here = here;
            over = over;
            within = omega arith;
            depth = depth;
          };
          joins = λ fs gs out count r'. starts_again j g' ef there (omega arith) same_tag r r';
        }
      ]

  -- The context is another one, and the counter is 0.
  moves :
      (fc : List ℕ) (f : Fld) (i ctx n : ℕ) (s : Stk) (top : Frame) (below : List Frame)
      → e.fld_ctx f.tag ≡ some fc
      → s.frames ≡ top ∷ below
      → s.streak ≡ 0
      → length s.frames ≤ suc (suc i)
      → ¬ Among ctx fc
      → Reason e fc f top.ctx
      → IsOver own s.frames
      → Stepped f i ctx n (place all f i (found s) own)
  moves fc f i ctx n s top below ef here again depth unlisted r over =
      let k : streak_at all f i top s.streak ≡ 0 = elim (streak_at-cases all f i top s.streak) [
        | inl k ↦ k ∙ again
        | inr (k, _) ↦ k
      ] in
      record {
        g = mark f top.ctx 0;
        b = false;
        after = record s { streak = 1 };
        top' = top;
        runs = placed_at all own f i 0 s top below here k (omega arith);
        stays = record {
          below = below;
          here = here;
          over = over;
          within = omega arith;
          depth = depth;
        };
        joins = λ fs gs out count r'. starts top.ctx ef unlisted r r';
      }

  -- No context is found: the message's own is pushed on the empty stack.
  loses :
      (fc : List ℕ) (f : Fld) (i ctx n : ℕ) (s : Stk)
      → e.fld_ctx f.tag ≡ some fc
      → s.frames ≡ []
      → IsMissed e fc f own
      → Stepped f i ctx n (place all f i (lost s) own)
  unfolding place
  loses fc f i ctx n s ef here miss =
      let (s', run, p) = push_lem own 0 s (rw here (omega arith)) in
      let zero_streak = p.again in
      record {
        g = f;
        b = true;
        after = s';
        top' = record { ctx = own; idx = 0 };
        runs = rw (place, run);
        stays = record {
          below = s.frames;
          here = p.frames;
          over = rw (p.frames, here) (bottom refl);
          within = omega arith;
          depth = omega (arith, ap length p.frames, ap length here);
        };
        joins = λ fs gs out count r. is_lost ef miss (rw zero_streak at r);
      }

  step_lem :
      (fc : List ℕ) (f : Fld) (i : ℕ) (s : Stk) (top : Frame)
      → e.fld_ctx f.tag ≡ some fc
      → IsAt own i s top
      → i < 2 ^ 31
      → (t : Sought) → Ends e fc f s.frames s.streak t
      → Stepped f i top.ctx s.streak (place all f i t own)
  unfolding place
  step_lem fc f i s top ef at few t (at_top s' top' below here depth (inr (again, out)) r l) =
      moves fc f i top.ctx s.streak s' top' below ef here again (omega (arith, at.depth))
        (out top at.below at.here) r (l.keeps own at.over)
  step_lem fc f i s top ef at few t (at_end s' here all) =
      loses fc f i top.ctx s.streak s' ef here (AllMissed-own e at.over all)
  step_lem fc f i s top ef at few t (at_top s' top' below here depth (inl (same, number)) r l) =
      let c : top'.ctx ≡ top.ctx = cc (here, same, at.here) in
      rw (c, number) at
        (stays_put fc f i s' top' below ef here (omega (arith, at.within, number)) few
          (omega (arith, at.depth, ap length same)) r (l.keeps own at.over))

  pub rounds_lem :
      (fs : List Fld) (i : ℕ) (s : Stk) (top : Frame)
      → IsAt own i s top
      → i + length fs < 2 ^ 31
      → i + length fs ≡ length all
      → (gs : List Fld) × (out : Bool) × (s' : Stk) × (rounds e all own i fs s ≡ some (gs, out, s'))
        × Run e own all top.ctx s.streak fs gs out
  unfolding rounds
  rounds_lem [] i s top at few count = ([], false, s, refl, done)
  rounds_lem (f ∷ fs) i s top at few count =
      let (fc, ef) = complete.fld_ctx f.tag in
      let (t, et, en) = seek_lem e complete fc f i s s.frames (omega (arith, at.depth)) in
      let st = step_lem fc f i s top ef at (omega arith) t en in
      let (gs, out, s', run, r) =
        rounds_lem fs (suc i) st.after st.top' st.stays (omega arith) (omega arith) in
      let first : round e all own f i s ≡ some (st.g, st.b, st.after) =
        rw (round, ef, et) st.runs in
      (st.g ∷ gs, st.b || out, s', rw (rounds, first, run), st.joins fs gs out (omega arith) r)
