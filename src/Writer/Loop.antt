-- ===== src/Writer/Loop.antt =====
-- A round of the loop over the fields in `fixc_render_fixml` of src/fixml-wr.c, in a buffer with room: a field
-- in the context of the one before, and a field that opens an element.
use libfixc.Base.{
  ℕ, suc, ◌+◌, ◌^◌, ◌≡◌, ◌≤◌, ◌<◌, refl, ap, ◌∙◌, sym, arith, true, false, Option, some, ◌>>=◌,
  List, [], ◌∷◌, ◌++◌, Bytes, length, ◌==◌, Bool-cases, ==_iff, inl, inr,
}
use libfixc.Message.{Fld}
use libfixc.Engine.{Engine}
use libfixc.Writer.States.{State, Wr}
use libfixc.Writer.{push_rndr_state, pop_rndr_state, render_attr, field_round}
use libfixc.Writer.Nested.{IsCtx, IsTree, IsPrintable, IsSound, Levels, level, shown}
use libfixc.Writer.Elements.{Fits, Opens, IsSound-weaken, push_rndr_state_lem, pop_rndr_state_lem}
use libfixc.Writer.Attributes.{render_attr_lem}

-- Where the loop stands: nothing is open yet, or the newest element is of the last context.
pub data IsAt (otpc : ℕ) : List State → Type 0 where
  at_start : otpc ≡ 0 → IsAt otpc []
  in_ctx : {s : State} {ss : List State} → s.osub ≡ otpc → s.cntc ≡ 0 → IsAt otpc (s ∷ ss)

module _ (e : Engine) (b hd : Bytes) (rank : ℕ → ℕ) (tree : IsTree e rank) where
  newest_ctx :
      {k : ℕ} {s : State} {ss : List State}
      → Levels rank k (s ∷ ss)
      → (rank s.osub + suc (length ss) ≤ 16) × IsCtx s.osub
  newest_ctx (level r c le l) = (r, c)

  -- A round: the field is added, if it is to be shown.
  pub record Rounds (otpc' : ℕ) (k : ℕ) (fs : List Fld) (w : Wr) (f : ℕ → Option (ℕ × Wr))
      : Type 0 where
    pub after : Wr
    pub fits : Fits after.out f (otpc', after)
    pub sound : IsSound e b hd rank k fs after
    pub grows : length w.out ≤ length after.out
    pub at : IsAt otpc' after.states

  pub Rounds-along :
      (otpc' k : ℕ) (fs : List Fld) (w : Wr) {f g : ℕ → Option (ℕ × Wr)}
      → ((cap : ℕ) → f cap ≡ g cap)
      → Rounds otpc' k fs w g
      → Rounds otpc' k fs w f
  Rounds-along otpc' k fs w same r = record {
    after = r.after;
    fits = λ cap room few. same cap ∙ r.fits cap room few;
    sound = r.sound;
    grows = r.grows;
    at = r.at;
  }

  -- Opening an element for `f` and then its attribute.
  pub opened_attr :
      (f : Fld) (n k : ℕ) (fs : List Fld) (w : Wr) {g : ℕ → Option Wr}
      → IsPrintable b f
      → (f.tag == e.comp_rptb f.tpc) ≡ false
      → Opens e b hd rank tree f.tpc n k fs w g
      → Rounds f.tpc k
          (fs ++ shown e (f ∷ []))
          w
          (λ cap. do w1 ← g cap; w2 ← render_attr e cap f.tpc b f w1; some (f.tpc, w2))
  opened_attr f n k fs w {g} ok kept o =
      let a =
        render_attr_lem e b hd rank tree f k fs o.goes.after o.top o.below ok kept (sym o.is_of)
          o.is_fresh o.newest o.goes.sound in
      let at : IsAt f.tpc (a.top ∷ o.below) = in_ctx (a.is_of ∙ o.is_of) a.is_fresh in
      record {
        after = a.after;
        fits = λ cap room few.
            rw (o.goes.fits cap (omega (arith, a.grows)) few, a.fits cap room few) refl;
        sound = a.sound;
        grows = omega (arith, o.goes.grows, a.grows);
        at = rw (← a.newest) at at;
      }

  -- The field starts another element of the same context.
  again_lem :
      (f : Fld) (otpc k : ℕ) (fs : List Fld) (out : Bytes) (s : State) (ss : List State) (free : ℕ)
      → IsPrintable b f
      → (f.tag == e.comp_rptb f.tpc) ≡ false
      → f.tpc ≡ otpc
      → s.osub ≡ otpc
      → IsSound e b hd rank k fs (record { out = out; states = s ∷ ss; free = free })
      → k + 3 < 2 ^ 16
      → Rounds otpc
          (k + 3)
          (fs ++ shown e (f ∷ []))
          (record { out = out; states = s ∷ ss; free = free })
          (λ cap. do
            r ← pop_rndr_state e cap (record { out = out; states = s ∷ ss; free = free })
            w1 ← push_rndr_state e cap r.0 r.1
            w2 ← render_attr e cap r.0 b f w1
            some (otpc, w2))
  again_lem f otpc k fs out s ss free ok kept same is i few =
      let c = pop_rndr_state_lem e b hd rank tree k fs s ss out free i in
      let w1 : Wr = record { out = c.out; states = ss; free = c.free } in
      let (low, ctx) = newest_ctx i.levels in
      let o = push_rndr_state_lem e b hd rank tree s.osub k fs w1 ctx c.sound (omega arith) low in
      let of_f : f.tpc ≡ s.osub = same ∙ sym is in
      let a =
        render_attr_lem e b hd rank tree f (k + 1) fs o.goes.after o.top o.below ok kept
          (of_f ∙ sym o.is_of) o.is_fresh o.newest o.goes.sound in
      let at : IsAt otpc (a.top ∷ o.below) = in_ctx (a.is_of ∙ o.is_of ∙ is) a.is_fresh in
      record {
        after = a.after;
        fits = λ cap room few'.
            rw
              (
                c.fits cap (omega (arith, o.goes.grows, a.grows)) few',
                o.goes.fits cap (omega (arith, a.grows)) few',
                ap (λ t. render_attr e cap t b f o.goes.after) (sym of_f) ∙ a.fits cap room few',
              )
              refl;
        sound = IsSound-weaken e b hd rank tree (k + 3) (omega arith) a.sound;
        grows = omega (arith, c.grows, o.goes.grows, a.grows);
        at = rw (← a.newest) at at;
      }

  -- The field is another attribute of the newest element.
  more_lem :
      (f : Fld) (otpc k : ℕ) (fs : List Fld) (w : Wr) (s : State) (ss : List State)
      → IsPrintable b f
      → (f.tag == e.comp_rptb f.tpc) ≡ false
      → f.tpc ≡ otpc
      → s.osub ≡ otpc
      → s.cntc ≡ 0
      → w.states ≡ s ∷ ss
      → IsSound e b hd rank k fs w
      → Rounds otpc
          (k + 3)
          (fs ++ shown e (f ∷ []))
          w
          (λ cap. do w1 ← render_attr e cap f.tpc b f w; some (otpc, w1))
  more_lem f otpc k fs w s ss ok kept same is z newest i =
      let a = render_attr_lem e b hd rank tree f k fs w s ss ok kept (same ∙ sym is) z newest i in
      let at : IsAt otpc (a.top ∷ ss) = in_ctx (a.is_of ∙ is) a.is_fresh in
      record {
        after = a.after;
        fits = λ cap room few. rw (a.fits cap room few) refl;
        sound = IsSound-weaken e b hd rank tree (k + 3) (omega arith) a.sound;
        grows = a.grows;
        at = rw (← a.newest) at at;
      }

  pub same_ctx_lem :
      (f : Fld) (otpc k : ℕ) (fs : List Fld) (out : Bytes) (ss : List State) (free : ℕ)
      → IsPrintable b f
      → (f.tag == e.comp_rptb f.tpc) ≡ false
      → (f.tpc == otpc) ≡ true
      → IsAt otpc ss
      → IsSound e b hd rank k fs (record { out = out; states = ss; free = free })
      → k + 3 < 2 ^ 16
      → Rounds otpc
          (k + 3)
          (fs ++ shown e (f ∷ []))
          (record { out = out; states = ss; free = free })
          (λ cap. field_round e cap b f otpc (record { out = out; states = ss; free = free }))
  unfolding field_round
  same_ctx_lem f otpc k fs out [] free ok kept same (at_start z) i few =
      absurd (ok.ctx.nonzero ((==_iff f.tpc otpc).0 same ∙ z))
  same_ctx_lem f otpc k fs out (s ∷ ss) free ok kept same (in_ctx is z) i few =
      let w : Wr = record { out = out; states = s ∷ ss; free = free } in
      let fs' = fs ++ shown e (f ∷ []) in
      let same' = (==_iff f.tpc otpc).0 same in
      elim (Bool-cases (f.cnt == 0)) [
        | inl again ↦
            Rounds-along otpc (k + 3) fs' w (λ cap. rw (kept, same, again) refl)
              (again_lem f otpc k fs out s ss free ok kept same' is i few)
        | inr more ↦
            Rounds-along otpc (k + 3) fs' w (λ cap. rw (kept, same, more) refl)
              (more_lem f otpc k fs w s ss ok kept same' is z refl i)
      ]
