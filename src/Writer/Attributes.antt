-- ===== src/Writer/Attributes.antt =====
-- `__render_attr` of src/fixml-wr.c in the newest element, in a buffer with room.
use libfixc.Base.{
  ℕ, ◌+◌, ◌%◌, ◌^◌, ◌≡◌, ◌≤◌, refl, ap, arith, false, List, [], ◌∷◌, ◌++◌, append-nil, Bytes,
  length, length-append, ◌==◌, Bool-cases, inl, inr,
}
use libfixc.Message.{Fld}
use libfixc.Engine.{Engine}
use libfixc.Writer.States.{State, Wr, count_attr, unrendered}
use libfixc.Writer.{render_attr}
use libfixc.Writer.Nested.{IsTree, IsPrintable, Levels, level, IsSound, attr_name, attribute, shown}
use libfixc.Writer.Steps.{attr_text_lem, length-attribute}
use libfixc.Writer.Spine.{Spine-attribute}
use libfixc.Writer.Elements.{Fits}

module _ (e : Engine) (b hd : Bytes) (rank : ℕ → ℕ) (tree : IsTree e rank) where
  -- `__render_attr` in the newest element, which is of the field's context and has no elements yet.
  pub record Adds (f : Fld) (k : ℕ) (fs : List Fld) (w : Wr) (s : State) (ss : List State)
      : Type 0 where
    pub after : Wr
    pub fits : Fits after.out (λ cap. render_attr e cap f.tpc b f w) after
    pub sound : IsSound e b hd rank k (fs ++ shown e (f ∷ [])) after
    pub grows : length w.out ≤ length after.out
    pub top : State
    pub newest : after.states ≡ top ∷ ss
    pub is_of : top.osub ≡ s.osub
    pub is_fresh : top.cntc ≡ 0

  recount :
      {k n : ℕ} {s : State} {ss : List State}
      → Levels rank k (s ∷ ss)
      → Levels rank k (record s { cnta = n } ∷ ss)
  recount (level r c le l) = level r c le l

  render_attr_newest :
      (f : Fld) (k : ℕ) (fs : List Fld) (s : State) (ss : List State) (out : Bytes) (free : ℕ)
      → IsPrintable b f
      → (f.tag == e.comp_rptb f.tpc) ≡ false
      → f.tpc ≡ s.osub
      → s.cntc ≡ 0
      → IsSound e b hd rank k fs (record { out = out; states = s ∷ ss; free = free })
      → Adds f k fs (record { out = out; states = s ∷ ss; free = free }) s ss
  unfolding render_attr count_attr attr_name
  render_attr_newest f k fs s ss out free ok kept ctx z i = elim (Bool-cases (unrendered f.typ)) [
    | inl u ↦ record {
      after = record { out = out; states = s ∷ ss; free = free };
      fits = λ cap room few. rw u refl;
      sound = rw (kept, u, append-nil fs) i;
      grows = omega arith;
      top = s;
      newest = refl;
      is_of = refl;
      is_fresh = z;
    }
    | inr u ↦
        let (name, en) = tree.attr_named f in
        let (v, ev) = ok.value in
        let more = (s.cnta + 1) % 2 ^ 16 in
        let n = length-append out (attribute name v) in
        let sp = Spine-attribute e b hd f more i.text z ctx en ev in
        record {
          after = record {
            out = out ++ attribute name v;
            states = record s { cnta = more } ∷ ss;
            free = free;
          };
          fits = λ cap room few.
              rw
                (
                  u,
                  en,
                  attr_text_lem cap name v out b f ev (omega (arith, n, length-attribute name v))
                      few,
                )
                refl;
          sound = rw (kept, u) (record { text = sp; levels = recount i.levels; pooled = i.pooled });
          grows = omega (arith, n);
          top = record s { cnta = more };
          newest = refl;
          is_of = refl;
          is_fresh = z;
        }
  ]

  pub render_attr_lem :
      (f : Fld) (k : ℕ) (fs : List Fld) (w : Wr) (s : State) (ss : List State)
      → IsPrintable b f
      → (f.tag == e.comp_rptb f.tpc) ≡ false
      → f.tpc ≡ s.osub
      → s.cntc ≡ 0
      → w.states ≡ s ∷ ss
      → IsSound e b hd rank k fs w
      → Adds f k fs w s ss
  render_attr_lem f k fs w s ss ok kept ctx z newest i =
      let w' : Wr = record w { states = s ∷ ss } in
      let same : w ≡ w' = ap (λ l. record w { states = l }) newest in
      rw same (render_attr_newest f k fs s ss w.out w.free ok kept ctx z (rw same at i))
