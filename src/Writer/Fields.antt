-- ===== src/Writer/Fields.antt =====
-- The loop over the fields in `fixc_render_fixml` of src/fixml-wr.c, in a buffer with room.
use libfixc.Base.{
  ℕ, suc, ◌+◌, ◌*◌, ◌^◌, ◌≡◌, ◌<◌, refl, arith, some, List, [], ◌∷◌, ◌++◌, append_assoc, append-nil,
  Bytes, length, get_elem?, ◌==◌, Bool-cases, inl, inr,
}
use libfixc.Message.{Fld}
use libfixc.Engine.{Engine}
use libfixc.Writer.States.{State, Wr}
use libfixc.Writer.{field_round, field_rounds}
use libfixc.Writer.Nested.{IsTree, IsPrintable, IsSound, shown, is_shown}
use libfixc.Writer.Elements.{Goes, IsSound-weaken}
use libfixc.Writer.Descent.{change_ctx_lem}
use libfixc.Writer.Loop.{IsAt, Rounds, Rounds-along, opened_attr, same_ctx_lem}

module _ (e : Engine) (b hd : Bytes) (rank : ℕ → ℕ) (tree : IsTree e rank) where
  pub field_round_lem :
      (f : Fld) (otpc k : ℕ) (fs : List Fld) (out : Bytes) (ss : List State) (free : ℕ)
      → IsPrintable b f
      → IsAt otpc ss
      → IsSound e b hd rank k fs (record { out = out; states = ss; free = free })
      → k + 3 < 2 ^ 16
      → (otpc' : ℕ) × Rounds e b hd rank tree otpc'
          (k + 3)
          (fs ++ shown e (f ∷ []))
          (record { out = out; states = ss; free = free })
          (λ cap. field_round e cap b f otpc (record { out = out; states = ss; free = free }))
  unfolding field_round
  field_round_lem f otpc k fs out ss free ok at i few =
      let w : Wr = record { out = out; states = ss; free = free } in
      elim (Bool-cases (f.tag == e.comp_rptb f.tpc)) [
        | inl counter ↦ (
          otpc,
          record {
            after = w;
            fits = λ cap room few'. rw counter refl;
            sound =
                rw (counter, append-nil fs)
                  (IsSound-weaken e b hd rank tree (k + 3) (omega arith) i);
            grows = omega arith;
            at = at;
          },
        )
        | inr kept ↦ elim (Bool-cases (f.tpc == otpc)) [
          | inr other ↦
              let (n, o) = change_ctx_lem e b hd rank tree f.tpc k fs w ok.ctx i few in
              let r = opened_attr e b hd rank tree f n (k + 3) fs w ok kept o in
              (
                f.tpc,
                Rounds-along e b hd rank tree f.tpc (k + 3) (fs ++ shown e (f ∷ [])) w
                    (λ cap. rw (kept, other) refl) r,
              )
          | inl same ↦
              (otpc, same_ctx_lem e b hd rank tree f otpc k fs out ss free ok kept same at i few)
        ]
      ]

  pub shown_more :
      (f : Fld) (fs gs : List Fld) → (fs ++ shown e (f ∷ [])) ++ shown e gs ≡ fs ++ shown e (f ∷ gs)
  shown_more f fs gs = elim (Bool-cases (is_shown e f)) [
    | inl t ↦ rw t (append_assoc fs (f ∷ []) (shown e gs))
    | inr t ↦ rw t (simp append-nil)
  ]

  pub field_rounds_lem :
      (gs : List Fld) (otpc k : ℕ) (fs : List Fld) (w : Wr)
      → ((i : ℕ) (f : Fld) → get_elem? gs i ≡ some f → IsPrintable b f)
      → IsAt otpc w.states
      → IsSound e b hd rank k fs w
      → k + 3 * length gs < 2 ^ 16
      → Goes e b hd rank tree
          (k + 3 * length gs)
          (fs ++ shown e gs)
          w
          (λ cap. field_rounds e cap b gs otpc w)
  unfolding field_rounds
  field_rounds_lem [] otpc k fs w ok at i few = record {
    after = w;
    fits = λ cap room few'. refl;
    sound = rw (append-nil fs) (IsSound-weaken e b hd rank tree (k + 3 * 0) (omega arith) i);
    grows = omega arith;
  }
  field_rounds_lem (f ∷ gs) otpc k fs w ok at i few =
      let (otpc', r) =
        field_round_lem f otpc k fs w.out w.states w.free (ok 0 f refl) at i (omega arith) in
      let h =
        field_rounds_lem gs otpc' (k + 3) (fs ++ shown e (f ∷ [])) r.after (λ j. ok (suc j)) r.at
          r.sound (omega arith) in
      record {
        after = h.after;
        fits = λ cap room few'.
            rw (r.fits cap (omega (arith, h.grows)) few', h.fits cap room few') refl;
        sound =
            IsSound-weaken e b hd rank tree (k + 3 * length (f ∷ gs)) (omega arith)
              (rw (shown_more f fs gs) at (h.sound));
        grows = omega (arith, r.grows, h.grows);
      }
