-- ===== src/Writer/Descent.antt =====
-- `__change_ctx` of src/fixml-wr.c, in a buffer with room.
use libfixc.Base.{
  ℕ, zero, suc, ◌+◌, ◌^◌, ◌≡◌, ◌≤◌, ◌<◌, refl, ◌∙◌, arith, Option, List, [], ◌∷◌, Bytes, length,
  inl, inr,
}
use libfixc.Message.{Fld}
use libfixc.Engine.{Engine}
use libfixc.Writer.States.{State, Wr, pool}
use libfixc.Writer.{change_from, change_ctx}
use libfixc.Writer.Nested.{IsCtx, IsTree, IsSound, Levels, level}
use libfixc.Writer.Elements.{Opens, IsSound-weaken, push_rndr_state_lem, pop_rndr_state_lem}
use libfixc.Writer.Search.{HasRoom, is_below_lem}

module _ (e : Engine) (b hd : Bytes) (rank : ℕ → ℕ) (tree : IsTree e rank) where
  -- Where a step leads to `w1`, and goes on as `g` does.
  pub Opens-from :
      (c n k1 k : ℕ) (fs : List Fld) (w w1 : Wr) {f g : ℕ → Option Wr}
      → length w.out ≤ length w1.out
      → k1 ≤ k
      → Opens e b hd rank tree c n k1 fs w1 g
      → ((cap : ℕ) → length w1.out + 2 ≤ cap → cap < 2 ^ 64 → f cap ≡ g cap)
      → Opens e b hd rank tree c n k fs w f
  Opens-from c n k1 k fs w w1 longer more o same = record {
    goes = record {
      after = o.goes.after;
      fits = λ cap room few. same cap (omega (arith, o.goes.grows)) few ∙ o.goes.fits cap room few;
      sound = IsSound-weaken e b hd rank tree k more o.goes.sound;
      grows = omega (arith, o.goes.grows);
    };
    top = o.top;
    below = o.below;
    newest = o.newest;
    is_of = o.is_of;
    is_fresh = o.is_fresh;
    depth = o.depth;
  }

  newest_low :
      {k : ℕ} {s : State} {ss : List State}
      → Levels rank k (s ∷ ss)
      → rank s.osub + suc (length ss) ≤ 16
  newest_low (level r c le l) = r

  change_from_lem :
      (fuel new k : ℕ) (fs : List Fld) (out : Bytes) (ss : List State) (free : ℕ)
      → IsCtx new
      → length ss ≤ fuel
      → IsSound e b hd rank k fs (record { out = out; states = ss; free = free })
      → k + 3 < 2 ^ 16
      → (n : ℕ) × Opens e b hd rank tree new n
          (k + 3)
          fs
          (record { out = out; states = ss; free = free })
          (λ cap. change_from e cap fuel new (record { out = out; states = ss; free = free }))
  unfolding change_from HasRoom
  change_from_lem zero new k fs out [] free ctx enough i few =
      let w : Wr = record { out = out; states = []; free = free } in
      let o =
        push_rndr_state_lem e b hd rank tree new k fs w ctx i (omega arith)
          (omega (arith, tree.low new)) in
      (
        0,
        Opens-from new 0 (k + 1) (k + 3) fs w w (omega arith) (omega arith) o
            (λ cap room few'. refl),
      )
  change_from_lem (suc fuel) new k fs out [] free ctx enough i few =
      let w : Wr = record { out = out; states = []; free = free } in
      let o =
        push_rndr_state_lem e b hd rank tree new k fs w ctx i (omega arith)
          (omega (arith, tree.low new)) in
      (
        0,
        Opens-from new 0 (k + 1) (k + 3) fs w w (omega arith) (omega arith) o
            (λ cap room few'. refl),
      )
  change_from_lem zero new k fs out (s ∷ ss) free ctx enough i few = absurd (omega arith)
  change_from_lem (suc fuel) new k fs out (s ∷ ss) free ctx enough i few =
      let w : Wr = record { out = out; states = s ∷ ss; free = free } in
      elim (is_below_lem e b hd rank tree s.osub new k fs w ctx.short ctx (newest_low i.levels) i
        (omega arith)) [
          | inr h ↦
              let o =
                push_rndr_state_lem e b hd rank tree new (k + 2) fs h.after ctx h.sound
                  (omega arith) h.room in
              (
                length h.after.states,
                Opens-from new _ (k + 2 + 1) (k + 3) fs w h.after h.grows (omega arith) o
                    (λ cap room few'. rw (h.fits cap room few') refl),
              )
          | inl h ↦
              let c = pop_rndr_state_lem e b hd rank tree k fs s ss out free i in
              let w' : Wr = record { out = c.out; states = ss; free = c.free } in
              let (n, o) =
                change_from_lem fuel new k fs c.out ss c.free ctx (omega arith) c.sound few in
              (
                n,
                Opens-from new n (k + 3) (k + 3) fs w w' c.grows (omega arith) o
                    (λ cap room few'. rw (h cap, c.fits cap room few') refl),
              )
        ]

  pub length-pooled :
      {k : ℕ} {fs : List Fld} {w : Wr} → IsSound e b hd rank k fs w → length w.states ≤ 16
  length-pooled i = omega (arith, i.pooled)

  pub change_ctx_lem :
      (new k : ℕ) (fs : List Fld) (w : Wr)
      → IsCtx new
      → IsSound e b hd rank k fs w
      → k + 3 < 2 ^ 16
      → (n : ℕ) × Opens e b hd rank tree new n (k + 3) fs w (λ cap. change_ctx e cap new w)
  unfolding change_ctx
  change_ctx_lem new k fs w ctx i few =
      change_from_lem pool new k fs w.out w.states w.free ctx (length-pooled i) i few
