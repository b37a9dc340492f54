-- ===== src/Writer/Search.antt =====
-- `__ancest_rndr` of src/fixml-wr.c: the search for a context below the newest element, and
-- the elements that it opens, in a buffer with room.
use libfixc.Base.{
  ℕ, suc, ◌+◌, ◌%◌, ◌^◌, ◌≡◌, ◌≤◌, ◌<◌, refl, ap, ◌∙◌, arith, true, false, Option, none, some, List,
  [], ◌∷◌, Bytes, length, ◌==◌, Bool-cases, ==_iff, inl, inr, ◌⊎◌,
}
use libfixc.Message.{Fld}
use libfixc.Engine.{Engine}
use libfixc.Fixup.{listed}
use libfixc.Writer.States.{Wr}
use libfixc.Writer.{rndr_two, rndr_one, ancest_rndr, is_below}
use libfixc.Writer.Nested.{IsCtx, IsTree, IsSound}
use libfixc.Writer.Elements.{Fits, IsSound-weaken, push_rndr_state_lem}
use libfixc.Writer.Parts.{IsParts, part, childp_lem, IsParts-subs}

module _ (e : Engine) (b hd : Bytes) (rank : ℕ → ℕ) (tree : IsTree e rank) where
  -- An element may be opened in the newest one: what there is to know of the ranks.
  unfoldable pub HasRoom : ℕ → Wr → Type 0
  HasRoom c w = rank c + suc (length w.states) ≤ 16

  -- What a search for `to` comes to: nothing, or the elements between are open, and `to` can be opened.
  pub record Found {ℓ} {A : Type ℓ} (r : A) (to k : ℕ) (fs : List Fld) (w : Wr)
      (f : ℕ → Option (A × Wr)) : Type ℓ where
    pub after : Wr
    pub fits : Fits after.out f (r, after)
    pub sound : IsSound e b hd rank k fs after
    pub grows : length w.out ≤ length after.out
    pub room : HasRoom to after

  Found-along {ℓ} :
      {A : Type ℓ} {r : A} {to k : ℕ} {fs : List Fld} {w : Wr} {f g : ℕ → Option (A × Wr)}
      → ((cap : ℕ) → f cap ≡ g cap)
      → Found r to k fs w g
      → Found r to k fs w f
  Found-along same h = record {
    after = h.after;
    fits = λ cap room few. same cap ∙ h.fits cap room few;
    sound = h.sound;
    grows = h.grows;
    room = h.room;
  }

  Search : ℕ → ℕ → List Fld → Wr → (ℕ → Option (Option ℕ × Wr)) → Type 0
  Search to k fs w f = ((cap : ℕ) → f cap ≡ some (none, w)) ⊎ Found (some to) to k fs w f

  Search-along :
      (to k : ℕ) (fs : List Fld) (w : Wr) {f g : ℕ → Option (Option ℕ × Wr)}
      → ((cap : ℕ) → f cap ≡ g cap)
      → Search to k fs w g
      → Search to k fs w f
  unfolding Search
  Search-along to k fs w same (inl h) = inl (λ cap. same cap ∙ h cap)
  Search-along to k fs w same (inr h) = inr (Found-along same h)

  rndr_two_lem :
      (zs : List ℕ) (x y to k : ℕ) (fs : List Fld) (w : Wr)
      → IsParts rank (rank y) zs
      → rank y < rank x
      → HasRoom x w
      → IsCtx x
      → IsCtx y
      → IsSound e b hd rank k fs w
      → k + 2 < 2 ^ 16
      → Search to (k + 2) fs w (λ cap. rndr_two e cap zs x y to w)
  unfolding rndr_two HasRoom Search
  rndr_two_lem [] x y to k fs w parts lt room cx cy i few = inl (λ cap. refl)
  rndr_two_lem (z ∷ zs) x y to k fs w (part low cz parts) lt room cx cy i few =
      elim (Bool-cases (z == to)) [
        | inr other ↦
            Search-along to (k + 2) fs w (λ cap. rw other refl)
              (rndr_two_lem zs x y to k fs w parts lt room cx cy i few)
        | inl same ↦
            let o1 = push_rndr_state_lem e b hd rank tree x k fs w cx i (omega arith) room in
            let d1 = ap length o1.newest in
            let o2 =
              push_rndr_state_lem e b hd rank tree y (k + 1) fs o1.goes.after cy o1.goes.sound
                (omega arith) (omega (arith, o1.depth)) in
            let d2 = ap length o2.newest in
            let is : z ≡ to = (==_iff z to).0 same in
            inr (record {
              after = o2.goes.after;
              fits = λ cap room' few'.
                  rw
                    (
                      same,
                      o1.goes.fits cap (omega (arith, o2.goes.grows)) few',
                      o2.goes.fits cap room' few',
                      is,
                    )
                    refl;
              sound = IsSound-weaken e b hd rank tree (k + 2) (omega arith) o2.goes.sound;
              grows = omega (arith, o1.goes.grows, o2.goes.grows);
              room = rw (← is) (omega (arith, o1.depth, o2.depth));
            })
      ]

  rndr_one_lem :
      (ys : List ℕ) (x to k : ℕ) (fs : List Fld) (w : Wr)
      → IsParts rank (rank x) ys
      → HasRoom x w
      → IsCtx x
      → IsSound e b hd rank k fs w
      → k + 2 < 2 ^ 16
      → Search to (k + 2) fs w (λ cap. rndr_one e cap ys x to w)
  unfolding rndr_one HasRoom Search
  rndr_one_lem [] x to k fs w parts room cx i few = inl (λ cap. refl)
  rndr_one_lem (y ∷ ys) x to k fs w (part low cy parts) room cx i few =
      elim (Bool-cases (y == to)) [
        | inl same ↦
            let o = push_rndr_state_lem e b hd rank tree x k fs w cx i (omega arith) room in
            let d = ap length o.newest in
            let is : y ≡ to = (==_iff y to).0 same in
            inr (record {
              after = o.goes.after;
              fits = λ cap room' few'. rw (same, o.goes.fits cap room' few', is) refl;
              sound = IsSound-weaken e b hd rank tree (k + 2) (omega arith) o.goes.sound;
              grows = o.goes.grows;
              room = rw (← is) (omega (arith, o.depth));
            })
        | inr other ↦
            let (sub, es) = tree.comp_sub y in
            elim (rndr_two_lem sub.subs x y to k fs w (IsParts-subs e rank tree y es) low room cx cy
              i few) [
                | inl h ↦
                    Search-along to (k + 2) fs w (λ cap. rw (other, es, h cap) refl)
                      (rndr_one_lem ys x to k fs w parts room cx i few)
                | inr h ↦ inr (record {
                  after = h.after;
                  fits = λ cap room' few'. rw (other, es, h.fits cap room' few') refl;
                  sound = h.sound;
                  grows = h.grows;
                  room = h.room;
                })
              ]
      ]

  ancest_rndr_lem :
      (xs : List ℕ) (to k r : ℕ) (fs : List Fld) (w : Wr)
      → IsParts rank r xs
      → r + length w.states ≤ 16
      → IsSound e b hd rank k fs w
      → k + 2 < 2 ^ 16
      → ((cap : ℕ) → ancest_rndr e cap xs to w ≡ some (0, w))
        ⊎ Found to to (k + 2) fs w (λ cap. ancest_rndr e cap xs to w)
  unfolding ancest_rndr HasRoom Search
  ancest_rndr_lem [] to k r fs w parts room i few = inl (λ cap. refl)
  ancest_rndr_lem (x ∷ xs) to k r fs w (part low cx parts) room i few =
      let (sub, es) = tree.comp_sub x in
      elim (Bool-cases (x == to)) [
        | inl same ↦
            let is : x ≡ to = (==_iff x to).0 same in
            inr (record {
              after = w;
              fits = λ cap room' few'. rw (same, is) refl;
              sound = IsSound-weaken e b hd rank tree (k + 2) (omega arith) i;
              grows = omega arith;
              room = rw (← is) (omega arith);
            })
        | inr other ↦
            elim (rndr_one_lem sub.subs x to k fs w (IsParts-subs e rank tree x es) (omega arith) cx
              i few) [
                | inr h ↦ inr (record {
                  after = h.after;
                  fits = λ cap room' few'. rw (other, es, h.fits cap room' few') refl;
                  sound = h.sound;
                  grows = h.grows;
                  room = h.room;
                })
                | inl h ↦ elim (ancest_rndr_lem xs to k r fs w parts room i few) [
                  | inl h' ↦ inl (λ cap. rw (other, es, h cap, h' cap) refl)
                  | inr h' ↦ inr (Found-along (λ cap. rw (other, es, h cap) refl) h')
                ]
              ]
      ]

  pub is_below_lem :
      (osub new k : ℕ) (fs : List Fld) (w : Wr)
      → new < 2 ^ 16
      → IsCtx new
      → rank osub + length w.states ≤ 16
      → IsSound e b hd rank k fs w
      → k + 2 < 2 ^ 16
      → ((cap : ℕ) → is_below e cap osub new w ≡ some (false, w))
        ⊎ Found true new (k + 2) fs w (λ cap. is_below e cap osub new w)
  unfolding is_below HasRoom
  is_below_lem osub new k fs w short ctx room i few =
      let (sub, es) = tree.comp_sub osub in
      let m : new % 2 ^ 16 ≡ new = omega (arith, short) in
      let child = childp_lem e rank tree 65535 new sub short in
      elim (Bool-cases (listed new sub.subs)) [
        | inl h ↦
            let (low, _) = tree.parts osub new es h in
            inr (record {
              after = w;
              fits = λ cap room' few'. rw (es, child, h) refl;
              sound = IsSound-weaken e b hd rank tree (k + 2) (omega arith) i;
              grows = omega arith;
              room = omega arith;
            })
        | inr h ↦
            elim (ancest_rndr_lem sub.subs new k (rank osub) fs w (IsParts-subs e rank tree osub es)
              room i few) [
                | inl h' ↦ inl (λ cap. rw (es, child, h, m, h' cap) refl)
                | inr h' ↦
                    let nz : (new == 0) ≡ false = let z = ctx.nonzero in ground arith in
                    inr (record {
                      after = h'.after;
                      fits =
                          λ cap room' few'. rw (es, child, h, m, h'.fits cap room' few', nz) refl;
                      sound = h'.sound;
                      grows = h'.grows;
                      room = h'.room;
                    })
              ]
      ]
