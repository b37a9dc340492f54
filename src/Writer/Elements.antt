-- ===== src/Writer/Elements.antt =====
-- The operations of the FIXML writer of src/fixml-wr.c that open and close elements, in a buffer with room.
use libfixc.Base.{
  ℕ, suc, ◌+◌, ◌-◌, ◌%◌, ◌^◌, ◌≡◌, ◌≤◌, ◌<◌, refl, ap, sym, arith, true, false, Option, some, List,
  [], ◌∷◌, ◌++◌, append_assoc, append-nil, Bytes, length, length-append, ◌==◌, Bool-cases, inl, inr,
}
use libfixc.Message.{Fld, msgt_batch}
use libfixc.Engine.{Engine}
use libfixc.Writer.States.{State, Wr, open_parent, push_state}
use libfixc.Writer.{tag_name, fixmlify, push_rndr_state, end_tag, pop_rndr_state}
use libfixc.Writer.Nested.{
  IsCtx, IsTree, IsOpen, at_root, Spine, Levels, none_open, level, IsSound, no_attr, fresh,
}
use libfixc.Writer.Steps.{sputc_lem, sncpy_lem, sncpy-sputc, sputc-sputc}
use libfixc.Writer.Spine.{opening, closing, counted, Spine-opening, Spine-closing}

-- In every buffer that has room for `out`, and two bytes more, the result is `r`.
abbrev pub Fits {ℓ} : {A : Type ℓ} → Bytes → (ℕ → Option A) → A → Type ℓ
Fits out f r = (cap : ℕ) → length out + 2 ≤ cap → cap < 2 ^ 64 → f cap ≡ some r

abbrev opened : List State → List State
opened [] = []
opened (s ∷ ss) = counted s ∷ ss

abbrev open_text : List State → Bytes
open_text [] = []
open_text (s ∷ ss) = opening s

open_parent_lem :
    (cap : ℕ) (out : Bytes) (ss : List State) (free : ℕ)
    → length out + 1 < cap
    → open_parent cap (record { out = out; states = ss; free = free })
      ≡ record { out = out ++ open_text ss; states = opened ss; free = free }
unfolding open_parent
open_parent_lem cap out [] free room = rw (append-nil out)
open_parent_lem cap out (s ∷ ss) free room = elim (Bool-cases (s.cntc == 0)) [
  | inl z ↦ rw (z, sputc_lem cap b'>' out room)
  | inr nz ↦ rw (nz, append-nil out)
]

length-opened : (ss : List State) → length (opened ss) ≡ length ss
length-opened [] = refl
length-opened (s ∷ ss) = refl

module _ {rank : ℕ → ℕ} where
  Levels-weaken : {k n : ℕ} (ss : List State) → k ≤ n → Levels rank k ss → Levels rank n ss
  Levels-weaken [] le none_open = none_open
  Levels-weaken (s ∷ ss) le (level r c few l) = level r c (omega arith) (Levels-weaken ss le l)

  Levels-opened :
      {k : ℕ} (ss : List State)
      → k + 1 < 2 ^ 16
      → Levels rank k ss
      → Levels rank (k + 1) (opened ss)
  Levels-opened [] few none_open = none_open
  Levels-opened (s ∷ ss) few (level r c le l) =
      level r c (omega arith) (Levels-weaken ss (omega arith) l)

module _ (e : Engine) (b hd : Bytes) where
  Spine-opened :
      {rank : ℕ → ℕ} {k : ℕ} (ss : List State) {fs : List Fld} {t : Bytes}
      → k + 1 < 2 ^ 16
      → Levels rank k ss
      → Spine e b hd ss fs t
      → Spine e b hd (opened ss) fs (t ++ open_text ss) × IsOpen (opened ss)
  Spine-opened [] few l sp = (rw (append-nil _) sp, at_root)
  Spine-opened (s ∷ ss) few (level r c le l) sp = Spine-opening e b hd (omega arith) sp

module _ (e : Engine) (b hd : Bytes) (rank : ℕ → ℕ) (tree : IsTree e rank) where
  pub IsSound-weaken :
      {k : ℕ} (n : ℕ) {fs : List Fld} {w : Wr}
      → k ≤ n
      → IsSound e b hd rank k fs w
      → IsSound e b hd rank n fs w
  IsSound-weaken n {w = w} le i = record {
    text = i.text;
    levels = Levels-weaken w.states le i.levels;
    pooled = i.pooled;
  }

  -- What an operation on `w` comes to in a buffer with room.
  pub record Goes (k : ℕ) (fs : List Fld) (w : Wr) (f : ℕ → Option Wr) : Type 0 where
    pub after : Wr
    pub fits : Fits after.out f after
    pub sound : IsSound e b hd rank k fs after
    pub grows : length w.out ≤ length after.out

  -- And the newest element is of the context `c`, without elements in it.
  pub record Opens (c n k : ℕ) (fs : List Fld) (w : Wr) (f : ℕ → Option Wr) : Type 0 where
    pub goes : Goes k fs w f
    pub top : State
    pub below : List State
    pub newest : goes.after.states ≡ top ∷ below
    pub is_of : top.osub ≡ c
    pub is_fresh : top.cntc ≡ 0
    pub depth : length below ≡ n

  pub push_rndr_state_lem :
      (c k : ℕ) (fs : List Fld) (w : Wr)
      → IsCtx c
      → IsSound e b hd rank k fs w
      → k + 1 < 2 ^ 16
      → rank c + suc (length w.states) ≤ 16
      → Opens c (length w.states) (k + 1) fs w (λ cap. push_rndr_state e cap c w)
  unfolding push_rndr_state fixmlify push_state
  push_rndr_state_lem c k fs w ctx i few low =
      let (name, is) = tree.named c in
      let (sp, into) = Spine-opened e b hd w.states few i.levels i.text in
      let text = (w.out ++ open_text w.states) ++ b'<' ∷ name in
      let top : State = record { osub = c; cnta = 0; cntc = 0 } in
      let n1 = length-append w.out (open_text w.states) in
      let n2 = length-append (w.out ++ open_text w.states) (b'<' ∷ name) in
      let d = length-opened w.states in
      let batch : (c % 2 ^ 16 == msgt_batch) ≡ false =
        let m : c % 2 ^ 16 ≡ c = omega (arith, ctx.short) in rw m (ground arith) in
      let flat : (e.comp_orb c == 0) ≡ true = rw (tree.flat c) refl in
      let left : (w.free == 0) ≡ false = ground arith in
      record {
        goes = record {
          after = record { out = text; states = top ∷ opened w.states; free = w.free - 1 };
          fits = λ cap room few'. rw (
            flat,
            batch,
            open_parent_lem cap w.out w.states w.free (omega (arith, n1, n2)),
            is,
            left,
            sncpy-sputc cap b'<' name (w.out ++ open_text w.states) (omega (arith, n1, n2)),
          );
          sound = record {
            text = fresh sp into refl is no_attr (sym (append-nil fs)) (sym (append-nil _));
            levels =
                level (omega (arith, d)) ctx (omega arith) (Levels-opened w.states few i.levels);
            pooled = omega (arith, i.pooled, d);
          };
          grows = omega (arith, n1, n2);
        };
        top = top;
        below = opened w.states;
        newest = refl;
        is_of = refl;
        is_fresh = refl;
        depth = d;
      }

  -- `pop_rndr_state` on an element: what it closes, and how it goes on.
  pub record Closes (k : ℕ) (fs : List Fld) (w : Wr) (s : State) (ss : List State) : Type 0 where
    pub out : Bytes
    pub free : ℕ
    pub fits :
        Fits out
          (λ cap. pop_rndr_state e cap w)
          (s.osub, record { out = out; states = ss; free = free })
    pub sound : IsSound e b hd rank k fs (record { out = out; states = ss; free = free })
    pub grows : length w.out ≤ length out

  end_tag_lem :
      (cap : ℕ) (s : State) (out : Bytes) {name : Bytes}
      → tag_name e s.osub ≡ some name
      → length (out ++ closing name s) + 2 ≤ cap
      → end_tag e cap s out ≡ some (out ++ closing name s)
  unfolding end_tag fixmlify
  end_tag_lem cap s out {name} is room = elim (Bool-cases (s.cntc == 0)) [
    | inl z ↦
        let n = length-append out (b'/' ∷ b'>' ∷ []) in
        let room' : length (out ++ b'/' ∷ b'>' ∷ []) + 2 ≤ cap = rw z at room in
        rw (z, sputc-sputc cap b'/' b'>' out (omega arith))
    | inr nz ↦
        let close = b'<' ∷ b'/' ∷ name ++ b'>' ∷ [] in
        let n = length-append out close in
        let n' = length-append name (b'>' ∷ []) in
        let room' : length (out ++ close) + 2 ≤ cap = rw nz at room in
        let lt = out ++ b'<' ∷ b'/' ∷ [] in
        let n1 = length-append out (b'<' ∷ b'/' ∷ []) in
        let n2 = length-append lt name in
        rw
          (
            nz,
            is,
            sputc-sputc cap b'<' b'/' out (omega arith),
            sncpy_lem cap name lt (omega arith),
            sputc_lem cap b'>' (lt ++ name) (omega arith),
          )
          (ap some (simp append_assoc))
  ]

  below_top : {k : ℕ} {s : State} {ss : List State} → Levels rank k (s ∷ ss) → Levels rank k ss
  below_top (level r c le l) = l

  pub pop_rndr_state_lem :
      (k : ℕ) (fs : List Fld) (s : State) (ss : List State) (out : Bytes) (free : ℕ)
      → IsSound e b hd rank k fs (record { out = out; states = s ∷ ss; free = free })
      → Closes k fs (record { out = out; states = s ∷ ss; free = free }) s ss
  unfolding pop_rndr_state
  pop_rndr_state_lem k fs s ss out free i =
      let (name, is, sp) = Spine-closing e b hd i.text in
      let n = length-append out (closing name s) in
      record {
        out = out ++ closing name s;
        free = free + 1;
        fits = λ cap room few. rw (end_tag_lem cap s out is room);
        sound = record { text = sp; levels = below_top i.levels; pooled = omega (arith, i.pooled) };
        grows = omega (arith, n);
      }
