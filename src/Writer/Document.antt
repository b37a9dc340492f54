-- ===== src/Writer/Document.antt =====
-- The document that `fixc_render_fixml` of src/fixml-wr.c writes: its beginning, the elements and its end.
use libfixc.Base.{
  ℕ, ◌+◌, ◌*◌, ◌^◌, ◌≡◌, ◌≤◌, ◌<◌, refl, ap, sym, arith, true, false, some, List, [], ◌∷◌, ◌++◌,
  append-nil, Bytes, length, length-append, get_elem?, ltb, ◌==◌,
}
use libfixc.Message.{Fld, Msg, nflds}
use libfixc.Engine.{Engine}
use libfixc.Writer.States.{State, Wr, ptx_init}
use libfixc.Writer.{unwind, render_body}
use libfixc.Writer.Nested.{
  IsTree, IsPrintable, IsSound, Nested, nothing, Spine, grounded, Levels, level, none_open, shown,
}
use libfixc.Writer.Elements.{Fits, pop_rndr_state_lem}
use libfixc.Writer.Loop.{at_start}
use libfixc.Writer.Fields.{field_rounds_lem}
use libfixc.Writer.Ends.{head, foot, render_hdr_lem, render_ftr_lem}

newest_nonzero :
    {rank : ℕ → ℕ} {k : ℕ} {s : State} {ss : List State}
    → Levels rank k (s ∷ ss)
    → (s.osub == 0) ≡ false
newest_nonzero (level r c le l) = let nz = c.nonzero in ground arith

module _ (e : Engine) (b hd : Bytes) (rank : ℕ → ℕ) (tree : IsTree e rank) where
  -- All elements are closed in the end.
  pub record Unwound (fs : List Fld) (w : Wr) (ss : List State) : Type 0 where
    pub out : Bytes
    pub free : ℕ
    pub fits : Fits out (λ cap. unwind e cap ss w) (record { out = out; states = []; free = free })
    pub text : Spine e b hd [] fs out
    pub grows : length w.out ≤ length out

  pub unwind_lem :
      (k : ℕ) (fs : List Fld) (out : Bytes) (ss : List State) (free : ℕ)
      → IsSound e b hd rank k fs (record { out = out; states = ss; free = free })
      → Unwound fs (record { out = out; states = ss; free = free }) ss
  unfolding unwind
  unwind_lem k fs out [] free i = record {
    out = out;
    free = free;
    fits = λ cap room few. refl;
    text = i.text;
    grows = omega arith;
  }
  unwind_lem k fs out (s ∷ ss) free i =
      let c = pop_rndr_state_lem e b hd rank tree k fs s ss out free i in
      let u = unwind_lem k fs c.out ss c.free c.sound in
      let nz : (s.osub == 0) ≡ false = newest_nonzero i.levels in
      record {
        out = u.out;
        free = u.free;
        fits = λ cap room few.
            rw (c.fits cap (omega (arith, u.grows)) few, nz, u.fits cap room few) refl;
        text = u.text;
        grows = omega (arith, c.grows, u.grows);
      }

-- What the head, the fields, the closing of the elements and the end come to.
pub whole_lem :
    {e : Engine} {b hd out : Bytes} {fs : List Fld}
    → Spine e b hd [] fs out
    → (body : Bytes) × Nested e b fs body × (out ≡ hd ++ body)
whole_lem (grounded {t = t} n is) = (t, n, is)

-- A message whose fields have contexts and values that can be printed, at most 21845 of them, is rendered
-- completely in every buffer that has room for the text and two bytes more, with a dictionary that the
-- writer can follow. The text is the beginning of a document, a body and the end, and the body is made of
-- elements, closed in the order opposite to the one they are opened in, each with the name of its
-- context; their attributes are the message's fields, less the counters of repeating blocks and the
-- fields without text, in the message's order, each in an element of its own context, with the name that
-- the dictionary has and with the value as it is in the message, nothing in it being escaped.
pub render_body-Nested :
    (e : Engine) (rank : ℕ → ℕ) (m : Msg)
    → IsTree e rank
    → ((i : ℕ) (f : Fld) → get_elem? m.flds i ≡ some f → IsPrintable m.pr f)
    → 3 * nflds m < 2 ^ 16
    → (body : Bytes) × Nested e m.pr (shown e m.flds) body
      × ((cap : ℕ)
          → length (head m ++ body ++ foot m) + 2 ≤ cap
          → cap < 2 ^ 64
          → render_body e cap m ≡ some (head m ++ body ++ foot m))
unfolding render_body
render_body-Nested e rank m tree ok few =
    let w0 = ptx_init (head m) in
    let i : IsSound e m.pr (head m) rank 0 [] w0 = record {
      text = grounded nothing (sym (append-nil (head m)));
      levels = none_open;
      pooled = refl;
    } in
    let g =
      field_rounds_lem e m.pr (head m) rank tree m.flds 0 0 [] w0 ok (at_start refl) i
        (omega arith) in
    let u =
      unwind_lem e m.pr (head m) rank tree _ _ g.after.out g.after.states g.after.free g.sound in
    let (body, nested, is) = whole_lem u.text in
    let n = ap (λ t. length (t ++ foot m)) is in
    let n' = length-append u.out (foot m) in
    (
      body,
      nested,
      λ cap room few'.
          let within : ltb (length (head m ++ body ++ foot m)) cap ≡ true = ground arith in
          rw
            (
              render_hdr_lem e m cap (omega (arith, g.grows, u.grows, n, n')) few',
              g.fits cap (omega (arith, u.grows, n, n')) few',
              u.fits cap (omega (arith, n, n')) few',
              render_ftr_lem e m u.out cap (omega (arith, n)) few',
              is,
              within,
            )
            refl,
    )
