-- ===== src/Writer/Resized.antt =====
-- The document that `fixc_render_fixml_rndr` of src/fixml-wr.c writes into a buffer of its own.
use libfixc.Base.{
  ℕ, suc, ◌+◌, ◌*◌, ◌^◌, ◌≡◌, ◌≤◌, ◌<◌, refl, ap, sym, arith, true, some, List, [], ◌∷◌, ◌++◌,
  append-nil, Bytes, length, length-append, get_elem?, ltb,
}
use libfixc.Message.{Fld, Msg, nflds}
use libfixc.Engine.{Engine}
use libfixc.Writer.States.{Wr, ptx_init}
use libfixc.Writer.{unwind, render_hdr, render_ftr}
use libfixc.Writer.Nested.{
  IsTree, IsPrintable, IsSound, Nested, nothing, grounded, none_open, shown,
}
use libfixc.Writer.Elements.{IsSound-weaken}
use libfixc.Writer.Loop.{IsAt, at_start}
use libfixc.Writer.Fields.{field_round_lem, shown_more}
use libfixc.Writer.Document.{unwind_lem, whole_lem}
use libfixc.Writer.Ends.{head, foot, render_hdr_lem, render_ftr_lem}
use libfixc.Writer.Resize.{
  estimate, with_room, rndr_rounds, Rndr, rndr_body, IsSize, first_size, doubled, with_room-IsSize,
}

size_bounds : {z bsz : ℕ} → IsSize z bsz → (z ≤ bsz) × (bsz ≤ 2 * z)
size_bounds first_size = (omega arith, omega arith)
size_bounds doubled = (omega arith, omega arith)

module _ (e : Engine) (b hd : Bytes) (rank : ℕ → ℕ) (tree : IsTree e rank) where
  -- The loop over the fields, in whatever buffers: the same text as in one that is large enough.
  record Resized (k : ℕ) (fs gs : List Fld) (otpc : ℕ) (w : Wr) : Type 0 where
    after : Wr
    sound : IsSound e b hd rank k fs after
    grows : length w.out ≤ length after.out
    goes :
        (z bsz : ℕ)
        → 0 < z
        → z < 2 ^ 59
        → length after.out + 2 ≤ z
        → IsSize z bsz
        → (bsz' : ℕ) × (rndr_rounds e b gs otpc bsz w ≡ some (after, bsz')) × IsSize z bsz'

  rndr_rounds_lem :
      (gs : List Fld) (otpc k : ℕ) (fs : List Fld) (w : Wr)
      → ((i : ℕ) (f : Fld) → get_elem? gs i ≡ some f → IsPrintable b f)
      → IsAt otpc w.states
      → IsSound e b hd rank k fs w
      → k + 3 * length gs < 2 ^ 16
      → Resized (k + 3 * length gs) (fs ++ shown e gs) gs otpc w
  unfolding rndr_rounds
  rndr_rounds_lem [] otpc k fs w ok at i few = record {
    after = w;
    sound = rw (append-nil fs) (IsSound-weaken e b hd rank tree (k + 3 * 0) (omega arith) i);
    grows = omega arith;
    goes = λ z bsz some_of low room s. (bsz, refl, s);
  }
  rndr_rounds_lem (f ∷ gs) otpc k fs w ok at i few =
      let (otpc', r) =
        field_round_lem e b hd rank tree f otpc k fs w.out w.states w.free (ok 0 f refl) at i
          (omega arith) in
      let h =
        rndr_rounds_lem gs otpc' (k + 3) (fs ++ shown e (f ∷ [])) r.after (λ j. ok (suc j)) r.at
          r.sound (omega arith) in
      record {
        after = h.after;
        sound =
            IsSound-weaken e b hd rank tree (k + 3 * length (f ∷ gs)) (omega arith)
              (rw (shown_more e b hd rank tree f fs gs) at (h.sound));
        grows = omega (arith, r.grows, h.grows);
        goes = λ z bsz some_of low room s.
            let s' = with_room-IsSize z bsz w.out some_of low (omega (arith, r.grows, h.grows)) s in
            let (le, up) = size_bounds s' in
            let (bsz', run, s'') = h.goes z (with_room bsz w.out) some_of low room s' in
            (
              bsz',
              rw (r.fits (with_room bsz w.out) (omega (arith, h.grows)) (omega (arith, up))) run,
              s'',
            );
      }

-- The steps of the whole, where each goes through.
rndr_body_run :
    (e : Engine) (m : Msg) {hdr out : Bytes} {w w' : Wr} {bsz : ℕ}
    → render_hdr e (estimate m) m ≡ some hdr
    → rndr_rounds e m.pr m.flds 0 (estimate m) (ptx_init hdr) ≡ some (w, bsz)
    → unwind e bsz w.states w ≡ some w'
    → render_ftr e bsz m w'.out ≡ some out
    → ltb (length out) bsz ≡ true
    → rndr_body e m ≡ some (record { str = out; len = length out; z = bsz })
unfolding rndr_body
rndr_body_run e m hdr rounds ends ftr within = rw (hdr, rounds, ends, ftr, within)

-- `fixc_render_fixml_rndr`, past its fix-up, of a message whose fields have contexts and values that can be printed,
-- at most 21845 of them, with a dictionary that the writer can follow: where the size that is estimated for
-- the buffer, below 2^59, has room for the document and two bytes more, the buffer that is returned has the
-- whole of it, of the very body that `fixc_render_fixml` writes, and its size is the estimate, or twice that.
pub rndr_body-Nested :
    (e : Engine) (rank : ℕ → ℕ) (m : Msg)
    → IsTree e rank
    → ((i : ℕ) (f : Fld) → get_elem? m.flds i ≡ some f → IsPrintable m.pr f)
    → 3 * nflds m < 2 ^ 16
    → (body : Bytes) × Nested e m.pr (shown e m.flds) body
      × (length (head m ++ body ++ foot m) + 2 ≤ estimate m
          → estimate m < 2 ^ 59
          → (r : Rndr) × (rndr_body e m ≡ some r)
            × (r.str ≡ head m ++ body ++ foot m)
            × (r.len ≡ length (head m ++ body ++ foot m))
            × IsSize (estimate m) r.z)
rndr_body-Nested e rank m tree ok few =
    let w0 = ptx_init (head m) in
    let i : IsSound e m.pr (head m) rank 0 [] w0 = record {
      text = grounded nothing (sym (append-nil (head m)));
      levels = none_open;
      pooled = refl;
    } in
    let g =
      rndr_rounds_lem e m.pr (head m) rank tree m.flds 0 0 [] w0 ok (at_start refl) i
        (omega arith) in
    let u =
      unwind_lem e m.pr (head m) rank tree _ _ g.after.out g.after.states g.after.free g.sound in
    let (body, nested, is) = whole_lem u.text in
    let n = ap (λ t. length (t ++ foot m)) is in
    let n' = length-append u.out (foot m) in
    (
      body,
      nested,
      λ room low.
          let (bsz, run, s) =
            g.goes (estimate m) (estimate m) (omega arith) low (omega (arith, u.grows, n, n'))
              first_size in
          let (le, up) = size_bounds s in
          (
            record { str = u.out ++ foot m; len = length (u.out ++ foot m); z = bsz },
            rndr_body_run e m
                (render_hdr_lem e m (estimate m) (omega (arith, g.grows, u.grows, n, n'))
                  (omega (arith, low)))
                run (u.fits bsz (omega (arith, n, n')) (omega (arith, up)))
                (render_ftr_lem e m u.out bsz (omega (arith, n)) (omega (arith, up)))
                (ground (arith, n)),
            ap (λ t. t ++ foot m) is,
            n,
            s,
          ),
    )
