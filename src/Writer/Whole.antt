-- ===== src/Writer/Whole.antt =====
-- `fixc_render_fixml` of src/fixml-wr.c on a message that has no contexts yet: `fixc_fixup` finds them, and
-- the document is made of them; and what it does where they are not found.
use libfixc.Base.{
  ℕ, zero, suc, ◌+◌, ◌*◌, ◌%◌, ◌^◌, ◌≡◌, ◌≤◌, ◌<◌, ◌≢◌, refl, arith, Bool, true, false, none, some,
  List, ◌∷◌, ◌++◌, Bytes, length, get_elem?, ◌==◌, if◌then◌else◌, Option-cases, inl, inr,
}
use libfixc.Message.{Fld, Msg, nflds, low32}
use libfixc.Message.Tag
use libfixc.Number.{decimal}
use libfixc.Engine.{Engine}
use libfixc.Fixup.{ctx_udef, listed, needs_fixup, mark}
use libfixc.Fixup.Reasons.{Reason, in_table, own_type, ancestor}
use libfixc.Fixup.Stack.{IsComplete}
use libfixc.Fixup.Streak.{Run, done, goes_on, starts, starts_again, is_lost}
use libfixc.Fixup.Contexts.{Run-length}
use libfixc.Fixup.Reached.{IsReached, fixup-IsReached}
use libfixc.Fixup.Ancestors.{Among-listed}
use libfixc.Writer.States.{uri_of, v_of, count_attr, attr_text, name_or, unrendered}
use libfixc.Writer.{render_attr, field_round, field_rounds, render_hdr, render_body, render_fixml}
use libfixc.Writer.Nested.{IsTree, IsCtx, IsPrintable, Nested, shown, value_of}
use libfixc.Writer.Ends.{head, foot}
use libfixc.Writer.Document.{render_body-Nested}

-- A dictionary whose tables hold contexts that an element can have.
pub record IsTabled (e : Engine) : Type 0 where
  pub tables : (t c : ℕ) {fc : List ℕ} → e.fld_ctx t ≡ some fc → listed c fc ≡ true → IsCtx c

-- A field as a message without contexts has it: its value can be printed, and it is not a message's type.
pub record IsPlain (b : Bytes) (f : Fld) : Type 0 where
  pub value : (v : Bytes) × (value_of b f ≡ some v)
  pub ordinary : f.tag ≢ Tag.msg_type

module _ (e : Engine) (rank : ℕ → ℕ) (tree : IsTree e rank) (tabled : IsTabled e) (b : Bytes) where
  Reason-IsCtx :
      {fc : List ℕ} {f : Fld} {ctx : ℕ}
      → e.fld_ctx f.tag ≡ some fc
      → f.tag ≢ Tag.msg_type
      → Reason e fc f ctx
      → IsCtx ctx
  Reason-IsCtx {f = f} {ctx = ctx} ef other (in_table h) =
      tabled.tables f.tag ctx ef (Among-listed h)
  Reason-IsCtx ef other (own_type ty is) = absurd (other ty)
  Reason-IsCtx {f = f} {ctx = ctx} ef other (ancestor c anc ea nz a w is) =
      let flat : (if e.comp_orb anc == 0 then anc else e.comp_orb anc) ≡ anc =
        rw (tree.flat anc) refl in
      rw (is, flat) (tabled.tables f.tag anc ef (Among-listed a))

  marked : {f : Fld} {ctx : ℕ} (n : ℕ) → IsPlain b f → IsCtx ctx → IsPrintable b (mark f ctx n)
  unfolding mark value_of
  marked {f} {ctx} n plain c =
      let same : ctx % 2 ^ 16 ≡ ctx = omega (arith, c.short) in
      record { ctx = rw same c; value = plain.value }

  Run-IsPrintable :
      {own : ℕ} {all : List Fld} {ctx n : ℕ} {fs gs : List Fld} {out : Bool}
      → Run e own all ctx n fs gs out
      → out ≡ false
      → ((i : ℕ) (f : Fld) → get_elem? fs i ≡ some f → IsPlain b f)
      → (i : ℕ) (g : Fld) → get_elem? gs i ≡ some g
      → IsPrintable b g
  Run-IsPrintable done found plain i g is = cc
  Run-IsPrintable (is_lost ef miss r) found plain i g is = cc
  Run-IsPrintable (goes_on {ctx = ctx} {n = n} {f = f} ef r r') found plain zero g is =
      let same : mark f ctx n ≡ g = cc in
      let p = plain 0 f refl in rw (← same) (marked _ p (Reason-IsCtx ef (p.ordinary) r))
  Run-IsPrintable (goes_on ef r r') found plain (suc i) g is =
      Run-IsPrintable r' found (λ j. plain (suc j)) i g is
  Run-IsPrintable (starts_again {f = f} j h ef th ea ta r r') found plain zero g is =
      let same : mark f _ 0 ≡ g = cc in
      let p = plain 0 f refl in rw (← same) (marked _ p (Reason-IsCtx ef (p.ordinary) r))
  Run-IsPrintable (starts_again j h ef th ea ta r r') found plain (suc i) g is =
      Run-IsPrintable r' found (λ k. plain (suc k)) i g is
  Run-IsPrintable (starts {f = f} new ef un r r') found plain zero g is =
      let same : mark f new 0 ≡ g = cc in
      let p = plain 0 f refl in rw (← same) (marked _ p (Reason-IsCtx ef (p.ordinary) r))
  Run-IsPrintable (starts new ef un r r') found plain (suc i) g is =
      Run-IsPrintable r' found (λ j. plain (suc j)) i g is

-- A message without contexts, in a dictionary that is complete, that the writer can follow and whose tables
-- hold contexts of elements; the message is not user-defined, its fields are fewer than 21846, reached from
-- its type, can be printed, and none of them is a message's type. Then `fixc_render_fixml` gives every field
-- a context, with the reasons and numbers of a `Run`, and writes the whole document into every buffer with
-- room for it and two bytes more: well-nested elements with the names of these contexts, every field that is
-- shown being an attribute in an element of its context, in the message's order.
pub render_fixml-Nested :
    (e : Engine) (rank : ℕ → ℕ) (size : ℕ) (m : Msg)
    → IsComplete e
    → IsTree e rank
    → IsTabled e
    → ctx_udef (low32 m.f35) ≡ false
    → needs_fixup m.flds ≡ true
    → 3 * nflds m < 2 ^ 16
    → ((i : ℕ) (f : Fld) → get_elem? m.flds i ≡ some f → IsReached e (low32 m.f35) f)
    → ((i : ℕ) (f : Fld) → get_elem? m.flds i ≡ some f → IsPlain m.pr f)
    → (gs : List Fld) × (size' : ℕ) × (body : Bytes) × Run e
        (low32 m.f35)
        m.flds
        (low32 m.f35)
        0
        m.flds
        gs
        false
      × Nested e m.pr (shown e gs) body
      × ((cap : ℕ)
          → length (head m ++ body ++ foot m) + 2 ≤ cap
          → cap < 2 ^ 64
          → render_fixml e cap size m
            ≡ some (head m ++ body ++ foot m, record m { flds = gs }, size'))
unfolding render_fixml uri_of v_of
render_fixml-Nested e rank size m complete tree tabled user needs few reached plain =
    let (gs, size', run, r) = fixup-IsReached e size m complete user (omega arith) reached in
    let m' : Msg = record m { flds = gs } in
    let ok = Run-IsPrintable e rank tree tabled m.pr r refl plain in
    let n = Run-length r in
    let (body, nested, written) = render_body-Nested e rank m' tree ok (omega (arith, n)) in
    (gs, size', body, r, nested, λ cap room few'. rw (needs, run, written cap room few') refl)

-- A first field that `fixc_fixup` found no context for, but has numbered: in every buffer the writer counts an
-- attribute of an element that is not there.
pub render_body-stray :
    (e : Engine) (cap : ℕ) (m : Msg) (f : Fld) (fs : List Fld)
    → m.flds ≡ f ∷ fs
    → f.tpc ≡ 0
    → f.cnt ≢ 0
    → f.tag ≢ e.comp_rptb 0
    → unrendered f.typ ≡ false
    → render_body e cap m ≡ none
unfolding render_body field_rounds field_round render_attr count_attr
render_body-stray e cap m f fs first stray numbered kept shows =
    let counter : (f.tag == e.comp_rptb f.tpc) ≡ false = rw stray (ground arith) in
    let start : (f.tpc == 0) ≡ true = ground arith in
    let number : (f.cnt == 0) ≡ false = ground arith in
    elim (Option-cases (render_hdr e cap m)) [
      | inl h ↦ rw h refl
      | inr (hdr, h) ↦
          elim (Option-cases (name_or (e.attr_fixmlify f.tpc f.tag) (b'f' ∷ decimal f.tag))) [
            | inl n ↦ rw (h, first, counter, start, number, shows, n) refl
            | inr (name, n) ↦ elim (Option-cases (attr_text cap name m.pr f hdr)) [
              | inl t ↦ rw (h, first, counter, start, number, shows, n, t) refl
              | inr (out, t) ↦ rw (h, first, counter, start, number, shows, n, t) refl
            ]
          ]
    ]
