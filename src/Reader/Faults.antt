-- ===== src/Reader/Faults.antt =====
-- Where the FIXML reader reads through a null pointer: elements nested deeper than its 16 states, and a document whose
-- first element is a message.
use libfixc.Base.{
  ℕ, ◌-◌, ◌≡◌, ◌≢◌, refl, ap, ◌∙◌, arith, false, none, some, List, ◌∷◌, Bytes, length, get_elem?,
  ◌==◌, if◌then◌else◌,
}
use libfixc.Message.{Fld, Msg, nflds}
use libfixc.Version.{codes}
use libfixc.Engine.{Engine}
use libfixc.Reader.Namespaces.{no_spaces, ns_at, pref_to_ns, colon}
use libfixc.Reader.Cells.{Pool, no_pool, cell_at, peek, otag_now}
use libfixc.Reader.Moves.{peek_lem, IsStack-push_cell}
use libfixc.Reader.Stack.{OpenElt, IsStack, slot}
use libfixc.Reader.Attributes.{IsReading}
use libfixc.Reader.Steps.{no_prefix}
use libfixc.Reader.Walk.{el_sta_lem}
use libfixc.Reader.Head.{IsHead, learn_lem}
use libfixc.Reader.Root.{start_ctx}
use libfixc.Reader.Context.{Ctx, push_state, keeps}
use libfixc.Reader.{
  Event, elt_start, comp_fixml, open_elt, note_type, learn, guess, set_type, set_version, retry,
  bo_fixml_elt, el_sta, handle, handle_all, fixml_husk, Parsed, from_fixml,
}

peek-full : {fs : List OpenElt} {p : Pool} → IsStack fs p → length fs ≡ 16 → peek p ≡ none
unfolding peek cell_at
peek-full {fs = fs} s full =
    let end : slot (length fs) ≡ none = ground (arith, full) in rw (s.head, end)

-- The stack is full, or about to be, and the last field belongs to some other context.
pub data IsDeep (c : ℕ) (fs : List OpenElt) (m : Msg) : Type 0 where
  full : length fs ≡ 16 → IsDeep c fs m
  last_state :
      (f : Fld)
      → length fs ≡ 15
      → nflds m ≢ 0
      → get_elem? m.flds (nflds m - 1) ≡ some f
      → f.tpc ≢ c
      → IsDeep c fs m

push_state-deep :
    (c : ℕ) {fs : List OpenElt} (ctx : Ctx)
    → IsReading fs ctx
    → IsDeep c fs ctx.msg
    → push_state c ctx ≡ none
unfolding push_state keeps
push_state-deep c ctx r (full h) = rw (peek-full r.stack h)
push_state-deep c ctx r (last_state f h some_of last other) =
    let (top, at) = peek_lem r.stack (omega (arith, h)) in
    let (p, push, s) =
      IsStack-push_cell r.stack c (if top.otag == c then top.cns else 0) (omega (arith, h)) in
    let not_0 : (nflds ctx.msg == 0) ≡ false = ground arith in
    let not_c : (f.tpc == c) ≡ false = ground arith in
    rw (at, push, not_0, last, not_c, peek-full s (omega (arith, h)))

-- A known element that begins while 16 elements are open is a fault of `el_sta`: `push_state` reads through
-- a null pointer. So it is while 15 are open and the last field of the message belongs to another context.
pub el_sta-deep :
    (e : Engine) (name : Bytes) (attrs : List (Bytes × Bytes)) (d : ℕ) {f : OpenElt}
    {fs : List OpenElt} (ctx : Ctx)
    → IsReading (f ∷ fs) ctx
    → colon name ≡ none
    → e.get_cid f.otag name (length name) ≡ d
    → d ≢ 0
    → d ≢ comp_fixml
    → IsDeep d (f ∷ fs) ctx.msg
    → el_sta e name attrs ctx ≡ none
unfolding open_elt
el_sta-deep e name attrs d ctx r plain is_d real inner deep =
    rw (el_sta_lem e name attrs d ctx r plain is_d real inner, push_state-deep d ctx r deep)

-- The context after an element that is read without a state.
stateless : (c : ℕ) (ctx : Ctx) → ctx.pool.head ≡ none → push_state c ctx ≡ none
unfolding push_state peek cell_at
stateless c ctx h = rw h

module _ (e : Engine) (ver mty : ℕ) (name : Bytes) (a : Bytes × Bytes)
    (attrs : List (Bytes × Bytes)) (head_known : IsHead e ver (a ∷ attrs))
    (plain : colon name ≡ none) (no_comp : e.get_cid 0 name (length name) ≡ 0)
    (is_mty : e.get_mty name (length name) ≡ mty) (real : mty ≢ 0) where
  learn_any : (ctx : Ctx) → learn e name (a ∷ attrs) ctx ≡ learn e (codes "FIXML") (a ∷ attrs) ctx
  unfolding learn guess
  learn_any ctx = refl

  bo_no_root :
      (ctx : Ctx)
      → ctx.pool.head ≡ none
      → otag_now ctx.pool ≡ some 0
      → bo_fixml_elt e name (a ∷ attrs) ctx ≡ none
  unfolding bo_fixml_elt note_type open_elt
  bo_no_root ctx h idle =
      let not_0 : (mty == 0) ≡ false = ground arith in
      rw (idle, no_comp, is_mty, not_0, stateless mty (record ctx { msg = set_type mty ctx.msg }) h)

  el_sta-no_root : (doclen : ℕ) → el_sta e name (a ∷ attrs) (start_ctx doclen) ≡ none
  unfolding el_sta pref_to_ns no_spaces ns_at no_pool retry otag_now
  el_sta-no_root doclen =
      let (s, run, space, ours) =
        learn_lem e ver (a ∷ attrs) no_pool (fixml_husk doclen) refl head_known in
      let ctx : Ctx = record {
        spaces = s;
        pool = no_pool;
        msg = set_version ver (fixml_husk doclen);
      } in
      let (_, whole) = no_prefix name plain in
      rw (learn_any (start_ctx doclen), run, ours)
        (ap (λ n. bo_fixml_elt e n (a ∷ attrs) ctx) whole ∙ bo_no_root ctx refl refl)

  -- A text whose first element is a message itself, with attributes that name a version, is a fault of
  -- `make_fixc_from_fixml`, whatever follows: no state is there to be taken, since only a `FIXML` element
  -- makes any.
  pub from_fixml-no_root :
      (expat : Bytes → Parsed) (doc : Bytes) (rest : List Event)
      → (expat doc).events ≡ elt_start name (a ∷ attrs) ∷ rest
      → from_fixml e expat doc ≡ none
  unfolding from_fixml handle_all handle
  from_fixml-no_root expat doc rest parsed = rw (parsed, el_sta-no_root (length doc))
