-- ===== src/Reader/Steps.antt =====
-- The steps of the FIXML reader that do not add a field: names without a prefix, and `push_state`.
use libfixc.Base.{
  ℕ, zero, suc, ◌-◌, ◌≡◌, ◌<◌, refl, ap, arith, Bool, true, false, Bool-cases, inl, inr, none, some,
  List, [], ◌∷◌, Bytes, not, length, get_elem?, ◌==◌, if◌then◌else◌,
}
use libfixc.Message.{Msg, nflds}
use libfixc.Edit.View.{view}
use libfixc.Engine.{Engine}
use libfixc.Reader.Namespaces.{Spaces, colon, pref_len, real_name, pref_to_ns}
use libfixc.Reader.Cells.{Cell, Pool, push_cell, peek, set_current}
use libfixc.Reader.Moves.{peek_lem, IsStack-push_cell, IsStack-set_current}
use libfixc.Reader.Stack.{OpenElt, IsStack}
use libfixc.Reader.Attributes.{IsReading, Reads, IsFixmlSpace}
use libfixc.Reader.Context.{Ctx, push_state, keeps}
use libfixc.Reader.{bo_fixml_elt, eo_fixml_elt, el_sta, el_end}

get_elem?-in :
    {A : Type 0} (xs : List A) (i : ℕ) → i < length xs → (x : A) × (get_elem? xs i ≡ some x)
get_elem?-in [] i h = absurd (omega arith)
get_elem?-in (x ∷ xs) zero h = (x, refl)
get_elem?-in (x ∷ xs) (suc i) h = get_elem?-in xs i (omega (arith, h))

-- A name without a prefix is one of ours.
module _ (name : Bytes) (h : colon name ≡ none) where
  pub no_prefix : (pref_len name ≡ 0) × (real_name name ≡ name)
  unfolding pref_len real_name
  no_prefix = (rw (pref_len, h), rw (real_name, h))

  pref_to_ns_lem : (s : Spaces) → IsFixmlSpace s → pref_to_ns s name (pref_len name) ≡ some (some 0)
  unfolding pref_to_ns
  pref_to_ns_lem s p =
      let (len, _) = no_prefix in
      let some_of : (p.ns.nsid == 0) ≡ false = ground (arith, p.version) in
      rw (len, p.first, p.default, some_of)

  module _ (e : Engine) (ctx : Ctx) (p : IsFixmlSpace ctx.spaces) where
    pub el_sta_ours :
        (attrs : List (Bytes × Bytes)) → el_sta e name attrs ctx ≡ bo_fixml_elt e name attrs ctx
    unfolding el_sta
    el_sta_ours attrs =
        rw (pref_to_ns_lem ctx.spaces p, p.first, p.version)
          (ap (λ n. bo_fixml_elt e n attrs ctx) (no_prefix.1))

    pub el_end_ours : el_end e name ctx ≡ eo_fixml_elt e name ctx
    unfolding el_end
    el_end_ours =
        rw (pref_to_ns_lem ctx.spaces p, p.first, p.version)
          (ap (λ n. eo_fixml_elt e n ctx) (no_prefix.1))

keeps_lem :
    (m : Msg) (p : Pool) (otag : ℕ) {c : Cell}
    → peek p ≡ some c
    → (b : Bool) × (keeps m p otag ≡ some b)
unfolding keeps
keeps_lem m p otag {c = c} at = elim (Bool-cases (nflds m == 0)) [
  | inl none_of ↦ (true, rw none_of)
  | inr some_of ↦
      let (f, last) = get_elem?-in m.flds (nflds m - 1) (ground arith) in
      elim (Bool-cases (f.tpc == otag)) [
        | inl own ↦ (true, rw (some_of, last, own))
        | inr other ↦ (not (c.cns == 0), rw (some_of, last, other, at))
      ]
]

-- The steps of `push_state`, where each goes through.
push_state_run :
    (otag : ℕ) (ctx : Ctx) {top : Cell} {p p' : Pool} (b : Bool)
    → peek ctx.pool ≡ some top
    → push_cell otag (if top.otag == otag then top.cns else 0) ctx.pool ≡ some p
    → keeps ctx.msg p otag ≡ some b
    → set_current (λ c. record c { cns = 0 }) p ≡ some p'
    → push_state otag ctx ≡ some (record ctx { pool = if b then p else p' })
unfolding push_state
push_state_run otag ctx true at push kept same = rw (at, push, kept)
push_state_run otag ctx false at push kept same = rw (at, push, kept, same)

IsStack-if :
    {fs : List OpenElt} {p p' : Pool} (b : Bool)
    → IsStack fs p
    → IsStack fs p'
    → IsStack fs (if b then p else p')
IsStack-if true s s' = s
IsStack-if false s s' = s'

-- `push_state` opens an element, where two states are left.
pub push_state_lem :
    {fs : List OpenElt} (c : ℕ) (ctx : Ctx)
    → IsReading fs ctx
    → length fs < 15
    → Reads (push_state c ctx) (record { otag = c; cnt = 0 } ∷ fs) (view ctx.msg)
push_state_lem {fs = fs} c ctx r room =
    let (top, at) = peek_lem r.stack (omega (arith, room)) in
    let (p, push, s) =
      IsStack-push_cell r.stack c (if top.otag == c then top.cns else 0) (omega (arith, room)) in
    let (p', same, s') =
      IsStack-set_current s (λ x. record x { cns = 0 }) (record { otag = c; cnt = 0 })
        (λ x o k. (o, k, refl)) in
    let (next, at') = peek_lem s (omega (arith, room)) in
    let (b, kept) = keeps_lem ctx.msg p c at' in
    (
      record ctx { pool = if b then p else p' },
      push_state_run c ctx b at push kept same,
      record { plain = r.plain; stack = IsStack-if b s s'; read = r.read },
      refl,
    )
