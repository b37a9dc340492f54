-- ===== src/Writer/Resize.antt =====
-- `fixc_render_fixml_rndr` and `resz_rndr` of src/fixml-wr.c: the writer with a buffer that it allocates, and doubles
-- when nine tenths of it are used. Mapping memory does not fail here, as the code does not test it.
use native.Mathlib.Nat.{div-eq-sub-div}
use libfixc.Base.{
  ℕ, ◌+◌, ◌-◌, ◌*◌, ◌/◌, ◌%◌, ◌^◌, ◌≡◌, ◌≤◌, ◌<◌, arith, false, Option, none, some, ◌>>=◌, List, [],
  ◌∷◌, Bytes, length, ltb, if◌then◌else◌, Bool-cases, inl, inr,
}
use libfixc.Message.{Fld, Msg, nflds}
use libfixc.Power.{size_mod}
use libfixc.Engine.{Engine}
use libfixc.Fixup.{needs_fixup, fixup}
use libfixc.Writer.States.{Wr, ptx_init}
use libfixc.Writer.{field_round, unwind, render_hdr, render_ftr}

-- The sizes that are taken for an attribute and for an element, and the size that the buffer starts with.
abbrev pub attr_len : ℕ
attr_len = 11245 / 1119 + 1

abbrev pub comp_len : ℕ
comp_len = 2586 / 261 + 1

unfoldable pub estimate : Msg → ℕ
estimate m =
    ((4 + nflds m) * (attr_len + 3) + (4 + nflds m) / 4 * (2 * comp_len + 2 + 3) + m.pz + 64)
    % size_mod

-- `resz_rndr` of a buffer that is there, and the test for it.
abbrev pub resz_rndr : ℕ → ℕ
resz_rndr bsz = 2 * bsz % size_mod

unfoldable pub with_room : ℕ → Bytes → ℕ
with_room bsz out = if ltb ((bsz - length out) * 10 % size_mod / bsz) 1 then resz_rndr bsz else bsz

unfoldable pub rndr_rounds : Engine → Bytes → List Fld → ℕ → ℕ → Wr → Option (Wr × ℕ)
rndr_rounds e b [] otpc bsz w = some (w, bsz)
rndr_rounds e b (f ∷ fs) otpc bsz w = do
  let bsz' = with_room bsz w.out
  r ← field_round e bsz' b f otpc w
  rndr_rounds e b fs r.0 bsz' r.1

-- `struct fixc_rndr_s`.
pub record Rndr : Type 0 where
  pub str : Bytes
  pub len : ℕ
  pub z : ℕ

-- What is done once the fields have contexts.
unfoldable pub rndr_body : Engine → Msg → Option Rndr
rndr_body e m = do
  hdr ← render_hdr e (estimate m) m
  (w, bsz) ← rndr_rounds e m.pr m.flds 0 (estimate m) (ptx_init hdr)
  w' ← unwind e bsz w.states w
  out ← render_ftr e bsz m w'.out
  if ltb (length out) bsz then some (record { str = out; len = length out; z = bsz }) else none

unfoldable pub render_fixml_rndr : Engine → ℕ → Msg → Option (Rndr × Msg × ℕ)
render_fixml_rndr e size m =
    if needs_fixup m.flds
    then (do (m', size') ← fixup e size m; r ← rndr_body e m'; some (r, m', size'))
    else (do r ← rndr_body e m; some (r, m, size))

-- A size that is the first one, or twice that.
pub data IsSize (z : ℕ) : ℕ → Type 0 where
  first_size : IsSize z z
  doubled : IsSize z (2 * z)

whole_part : (a b : ℕ) → 0 < b → b ≤ a → ltb (a / b) 1 ≡ false
whole_part a b p q = ground (arith, div-eq-sub-div p q)

pub with_room-IsSize :
    (z bsz : ℕ) (out : Bytes)
    → 0 < z
    → z < 2 ^ 59
    → length out ≤ z
    → IsSize z bsz
    → IsSize z (with_room bsz out)
unfolding with_room
with_room-IsSize z bsz out some_of few inside first_size =
    elim (Bool-cases (ltb ((z - length out) * 10 % size_mod / z) 1)) [
      | inl full ↦ rw full (let exact : 2 * z % size_mod ≡ 2 * z = omega arith in rw exact doubled)
      | inr roomy ↦ rw roomy first_size
    ]
with_room-IsSize z bsz out some_of few inside doubled =
    let roomy =
      whole_part ((2 * z - length out) * 10 % size_mod) (2 * z) (omega arith) (omega arith) in
    rw roomy doubled
