-- ===== src/Writer/Steps.antt =====
-- The bytes that `sputc`, `sncpy` and `__render_attr` of src/fixml-wr.c add where the buffer has room.
use libfixc.Base.{
  ℕ, ◌+◌, ◌-◌, ◌^◌, ◌≡◌, ◌<◌, refl, ap, ◌∙◌, sym, arith, true, false, some, [], ◌∷◌, ◌++◌,
  append_assoc, append-nil, Bytes, length, length-append, take, drop, ltb, leb, ◌==◌, Bool-cases,
  Option-cases, inl, inr,
}
use libfixc.Message.{Fld, low32, low8, off}
use libfixc.Message.Typ
use libfixc.Edit.{strlen}
use libfixc.Number.{signed_decimal, digit}
use libfixc.Render.{sub_size}
use libfixc.Writer.States.{sputc, sncpy, sprint, attr_value, attr_text, named, store}
use libfixc.Writer.Nested.{value_of, attribute}

pub sputc_lem : (cap c : ℕ) (out : Bytes) → length out + 1 < cap → sputc cap c out ≡ out ++ c ∷ []
unfolding sputc
sputc_lem cap c out room = let t : leb cap (length out + 1) ≡ false = ground arith in rw t

pub sncpy_lem :
    (cap : ℕ) (s out : Bytes) → length out + length s < cap → sncpy cap s out ≡ some (out ++ s)
unfolding sncpy
sncpy_lem cap s out room =
    let t : ltb cap (length out) ≡ false = ground arith in
    let u : leb cap (length out + length s) ≡ false = ground arith in rw (t, u)

sprint_lem :
    (cap : ℕ) (s out : Bytes)
    → length out + length s + 1 < cap
    → cap < 2 ^ 64
    → sprint cap s out ≡ some (out ++ s)
unfolding sprint
sprint_lem cap s out room few =
    let r : sub_size (sub_size cap (length out)) 1 ≡ cap - length out - 1 = omega arith in
    let t : ltb (length s) (cap - length out - 1) ≡ true = ground arith in
    let u : ltb (length out + length s) cap ≡ true = ground arith in rw (r, t, u)

attr_value_lem :
    (cap : ℕ) (b : Bytes) (f : Fld) (out : Bytes) {v : Bytes}
    → value_of b f ≡ some v
    → length out + length v + 1 < cap
    → cap < 2 ^ 64
    → attr_value cap b f out ≡ some (out ++ v)
unfolding value_of attr_value
attr_value_lem cap b f out {v} is room few = elim (Bool-cases (f.typ == Typ.off)) [
  | inl t ↦ elim (Option-cases (strlen (drop (off f) b))) [
    | inl x ↦ let is' = rw (t, x) at is in cc
    | inr (n, x) ↦
        let is' : some (take n (drop (off f) b)) ≡ some v = rw (t, x) at is in
        let same : take n (drop (off f) b) ≡ v = cc in
        rw (t, x, same) (sncpy_lem cap v out (omega arith))
  ]
  | inr t ↦ elim (Bool-cases (f.typ == Typ.uchar)) [
    | inl u ↦
        let same : digit (low8 f) 100 ∷ digit (low8 f) 10 ∷ digit (low8 f) 1 ∷ [] ≡ v =
          let is' = rw (t, u) at is in cc in
        rw (t, u, ← same) (sprint_lem cap _ out (omega (arith, ap length same)) few)
    | inr u ↦ elim (Bool-cases (f.typ == Typ.char)) [
      | inl c ↦
          let same : low8 f ∷ [] ≡ v = let is' = rw (t, u, c) at is in cc in
          rw (t, u, c, ← same) (ap some (sputc_lem cap (low8 f) out (omega arith)))
      | inr c ↦ elim (Bool-cases (f.typ == Typ.int)) [
        | inl i ↦
            let same : signed_decimal (2 ^ 31) (low32 f) ≡ v =
              let is' = rw (t, u, c, i) at is in cc in
            rw (t, u, c, i, same) (sprint_lem cap v out (omega arith) few)
        | inr i ↦
            let same : [] ≡ v = let is' = rw (t, u, c, i) at is in cc in
            rw (t, u, c, i, ← same) (ap some (sym (append-nil out)))
      ]
    ]
  ]
]

pub length-attribute : (name v : Bytes) → length (attribute name v) ≡ length name + length v + 4
length-attribute name v =
    let n1 = length-append (name ++ b'=' ∷ b'"' ∷ v) (b'"' ∷ []) in
    let n2 = length-append name (b'=' ∷ b'"' ∷ v) in omega (arith, n1, n2)

pub store_lem :
    (cap c : ℕ) (out : Bytes) → length out < cap → store cap c out ≡ some (out ++ c ∷ [])
unfolding store
store_lem cap c out room = let t : ltb (length out) cap ≡ true = ground arith in rw t refl

-- A character and a text behind it, and two characters.
pub sncpy-sputc :
    (cap c : ℕ) (s out : Bytes)
    → length out + length s + 1 < cap
    → sncpy cap s (sputc cap c out) ≡ some (out ++ c ∷ s)
sncpy-sputc cap c s out room =
    let n = length-append out (c ∷ []) in
    rw (sputc_lem cap c out (omega arith), sncpy_lem cap s (out ++ c ∷ []) (omega (arith, n)))
      (ap some (append_assoc out (c ∷ []) s))

pub sputc-sputc :
    (cap c d : ℕ) (out : Bytes)
    → length out + 2 < cap
    → sputc cap d (sputc cap c out) ≡ out ++ c ∷ d ∷ []
sputc-sputc cap c d out room =
    let n = length-append out (c ∷ []) in
    rw (sputc_lem cap c out (omega arith), sputc_lem cap d (out ++ c ∷ []) (omega (arith, n)))
      (append_assoc out (c ∷ []) (d ∷ []))

attribute_assoc :
    (out name v : Bytes)
    → (((out ++ b' ' ∷ name) ++ b'=' ∷ b'"' ∷ []) ++ v) ++ b'"' ∷ [] ≡ out ++ attribute name v
attribute_assoc out name v = simp append_assoc

-- A name in quotes: `named`, and `attr_text` on the value's text.
module _ (cap : ℕ) (name v out : Bytes) where
  upto_quote : Bytes
  upto_quote = (out ++ b' ' ∷ name) ++ b'=' ∷ b'"' ∷ []

  length-upto_quote : length upto_quote ≡ length out + length name + 3
  unfolding upto_quote
  length-upto_quote =
      let n1 = length-append out (b' ' ∷ name) in
      let n2 = length-append (out ++ b' ' ∷ name) (b'=' ∷ b'"' ∷ []) in omega (arith, n1, n2)

  upto_quote_lem :
      length out + length name + 4 < cap
      → (sncpy cap name (sputc cap b' ' out) ≡ some (out ++ b' ' ∷ name))
        × (sputc cap b'"' (sputc cap b'=' (out ++ b' ' ∷ name)) ≡ upto_quote)
  unfolding upto_quote
  upto_quote_lem room =
      let n = length-append out (b' ' ∷ name) in
      (
        sncpy-sputc cap b' ' name out (omega arith),
        sputc-sputc cap b'=' b'"' (out ++ b' ' ∷ name) (omega (arith, n)),
      )

  quoted :
      length out + length name + length v + 5 < cap
      → sputc cap b'"' (upto_quote ++ v) ≡ out ++ attribute name v
  unfolding upto_quote
  quoted room =
      let n = length-append upto_quote v in
      sputc_lem cap b'"' (upto_quote ++ v) (omega (arith, n, length-upto_quote))
      ∙ attribute_assoc out name v

  pub named_lem :
      length out + length name + length v + 5 < cap
      → named cap name v out ≡ some (out ++ attribute name v)
  unfolding named
  named_lem room =
      let (p, q) = upto_quote_lem (omega arith) in
      rw (p, q, sncpy_lem cap v upto_quote (omega (arith, length-upto_quote)), quoted room)

  pub attr_text_lem :
      (b : Bytes) (f : Fld)
      → value_of b f ≡ some v
      → length out + length name + length v + 5 < cap
      → cap < 2 ^ 64
      → attr_text cap name b f out ≡ some (out ++ attribute name v)
  unfolding attr_text
  attr_text_lem b f is room few =
      let (p, q) = upto_quote_lem (omega arith) in
      rw (
        p,
        q,
        attr_value_lem cap b f upto_quote is (omega (arith, length-upto_quote)) few,
        quoted room,
      )
