-- ===== src/Number/RoundTrip.antt =====
-- A tag that is printed is read back.
use native.Mathlib.Nat.{div-one}
use libfixc.Base.{
  ℕ, ◌+◌, ◌*◌, ◌/◌, ◌%◌, ◌<◌, ◌≤◌, ◌≡◌, refl, ap, ◌∙◌, arith, Bool-cases, inl, inr, [], ◌∷◌, ◌++◌,
  Bytes, ltb, if◌then◌else◌,
}
use libfixc.Number.{digit, accumulate, scan, strtoui16, ui16tostr}

-- The digits of a tag, without the `=`.
abbrev pub tag_digits : ℕ → Bytes
tag_digits v =
    if ltb v 10
    then digit v 1 ∷ []
    else if ltb v 100
    then digit v 10 ∷ digit v 1 ∷ []
    else if ltb v 1000
    then digit v 100 ∷ digit v 10 ∷ digit v 1 ∷ []
    else if ltb v 10000
    then digit v 1000 ∷ digit v 100 ∷ digit v 10 ∷ digit v 1 ∷ []
    else digit v 10000 ∷ digit v 1000 ∷ digit v 100 ∷ digit v 10 ∷ digit v 1 ∷ []

-- With six bytes of room every 16-bit tag is printed in full.
pub ui16tostr_room : (bsz v : ℕ) → 6 ≤ bsz → v < 65536 → ui16tostr bsz v ≡ tag_digits v ++ b'=' ∷ []
unfolding ui16tostr
ui16tostr_room bsz v room fits = ground arith

accumulate_digit : (res d : ℕ) → d < 10 → res < 100000 → accumulate res (d + b'0') ≡ res * 10 + d
accumulate_digit res d h k = ground arith

scan-digit :
    (res v k : ℕ) (cs : Bytes)
    → res < 100000
    → scan res (digit v k ∷ cs) ≡ scan (res * 10 + v / k % 10) cs
unfolding scan
scan-digit res v k cs h = ap (λ r. scan r cs) (accumulate_digit res (v / k % 10) (omega arith) h)

scan_nil : (res : ℕ) → scan res [] ≡ res
unfolding scan
scan_nil res = refl

scan_1 : (res v : ℕ) → res < 100000 → scan res (digit v 1 ∷ []) ≡ res * 10 + v % 10
scan_1 res v h = scan-digit res v 1 [] h ∙ scan_nil _ ∙ rw div-one

scan_2 : (res v : ℕ) → res < 10000 → scan res (digit v 10 ∷ digit v 1 ∷ []) ≡ res * 100 + v % 100
scan_2 res v h = scan-digit res v 10 _ (omega arith) ∙ scan_1 _ v (omega arith) ∙ omega arith

scan_3 :
    (res v : ℕ)
    → res < 1000
    → scan res (digit v 100 ∷ digit v 10 ∷ digit v 1 ∷ []) ≡ res * 1000 + v % 1000
scan_3 res v h = scan-digit res v 100 _ (omega arith) ∙ scan_2 _ v (omega arith) ∙ omega arith

scan_4 :
    (res v : ℕ)
    → res < 100
    → scan res (digit v 1000 ∷ digit v 100 ∷ digit v 10 ∷ digit v 1 ∷ []) ≡ res * 10000 + v % 10000
scan_4 res v h = scan-digit res v 1000 _ (omega arith) ∙ scan_3 _ v (omega arith) ∙ omega arith

scan-tag_digits : (v : ℕ) → v < 65536 → scan 0 (tag_digits v) ≡ v
scan-tag_digits v h = elim (Bool-cases (ltb v 10)) [
  | inl one ↦ rw one (scan_1 0 v (omega arith) ∙ ground arith)
  | inr more ↦ rw more (elim (Bool-cases (ltb v 100)) [
    | inl two ↦ rw two (scan_2 0 v (omega arith) ∙ ground arith)
    | inr more' ↦ rw more' (elim (Bool-cases (ltb v 1000)) [
      | inl three ↦ rw three (scan_3 0 v (omega arith) ∙ ground arith)
      | inr more'' ↦ rw more'' (elim (Bool-cases (ltb v 10000)) [
        | inl four ↦ rw four (scan_4 0 v (omega arith) ∙ ground arith)
        | inr five ↦
            rw five (scan-digit 0 v 10000 _ (omega arith) ∙ scan_4 _ v (omega arith) ∙ omega arith)
      ])
    ])
  ])
]

-- `__strtoui16` reads back the digits that `__ui16tostr` prints of a tag.
pub strtoui16-tag_digits : (v : ℕ) → v < 65536 → strtoui16 (tag_digits v) ≡ v
unfolding strtoui16
strtoui16-tag_digits v h = rw (scan-tag_digits v h) (ground arith)
