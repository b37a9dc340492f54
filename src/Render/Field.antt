-- ===== src/Render/Field.antt =====
-- One field as text: what `fixc_render_fld` stores where there is room.
use libfixc.Base.{
  ℕ, ◌+◌, ◌/◌, ◌%◌, ◌^◌, ◌≤◌, ◌<◌, ◌≡◌, refl, ap, ◌∙◌, sym, arith, true, false, Option, none, some,
  ◌>>=◌, [], ◌∷◌, ◌++◌, Bytes, length, append-nil, length-append, length-take, Bool-cases, inl, inr,
  >>=-eq-some, take, drop, splice, ◌==◌, if◌then◌else◌,
}
use libfixc.Message.{Fld, off, low32, low8}
use libfixc.Message.Typ
use libfixc.Edit.{strlen}
use libfixc.Number.{ui16tostr, ui8tostr, digit, signed_decimal}
use libfixc.Number.RoundTrip.{tag_digits, ui16tostr_room}
use libfixc.Version.{ver_fixify, of_number}
use libfixc.Parse.{soh}
use libfixc.Render.{write, sub_size, store_text, store_value, tag_bytes, render_fld}
use libfixc.Render.Store.{
  write_first, finish_as, store_text_lem, store_number_lem, store_off_lem, store_type_lem,
  type_text,
}

-- The text of a field's value.
unfoldable pub value_text : Bytes → Fld → Option Bytes
value_text b fld =
    if fld.typ == Typ.off
    then (do n ← strlen (drop (off fld) b); some (take n (drop (off fld) b)))
    else if fld.typ == Typ.ver
    then some (ver_fixify (of_number (low32 fld)))
    else if fld.typ == Typ.uchar
    then some (digit (low8 fld) 100 ∷ digit (low8 fld) 10 ∷ digit (low8 fld) 1 ∷ [])
    else if fld.typ == Typ.char
    then some (low8 fld ∷ [])
    else if fld.typ == Typ.int
    then some (signed_decimal (2 ^ 31) (low32 fld))
    else if fld.typ == Typ.long
    then some (signed_decimal (2 ^ 63) fld.val)
    else if fld.typ == Typ.msgtyp
    then some (type_text (low32 fld / 256 % 256) (low32 fld % 256))
    else if fld.typ == Typ.ptr
    then none
    else some []

-- What a field is in FIX: its tag, `=`, its value and a SOH.
unfoldable pub fld_text : ℕ → Bytes → Bytes
fld_text tag v = (tag_digits tag ++ b'=' ∷ []) ++ (v ++ soh ∷ [])

strlen-le : (text : Bytes) (n : ℕ) → strlen text ≡ some n → n ≤ length text
unfolding strlen
strlen-le [] n e = absurd (cc)
strlen-le (c ∷ cs) n e = elim (Bool-cases (c == 0)) [
  | inl z ↦ let e' = rw z at e in let same : 0 ≡ n = cc in omega arith
  | inr z ↦
      let e' = rw z at e in
      let (k, e1, e2) = >>=-eq-some (strlen cs) (λ n'. some (n' + 1)) e' in
      let same : k + 1 ≡ n = cc in omega (arith, strlen-le cs k e1)
]

tag_digits-some : (tag : ℕ) → (1 ≤ length (tag_digits tag)) × (length (tag_digits tag) ≤ 5)
tag_digits-some tag = ground arith

tag_bytes-end : (xs : Bytes) (c : ℕ) → tag_bytes (xs ++ c ∷ []) ≡ xs ++ c ∷ []
tag_bytes-end [] c = refl
tag_bytes-end (x ∷ xs) c = refl

module _ (buf : Bytes) (at bsz : ℕ) (tag b : Bytes) (fld : Fld) (real : bsz < 2 ^ 64)
    (inside : at + bsz ≤ length buf) where
  three :
      3 ≤ sub_size bsz (length tag)
      → ui8tostr (sub_size bsz (length tag)) (low8 fld)
        ≡ digit (low8 fld) 100 ∷ digit (low8 fld) 10 ∷ digit (low8 fld) 1 ∷ []
  unfolding ui8tostr
  three h = ground arith

  off_case :
      (v : Bytes)
      → (fld.typ == Typ.off) ≡ true
      → (strlen (drop (off fld) b) >>= λ n. some (take n (drop (off fld) b))) ≡ some v
      → length tag + length v + 3 ≤ bsz
      → store_value (splice buf at tag) at bsz (length tag) b fld
        ≡ some (splice buf at (tag ++ (v ++ soh ∷ [])), length tag + length v + 1)
  unfolding store_value
  off_case v t e room =
      let text = drop (off fld) b in
      let (n, e1, e2) = >>=-eq-some (strlen text) (λ n'. some (take n' text)) e in
      let same : take n text ≡ v = cc in
      let le = strlen-le text n e1 in
      let size : length v ≡ n = ap length (sym same) ∙ omega (arith, length-take n text) in
      rw t (
        store_off_lem buf at tag bsz text n e1 le (omega arith) real (omega arith)
        ∙ ap (λ l. some (splice buf at (tag ++ (l ++ soh ∷ [])), length tag + n + 1)) same
        ∙ ap (λ i. some (splice buf at (tag ++ (v ++ soh ∷ [])), length tag + i + 1)) (sym size))

  by_number :
      (v : Bytes)
      → value_text b fld ≡ some v
      → length tag + length v + 3 ≤ bsz
      → (fld.typ == Typ.off) ≡ false
      → (fld.typ == Typ.ver) ≡ false
      → (fld.typ == Typ.uchar) ≡ false
      → (fld.typ == Typ.char) ≡ false
      → store_value (splice buf at tag) at bsz (length tag) b fld
        ≡ some (splice buf at (tag ++ (v ++ soh ∷ [])), length tag + length v + 1)
  unfolding store_value value_text
  by_number v e room n0 n1 n2 n3 = elim (Bool-cases (fld.typ == Typ.int)) [
    | inl t ↦
        let e' = rw (n0, n1, n2, n3, t) at e in
        let same : signed_decimal (2 ^ 31) (low32 fld) ≡ v = cc in
        rw (n0, n1, n2, n3, t, same)
          (store_number_lem buf at tag bsz v (omega arith) real (omega arith))
    | inr n4 ↦ elim (Bool-cases (fld.typ == Typ.long)) [
      | inl t ↦
          let e' = rw (n0, n1, n2, n3, n4, t) at e in
          let same : signed_decimal (2 ^ 63) fld.val ≡ v = cc in
          rw (n0, n1, n2, n3, n4, t, same)
            (store_number_lem buf at tag bsz v (omega arith) real (omega arith))
      | inr n5 ↦ elim (Bool-cases (fld.typ == Typ.msgtyp)) [
        | inl t ↦
            let e' = rw (n0, n1, n2, n3, n4, n5, t) at e in
            let same : type_text (low32 fld / 256 % 256) (low32 fld % 256) ≡ v = cc in
            rw (n0, n1, n2, n3, n4, n5, t)
              (store_type_lem buf at tag (low32 fld) (omega arith)
                ∙ ap (λ l. some (splice buf at (tag ++ (l ++ soh ∷ [])), length tag + length l + 1))
                    same)
        | inr n6 ↦ elim (Bool-cases (fld.typ == Typ.ptr)) [
          | inl t ↦ let e' = rw (n0, n1, n2, n3, n4, n5, n6, t) at e in absurd cc
          | inr n7 ↦
              let e' = rw (n0, n1, n2, n3, n4, n5, n6, n7) at e in
              let same : [] ≡ v = cc in
              rw (n0, n1, n2, n3, n4, n5, n6, n7, ← same)
                (finish_as buf at tag tag [] [] (length tag)
                  (sym (append-nil tag) ∙ sym (append-nil (tag ++ []))) (omega arith) (omega arith)
                  (omega arith))
        ]
      ]
    ]
  ]

  -- The switch stores the value's text and a SOH behind the tag.
  store_value_lem :
      (v : Bytes)
      → value_text b fld ≡ some v
      → length tag + length v + 3 ≤ bsz
      → store_value (splice buf at tag) at bsz (length tag) b fld
        ≡ some (splice buf at (tag ++ (v ++ soh ∷ [])), length tag + length v + 1)
  unfolding store_value value_text
  store_value_lem v e room = elim (Bool-cases (fld.typ == Typ.off)) [
    | inl t ↦ off_case v t (rw t at e) room
    | inr n0 ↦ elim (Bool-cases (fld.typ == Typ.ver)) [
      | inl t ↦
          let e' = rw (n0, t) at e in
          let same : ver_fixify (of_number (low32 fld)) ≡ v = cc in
          rw (n0, t, same) (store_text_lem buf at tag v (omega arith))
      | inr n1 ↦ elim (Bool-cases (fld.typ == Typ.uchar)) [
        | inl t ↦
            let e' = rw (n0, n1, t) at e in
            let digits = digit (low8 fld) 100 ∷ digit (low8 fld) 10 ∷ digit (low8 fld) 1 ∷ [] in
            let same : digits ≡ v = cc in
            let whole : ui8tostr (sub_size bsz (length tag)) (low8 fld) ≡ digits =
              three (omega arith) in
            rw (n0, n1, t)
              (ap (store_text (splice buf at tag) at (length tag)) (whole ∙ same)
                ∙ store_text_lem buf at tag v (omega arith))
        | inr n2 ↦ elim (Bool-cases (fld.typ == Typ.char)) [
          | inl t ↦
              let e' = rw (n0, n1, n2, t) at e in
              let same : low8 fld ∷ [] ≡ v = cc in
              rw (n0, n1, n2, t)
                (ap (store_text (splice buf at tag) at (length tag)) same
                  ∙ store_text_lem buf at tag v (omega arith))
          | inr n3 ↦ by_number v e room n0 n1 n2 n3
        ]
      ]
    ]
  ]

-- Where the buffer has room for a field's value and nine bytes more, `fixc_render_fld` stores the
-- field's text from `at` on, nothing else, and returns its length.
pub render_fld_lem :
    (buf : Bytes) (at bsz : ℕ) (b : Bytes) (fld : Fld) (v : Bytes)
    → fld.tag < 65536
    → value_text b fld ≡ some v
    → length v + 9 ≤ bsz
    → bsz < 2 ^ 64
    → at + bsz ≤ length buf
    → render_fld buf at bsz b fld
      ≡ some (splice buf at (fld_text fld.tag v), length (fld_text fld.tag v))
unfolding render_fld fld_text
render_fld_lem buf at bsz b fld v small e room real inside =
    let tag = tag_digits fld.tag ++ b'=' ∷ [] in
    let shown : ui16tostr bsz fld.tag ≡ tag = ui16tostr_room bsz fld.tag (omega arith) small in
    let (_, most) = tag_digits-some fld.tag in
    let size : length tag ≤ 6 = omega (arith, length-append (tag_digits fld.tag) (b'=' ∷ [])) in
    let stored : write buf at (tag_bytes tag) ≡ some (splice buf at tag) =
      ap (write buf at) (tag_bytes-end (tag_digits fld.tag) b'=')
      ∙ write_first buf at tag (omega arith) in
    let whole : length tag + length v + 1 ≡ length (tag ++ (v ++ soh ∷ [])) =
      omega (arith, length-append tag (v ++ soh ∷ []), length-append v (soh ∷ [])) in
    rw (shown, stored)
      (store_value_lem buf at bsz tag b fld real inside v e (omega arith)
        ∙ ap (λ n. some (splice buf at (tag ++ (v ++ soh ∷ [])), n)) whole)
