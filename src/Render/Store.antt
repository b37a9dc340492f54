-- ===== src/Render/Store.antt =====
-- Stores into a buffer, one behind the other: what `write` makes of a buffer that holds a text from `at`
-- on, and the steps of `fixc_render_fld` behind a tag.
use libfixc.Base.{
  ℕ, zero, suc, ◌+◌, ◌-◌, ◌/◌, ◌%◌, ◌^◌, ◌≤◌, ◌<◌, ◌≡◌, refl, ap, ◌∙◌, sym, arith, true, false,
  some, [], ◌∷◌, ◌++◌, Bytes, length, append_assoc, append-nil, length-append, length-take,
  length-splice, take-append_exact, drop-append_exact, take_all, Bool-cases, inl, inr, take, drop,
  splice, ltb, leb, ◌==◌, if◌then◌else◌,
}
use libfixc.Edit.{strlen}
use libfixc.Parse.{soh}
use libfixc.Render.{
  write, sub_size, snprintf, finish, store_text, store_number, store_off, store_type,
}

drop_nil : (n : ℕ) → drop {A = ℕ} n [] ≡ []
drop_nil zero = refl
drop_nil (suc n) = refl

pub drop_add : (n k : ℕ) (xs : Bytes) → drop (n + k) xs ≡ drop k (drop n xs)
drop_add zero k xs = let e : 0 + k ≡ k = omega arith in ap (λ i. drop i xs) e
drop_add (suc n) k [] = drop_nil (suc n + k) ∙ sym (drop_nil k)
drop_add (suc n) k (x ∷ xs) =
    let e : suc n + k ≡ suc (n + k) = omega arith in ap (λ i. drop i (x ∷ xs)) e ∙ drop_add n k xs

pub drop_past : (zs d : Bytes) (k : ℕ) → length zs ≤ k → drop k (zs ++ d) ≡ drop (k - length zs) d
drop_past zs d k h =
    ap (λ i. drop i (zs ++ d)) (omega arith)
    ∙ drop_add (length zs) (k - length zs) (zs ++ d)
    ∙ ap (drop (k - length zs)) (drop-append_exact zs d (length zs) refl)

-- A store at the end of `xs` over no more than it stores itself.
pub splice_over :
    (buf : Bytes) (at : ℕ) (xs zs ys : Bytes)
    → at ≤ length buf
    → length zs ≤ length ys
    → splice (splice buf at (xs ++ zs)) (at + length xs) ys ≡ splice buf at (xs ++ ys)
splice_over buf at xs zs ys inside more =
    let d = drop (at + length (xs ++ zs)) buf in
    let head = take at buf ++ xs in
    let n : length head ≡ at + length xs =
      omega (arith, length-append (take at buf) xs, length-take at buf) in
    let cut : splice buf at (xs ++ zs) ≡ head ++ (zs ++ d) = (simp append_assoc) in
    let front : take (at + length xs) (splice buf at (xs ++ zs)) ≡ head =
      rw cut (take-append_exact head (zs ++ d) (at + length xs) n) in
    let behind : drop (at + length xs + length ys) (splice buf at (xs ++ zs))
        ≡ drop (at + length (xs ++ ys)) buf =
      rw
        (
          cut,
          drop_add (at + length xs) (length ys) (head ++ (zs ++ d)),
          drop-append_exact head (zs ++ d) (at + length xs) n,
          drop_past zs d (length ys) more,
        )
        (sym (drop_add (at + length (xs ++ zs)) (length ys - length zs) buf)
          ∙ ap (λ i. drop i buf) (omega (arith, length-append xs zs, length-append xs ys))) in
    rw (front, behind) (simp append_assoc)

-- A store that stays in the buffer, at the end of what has been stored from `at` on.
pub write_more :
    (buf : Bytes) (at : ℕ) (xs zs ys : Bytes)
    → length zs ≤ length ys
    → at + length xs + length ys ≤ length buf
    → write (splice buf at (xs ++ zs)) (at + length xs) ys ≡ some (splice buf at (xs ++ ys))
unfolding write
write_more buf at xs zs ys more inside =
    let fits : leb (at + length xs + length ys) (length (splice buf at (xs ++ zs))) ≡ true =
      ground (arith, length-splice buf at (xs ++ zs) (omega arith)) in
    rw fits (ap some (splice_over buf at xs zs ys (omega arith) more))

pub write_first :
    (buf : Bytes) (at : ℕ) (ys : Bytes)
    → at + length ys ≤ length buf
    → write buf at ys ≡ some (splice buf at ys)
unfolding write
write_first buf at ys inside = ground arith

-- The bytes of a type that are not zero.
abbrev pub type_text : ℕ → ℕ → Bytes
type_text hi lo = (if hi == 0 then [] else hi ∷ []) ++ (if lo == 0 then [] else lo ∷ [])

module _ (buf : Bytes) (at : ℕ) (tag : Bytes) where
  -- The steps after the tag, on a buffer that has it.
  finish_lem :
      (v zs : Bytes)
      → length zs ≤ 1
      → at + length tag + length v + 1 ≤ length buf
      → finish (splice buf at ((tag ++ v) ++ zs)) at (length tag + length v)
        ≡ some (splice buf at (tag ++ (v ++ soh ∷ [])), length tag + length v + 1)
  unfolding finish
  finish_lem v zs few inside =
      let n : at + (length tag + length v) ≡ at + length (tag ++ v) =
        omega (arith, length-append tag v) in
      let stored =
        write_more buf at (tag ++ v) zs (soh ∷ []) few (omega (arith, length-append tag v)) in
      rw (n, stored, append_assoc tag v (soh ∷ []))

  pub store_text_lem :
      (v : Bytes)
      → at + length tag + length v + 1 ≤ length buf
      → store_text (splice buf at tag) at (length tag) v
        ≡ some (splice buf at (tag ++ (v ++ soh ∷ [])), length tag + length v + 1)
  unfolding store_text
  store_text_lem v inside =
      let stored : write (splice buf at tag) (at + length tag) v
          ≡ some (splice buf at ((tag ++ v) ++ [])) =
        ap (λ l. write (splice buf at l) (at + length tag) v) (sym (append-nil tag))
        ∙ write_more buf at tag [] v (omega arith) (omega arith)
        ∙ ap (λ l. some (splice buf at l)) (sym (append-nil (tag ++ v))) in
      rw stored (finish_lem v [] (omega arith) inside)

  pub store_number_lem :
      (bsz : ℕ) (v : Bytes)
      → length tag + length v + 1 ≤ bsz
      → bsz < 2 ^ 64
      → at + length tag + length v + 1 ≤ length buf
      → store_number (splice buf at tag) at bsz (length tag) v
        ≡ some (splice buf at (tag ++ (v ++ soh ∷ [])), length tag + length v + 1)
  unfolding store_number snprintf
  store_number_lem bsz v room real inside =
      let n : sub_size bsz (length tag) ≡ bsz - length tag = omega arith in
      let some_room : (bsz - length tag == 0) ≡ false = ground arith in
      let whole : take (bsz - length tag - 1) v ≡ v =
        take_all v (bsz - length tag - 1) (omega arith) in
      let stored : write (splice buf at tag) (at + length tag) (v ++ 0 ∷ [])
          ≡ some (splice buf at ((tag ++ v) ++ 0 ∷ [])) =
        ap (λ l. write (splice buf at l) (at + length tag) (v ++ 0 ∷ [])) (sym (append-nil tag))
        ∙ write_more buf at tag [] (v ++ 0 ∷ []) (omega arith)
            (omega (arith, length-append v (0 ∷ [])))
        ∙ ap (λ l. some (splice buf at l)) (sym (append_assoc tag v (0 ∷ []))) in
      rw (n, some_room, whole, stored) (finish_lem v (0 ∷ []) (omega arith) inside)

  pub store_off_lem :
      (bsz : ℕ) (text : Bytes) (stz : ℕ)
      → strlen text ≡ some stz
      → stz ≤ length text
      → length tag + stz + 1 ≤ bsz
      → bsz < 2 ^ 64
      → at + length tag + stz + 1 ≤ length buf
      → store_off (splice buf at tag) at bsz (length tag) text
        ≡ some (splice buf at (tag ++ (take stz text ++ soh ∷ [])), length tag + stz + 1)
  unfolding store_off
  store_off_lem bsz text stz e le room real inside =
      let enough : ltb (sub_size bsz (length tag)) (stz + 1) ≡ false = ground arith in
      let n : length (take stz text) ≡ stz = omega (arith, length-take stz text) in
      rw (e, enough)
        (store_text_lem (take stz text) (omega arith)
          ∙ ap (λ i. some (splice buf at (tag ++ (take stz text ++ soh ∷ [])), length tag + i + 1))
              n)

  pub finish_as :
      (written v zs : Bytes) (res : ℕ)
      → written ≡ (tag ++ v) ++ zs
      → res ≡ length tag + length v
      → length zs ≤ 1
      → at + length tag + length v + 1 ≤ length buf
      → finish (splice buf at written) at res
        ≡ some (splice buf at (tag ++ (v ++ soh ∷ [])), length tag + length v + 1)
  finish_as written v zs res e n few inside =
      ap (λ l. finish (splice buf at l) at res) e
      ∙ ap (finish (splice buf at ((tag ++ v) ++ zs)) at) n
      ∙ finish_lem v zs few inside

  pub store_type_lem :
      (mtyp : ℕ)
      → at + length tag + 3 ≤ length buf
      → store_type (splice buf at tag) at (length tag) mtyp ≡ (
          let v = type_text (mtyp / 256 % 256) (mtyp % 256) in
          some (splice buf at (tag ++ (v ++ soh ∷ [])), length tag + length v + 1))
  unfolding store_type
  store_type_lem mtyp inside =
      let hi = mtyp / 256 % 256 in
      let lo = mtyp % 256 in
      let first : write (splice buf at tag) (at + length tag) (hi ∷ [])
          ≡ some (splice buf at (tag ++ hi ∷ [])) =
        ap (λ l. write (splice buf at l) (at + length tag) (hi ∷ [])) (sym (append-nil tag))
        ∙ write_more buf at tag [] (hi ∷ []) (omega arith) (omega arith) in
      let over : write (splice buf at (tag ++ hi ∷ [])) (at + length tag) (lo ∷ [])
          ≡ some (splice buf at (tag ++ lo ∷ [])) =
        write_more buf at tag (hi ∷ []) (lo ∷ []) (omega arith) (omega arith) in
      let next : write (splice buf at (tag ++ hi ∷ [])) (at + (length tag + 1)) (lo ∷ [])
          ≡ some (splice buf at ((tag ++ hi ∷ []) ++ lo ∷ [])) =
        ap (λ i. write (splice buf at (tag ++ hi ∷ [])) i (lo ∷ []))
          (omega (arith, length-append tag (hi ∷ [])))
        ∙ ap (λ l. write (splice buf at l) (at + length (tag ++ hi ∷ [])) (lo ∷ []))
            (sym (append-nil (tag ++ hi ∷ [])))
        ∙ write_more buf at (tag ++ hi ∷ []) [] (lo ∷ []) (omega arith)
            (omega (arith, length-append tag (hi ∷ []))) in
      rw first (elim (Bool-cases (hi == 0)) [
        | inl zero_hi ↦
            rw (zero_hi, over)
              (elim (Bool-cases (lo == 0)) [
                | inl zero_lo ↦ rw zero_lo (
                    finish_as (tag ++ lo ∷ []) [] (lo ∷ []) (length tag)
                      (ap (λ l. l ++ lo ∷ []) (sym (append-nil tag))) (omega arith) (omega arith)
                      (omega arith))
                | inr some_lo ↦ rw some_lo (
                    finish_as (tag ++ lo ∷ []) (lo ∷ []) [] (length tag + 1)
                      (sym (append-nil (tag ++ lo ∷ []))) refl (omega arith) (omega arith))
              ])
        | inr some_hi ↦
            rw (some_hi, next)
              (elim (Bool-cases (lo == 0)) [
                | inl zero_lo ↦ rw zero_lo (
                    finish_as ((tag ++ hi ∷ []) ++ lo ∷ []) (hi ∷ []) (lo ∷ []) (length tag + 1)
                      refl refl (omega arith) (omega arith))
                | inr some_lo ↦ rw some_lo (
                    finish_as ((tag ++ hi ∷ []) ++ lo ∷ []) (hi ∷ lo ∷ []) [] (length tag + 1 + 1)
                      (simp append_assoc) (omega arith) (omega arith) (omega arith))
              ])
      ])
