-- ===== src/Render/Sum.antt =====
-- The last part of `fixc_render_fix`: the checksum.
use libfixc.Base.{
  ◌+◌, ◌-◌, ◌^◌, ◌≤◌, ◌<◌, ◌≡◌, refl, ap, ◌∙◌, sym, arith, true, some, [], ◌∷◌, ◌++◌, Bytes, length,
  append_assoc, length-append, take-append_exact, take, splice, ltb,
}
use libfixc.Message.{Fld, Msg, low8, set_low8, fld_zero}
use libfixc.Message.Tag
use libfixc.Message.Typ
use libfixc.Number.{digit}
use libfixc.Parse.{soh}
use libfixc.Render.{write, sub_size, chksum, render_fld, close}
use libfixc.Render.Field.{value_text, fld_text}
use libfixc.Render.Prefix.{zero_add, write_at}
use libfixc.Render.Body.{render_fld-more}

pub chksum-lt : (xs : Bytes) → chksum xs < 256
unfolding chksum
chksum-lt xs = omega arith

-- The checksum field of a text, and its three digits.
unfoldable pub sum_fld : Bytes → Fld
sum_fld xs = set_low8 (record fld_zero { tag = Tag.check_sum; typ = Typ.uchar }) (chksum xs)

unfoldable pub sum_digits : Bytes → Bytes
sum_digits xs = digit (chksum xs) 100 ∷ digit (chksum xs) 10 ∷ digit (chksum xs) 1 ∷ []

-- The field of the checksum of a text, without its SOH.
unfoldable pub sum_text : Bytes → Bytes
sum_text xs = b'1' ∷ b'0' ∷ b'=' ∷ sum_digits xs

pub value_text-sum_fld : (b xs : Bytes) → value_text b (sum_fld xs) ≡ some (sum_digits xs)
unfolding value_text sum_fld sum_digits
value_text-sum_fld b xs =
    let same : low8 (sum_fld xs) ≡ chksum xs = omega (arith, chksum-lt xs) in
    ap (λ n. some (digit n 100 ∷ digit n 10 ∷ digit n 1 ∷ [])) same

pub fld_text-sum : (xs : Bytes) → fld_text 10 (sum_digits xs) ≡ sum_text xs ++ soh ∷ []
unfolding fld_text sum_text sum_digits
fld_text-sum xs = refl

pub length-sum_text : (xs : Bytes) → length (sum_text xs) ≡ 6
unfolding sum_text sum_digits
length-sum_text xs = refl

pub length-sum_digits : (xs : Bytes) → length (sum_digits xs) ≡ 3
unfolding sum_digits
length-sum_digits xs = refl

-- The checksum and a NUL behind a text that the buffer begins with.
pub close_lem :
    (m : Msg) (buf xs : Bytes)
    → length xs + 12 ≤ length buf
    → length buf < 2 ^ 64
    → close m (length buf) (splice buf 0 xs) (length xs)
      ≡ some (
        splice buf 0 ((xs ++ sum_text xs) ++ 0 ∷ []),
        length (xs ++ sum_text xs),
        record m { f10 = sum_fld xs },
      )
unfolding close sum_fld
close_lem m buf xs room real =
    let left : ltb (length xs + 5) (length buf) ≡ true = ground arith in
    let whole : take (length xs) (splice buf 0 xs) ≡ xs = take-append_exact xs _ (length xs) refl in
    let rest : sub_size (length buf) (length xs) ≡ length buf - length xs = omega arith in
    let size : length (fld_text 10 (sum_digits xs)) ≡ 7 =
      ap length (fld_text-sum xs)
      ∙ omega (arith, length-append (sum_text xs) (soh ∷ []), length-sum_text xs) in
    let printed : render_fld (splice buf 0 xs) (length xs) (length buf - length xs) m.pr
          (sum_fld xs)
        ≡ some (splice buf 0 ((xs ++ sum_text xs) ++ soh ∷ []), 7) =
      ap (λ i. render_fld (splice buf 0 xs) i (length buf - length xs) m.pr (sum_fld xs))
        (sym (zero_add (length xs)))
      ∙ render_fld-more buf 0 (length buf) m.pr xs (sum_fld xs) (sum_digits xs) (omega arith)
          (value_text-sum_fld m.pr xs) (omega (arith, length-sum_digits xs)) real (omega arith)
      ∙ ap (λ l. some (splice buf 0 l, length (fld_text 10 (sum_digits xs))))
          (ap (λ l. xs ++ l) (fld_text-sum xs) ∙ sym (append_assoc xs (sum_text xs) (soh ∷ [])))
      ∙ ap (λ n. some (splice buf 0 ((xs ++ sum_text xs) ++ soh ∷ []), n)) size in
    let count : sub_size (length xs + 7) 1 ≡ length (xs ++ sum_text xs) =
      omega (arith, length-append xs (sum_text xs), length-sum_text xs) in
    let ended : write (splice buf 0 ((xs ++ sum_text xs) ++ soh ∷ [])) (length (xs ++ sum_text xs))
          (0 ∷ [])
        ≡ some (splice buf 0 ((xs ++ sum_text xs) ++ 0 ∷ [])) =
      write_at buf (xs ++ sum_text xs) (soh ∷ []) (0 ∷ []) (length (xs ++ sum_text xs)) refl
        (omega arith) (omega (arith, length-append xs (sum_text xs), length-sum_text xs)) in
    rw (left, whole, rest, printed, count, ended)
