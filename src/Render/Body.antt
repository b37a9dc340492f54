-- ===== src/Render/Body.antt =====
-- The first part of `fixc_render_fix`: the fields 8 and 9, and the body behind them.
use libfixc.Base.{
  ℕ, ◌+◌, ◌-◌, ◌^◌, ◌≤◌, ◌<◌, ◌≡◌, ap, ◌∙◌, sym, arith, true, Option, some, ◌>>=◌, List, [], ◌∷◌,
  ◌++◌, Bytes, length, append_assoc, append-nil, length-append, length-splice, >>=-eq-some, splice,
  ltb,
}
use libfixc.Message.{Fld, Msg}
use libfixc.Power.{add_size}
use libfixc.Storage.{round_up}
use libfixc.Number.RoundTrip.{tag_digits}
use libfixc.Parse.{soh}
use libfixc.Render.{sub_size, render_fld, render_flds, Drawn, draw}
use libfixc.Render.Store.{splice_over}
use libfixc.Render.Field.{value_text, fld_text, render_fld_lem}
use libfixc.Render.Prefix.{zero_add}

-- The text of fields, one behind the other.
unfoldable pub texts_of : Bytes → List Fld → Option Bytes
texts_of b [] = some []
texts_of b (f ∷ fs) = do v ← value_text b f; rest ← texts_of b fs; some (fld_text f.tag v ++ rest)

-- Tags of 16 bits.
abbrev pub Tags : List Fld → Type 0
Tags [] = Unit
Tags (f ∷ fs) = (f.tag < 65536) × Tags fs

pub length-fld_text : (tag : ℕ) (v : Bytes) → length v + 2 ≤ length (fld_text tag v)
unfolding fld_text
length-fld_text tag v = omega (
  arith,
  length-append (tag_digits tag ++ b'=' ∷ []) (v ++ soh ∷ []),
  length-append (tag_digits tag) (b'=' ∷ []),
  length-append v (soh ∷ []),
)

-- A field behind a text that has been stored.
pub render_fld-more :
    (buf : Bytes) (pos bsz : ℕ) (b xs : Bytes) (f : Fld) (v : Bytes)
    → f.tag < 65536
    → value_text b f ≡ some v
    → length xs + length v + 9 ≤ bsz
    → bsz < 2 ^ 64
    → pos + bsz ≤ length buf
    → render_fld (splice buf pos xs) (pos + length xs) (bsz - length xs) b f
      ≡ some (splice buf pos (xs ++ fld_text f.tag v), length (fld_text f.tag v))
render_fld-more buf pos bsz b xs f v small e room real inside =
    let size = length-splice buf pos xs (omega arith) in
    render_fld_lem (splice buf pos xs) (pos + length xs) (bsz - length xs) b f v small e
      (omega arith) (omega arith) (omega (arith, size))
    ∙ ap (λ l. some (l, length (fld_text f.tag v)))
        (ap (λ l. splice (splice buf pos l) (pos + length xs) (fld_text f.tag v))
            (sym (append-nil xs))
          ∙ splice_over buf pos xs [] (fld_text f.tag v) (omega arith) (omega arith))

-- The loop over the fields, behind a text that has been stored.
pub render_flds_lem :
    (fs : List Fld) (buf : Bytes) (pos bsz : ℕ) (b xs ys : Bytes)
    → Tags fs
    → texts_of b fs ≡ some ys
    → length xs + length ys + 9 ≤ bsz
    → bsz < 2 ^ 64
    → pos + bsz ≤ length buf
    → render_flds (splice buf pos xs) pos bsz b fs (length xs)
      ≡ some (splice buf pos (xs ++ ys), length (xs ++ ys))
unfolding render_flds texts_of
render_flds_lem [] buf pos bsz b xs ys small e room real inside =
    let same : [] ≡ ys = cc in
    ap (λ l. some (splice buf pos l, length l)) (sym (append-nil xs) ∙ ap (λ l. xs ++ l) same)
render_flds_lem (f ∷ fs) buf pos bsz b xs ys small e room real inside =
    let (v, e1, e2) = >>=-eq-some (value_text b f) _ e in
    let (rest, e3, e4) = >>=-eq-some (texts_of b fs) _ e2 in
    let t = fld_text f.tag v in
    let same : t ++ rest ≡ ys = cc in
    let size : length t + length rest ≡ length ys = sym (length-append t rest) ∙ ap length same in
    let n = length-fld_text f.tag v in
    let left : ltb (length xs) bsz ≡ true = ground arith in
    let count : add_size (length xs) (length t) ≡ length (xs ++ t) =
      omega (arith, length-append xs t) in
    rw (left, render_fld-more buf pos bsz b xs f v small.0 e1 (omega arith) real inside, count)
      (render_flds_lem fs buf pos bsz b (xs ++ t) rest small.1 e3
          (omega (arith, length-append xs t)) real inside
        ∙ ap (λ l. some (splice buf pos l, length l))
            (append_assoc xs t rest ∙ ap (λ l. xs ++ l) same))

-- The two fields in front and the body behind them.
pub draw_lem :
    (buf : Bytes) (m : Msg) (v8 v9 body : Bytes)
    → m.f8.tag < 65536
    → m.f9.tag < 65536
    → Tags (m.f35 ∷ m.flds)
    → value_text m.pr m.f8 ≡ some v8
    → value_text m.pr m.f9 ≡ some v9
    → texts_of m.pr (m.f35 ∷ m.flds) ≡ some body
    → length (fld_text m.f8.tag v8) + length (fld_text m.f9.tag v9) + length body + 24 ≤ length buf
    → length buf < 2 ^ 60
    → (let t8 = fld_text m.f8.tag v8 in
        let t9 = fld_text m.f9.tag v9 in
        let totz = round_up (length t8 + round_up (length t9) 8) 8 in
        draw buf (length buf) m
        ≡ some (record {
          buf = splice (splice buf 0 (t8 ++ t9)) totz body;
          hdrz = length t8;
          lenz = round_up (length t9) 8;
          totz = totz;
          blen = length body;
        }))
unfolding draw texts_of
draw_lem buf m v8 v9 body s8 s9 tags e8 e9 eb room real =
    let t8 = fld_text m.f8.tag v8 in
    let t9 = fld_text m.f9.tag v9 in
    let n8 = length-fld_text m.f8.tag v8 in
    let n9 = length-fld_text m.f9.tag v9 in
    let totz = round_up (length t8 + round_up (length t9) 8) 8 in
    let near : totz ≤ length t8 + length t9 + 14 = omega arith in
    let (v35, e35, r) = >>=-eq-some (value_text m.pr m.f35) _ eb in
    let (rest, er, r') = >>=-eq-some (texts_of m.pr m.flds) _ r in
    let t35 = fld_text m.f35.tag v35 in
    let n35 = length-fld_text m.f35.tag v35 in
    let same : t35 ++ rest ≡ body = cc in
    let size : length t35 + length rest ≡ length body =
      sym (length-append t35 rest) ∙ ap length same in
    let front = splice buf 0 (t8 ++ t9) in
    let whole : length front ≡ length buf =
      omega (arith, length-splice buf 0 (t8 ++ t9) (omega arith), length-append t8 t9) in
    let a =
      render_fld_lem buf 0 (length buf) m.pr m.f8 v8 s8 e8 (omega arith) (omega arith)
        (omega arith) in
    let b : render_fld (splice buf 0 t8) (length t8) (sub_size (length buf) (length t8)) m.pr m.f9
        ≡ some (front, length t9) =
      ap (λ i. render_fld (splice buf 0 t8) i (sub_size (length buf) (length t8)) m.pr m.f9)
        (sym (zero_add (length t8)))
      ∙ ap (λ z. render_fld (splice buf 0 t8) (0 + length t8) z m.pr m.f9) (omega arith)
      ∙ render_fld-more buf 0 (length buf) m.pr t8 m.f9 v9 s9 e9 (omega arith) (omega arith)
          (omega arith) in
    let left : sub_size (length buf) totz ≡ length buf - totz = omega arith in
    let c =
      render_fld_lem front totz (length buf - totz) m.pr m.f35 v35 tags.0 e35 (omega arith)
        (omega arith) (omega (arith, whole)) in
    let d =
      render_flds_lem m.flds front totz (length buf - totz) m.pr t35 rest tags.1 er
        (omega (arith, size)) (omega arith) (omega (arith, whole)) in
    let made : Bytes → Drawn = λ l. record {
      buf = splice front totz l;
      hdrz = length t8;
      lenz = round_up (length t9) 8;
      totz = totz;
      blen = length l;
    } in
    rw (a, b, left, c, d) (ap (λ l. some (made l)) same)
