-- ===== src/Render/Whole.antt =====
-- A whole message as text: what `fixc_render_fix` leaves in a buffer that is large enough.
use libfixc.Base.{
  ℕ, ◌+◌, ◌-◌, ◌^◌, ◌≤◌, ◌<◌, ◌≡◌, refl, ap, ◌∙◌, sym, arith, some, List, [], ◌∷◌, ◌++◌, Bytes,
  length, append_assoc, length-append, length-splice, take-append_exact, >>=-eq-some, take, splice,
}
use libfixc.Message.{Fld, Msg}
use libfixc.Message.Tag
use libfixc.Storage.{round_up}
use libfixc.Number.{decimal}
use libfixc.Number.Decimal.{length-decimal}
use libfixc.Parse.{soh}
use libfixc.Render.{Drawn, draw, join, close, render_fix}
use libfixc.Render.Field.{value_text, fld_text}
use libfixc.Render.Prefix.{begin-splice, behind-splice}
use libfixc.Render.Body.{texts_of, Tags, length-fld_text, draw_lem}
use libfixc.Render.Join.{join_lem}
use libfixc.Render.Sum.{sum_fld, sum_text, close_lem}

-- What stands in front of the checksum.
unfoldable pub before_sum : Bytes → Bytes → Bytes
before_sum v8 body =
    (fld_text Tag.begin_string v8 ++ (b'9' ∷ b'=' ∷ []))
    ++ (decimal (length body - 1) ++ (soh ∷ body))

texts_of-some :
    (b : Bytes) (f : Fld) (fs : List Fld) (body : Bytes)
    → texts_of b (f ∷ fs) ≡ some body
    → 2 ≤ length body
unfolding texts_of
texts_of-some b f fs body e =
    let (v, e1, e2) = >>=-eq-some (value_text b f) _ e in
    let (rest, e3, e4) = >>=-eq-some (texts_of b fs) _ e2 in
    let same : fld_text f.tag v ++ rest ≡ body = cc in
    omega (arith, ap length same, length-append (fld_text f.tag v) rest, length-fld_text f.tag v)

fld_text-nine : (v : Bytes) → fld_text Tag.body_length v ≡ b'9' ∷ b'=' ∷ (v ++ soh ∷ [])
unfolding fld_text
fld_text-nine v = refl

fld_text-eight : (v : Bytes) → length (fld_text Tag.begin_string v) ≡ length v + 3
unfolding fld_text
fld_text-eight v = omega (arith, length-append v (soh ∷ []))

value_text-retag :
    (b : Bytes) (f : Fld) (t : ℕ) → value_text b (record f { tag = t }) ≡ value_text b f
unfolding value_text
value_text-retag b f t = refl

-- The message as `fixc_render_fix` leaves it.
unfoldable pub rendered : Msg → Bytes → Msg
rendered m xs = record m {
  f8 = record m.f8 { tag = Tag.begin_string };
  f9 = record m.f9 { tag = Tag.body_length };
  f10 = sum_fld xs;
}

module _ (buf : Bytes) (m : Msg) (v8 v9 body : Bytes) (tags : Tags (m.f35 ∷ m.flds))
    (e8 : value_text m.pr m.f8 ≡ some v8) (e9 : value_text m.pr m.f9 ≡ some v9)
    (eb : texts_of m.pr (m.f35 ∷ m.flds) ≡ some body) (short : length body ≤ 100000)
    (room : length v8 + length v9 + length body + 60 ≤ length buf)
    (real : length buf < 2 ^ 60) where
  -- If every field in use has a text, its tag being below 2^16, and all of them from the type on have no more
  -- than 100000 bytes, `fixc_render_fix` into a buffer with sixty bytes to spare (shorter than 2^60) returns:
  -- the buffer begins with the field 8, the length of the body less one as field 9, the body, and the
  -- checksum of all this in three digits, without a SOH behind it but a NUL; the length returned is that of
  -- the text, and the message has got the tags 8 and 9 and the checksum.
  pub render_fix_lem :
      (buf' : Bytes) × (render_fix buf (length buf) m
        ≡ some (
          buf',
          length (before_sum v8 body ++ sum_text (before_sum v8 body)),
          rendered m (before_sum v8 body),
        ))
      × (take (length (before_sum v8 body ++ sum_text (before_sum v8 body)) + 1) buf'
          ≡ (before_sum v8 body ++ sum_text (before_sum v8 body)) ++ 0 ∷ [])
  unfolding render_fix rendered before_sum
  render_fix_lem =
      let t8 = fld_text Tag.begin_string v8 in
      let t9 = fld_text Tag.body_length v9 in
      let m' = record m {
        f8 = record m.f8 { tag = Tag.begin_string };
        f9 = record m.f9 { tag = Tag.body_length };
      } in
      let p = t8 ++ (b'9' ∷ b'=' ∷ []) in
      let q = v9 ++ soh ∷ [] in
      let lenz = round_up (length t9) 8 in
      let totz = round_up (length t8 + lenz) 8 in
      let l8 : length t8 ≡ length v8 + 3 = fld_text-eight v8 in
      let l9 : length t9 ≡ length v9 + 3 =
        ap length (fld_text-nine v9) ∙ omega (arith, length-append v9 (soh ∷ [])) in
      let lp : length p ≡ length t8 + 2 = omega (arith, length-append t8 (b'9' ∷ b'=' ∷ [])) in
      let some_body = texts_of-some m.pr m.f35 m.flds body eb in
      let near : totz ≤ length t8 + length t9 + 14 = omega arith in
      let far : length t8 + lenz ≤ totz = omega arith in
      let eight : 8 ≤ lenz = omega arith in
      let split : t8 ++ t9 ≡ p ++ q = ap (λ l. t8 ++ l) (fld_text-nine v9) ∙ (simp append_assoc) in
      let front = splice buf 0 (p ++ q) in
      let d = splice front totz body in
      let lf : length front ≡ length buf = omega (
        arith,
        length-splice buf 0 (p ++ q) (omega arith),
        length-append p q,
        length-append v9 (soh ∷ []),
      ) in
      let ld : length d ≡ length buf = omega (arith, length-splice front totz body (omega arith)) in
      let made : Bytes → Drawn = λ l. record {
        buf = splice (splice buf 0 l) totz body;
        hdrz = length t8;
        lenz = lenz;
        totz = totz;
        blen = length body;
      } in
      let drawn : draw buf (length buf) m' ≡ some (made (p ++ q)) =
        draw_lem buf m' v8 v9 body (omega arith) (omega arith) tags
          (value_text-retag m.pr m.f8 Tag.begin_string ∙ e8)
          (value_text-retag m.pr m.f9 Tag.body_length ∙ e9) eb (omega arith) real
        ∙ ap (λ l. some (made l)) split in
      let digits = length-decimal (length body - 1) (omega arith) in
      let w = p ++ (decimal (length body - 1) ++ (soh ∷ body)) in
      let lw : length w ≤ length v8 + length body + 11 = omega (
        arith,
        length-append p (decimal (length body - 1) ++ (soh ∷ body)),
        length-append (decimal (length body - 1)) (soh ∷ body),
      ) in
      let joined : join (made (p ++ q)) ≡ some (splice d 0 w, length w) =
        join_lem (made (p ++ q)) p body lp (begin-splice p q buf body totz (omega arith))
          (behind-splice front body totz (omega arith)) refl (omega arith) (omega arith) far
          (omega arith) (omega arith) in
      let closed : close m' (length buf) (splice d 0 w) (length w)
          ≡ some
              (splice d 0 ((w ++ sum_text w) ++ 0 ∷ []), length (w ++ sum_text w), rendered m w) =
        ap (λ n. close m' n (splice d 0 w) (length w)) (sym ld)
        ∙ close_lem m' d w (omega arith) (omega arith) in
      (
        splice d 0 ((w ++ sum_text w) ++ 0 ∷ []),
        rw (drawn, joined, closed),
        take-append_exact ((w ++ sum_text w) ++ 0 ∷ []) _ (length (w ++ sum_text w) + 1)
            (omega (arith, length-append (w ++ sum_text w) (0 ∷ []))),
      )
