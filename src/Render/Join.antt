-- ===== src/Render/Join.antt =====
-- The second part of `fixc_render_fix`: the length goes in front of the body.
use libfixc.Base.{
  ◌+◌, ◌-◌, ◌^◌, ◌≤◌, ◌<◌, ◌≡◌, ap, ◌∙◌, sym, arith, false, some, [], ◌∷◌, ◌++◌, Bytes, length,
  append_assoc, append-nil, length-append, take_all, take, drop, splice, ◌==◌,
}
use libfixc.Number.{decimal}
use libfixc.Parse.{soh}
use libfixc.Render.{write, sub_size, snprintf, Drawn, join}
use libfixc.Render.Prefix.{not_zero, splice_self, drop-splice, write_at}

-- The length and the body behind the begin of a message, `p` being all of it up to the length's digits.
pub join_lem :
    (d : Drawn) (p body : Bytes)
    → length p ≡ d.hdrz + 2
    → take (length p) d.buf ≡ p
    → take d.blen (drop d.totz d.buf) ≡ body
    → length body ≡ d.blen
    → 0 < d.blen
    → length (decimal (length body - 1)) + 3 ≤ d.lenz
    → d.hdrz + d.lenz ≤ d.totz
    → d.totz + d.blen ≤ length d.buf
    → length d.buf < 2 ^ 64
    → (let w = p ++ (decimal (length body - 1) ++ (soh ∷ body)) in
        join d ≡ some (splice d.buf 0 w, length w))
unfolding join snprintf
join_lem d p body np ep eb nb some_body digits_fit front_fit body_fit real =
    let digits = decimal (length body - 1) in
    let n1 : sub_size d.blen 1 ≡ length body - 1 = omega arith in
    let n2 : sub_size d.lenz 1 ≡ d.lenz - 1 = omega arith in
    let some_room : (d.lenz - 1 == 0) ≡ false = not_zero (d.lenz - 1) (omega arith) in
    let whole : take (d.lenz - 1 - 1) digits ≡ digits =
      take_all digits (d.lenz - 1 - 1) (omega arith) in
    let w1 = p ++ digits in
    let w2 = w1 ++ soh ∷ [] in
    let l1 : length w1 ≡ length p + length digits = length-append p digits in
    let l2 : length w2 ≡ length p + length digits + 1 =
      omega (arith, length-append w1 (soh ∷ []), l1) in
    let begun : write d.buf (d.hdrz + 2) (digits ++ 0 ∷ [])
        ≡ write (splice d.buf 0 (p ++ [])) (d.hdrz + 2) (digits ++ 0 ∷ []) =
      ap (λ l. write l (d.hdrz + 2) (digits ++ 0 ∷ []))
        (sym (splice_self d.buf p ep) ∙ ap (splice d.buf 0) (sym (append-nil p))) in
    let s1 : write d.buf (d.hdrz + 2) (digits ++ 0 ∷ []) ≡ some (splice d.buf 0 (w1 ++ 0 ∷ [])) =
      begun
      ∙ write_at d.buf p [] (digits ++ 0 ∷ []) (d.hdrz + 2) (sym np) (omega arith)
          (omega (arith, length-append digits (0 ∷ [])))
      ∙ ap (λ l. some (splice d.buf 0 l)) (sym (append_assoc p digits (0 ∷ []))) in
    let s2 : write (splice d.buf 0 (w1 ++ 0 ∷ [])) (d.hdrz + 2 + length digits) (soh ∷ [])
        ≡ some (splice d.buf 0 w2) =
      write_at d.buf w1 (0 ∷ []) (soh ∷ []) (d.hdrz + 2 + length digits) (omega (arith, l1, np))
        (omega arith) (omega (arith, l1, np)) in
    let moved : take d.blen (drop d.totz (splice d.buf 0 w2)) ≡ body =
      ap (take d.blen) (drop-splice d.buf w2 d.totz (omega (arith, l2, np))) ∙ eb in
    let s3 : write (splice d.buf 0 w2) (d.hdrz + 2 + length digits + 1) body
        ≡ some (splice d.buf 0 (w2 ++ body)) =
      ap (λ l. write (splice d.buf 0 l) (d.hdrz + 2 + length digits + 1) body) (sym (append-nil w2))
      ∙ write_at d.buf w2 [] body (d.hdrz + 2 + length digits + 1) (omega (arith, l2, np))
          (omega arith) (omega (arith, l2, np, nb)) in
    let all : w2 ++ body ≡ p ++ (digits ++ (soh ∷ body)) = (simp append_assoc) in
    let count : d.hdrz + 2 + length digits + 1 + d.blen ≡ length (w2 ++ body) =
      omega (arith, length-append w2 body, l2, np, nb) in
    rw (n1, n2, some_room, whole, s1, s2, moved, s3)
      (ap (λ n. some (splice d.buf 0 (w2 ++ body), n)) count
        ∙ ap (λ l. some (splice d.buf 0 l, length l)) all)
