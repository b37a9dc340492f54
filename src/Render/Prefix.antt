-- ===== src/Render/Prefix.antt =====
-- Texts with which a buffer begins, and what stores leave of them.
use libfixc.Base.{
  ℕ, zero, suc, ◌+◌, ◌-◌, ◌≤◌, ◌<◌, ◌≡◌, refl, ap, ◌∙◌, sym, arith, false, some, [], ◌∷◌, ◌++◌,
  Bytes, length, append_assoc, length-take, take-append_exact, drop-append_exact, take-append-drop,
  take, drop, splice, ◌==◌,
}
use libfixc.Render.{write}
use libfixc.Render.Store.{drop_add, drop_past, write_more}

pub zero_add : (n : ℕ) → 0 + n ≡ n
zero_add n = omega arith

pub not_zero : (n : ℕ) → 0 < n → (n == 0) ≡ false
not_zero n h = ground arith

-- A buffer that begins with `p` is what a store of `p` at its start leaves.
pub splice_self : (buf p : Bytes) → take (length p) buf ≡ p → splice buf 0 p ≡ buf
splice_self buf p e =
    ap (λ i. p ++ drop i buf) (zero_add (length p))
    ∙ ap (λ l. l ++ drop (length p) buf) (sym e)
    ∙ take-append-drop (length p) buf

pub drop-splice : (buf w : Bytes) (n : ℕ) → length w ≤ n → drop n (splice buf 0 w) ≡ drop n buf
drop-splice buf w n le =
    let more : length w + (n - length w) ≡ n = omega arith in
    ap (λ i. drop n (w ++ drop i buf)) (zero_add (length w))
    ∙ drop_past w (drop (length w) buf) n le
    ∙ sym (drop_add (length w) (n - length w) buf)
    ∙ ap (λ i. drop i buf) more

-- A store behind `xs`, with which the buffer begins.
pub write_at :
    (buf xs zs ys : Bytes) (n : ℕ)
    → n ≡ length xs
    → length zs ≤ length ys
    → length xs + length ys ≤ length buf
    → write (splice buf 0 (xs ++ zs)) n ys ≡ some (splice buf 0 (xs ++ ys))
write_at buf xs zs ys n e more inside =
    ap (λ i. write (splice buf 0 (xs ++ zs)) i ys) (e ∙ sym (zero_add (length xs)))
    ∙ write_more buf 0 xs zs ys more (omega arith)

pub take_past :
    (xs ys : Bytes) (n : ℕ) → length xs ≤ n → take n (xs ++ ys) ≡ xs ++ take (n - length xs) ys
take_past [] ys n h = let e : n ≡ n - 0 = omega arith in ap (λ i. take i ys) e
take_past (x ∷ xs) ys zero h = absurd (omega arith)
take_past (x ∷ xs) ys (suc n) h =
    let e : n - length xs ≡ suc n - suc (length xs) = omega arith in
    ap (λ l. x ∷ l) (take_past xs ys n (omega arith) ∙ ap (λ i. xs ++ take i ys) e)

-- Two stores, the second behind a part of the first: that part stays in front, and the second is where
-- it was stored.
pub begin-splice :
    (p q buf body : Bytes) (n : ℕ)
    → length p ≤ n
    → take (length p) (splice (splice buf 0 (p ++ q)) n body) ≡ p
begin-splice p q buf body n le =
    let d = drop (0 + length (p ++ q)) buf in
    let front = take_past p (q ++ d) n le in
    ap (λ l. take (length p) (take n l ++ (body ++ drop (n + length body) ((p ++ q) ++ d))))
      (append_assoc p q d)
    ∙ ap (λ l. take (length p) (l ++ (body ++ drop (n + length body) ((p ++ q) ++ d)))) front
    ∙ ap (take (length p)) (append_assoc p (take (n - length p) (q ++ d)) _)
    ∙ take-append_exact p _ (length p) refl

pub behind-splice :
    (buf body : Bytes) (n : ℕ)
    → n ≤ length buf
    → take (length body) (drop n (splice buf n body)) ≡ body
behind-splice buf body n le =
    ap (take (length body)) (
      drop-append_exact (take n buf) (body ++ drop (n + length body) buf) n
        (omega (arith, length-take n buf)))
    ∙ take-append_exact body _ (length body) refl
