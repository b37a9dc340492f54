-- ===== src/Writer/Spine.antt =====
-- The elements that are open, when one is opened or closed, or gets an attribute: the writer of
-- src/fixml-wr.c on the level of its texts.
use libfixc.Base.{
  ℕ, ◌+◌, ◌%◌, ◌^◌, ◌≡◌, ◌<◌, ◌≢◌, refl, ◌∙◌, arith, true, false, some, List, [], ◌∷◌, ◌++◌,
  append_assoc, append-nil, Bytes, ◌==◌, if◌then◌else◌,
}
use libfixc.Message.{Fld}
use libfixc.Engine.{Engine}
use libfixc.Writer.States.{State}
use libfixc.Writer.{tag_name}
use libfixc.Writer.Nested.{
  value_of, attribute, attr_name, attr, Nested, nothing, empty_elt, elt, IsOpen, inside, Spine,
  grounded, fresh, filled,
}

-- What is written before the first element in an element, and where an element ends.
abbrev pub opening : State → Bytes
opening s = if s.cntc == 0 then b'>' ∷ [] else []

abbrev pub closing : Bytes → State → Bytes
closing name s = if s.cntc == 0 then b'/' ∷ b'>' ∷ [] else b'<' ∷ b'/' ∷ name ++ b'>' ∷ []

abbrev pub counted : State → State
counted s = record s { cntc = (s.cntc + 1) % 2 ^ 16 }

module _ (e : Engine) (b hd : Bytes) where
  pub Spine-opening :
      {s : State} {ss : List State} {fs : List Fld} {t : Bytes}
      → s.cntc + 1 < 2 ^ 16
      → Spine e b hd (s ∷ ss) fs t
      → Spine e b hd (counted s ∷ ss) fs (t ++ opening s) × IsOpen (counted s ∷ ss)
  Spine-opening {s} few (fresh sp into z name ats all out) =
      let nz : (s.cntc + 1) % 2 ^ 16 ≢ 0 = omega arith in
      let f : (s.cntc == 0) ≡ true = ground arith in
      rw f (
        filled sp into nz name ats nothing (rw all (simp append-nil)) (rw out (simp append_assoc)),
        inside nz,
      )
  Spine-opening {s} few (filled sp into nz name ats body all out) =
      let nz' : (s.cntc + 1) % 2 ^ 16 ≢ 0 = omega arith in
      let f : (s.cntc == 0) ≡ false = ground arith in
      rw f (filled sp into nz' name ats body all (rw out (simp append-nil)), inside nz')

  -- What can be put behind any sequence of elements.
  IsNext : List Fld → Bytes → Type 0
  IsNext gs x = (fs : List Fld) (t : Bytes) → Nested e b fs t → Nested e b (fs ++ gs) (t ++ x)

  Spine-next :
      (gs : List Fld) (x : Bytes) {ss : List State} {fs : List Fld} {t : Bytes}
      → IsNext gs x
      → IsOpen ss
      → Spine e b hd ss fs t
      → Spine e b hd ss (fs ++ gs) (t ++ x)
  unfolding IsNext
  Spine-next gs x next into (grounded n out) = grounded (next _ _ n) (rw out (append_assoc hd _ x))
  Spine-next gs x next (inside nz) (fresh sp into z name ats all out) = absurd (nz z)
  Spine-next gs x next into (filled sp into' nz name ats body all out) =
      filled sp into' nz name ats (next _ _ body) (rw all (simp append_assoc))
        (rw out (simp append_assoc))

  pub Spine-along :
      {ss : List State} {fs gs : List Fld} {t x : Bytes}
      → gs ≡ fs
      → x ≡ t
      → Spine e b hd ss fs t
      → Spine e b hd ss gs x
  Spine-along same same' sp = rw (same, same') sp

  pub Spine-closing :
      {s : State} {ss : List State} {fs : List Fld} {t : Bytes}
      → Spine e b hd (s ∷ ss) fs t
      → (name : Bytes) × (tag_name e s.osub ≡ some name) × Spine e b hd ss fs (t ++ closing name s)
  unfolding IsNext
  Spine-closing {s} (fresh {gs = gs} {name = name} {a = a} sp into z is ats all out) =
      let next : IsNext gs (b'<' ∷ name ++ a ++ b'/' ∷ b'>' ∷ []) =
        λ fs t n. empty_elt s.osub n is ats refl (simp append_assoc) in
      let f : (s.cntc == 0) ≡ true = ground arith in
      (name, is, Spine-along all (rw (f, out) (simp append_assoc)) (Spine-next gs _ next into sp))
  Spine-closing {s}
        (filled {gs = gs} {hs = hs} {name = name} {a = a} {body = body} sp into nz is ats n all
          out) =
      let next : IsNext (gs ++ hs)
          (b'<' ∷ name ++ a ++ b'>' ∷ body ++ b'<' ∷ b'/' ∷ name ++ b'>' ∷ []) =
        λ fs t m. elt s.osub m is ats n (simp append_assoc) (simp append_assoc) in
      let f : (s.cntc == 0) ≡ false = ground arith in
      (
        name,
        is,
        Spine-along (all ∙ append_assoc _ gs hs) (rw (f, out) (simp append_assoc))
            (Spine-next (gs ++ hs) _ next into sp),
      )

  pub Spine-attribute :
      {s : State} {ss : List State} {fs : List Fld} {t name v : Bytes} (f : Fld) (n : ℕ)
      → Spine e b hd (s ∷ ss) fs t
      → s.cntc ≡ 0
      → f.tpc ≡ s.osub
      → attr_name e f ≡ some name
      → value_of b f ≡ some v
      → Spine e b hd (record s { cnta = n } ∷ ss) (fs ++ f ∷ []) (t ++ attribute name v)
  Spine-attribute f n (fresh sp into z is ats all out) z' c en ev =
      fresh sp into z is (attr f ats c en ev refl) (rw all (simp append_assoc))
        (rw out (simp append_assoc))
  Spine-attribute f n (filled sp into nz is ats body all out) z c en ev = absurd (nz z)
