-- ===== src/Writer/Ends.antt =====
-- `__render_hdr` and `__render_ftr` of src/fixml-wr.c, in a buffer with room.
use libfixc.Base.{
  ℕ, ◌+◌, ◌≡◌, ◌≤◌, ◌<◌, refl, ap, ◌∙◌, sym, arith, some, [], ◌∷◌, ◌++◌, append_assoc, append-nil,
  Bytes, length, length-append, if◌then◌else◌, Bool-cases, inl, inr,
}
use libfixc.Message.{Msg, msgt_batch}
use libfixc.Version.{codes}
use libfixc.Engine.{Engine}
use libfixc.Writer.States.{uri_of, v_of, is_batch, sputc, sncpy, name_or}
use libfixc.Writer.{fixmlify, tag_name, open_root, close_batch, render_hdr, render_ftr}
use libfixc.Writer.Nested.{attribute}
use libfixc.Writer.Steps.{
  sputc_lem, sncpy_lem, sncpy-sputc, sputc-sputc, named_lem, store_lem, length-attribute,
}
use libfixc.Writer.Elements.{Fits}

-- The beginning of a document, and its end.
abbrev pub start_root : Msg → Bytes
start_root m =
    codes "<?xml version=\"1.0\"?>"
    ++ 10 ∷ codes "<FIXML"
    ++ attribute (codes "xmlns") (uri_of m)
    ++ attribute (codes "v") (v_of m)
    ++ b'>' ∷ []

abbrev pub head : Msg → Bytes
head m = start_root m ++ (if is_batch m then codes "<Batch>" else [])

abbrev pub foot : Msg → Bytes
foot m = (if is_batch m then codes "</Batch>" else []) ++ (codes "</FIXML>" ++ 10 ∷ [])

module _ (e : Engine) where
  batch_name : tag_name e msgt_batch ≡ some (codes "Batch")
  unfolding tag_name name_or
  batch_name = refl

  open_root-start_root :
      (m : Msg) (cap : ℕ)
      → length (start_root m) + 1 < cap
      → open_root e cap m ≡ some (start_root m)
  unfolding open_root
  open_root-start_root m cap room =
      let t1 = codes "<?xml version=\"1.0\"?>" in
      let t2 = t1 ++ 10 ∷ [] in
      let t3 = t2 ++ b'<' ∷ codes "FIXML" in
      let t4 = t3 ++ attribute (codes "xmlns") (uri_of m) in
      let t5 = t4 ++ attribute (codes "v") (v_of m) in
      let n4 = length-append t3 (attribute (codes "xmlns") (uri_of m)) in
      let n5 = length-append t4 (attribute (codes "v") (v_of m)) in
      let n6 = length-append t5 (b'>' ∷ []) in
      let m4 = length-attribute (codes "xmlns") (uri_of m) in
      let m5 = length-attribute (codes "v") (v_of m) in
      rw
        (
          sncpy_lem cap t1 [] (omega arith),
          store_lem cap 10 t1 (omega arith),
          sncpy-sputc cap b'<' (codes "FIXML") t2 (omega arith),
          named_lem cap (codes "xmlns") (uri_of m) t3 (omega arith),
          named_lem cap (codes "v") (v_of m) t4 (omega arith),
          sputc_lem cap b'>' t5 (omega arith),
        )
        refl

  pub render_hdr_lem : (m : Msg) → Fits (head m) (λ cap. render_hdr e cap m) (head m)
  unfolding render_hdr fixmlify
  render_hdr_lem m cap room few =
      let root = open_root-start_root m cap in
      elim (Bool-cases (is_batch m)) [
        | inl t ↦
            let n = length-append (start_root m) (codes "<Batch>") in
            let n' = length-append (start_root m) (codes "<Batch") in
            let room' : length (start_root m ++ codes "<Batch>") + 2 ≤ cap = rw t at room in
            rw
              (
                root (omega arith),
                t,
                batch_name,
                sncpy-sputc cap b'<' (codes "Batch") (start_root m) (omega arith),
                sputc_lem cap b'>' (start_root m ++ codes "<Batch") (omega arith),
              )
              (ap some (append_assoc (start_root m) (codes "<Batch") (b'>' ∷ [])))
        | inr t ↦
            let room' : length (start_root m ++ []) + 2 ≤ cap = rw t at room in
            let n = append-nil (start_root m) in
            rw (root (omega (arith, ap length n)), t) (ap some (sym n))
      ]

  -- The end of an element by its name.
  close_name :
      (cap : ℕ) (name out : Bytes)
      → length out + length name + 4 < cap
      → (sncpy cap name (sputc cap b'/' (sputc cap b'<' out)) ≡ some (out ++ b'<' ∷ b'/' ∷ name))
        × (sputc cap b'>' (out ++ b'<' ∷ b'/' ∷ name) ≡ out ++ (b'<' ∷ b'/' ∷ name ++ b'>' ∷ []))
  close_name cap name out room =
      let lt = out ++ b'<' ∷ b'/' ∷ [] in
      let n1 = length-append out (b'<' ∷ b'/' ∷ []) in
      let n2 = length-append out (b'<' ∷ b'/' ∷ name) in
      (
        rw (sputc-sputc cap b'<' b'/' out (omega arith), sncpy_lem cap name lt (omega arith))
            (ap some (append_assoc out (b'<' ∷ b'/' ∷ []) name)),
        sputc_lem cap b'>' (out ++ b'<' ∷ b'/' ∷ name) (omega arith)
            ∙ append_assoc out (b'<' ∷ b'/' ∷ name) (b'>' ∷ []),
      )

  end_batch : Msg → Bytes
  end_batch m = if is_batch m then codes "</Batch>" else []

  close_batch_lem :
      (m : Msg) (cap : ℕ) (out : Bytes)
      → length (out ++ end_batch m) + 1 < cap
      → close_batch e cap m out ≡ some (out ++ end_batch m)
  unfolding close_batch fixmlify end_batch
  close_batch_lem m cap out room = elim (Bool-cases (is_batch m)) [
    | inl t ↦
        let room' : length (out ++ codes "</Batch>") + 1 < cap = rw t at room in
        let n = length-append out (codes "</Batch>") in
        let (p, q) = close_name cap (codes "Batch") out (omega arith) in
        rw (t, batch_name, p, q) refl
    | inr t ↦ rw t (ap some (sym (append-nil out)))
  ]

  pub render_ftr_lem :
      (m : Msg) (out : Bytes) → Fits (out ++ foot m) (λ cap. render_ftr e cap m out) (out ++ foot m)
  unfolding render_ftr end_batch
  render_ftr_lem m out cap room few =
      let out1 = out ++ end_batch m in
      let tail = codes "</FIXML>" ++ 10 ∷ [] in
      let whole : out1 ++ tail ≡ out ++ foot m = append_assoc out (end_batch m) tail in
      let n = ap length whole in
      let n1 = length-append out1 tail in
      let n2 = length-append out1 (codes "</FIXML>") in
      let (p, q) = close_name cap (codes "FIXML") out1 (omega arith) in
      rw
        (
          close_batch_lem m cap out (omega arith),
          p,
          q,
          sputc_lem cap 10 (out1 ++ codes "</FIXML>") (omega arith),
        )
        (ap some (append_assoc out1 (codes "</FIXML>") (10 ∷ []) ∙ whole))
