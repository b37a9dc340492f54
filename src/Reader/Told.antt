-- ===== src/Reader/Told.antt =====
-- The fields of a message and the items of a FIXML document: when they say the same, and where the texts are.
use libfixc.Base.{
  ℕ, ◌+◌, ◌%◌, ◌^◌, ◌≡◌, ◌≢◌, refl, ap, arith, false, some, List, [], ◌∷◌, ◌++◌, append_assoc,
  Bytes, length, drop, ◌==◌, length-append, drop-append_exact, take-append_exact,
}
use libfixc.Message.{Fld}
use libfixc.Edit.{strlen}
use libfixc.Writer.Nested.{value_of}
use libfixc.Reader.Markup.{Item, item_fld}

-- Texts without a NUL in them.
pub data IsText : Bytes → Type 0 where
  end : IsText []
  next : {c : ℕ} {cs : Bytes} → c ≢ 0 → IsText cs → IsText (c ∷ cs)

pub data AreTexts : List Item → Type 0 where
  no_text : AreTexts []
  next_text : {is : List Item} (i : Item) → IsText i.val → AreTexts is → AreTexts (i ∷ is)

unfoldable pub fields_from : ℕ → List Item → List Fld
fields_from pos [] = []
fields_from pos (i ∷ is) = item_fld i pos ∷ fields_from (pos + (length i.val + 1)) is

unfoldable pub texts : List Item → Bytes
texts [] = []
texts (i ∷ is) = i.val ++ (0 ∷ texts is)

strlen-text : (v r : Bytes) → IsText v → strlen (v ++ 0 ∷ r) ≡ some (length v)
unfolding strlen
strlen-text [] r end = refl
strlen-text (c ∷ cs) r (next c_text t) =
    let inner : (c == 0) ≡ false = ground arith in
    rw (inner, strlen-text cs r t) (ap some (omega arith))

-- Fields that say what the items say: tag, context, number and the text of the value.
pub data Told (b : Bytes) : List Item → List Fld → Type 0 where
  told_none : Told b [] []
  told :
      {is : List Item} {fs : List Fld} (i : Item) (f : Fld)
      → f.tag ≡ i.tag
      → f.tpc ≡ i.ctx % 2 ^ 16
      → f.cnt ≡ i.num % 2 ^ 16
      → value_of b f ≡ some i.val
      → Told b is fs
      → Told b (i ∷ is) (f ∷ fs)

-- Behind some bytes, and in front of others.
value_of-item :
    (before rest : Bytes) (i : Item)
    → IsText i.val
    → value_of (before ++ (i.val ++ 0 ∷ rest)) (item_fld i (length before)) ≡ some i.val
unfolding value_of
value_of-item before rest i t =
    let text : drop (length before) (before ++ (i.val ++ 0 ∷ rest)) ≡ i.val ++ 0 ∷ rest =
      drop-append_exact before (i.val ++ 0 ∷ rest) (length before) refl in
    rw (text, strlen-text i.val rest t, text)
      (ap some (take-append_exact i.val (0 ∷ rest) (length i.val) refl))

pub Told-fields_from :
    (before rest : Bytes) (is : List Item)
    → AreTexts is
    → Told (before ++ (texts is ++ rest)) is (fields_from (length before) is)
unfolding fields_from texts
Told-fields_from before rest [] ts = told_none
Told-fields_from before rest (i ∷ is) (next_text _ t ts) =
    let whole : before ++ ((i.val ++ 0 ∷ texts is) ++ rest)
        ≡ before ++ (i.val ++ 0 ∷ (texts is ++ rest)) =
      ap (λ x. before ++ x) (append_assoc i.val (0 ∷ texts is) rest) in
    let further : before ++ ((i.val ++ 0 ∷ texts is) ++ rest)
        ≡ (before ++ (i.val ++ 0 ∷ [])) ++ (texts is ++ rest) =
      simp append_assoc in
    let size : length before + (length i.val + 1) ≡ length (before ++ (i.val ++ 0 ∷ [])) =
      omega (arith, length-append before (i.val ++ 0 ∷ []), length-append i.val (0 ∷ [])) in
    told i (item_fld i (length before)) refl refl refl
      (rw whole (value_of-item before (texts is ++ rest) i t))
      (rw (further, size) (Told-fields_from (before ++ (i.val ++ 0 ∷ [])) rest is ts))
