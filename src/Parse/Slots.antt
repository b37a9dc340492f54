-- ===== src/Parse/Slots.antt =====
-- The fields of a message that was read: which slots it has, and what texts they point at.
use libfixc.Base.{
  ℕ, ◌+◌, ◌*◌, ◌≤◌, ◌<◌, ◌^◌, ◌≡◌, refl, ap, ◌∙◌, sym, arith, Bool, ◌||◌, some, List, [], ◌∷◌, ◌++◌,
  append_assoc, append-nil, Bytes, length, length-append, drop, drop-append_exact, ◌==◌,
  if◌then◌else◌, Bool-cases, inl, inr,
}
use libfixc.Message.{Fld, Msg, nflds, fld_zero}
use libfixc.Message.Tag
use libfixc.Number.{strtoui16}
use libfixc.Parse.{parse_tag, soh, from_fix_husk, from_fix}
use libfixc.Parse.Pairs.{Pair, encode, nulled, Free, absorb, absorb_all}
use libfixc.Parse.Loop.{AllClean}
use libfixc.Parse.Message.{message, from_fix-message, absorb_sum, fspc-absorb_all, nflds-absorb_all}

-- The tags that have a place of their own in a message, and 0, which is none.
unfoldable pub is_apart : ℕ → Bool
is_apart t =
    t == Tag.begin_string
    || (t == Tag.body_length || (t == Tag.check_sum || (t == Tag.msg_type || t == Tag.unk)))

-- The slots that the pairs take, the first pair's tag being at `pos`.
unfoldable pub slots : ℕ → List Pair → List Fld
slots pos [] = []
slots pos (p ∷ ps) =
    let others = slots (pos + length p.k + 1 + length p.v + 1) ps in
    if is_apart (strtoui16 p.k)
    then others
    else record fld_zero { tag = strtoui16 p.k; val = pos + length p.k + 1 } ∷ others

-- The values of the pairs with a slot.
unfoldable pub values : List Pair → List Bytes
values [] = []
values (p ∷ ps) =
    let others = values ps in if is_apart (strtoui16 p.k) then others else p.v ∷ others

-- The C string that a text starts with.
unfoldable pub cstring : Bytes → Bytes
cstring [] = []
cstring (c ∷ cs) = let behind = cstring cs in if c == 0 then [] else c ∷ behind

-- The C strings that fields point at.
unfoldable pub texts : Bytes → List Fld → List Bytes
texts pr [] = []
texts pr (f ∷ fs) = cstring (drop f.val pr) ∷ texts pr fs

flds-absorb :
    (m : Msg) (pos : ℕ) (p : Pair)
    → (absorb m pos p).flds ≡ (
        if is_apart (strtoui16 p.k)
        then m.flds
        else m.flds ++ record fld_zero { tag = strtoui16 p.k; val = pos + length p.k + 1 } ∷ [])
unfolding absorb parse_tag is_apart
flds-absorb m pos p = ground arith

pub flds-absorb_all :
    (m : Msg) (pos : ℕ) (ps : List Pair) → (absorb_all m pos ps).flds ≡ m.flds ++ slots pos ps
unfolding absorb_all slots
flds-absorb_all m pos [] = sym (append-nil m.flds)
flds-absorb_all m pos (p ∷ ps) =
    let next = pos + length p.k + 1 + length p.v + 1 in
    let slot : Fld = record fld_zero { tag = strtoui16 p.k; val = pos + length p.k + 1 } in
    elim (Bool-cases (is_apart (strtoui16 p.k))) [
      | inl e ↦ rw e (
          flds-absorb_all (absorb m pos p) next ps
          ∙ ap (λ l. l ++ slots next ps) (rw (flds-absorb m pos p, e)))
      | inr e ↦
          let here : (absorb m pos p).flds ≡ m.flds ++ slot ∷ [] =
            flds-absorb m pos p ∙ ap (λ b. if b then m.flds else m.flds ++ slot ∷ []) e in
          rw e (
            flds-absorb_all (absorb m pos p) next ps
            ∙ ap (λ l. l ++ slots next ps) here
            ∙ append_assoc m.flds (slot ∷ []) (slots next ps))
    ]

cstring-nul : (v behind : Bytes) → Free 0 v → cstring (v ++ (0 ∷ behind)) ≡ v
unfolding cstring
cstring-nul [] behind h = refl
cstring-nul (c ∷ v) behind h = rw (h.0, cstring-nul v behind h.1)

-- No NUL in the values.
pub data AllText : List Pair → Type 0 where
  text_end : AllText []
  text_pair : {p : Pair} {ps : List Pair} → Free 0 p.v → AllText ps → AllText (p ∷ ps)

-- A field points at its pair's value, wherever the pairs stand.
texts-slots :
    (pre : Bytes) (ps : List Pair) (tail : Bytes)
    → AllText ps
    → texts (pre ++ (nulled ps ++ tail)) (slots (length pre) ps) ≡ values ps
unfolding texts slots values nulled
texts-slots pre [] tail text_end = refl
texts-slots pre (p ∷ ps) tail (text_pair h hs) =
    let k = p.k ++ 0 ∷ [] in
    let v = p.v ++ 0 ∷ [] in
    let next = (pre ++ k) ++ v in
    let size : length next ≡ length pre + length p.k + 1 + length p.v + 1 = omega (
      arith,
      length-append (pre ++ k) v,
      length-append pre k,
      length-append p.k (0 ∷ []),
      length-append p.v (0 ∷ []),
    ) in
    let whole : pre ++ ((k ++ (v ++ nulled ps)) ++ tail) ≡ next ++ (nulled ps ++ tail) =
      (simp append_assoc) in
    let rest : texts (pre ++ ((k ++ (v ++ nulled ps)) ++ tail))
          (slots (length pre + length p.k + 1 + length p.v + 1) ps)
        ≡ values ps =
      rw (whole, sym size) (texts-slots next ps tail hs) in
    let front : cstring
          (drop (length pre + length p.k + 1) (pre ++ ((k ++ (v ++ nulled ps)) ++ tail)))
        ≡ p.v =
      rw (
        whole,
        append_assoc (pre ++ k) v (nulled ps ++ tail),
        drop-append_exact (pre ++ k) (v ++ (nulled ps ++ tail)) (length pre + length p.k + 1)
            (omega (arith, length-append pre k, length-append p.k (0 ∷ []))),
        append_assoc p.v (0 ∷ []) (nulled ps ++ tail),
        cstring-nul p.v (nulled ps ++ tail) h,
      ) in
    elim (Bool-cases (is_apart (strtoui16 p.k))) [
      | inl e ↦ rw (e, rest)
      | inr e ↦ rw (e, rest, front)
    ]

-- Two bytes at least, a tag and a value, in every pair.
pub data AllFull : List Pair → Type 0 where
  full_end : AllFull []
  full_pair :
      {p : Pair} {ps : List Pair} → 1 ≤ length p.k → 1 ≤ length p.v → AllFull ps → AllFull (p ∷ ps)

full-encode :
    (ps : List Pair) (tail : Bytes)
    → AllFull ps
    → 4 * length ps + length tail ≤ length (encode ps tail)
unfolding encode
full-encode [] tail full_end = omega arith
full-encode (p ∷ ps) tail (full_pair k v hs) = omega (
  arith,
  full-encode ps tail hs,
  length-append p.k (b'=' ∷ (p.v ++ (soh ∷ encode ps tail))),
  length-append p.v (soh ∷ encode ps tail),
)

-- A slot for every four bytes is enough.
enough_slots :
    (ps : List Pair) (sum : Bytes)
    → AllFull ps
    → length (message ps sum) < 2 ^ 60
    → length ps < (from_fix_husk (length (message ps sum))).fspc
unfolding message from_fix_husk
enough_slots ps sum full short =
    let tail = b'1' ∷ b'0' ∷ b'=' ∷ (sum ++ soh ∷ []) in
    omega (arith, full-encode ps tail full, length-append sum (soh ∷ []))

-- `make_fixc_from_fix` returns a message for pairs and a checksum behind them, if each pair has a tag
-- without `=` and a value without SOH and NUL, neither of them empty, no pair is the version of compressed
-- messages, the checksum has no SOH before its last byte, and the text is shorter than 2^60 bytes: the fields
-- are the pairs' whose tags have no place of their own, in the pairs' order, every field's offset is
-- where the C string of its value starts, and a slot is left behind them.
pub from_fix-slots :
    (ps : List Pair) (sum : Bytes)
    → AllClean ps
    → AllFull ps
    → AllText ps
    → Free soh sum
    → length (message ps sum) < 2 ^ 60
    → (m : Msg) × (from_fix (message ps sum) ≡ some (some m))
      × (m.flds ≡ slots 0 ps)
      × (texts m.pr m.flds ≡ values ps)
      × (nflds m < m.fspc)
unfolding slots from_fix_husk absorb_sum absorb_all
from_fix-slots ps sum clean full text free short =
    let n = length (message ps sum) in
    let husk = from_fix_husk n in
    let enough = enough_slots ps sum full short in
    let read = record (absorb_sum (absorb_all husk 0 ps) sum) {
      pr = nulled ps ++ (b'1' ∷ b'0' ∷ 0 ∷ (sum ++ (soh ∷ 0 ∷ [])));
    } in
    let fields : (absorb_all husk 0 ps).flds ≡ slots 0 ps = flds-absorb_all husk 0 ps in
    (
      read,
      from_fix-message ps sum clean free enough,
      fields,
      ap (texts read.pr) fields
          ∙ texts-slots [] ps (b'1' ∷ b'0' ∷ 0 ∷ (sum ++ (soh ∷ 0 ∷ []))) text,
      omega (arith, nflds-absorb_all husk 0 ps, fspc-absorb_all husk 0 ps),
    )
