-- ===== src/Parse/Pairs.antt =====
-- FIX text as a sequence of pairs, `tag=value` with a SOH behind each, and what the code makes of a pair.
use libfixc.Base.{
  ℕ, ◌+◌, ◌≤◌, ◌≡◌, refl, arith, true, false, ◌&&◌, Option, none, some, List, [], ◌∷◌, ◌++◌, Bytes,
  length, ◌==◌, take-append_exact, length-append,
}
use libfixc.Message.{Fld, Msg, low32, nflds}
use libfixc.Message.Tag
use libfixc.Number.{strtoui16, strtol-nul}
use libfixc.Version
use libfixc.Version.{unk}
use libfixc.Parse.{parse_tag, byte_at, parse_mtyp, ver_of, parse_fld, until, soh}

pub record Pair : Type 0 where
  pub k : Bytes
  pub v : Bytes

-- The text of the pairs, with `tail` behind it.
unfoldable pub encode : List Pair → Bytes → Bytes
encode [] tail = tail
encode (p ∷ ps) tail = p.k ++ (b'=' ∷ (p.v ++ (soh ∷ encode ps tail)))

-- The same text with a NUL for each delimiter.
unfoldable pub nulled : List Pair → Bytes
nulled [] = []
nulled (p ∷ ps) = (p.k ++ 0 ∷ []) ++ ((p.v ++ 0 ∷ []) ++ nulled ps)

-- No byte is `d`.
abbrev pub Free : ℕ → Bytes → Type 0
Free d [] = Unit
Free d (c ∷ cs) = ((c == d) ≡ false) × Free d cs

pub until-Free :
    (d : ℕ) (xs : Bytes) (y : ℕ) (ys : Bytes)
    → Free d xs
    → until d (xs ++ (d ∷ y ∷ ys)) ≡ some (xs, y ∷ ys)
unfolding until
until-Free d [] y ys h = ground arith
until-Free d (x ∷ []) y ys h = let self : (d == d) ≡ true = ground arith in rw (h.0, self)
until-Free d (x ∷ x' ∷ xs) y ys h = rw (h.0, until-Free d (x' ∷ xs) y ys h.1)

pub until-end : (d : ℕ) (xs : Bytes) → Free d xs → until d xs ≡ none
unfolding until
until-end d [] h = refl
until-end d (x ∷ []) h = refl
until-end d (x ∷ x' ∷ xs) h = rw (h.0, until-end d (x' ∷ xs) h.1)

-- A pair that the reader takes as one: no `=` in the tag, no SOH in the value; and it does not say that
-- the message is compressed.
pub record IsClean (p : Pair) : Type 0 where
  pub tag_free : Free b'=' p.k
  pub val_free : Free soh p.v
  pub not_comp :
      (strtoui16 p.k == Tag.begin_string && ver_of (Version.fix_verify p.v) == 10) ≡ false

-- What a message becomes by a pair whose tag starts at `pos`.
unfoldable pub absorb : Msg → ℕ → Pair → Msg
unfolding parse_fld
absorb m pos p = parse_fld m (parse_tag p.k) (pos + length p.k + 1) (p.v ++ 0 ∷ []) (length p.v)

unfoldable pub absorb_all : Msg → ℕ → List Pair → Msg
absorb_all m pos [] = m
absorb_all m pos (p ∷ ps) = absorb_all (absorb m pos p) (pos + length p.k + 1 + length p.v + 1) ps

byte_at-behind : (v behind : Bytes) → byte_at (v ++ (0 ∷ behind)) 0 ≡ byte_at (v ++ 0 ∷ []) 0
byte_at-behind [] behind = refl
byte_at-behind (x ∷ v) behind = refl

parse_mtyp-behind :
    (v behind : Bytes)
    → parse_mtyp (v ++ (0 ∷ behind)) (length v) ≡ parse_mtyp (v ++ 0 ∷ []) (length v)
unfolding parse_mtyp
parse_mtyp-behind [] behind = refl
parse_mtyp-behind (x ∷ []) behind = refl
parse_mtyp-behind (x ∷ y ∷ []) behind = refl
parse_mtyp-behind (x ∷ y ∷ z ∷ v) behind = ground arith

-- What stands behind a value and its NUL makes no difference.
pub parse_fld-behind :
    (m : Msg) (cur : Fld) (pos : ℕ) (v behind : Bytes)
    → parse_fld m cur pos (v ++ (0 ∷ behind)) (length v)
      ≡ parse_fld m cur pos (v ++ 0 ∷ []) (length v)
unfolding parse_fld
parse_fld-behind m cur pos v behind = rw (
  take-append_exact v (0 ∷ behind) (length v) refl,
  take-append_exact v (0 ∷ []) (length v) refl,
  strtol-nul v behind,
  byte_at-behind v behind,
  parse_mtyp-behind v behind,
)

-- A pair takes one slot at most.
pub nflds-absorb : (m : Msg) (pos : ℕ) (p : Pair) → nflds (absorb m pos p) ≤ nflds m + 1
unfolding absorb
nflds-absorb m pos p =
    ground
      (arith, length-append m.flds (record (parse_tag p.k) { val = pos + length p.k + 1 } ∷ []))

pub fspc-absorb : (m : Msg) (pos : ℕ) (p : Pair) → (absorb m pos p).fspc ≡ m.fspc
unfolding absorb
fspc-absorb m pos p = ground arith

number-le : (v : Version.Ver) → Version.number v ≤ 10
unfolding Version.number
number-le unk = omega arith
number-le _ = omega arith

ver_of-le : (o : Option Version.Ver) → ver_of o ≤ 10
ver_of-le none = omega arith
ver_of-le (some v) = number-le v

-- A clean pair makes no message a compressed one.
pub comp-absorb :
    (m : Msg) (pos : ℕ) (p : Pair)
    → IsClean p
    → (low32 m.f8 == 10) ≡ false
    → (low32 (absorb m pos p).f8 == 10) ≡ false
unfolding absorb parse_tag
comp-absorb m pos p clean h = ground (
  arith,
  clean.not_comp,
  take-append_exact p.v (0 ∷ []) (length p.v) refl,
  ver_of-le (Version.fix_verify p.v),
)
