-- ===== src/Writer/Nested.antt =====
-- Nested elements with attributes: the text that the FIXML writer of src/fixml-wr.c is to produce, without
-- a buffer.
use libfixc.Base.{
  ℕ, suc, ◌+◌, ◌^◌, ◌≡◌, ◌≤◌, ◌<◌, ◌≢◌, Bool, true, ◌&&◌, not, Option, none, some, List, [], ◌∷◌,
  ◌++◌, Bytes, take, drop, length, ◌==◌, if◌then◌else◌,
}
use libfixc.Message.{Fld, low32, low8, off, msgt_batch}
use libfixc.Message.Typ
use libfixc.Edit.{strlen}
use libfixc.Number.{decimal, signed_decimal, digit}
use libfixc.Engine.{Engine, Sub}
use libfixc.Fixup.{listed}
use libfixc.Writer.States.{name_or, unrendered, State, Wr}
use libfixc.Writer.{tag_name}

-- The text of a field's value, as it is in the message.
unfoldable pub value_of : Bytes → Fld → Option Bytes
unfolding strlen
value_of b fld =
    if fld.typ == Typ.off
    then elim (strlen (drop (off fld) b)) [
      | none ↦ none
      | some n ↦ some (take n (drop (off fld) b))
    ]
    else if fld.typ == Typ.uchar
    then some (digit (low8 fld) 100 ∷ digit (low8 fld) 10 ∷ digit (low8 fld) 1 ∷ [])
    else if fld.typ == Typ.char
    then some (low8 fld ∷ [])
    else if fld.typ == Typ.int
    then some (signed_decimal (2 ^ 31) (low32 fld))
    else some []

abbrev pub attribute : Bytes → Bytes → Bytes
attribute name v = b' ' ∷ name ++ b'=' ∷ b'"' ∷ v ++ b'"' ∷ []

unfoldable pub attr_name : Engine → Fld → Option Bytes
attr_name e f = name_or (e.attr_fixmlify f.tpc f.tag) (b'f' ∷ decimal f.tag)

-- The fields that become attributes, the repeating blocks' counters not being among them.
abbrev pub is_shown : Engine → Fld → Bool
is_shown e f = not (f.tag == e.comp_rptb f.tpc) && not (unrendered f.typ)

abbrev pub shown : Engine → List Fld → List Fld
shown e [] = []
shown e (f ∷ fs) = if is_shown e f then f ∷ shown e fs else shown e fs

module _ (e : Engine) (b : Bytes) where
  -- The attributes of an element of the context `c`.
  pub data Attrs (c : ℕ) : List Fld → Bytes → Type 0 where
    no_attr : Attrs c [] []
    attr :
        {fs : List Fld} {t name v all : Bytes} (f : Fld)
        → Attrs c fs t
        → f.tpc ≡ c
        → attr_name e f ≡ some name
        → value_of b f ≡ some v
        → all ≡ t ++ attribute name v
        → Attrs c (fs ++ f ∷ []) all

  -- A sequence of elements, each with the name of its context, and the fields of its attributes, in the
  -- order of the text.
  pub data Nested : List Fld → Bytes → Type 0 where
    nothing : Nested [] []
    empty_elt :
        {fs gs all : List Fld} {t name a out : Bytes} (c : ℕ)
        → Nested fs t
        → tag_name e c ≡ some name
        → Attrs c gs a
        → all ≡ fs ++ gs
        → out ≡ t ++ b'<' ∷ name ++ a ++ b'/' ∷ b'>' ∷ []
        → Nested all out
    elt :
        {fs gs hs all : List Fld} {t name a body out : Bytes} (c : ℕ)
        → Nested fs t
        → tag_name e c ≡ some name
        → Attrs c gs a
        → Nested hs body
        → all ≡ fs ++ gs ++ hs
        → out ≡ t ++ b'<' ∷ name ++ a ++ b'>' ∷ body ++ b'<' ∷ b'/' ∷ name ++ b'>' ∷ []
        → Nested all out

-- A context that an element can have.
pub record IsCtx (c : ℕ) : Type 0 where
  pub nonzero : c ≢ 0
  pub short : c < 2 ^ 16
  pub single : c ≢ msgt_batch

-- A dictionary that the writer can follow: every question about a component or a name is answered, no
-- component is optimised, and a component's parts have a lower rank, ranks being below 16.
pub record IsTree (e : Engine) (rank : ℕ → ℕ) : Type 0 where
  pub comp_sub : (c : ℕ) → (sub : Sub) × (e.comp_sub c ≡ some sub)
  pub parts :
      (c x : ℕ) {sub : Sub}
      → e.comp_sub c ≡ some sub
      → listed x sub.subs ≡ true
      → (rank x < rank c) × IsCtx x
  pub flat : (c : ℕ) → e.comp_orb c ≡ 0
  pub low : (c : ℕ) → rank c < 16
  pub named : (c : ℕ) → (name : Bytes) × (tag_name e c ≡ some name)
  pub attr_named : (f : Fld) → (name : Bytes) × (attr_name e f ≡ some name)

-- A field whose value can be printed, in a context of its own.
pub record IsPrintable (b : Bytes) (f : Fld) : Type 0 where
  pub ctx : IsCtx f.tpc
  pub value : (v : Bytes) × (value_of b f ≡ some v)

-- The elements that are open, the newest in front, and the fields and the text so far, `hd` being in front of
-- all elements. An element with
-- another one in it has a `cntc` other than 0, and the end of its opening tag has been written.
pub data IsOpen : List State → Type 0 where
  at_root : IsOpen []
  inside : {s : State} {ss : List State} → s.cntc ≢ 0 → IsOpen (s ∷ ss)

pub data Spine (e : Engine) (b hd : Bytes) : List State → List Fld → Bytes → Type 0 where
  grounded :
      {fs : List Fld} {t out : Bytes} → Nested e b fs t → out ≡ hd ++ t → Spine e b hd [] fs out
  fresh :
      {s : State} {ss : List State} {fs gs all : List Fld} {t name a out : Bytes}
      → Spine e b hd ss fs t
      → IsOpen ss
      → s.cntc ≡ 0
      → tag_name e s.osub ≡ some name
      → Attrs e b s.osub gs a
      → all ≡ fs ++ gs
      → out ≡ t ++ b'<' ∷ name ++ a
      → Spine e b hd (s ∷ ss) all out
  filled :
      {s : State} {ss : List State} {fs gs hs all : List Fld} {t name a body out : Bytes}
      → Spine e b hd ss fs t
      → IsOpen ss
      → s.cntc ≢ 0
      → tag_name e s.osub ≡ some name
      → Attrs e b s.osub gs a
      → Nested e b hs body
      → all ≡ fs ++ gs ++ hs
      → out ≡ t ++ b'<' ∷ name ++ a ++ b'>' ∷ body
      → Spine e b hd (s ∷ ss) all out

-- The open elements have falling ranks from the outermost on, and no more than `k` elements each.
pub data Levels (rank : ℕ → ℕ) (k : ℕ) : List State → Type 0 where
  none_open : Levels rank k []
  level :
      {s : State} {ss : List State}
      → rank s.osub + suc (length ss) ≤ 16
      → IsCtx s.osub
      → s.cntc ≤ k
      → Levels rank k ss
      → Levels rank k (s ∷ ss)

-- What is kept between the writer's steps.
pub record IsSound (e : Engine) (b hd : Bytes) (rank : ℕ → ℕ) (k : ℕ) (fs : List Fld) (w : Wr)
    : Type 0 where
  pub text : Spine e b hd w.states fs w.out
  pub levels : Levels rank k w.states
  pub pooled : w.free + length w.states ≡ 16
