-- ===== src/Fixup/Reasons.antt =====
-- Why `fixc_fixup` of src/fixml-wr.c puts a field in a context, or finds none for it, and how its stack changes
-- while it looks for one.
use libfixc.Base.{ℕ, ◌≡◌, refl, some, List, [], ◌∷◌, ◌==◌, ◌⊎◌, ◌≢◌, if◌then◌else◌}
use libfixc.Message.{Fld, low32}
use libfixc.Message.Tag
use libfixc.Engine.{Engine}
use libfixc.Fixup.Ancestors.{Among, Within, fu_ancest-Within}
use libfixc.Fixup.{Frame, fu_ancest, stand_in}

-- A stack with the message's own context at its bottom.
pub data IsOver (own : ℕ) : List Frame → Type 0 where
  bottom : {top : Frame} → top.ctx ≡ own → IsOver own (top ∷ [])
  higher : {top : Frame} {frames : List Frame} → IsOver own frames → IsOver own (top ∷ frames)

-- The context on top of a stack is not in the field's table.
abbrev pub TopUnlisted : List ℕ → List Frame → Type 0
TopUnlisted fc frames =
    (top : Frame) (below : List Frame) → frames ≡ top ∷ below → ¬ Among top.ctx fc

pub TopUnlisted-cons :
    {fc : List ℕ} (top : Frame) (frames : List Frame)
    → ¬ Among top.ctx fc
    → TopUnlisted fc (top ∷ frames)
TopUnlisted-cons top frames out top' below same =
    let top_same : top ≡ top' = cc in rw (← top_same) out

-- A stack that comes out of another one, which is not empty, by popping and pushing above its bottom.
pub record Lies (frames frames' : List Frame) : Type 0 where
  pub first : Frame
  pub others : List Frame
  pub some_frame : frames ≡ first ∷ others
  pub keeps : (own : ℕ) → IsOver own frames → IsOver own frames'

IsOver-pop :
    {own : ℕ} {top b : Frame} {frames bs : List Frame}
    → frames ≡ b ∷ bs
    → IsOver own (top ∷ frames)
    → IsOver own frames
IsOver-pop some_frame (bottom c) = cc
IsOver-pop some_frame (higher o) = o

pub Lies-pop :
    {frames frames' : List Frame} (top : Frame) → Lies frames frames' → Lies (top ∷ frames) frames'
Lies-pop top l = record {
  first = _;
  others = _;
  some_frame = refl;
  keeps = λ own o. l.keeps own (IsOver-pop l.some_frame o);
}

module _ (e : Engine) where
  -- Why a field stands in a context: the dictionary lists the context for the field's tag, or the field
  -- is a message's type and its own context, or the context is that of the ancestor that `fu_ancest_p`
  -- finds below some context `c`: listed for the tag, and within three levels below `c`. An optimised
  -- block stands in for its component.
  pub data Reason (fc : List ℕ) (f : Fld) (ctx : ℕ) : Type 0 where
    in_table : Among ctx fc → Reason fc f ctx
    own_type : f.tag ≡ Tag.msg_type → ctx ≡ low32 f → Reason fc f ctx
    ancestor :
        (c anc : ℕ)
        → fu_ancest e fc c ≡ some anc
        → anc ≢ 0
        → Among anc fc
        → Within e 3 c anc
        → ctx ≡ (if e.comp_orb anc == 0 then anc else e.comp_orb anc)
        → Reason fc f ctx

  -- Why a field does not stand in the context `c`, nor below it: the field is no message's type, and the
  -- dictionary does not list `c` for its tag, nor anything within three levels below `c`, or lists 0,
  -- which is not told from nothing.
  pub record IsMissed (fc : List ℕ) (f : Fld) (c : ℕ) : Type 0 where
    pub no_type : f.tag ≢ Tag.msg_type
    pub unlisted : ¬ Among c fc
    pub no_ancestor : Among 0 fc ⊎ ((x : ℕ) → Within e 3 c x → ¬ Among x fc)

  pub Reason-ancestor :
      (fc : List ℕ) (f : Fld) (c anc : ℕ)
      → fu_ancest e fc c ≡ some anc
      → anc ≢ 0
      → Reason fc f (stand_in e anc)
  unfolding stand_in
  Reason-ancestor fc f c anc ea nz =
      let (a, w) = fu_ancest-Within e fc c anc ea nz in ancestor c anc ea nz a w refl

  pub data AllMissed (fc : List ℕ) (f : Fld) : List Frame → Type 0 where
    none_left : AllMissed fc f []
    missed :
        {top : Frame} {frames : List Frame}
        → IsMissed fc f top.ctx
        → AllMissed fc f frames
        → AllMissed fc f (top ∷ frames)

  pub AllMissed-own :
      {fc : List ℕ} {f : Fld} {own : ℕ} {frames : List Frame}
      → IsOver own frames
      → AllMissed fc f frames
      → IsMissed fc f own
  AllMissed-own (bottom c) (missed m ms) = rw c at m
  AllMissed-own (higher o) (missed m ms) = AllMissed-own o ms
