-- ===== src/Extract/Chosen.antt =====
-- The fields that `fixc_extr_ctxt` of src/fix.c copies, described without its loop.
use libfixc.Base.{
  ℕ, suc, ◌+◌, ◌%◌, ◌^◌, ◌≡◌, ◌≤◌, ◌<◌, refl, ap, ◌∙◌, sym, arith, Bool, true, false, ◌&&◌, Option,
  none, some, ◌>>=◌, List, [], ◌∷◌, ◌++◌, length, length-append, ltb, ◌==◌, if◌then◌else◌,
  Bool-cases, Option-cases, inl, inr,
}
use libfixc.Message.{Fld, Msg, make_fixc_msg}
use libfixc.Engine.{Engine}
use libfixc.Extract.{cpy_fld, turn, count_on, extr_from, with_contexts, extr_ctxt}

-- The numbers of the fields in a context, and where such numbers fall: how many occurrences are over.
abbrev pub numbers : ℕ → List Fld → List ℕ
numbers c [] = []
numbers c (f ∷ fs) = if f.tpc == c then f.cnt ∷ numbers c fs else numbers c fs

abbrev pub falls_from : ℕ → List ℕ → ℕ
falls_from last [] = 0
falls_from last (x ∷ xs) = (if ltb x last then 1 else 0) + falls_from x xs

abbrev pub falls : List ℕ → ℕ
falls xs = falls_from 0 xs

-- The field `f` behind the fields `pre` is in the context, and in the occurrence that is asked for.
unfoldable pub is_chosen : ℕ → Option ℕ → List Fld → Fld → Bool
is_chosen c none pre f = f.tpc == c
is_chosen c (some n) pre f = f.tpc == c && falls (numbers c (pre ++ f ∷ [])) == n

-- The indices of the chosen ones among the fields behind `pre`.
abbrev pub chosen : ℕ → Option ℕ → List Fld → List Fld → List ℕ
chosen c n pre [] = []
chosen c n pre (f ∷ fs) =
    if is_chosen c n pre f
    then length pre ∷ chosen c n (pre ++ f ∷ []) fs
    else chosen c n (pre ++ f ∷ []) fs

-- Fields copied one after the other.
unfoldable pub copies : Msg → List ℕ → Msg → Option Msg
copies src [] tgt = some tgt
copies src (i ∷ is) tgt = do tgt' ← cpy_fld tgt src i; copies src is tgt'

last_of : ℕ → List ℕ → ℕ
last_of last [] = last
last_of last (x ∷ xs) = last_of x xs

falls_from-snoc :
    (last x : ℕ) (xs : List ℕ)
    → falls_from last (xs ++ x ∷ [])
      ≡ falls_from last xs + (if ltb x (last_of last xs) then 1 else 0)
unfolding last_of
falls_from-snoc last x [] = omega arith
falls_from-snoc last x (y ∷ xs) = omega (arith, falls_from-snoc y x xs)

last_of-snoc : (last x : ℕ) (xs : List ℕ) → last_of last (xs ++ x ∷ []) ≡ x
unfolding last_of
last_of-snoc last x [] = refl
last_of-snoc last x (y ∷ xs) = last_of-snoc y x xs

numbers-in :
    (c : ℕ) (pre : List Fld) (f : Fld)
    → (f.tpc == c) ≡ true
    → numbers c (pre ++ f ∷ []) ≡ numbers c pre ++ f.cnt ∷ []
numbers-in c [] f is = rw is refl
numbers-in c (g ∷ pre) f is = elim (Bool-cases (g.tpc == c)) [
  | inl t ↦ rw t (ap (◌∷◌ g.cnt) (numbers-in c pre f is))
  | inr t ↦ rw t (numbers-in c pre f is)
]

numbers-out :
    (c : ℕ) (pre : List Fld) (f : Fld)
    → (f.tpc == c) ≡ false
    → numbers c (pre ++ f ∷ []) ≡ numbers c pre
numbers-out c [] f is = rw is refl
numbers-out c (g ∷ pre) f is = elim (Bool-cases (g.tpc == c)) [
  | inl t ↦ rw t (ap (◌∷◌ g.cnt) (numbers-out c pre f is))
  | inr t ↦ rw t (numbers-out c pre f is)
]

-- Once an occurrence is over, none of its fields follows.
falls-grow :
    (c : ℕ) (pre : List Fld) (f : Fld) → falls (numbers c pre) ≤ falls (numbers c (pre ++ f ∷ []))
falls-grow c pre f = elim (Bool-cases (f.tpc == c)) [
  | inl t ↦ rw (numbers-in c pre f t) (omega (arith, falls_from-snoc 0 f.cnt (numbers c pre)))
  | inr t ↦ rw (numbers-out c pre f t) (omega arith)
]

chosen-past :
    (c n : ℕ) (pre fs : List Fld) → n < falls (numbers c pre) → chosen c (some n) pre fs ≡ []
unfolding is_chosen
chosen-past c n pre [] over = refl
chosen-past c n pre (f ∷ fs) over =
    let more = falls-grow c pre f in
    let other : (falls (numbers c (pre ++ f ∷ [])) == n) ≡ false = ground arith in
    let rest = chosen-past c n (pre ++ f ∷ []) fs (omega (arith, more)) in
    elim (Bool-cases (f.tpc == c)) [ inl t ↦ rw (t, other) rest | inr t ↦ rw t rest ]

-- The loop behind the fields `pre`.
record IsBehind (c : ℕ) (pre : List Fld) (i cnt last : ℕ) : Type 0 where
  index : i ≡ length pre
  count : cnt ≡ falls (numbers c pre)
  number : last ≡ last_of 0 (numbers c pre)

IsBehind-in :
    {c : ℕ} {pre : List Fld} {i cnt last : ℕ} (f : Fld)
    → (f.tpc == c) ≡ true
    → IsBehind c pre i cnt last
    → IsBehind c (pre ++ f ∷ []) (suc i) (count_on f cnt last) f.cnt
IsBehind-in {c} {pre} {i} {cnt} {last} f t at = record {
  index = omega (arith, length-append pre (f ∷ []), at.index);
  count =
      let falls_on : (if ltb f.cnt last then cnt + 1 else cnt)
          ≡ cnt + (if ltb f.cnt last then 1 else 0) =
        ground arith in
      rw (numbers-in c pre f t)
        (falls_on ∙ rw (at.count, at.number) (sym (falls_from-snoc 0 f.cnt (numbers c pre))));
  number = rw (numbers-in c pre f t) (sym (last_of-snoc 0 f.cnt (numbers c pre)));
}

IsBehind-out :
    {c : ℕ} {pre : List Fld} {i cnt last : ℕ} (f : Fld)
    → (f.tpc == c) ≡ false
    → IsBehind c pre i cnt last
    → IsBehind c (pre ++ f ∷ []) (suc i) cnt last
IsBehind-out {c} {pre} f t at = record {
  index = omega (arith, length-append pre (f ∷ []), at.index);
  count = rw (numbers-out c pre f t) (at.count);
  number = rw (numbers-out c pre f t) (at.number);
}

is_chosen-out :
    (c : ℕ) (n : Option ℕ) (pre : List Fld) (f : Fld)
    → (f.tpc == c) ≡ false
    → is_chosen c n pre f ≡ false
unfolding is_chosen
is_chosen-out c none pre f t = t
is_chosen-out c (some n) pre f t = rw t refl

-- A field that is copied, where both sides go on alike.
pub copied :
    (src : Msg) (res : Msg) (i j : ℕ) (is : List ℕ) (g : Msg → Option Msg)
    → i ≡ j
    → ((res' : Msg) → g res' ≡ copies src is res')
    → (cpy_fld res src i >>= g) ≡ copies src (j ∷ is) res
unfolding copies
copied src res i j is g same on =
    rw (← same) (elim (Option-cases (cpy_fld res src i)) [
      | inl h ↦ rw h refl
      | inr (res', h) ↦ rw h (on res')
    ])

extr_from-copies :
    (src : Msg) (c : ℕ) (n : Option ℕ) (pre fs : List Fld) (i cnt last : ℕ) (res : Msg)
    → IsBehind c pre i cnt last
    → extr_from src c n i cnt last fs res ≡ copies src (chosen c n pre fs) res
unfolding extr_from copies is_chosen turn
extr_from-copies src c n pre [] i cnt last res at = refl
extr_from-copies src c none pre (f ∷ fs) i cnt last res at = elim (Bool-cases (f.tpc == c)) [
  | inr t ↦
      rw (extr_from, t)
        (extr_from-copies src c none (pre ++ f ∷ []) fs (suc i) cnt last res (IsBehind-out f t at))
  | inl t ↦
      rw (extr_from, t)
        (copied src res i (length pre) (chosen c none (pre ++ f ∷ []) fs) _ at.index (λ res'.
          extr_from-copies src c none (pre ++ f ∷ []) fs (suc i) (count_on f cnt last) f.cnt res'
            (IsBehind-in f t at)))
]
extr_from-copies src c (some n) pre (f ∷ fs) i cnt last res at = elim (Bool-cases (f.tpc == c)) [
  | inr t ↦
      rw (extr_from, t)
        (extr_from-copies src c (some n) (pre ++ f ∷ []) fs (suc i) cnt last res
          (IsBehind-out f t at))
  | inl t ↦
      let cnt' = count_on f cnt last in
      let at' = IsBehind-in f t at in
      let count : cnt' ≡ falls (numbers c (pre ++ f ∷ [])) = at'.count in
      elim (Bool-cases (ltb n cnt')) [
        | inl over ↦
            let other : (falls (numbers c (pre ++ f ∷ [])) == n) ≡ false =
              rw (← count) (ground arith) in
            let end : chosen c (some n) (pre ++ f ∷ []) fs ≡ [] =
              chosen-past c n (pre ++ f ∷ []) fs (rw (← count) (ground arith)) in
            rw (extr_from, t, over, other, end) refl
        | inr not_over ↦ elim (Bool-cases (ltb cnt' n)) [
          | inl before ↦
              let other : (falls (numbers c (pre ++ f ∷ [])) == n) ≡ false =
                rw (← count) (ground arith) in
              rw (extr_from, t, not_over, before, other)
                (extr_from-copies src c (some n) (pre ++ f ∷ []) fs (suc i) cnt' f.cnt res at')
          | inr now ↦
              let this : (falls (numbers c (pre ++ f ∷ [])) == n) ≡ true =
                rw (← count) (ground arith) in
              rw (extr_from, t, not_over, now, this)
                (copied src res i (length pre) (chosen c (some n) (pre ++ f ∷ []) fs) _ at.index
                  (λ res'.
                    extr_from-copies src c (some n) (pre ++ f ∷ []) fs (suc i) cnt' f.cnt res' at'))
        ]
      ]
]

-- `fixc_extr_ctxt` makes an empty message of the context and copies to it, in their order, the fields of the
-- message that have the context; of the occurrence `n`, counted from 0, if one is asked for. The occurrence of
-- a field is how often the numbers of the context's fields have fallen, up to and with its own. A message
-- without contexts is fixed up first.
pub extr_ctxt-copies :
    (e : Engine) (size : ℕ) (m : Msg) (ctx : ℕ) (n : Option ℕ)
    → extr_ctxt e size m ctx n ≡ (do
      (src, size') ← with_contexts e size m
      res ← copies src (chosen (ctx % 2 ^ 16) n [] src.flds) (make_fixc_msg ctx)
      some (res, src, size'))
unfolding extr_ctxt last_of
extr_ctxt-copies e size m ctx n = elim (Option-cases (with_contexts e size m)) [
  | inl h ↦ rw h refl
  | inr ((src, size'), h) ↦
      let at : IsBehind (ctx % 2 ^ 16) [] 0 0 0 = record {
        index = refl;
        count = refl;
        number = refl;
      } in
      let loop = extr_from-copies src (ctx % 2 ^ 16) n [] src.flds 0 0 0 (make_fixc_msg ctx) at in
      rw (h, loop) refl
]
