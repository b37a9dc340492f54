-- ===== src/Reader/Stack.antt =====
-- The 16 cells of the FIXML reader, linked both ways, are a stack: which cell is which is settled by the
-- depth alone.
use libfixc.Base.{
  ℕ, zero, suc, ◌+◌, ◌≡◌, ◌≤◌, ◌<◌, ◌≢◌, refl, ap, ◌∙◌, arith, Option, none, some, List, [], ◌∷◌,
  length, get_elem?, set, ltb, if◌then◌else◌,
}
use libfixc.Reader.Cells.{Cell, Pool, pool_size, init_ctxcb, linked, blank}

pub get_elem?-set :
    {A : Type 0} (xs : List A) (i : ℕ) (v : A) → i < length xs → get_elem? (set xs i v) i ≡ some v
get_elem?-set [] i v h = absurd (omega arith)
get_elem?-set (x ∷ xs) zero v h = refl
get_elem?-set (x ∷ xs) (suc i) v h = get_elem?-set xs i v (omega arith)

pub get_elem?-set_ne :
    {A : Type 0} (xs : List A) (i j : ℕ) (v : A) → j ≢ i → get_elem? (set xs i v) j ≡ get_elem? xs j
get_elem?-set_ne [] i j v h = refl
get_elem?-set_ne (x ∷ xs) zero zero v h = absurd (h refl)
get_elem?-set_ne (x ∷ xs) zero (suc j) v h = refl
get_elem?-set_ne (x ∷ xs) (suc i) zero v h = refl
get_elem?-set_ne (x ∷ xs) (suc i) (suc j) v h = get_elem?-set_ne xs i j v (λ e. h (ap suc e))

-- An element that is being read: its context, and the number of its fields so far.
pub record OpenElt : Type 0 where
  pub otag : ℕ
  pub cnt : ℕ

-- The cell of the newest of some elements, and the first cell that is free above `d` others.
abbrev pub newest : List OpenElt → Option ℕ
newest [] = none
newest (f ∷ fs) = some (length fs)

abbrev pub slot : ℕ → Option ℕ
slot d = if ltb d pool_size then some d else none

-- What the cell of an element holds.
pub record Holds (f : OpenElt) (below : Option ℕ) (o : Option Cell) : Type 0 where
  pub cell : Cell
  pub there : o ≡ some cell
  pub same_otag : cell.otag ≡ f.otag
  pub same_cnt : cell.cnt ≡ f.cnt
  pub same_old : cell.old ≡ below

pub data InUse (cells : List Cell) : List OpenElt → Type 0 where
  bottom : InUse cells []
  above :
      {f : OpenElt} {fs : List OpenElt}
      → Holds f (newest fs) (get_elem? cells (length fs))
      → InUse cells fs
      → InUse cells (f ∷ fs)

-- The elements that are open, the newest in front, are in the cells from 0 on, and all others are free.
pub record IsStack (fs : List OpenElt) (p : Pool) : Type 0 where
  pub full : length p.cells ≡ pool_size
  pub state : p.state ≡ newest fs
  pub head : p.head ≡ slot (length fs)
  pub used : InUse p.cells fs
  pub free :
      (i : ℕ)
      → length fs ≤ i
      → i < pool_size
      → (c : Cell) × (get_elem? p.cells i ≡ some c) × (c.next ≡ slot (suc i))

-- A write above the cells in use, and one to a free cell.
pub InUse-set :
    (cells : List Cell) (fs : List OpenElt) (i : ℕ) (v : Cell)
    → length fs ≤ i
    → InUse cells fs
    → InUse (set cells i v) fs
InUse-set cells [] i v h bottom = bottom
InUse-set cells (f ∷ fs) i v h (above x u) =
    above
      (record {
        cell = x.cell;
        there = get_elem?-set_ne cells i (length fs) v (omega arith) ∙ x.there;
        same_otag = x.same_otag;
        same_cnt = x.same_cnt;
        same_old = x.same_old;
      })
      (InUse-set cells fs i v (omega arith) u)

pub slot_in : (d : ℕ) → d < pool_size → slot d ≡ some d
slot_in d h = ground arith

get_elem?-linked :
    (n i j : ℕ) → j < n → get_elem? (linked n i) j ≡ some (blank (slot (suc (i + j))))
unfolding linked
get_elem?-linked zero i j h = absurd (omega arith)
get_elem?-linked (suc n) i zero h = ap (λ k. some (blank (slot k))) (omega arith)
get_elem?-linked (suc n) i (suc j) h =
    get_elem?-linked n (i + 1) j (omega arith) ∙ ap (λ k. some (blank (slot k))) (omega arith)

length-linked : (n i : ℕ) → length (linked n i) ≡ n
unfolding linked
length-linked zero i = refl
length-linked (suc n) i = ap suc (length-linked n (i + 1))

-- `init_ctxcb` in a context without a state.
pub IsStack-init_ctxcb : (p : Pool) → p.state ≡ none → IsStack [] (init_ctxcb p)
unfolding init_ctxcb
IsStack-init_ctxcb p h = record {
  full = length-linked pool_size 0;
  state = h;
  head = refl;
  used = bottom;
  free = λ i le lt. (_, get_elem?-linked pool_size 0 i lt, ap (λ k. slot (suc k)) (omega arith));
}
