-- ===== src/Reader/Moves.antt =====
-- What the FIXML reader does to its stack of states: a state is read, pushed, changed and popped.
use libfixc.Base.{
  ℕ, suc, ◌>>=◌, ◌≡◌, ◌<◌, refl, ap, sym, ◌∙◌, arith, Bool-cases, inl, inr, none, some, List, [],
  ◌∷◌, length, get_elem?, set, ◌==◌, length-set, lt-of_get_elem?,
}
use libfixc.Reader.{old_otag}
use libfixc.Reader.Cells.{
  Cell, Pool, pool_size, current, set_current, otag_now, peek, cell_at, push_cell, pop_state,
}
use libfixc.Reader.Stack.{
  OpenElt, newest, slot, Holds, InUse, above, IsStack, get_elem?-set, get_elem?-set_ne, InUse-set,
  slot_in,
}

module _ {fs : List OpenElt} {p : Pool} (s : IsStack fs p) where
  -- The head can be read while there is room.
  pub peek_lem : length fs < pool_size → (c : Cell) × (peek p ≡ some c)
  unfolding peek cell_at
  peek_lem room =
      let (c, at, _) = s.free (length fs) (omega arith) room in
      (c, rw (s.head, slot_in (length fs) room, at))

  pub IsStack-push_cell :
      (otag cns : ℕ)
      → length fs < pool_size
      → (p' : Pool) × (push_cell otag cns p ≡ some p')
        × IsStack (record { otag = otag; cnt = 0 } ∷ fs) p'
  unfolding push_cell
  IsStack-push_cell otag cns room =
      let (c, at, next) = s.free (length fs) (omega arith) room in
      let new : Cell = record { next = none; otag = otag; cnt = 0; cns = cns; old = p.state } in
      (
        record { cells = set p.cells (length fs) new; head = c.next; state = some (length fs) },
        rw (s.head, slot_in (length fs) room, at),
        record {
          full = length-set p.cells (length fs) new ∙ s.full;
          state = refl;
          head = next;
          used =
              above
                (record {
                  cell = new;
                  there = get_elem?-set p.cells (length fs) new (omega (arith, s.full));
                  same_otag = refl;
                  same_cnt = refl;
                  same_old = s.state;
                })
                (InUse-set p.cells fs (length fs) new (omega arith) s.used);
          free = λ i le lt.
              let (c', at', next') = s.free i (omega arith) lt in
              (c', get_elem?-set_ne p.cells (length fs) i new (omega arith) ∙ at', next');
        },
      )

peel :
    {cells : List Cell} {f : OpenElt} {fs : List OpenElt}
    → InUse cells (f ∷ fs)
    → Holds f (newest fs) (get_elem? cells (length fs)) × InUse cells fs
peel (above x u) = (x, u)

module _ {f : OpenElt} {fs : List OpenElt} {p : Pool} (s : IsStack (f ∷ fs) p) where
  top_in : length fs < pool_size
  top_in =
      let (x, _) = peel s.used in omega (arith, lt-of_get_elem? p.cells (length fs) x.there, s.full)

  pub current_lem : (c : Cell) × (current p ≡ some c) × (c.otag ≡ f.otag) × (c.cnt ≡ f.cnt)
  unfolding current cell_at
  current_lem = let (x, _) = peel s.used in (x.cell, rw (s.state, x.there), x.same_otag, x.same_cnt)

  pub otag_now_lem : otag_now p ≡ some f.otag
  unfolding otag_now
  otag_now_lem = let (x, _) = peel s.used in rw (s.state, x.there, x.same_otag)

  -- A change of the current state that leaves its links.
  pub IsStack-set_current :
      (g : Cell → Cell) (f' : OpenElt)
      → ((c : Cell)
          → c.otag ≡ f.otag
          → c.cnt ≡ f.cnt
          → ((g c).otag ≡ f'.otag) × ((g c).cnt ≡ f'.cnt) × ((g c).old ≡ c.old))
      → (p' : Pool) × (set_current g p ≡ some p') × IsStack (f' ∷ fs) p'
  unfolding set_current
  IsStack-set_current g f' h =
      let (x, u) = peel s.used in
      let (otag, cnt, old) = h x.cell x.same_otag x.same_cnt in
      (
        record p { cells = set p.cells (length fs) (g x.cell) },
        rw (s.state, x.there),
        record {
          full = length-set p.cells (length fs) (g x.cell) ∙ s.full;
          state = s.state;
          head = s.head;
          used =
              above
                (record {
                  cell = g x.cell;
                  there =
                      get_elem?-set p.cells (length fs) (g x.cell) (omega (arith, s.full, top_in));
                  same_otag = otag;
                  same_cnt = cnt;
                  same_old = old ∙ x.same_old;
                })
                (InUse-set p.cells fs (length fs) (g x.cell) (omega arith) u);
          free = λ i le lt.
              let (c', at', next') = s.free i le lt in
              (c', get_elem?-set_ne p.cells (length fs) i (g x.cell) (omega arith) ∙ at', next');
        },
      )

  pub IsStack-pop_state : (p' : Pool) × (pop_state p ≡ some p') × IsStack fs p'
  unfolding pop_state
  IsStack-pop_state =
      let (x, u) = peel s.used in
      let back : Cell = record (x.cell) { next = p.head } in
      (
        record {
          cells = set p.cells (length fs) back;
          head = some (length fs);
          state = x.cell.old;
        },
        rw (s.state, x.there),
        record {
          full = length-set p.cells (length fs) back ∙ s.full;
          state = x.same_old;
          head = sym (slot_in (length fs) top_in);
          used = InUse-set p.cells fs (length fs) back (omega arith) u;
          free = λ i le lt. elim (Bool-cases (i == length fs)) [
            | inl e ↦
                (back, at_top i (ground arith), s.head ∙ ap (λ k. slot (suc k)) (ground arith))
            | inr ne ↦
                let (c', at', next') = s.free i (ground arith) lt in
                (c', get_elem?-set_ne p.cells (length fs) i back (ground arith) ∙ at', next')
          ];
        },
      )
    where
      at_top : {c : Cell} (i : ℕ) → i ≡ length fs → get_elem? (set p.cells (length fs) c) i ≡ some c
      at_top i e = rw e (get_elem?-set p.cells (length fs) _ (omega (arith, s.full, top_in)))

-- The context of the state below the current one.
unfoldable pub below_otag : List OpenElt → ℕ
below_otag [] = 0
below_otag (f ∷ fs) = f.otag

pub old_otag_lem :
    {f : OpenElt} {fs : List OpenElt} {p : Pool}
    → IsStack (f ∷ fs) p
    → old_otag p ≡ some (below_otag fs)
unfolding old_otag current cell_at below_otag
old_otag_lem {fs = []} {p = p} s =
    let (x, _) = peel s.used in
    rw (s.state, x.there)
      (ap (λ o. elim o [ none ↦ some 0 | some i ↦ do c ← get_elem? p.cells i; some c.otag ])
        x.same_old)
old_otag_lem {fs = g ∷ gs} {p = p} s =
    let (x, u) = peel s.used in
    let (y, _) = peel u in
    rw (s.state, x.there)
      (ap (λ o. elim o [ none ↦ some 0 | some i ↦ do c ← get_elem? p.cells i; some c.otag ])
          x.same_old
        ∙ rw (y.there, y.same_otag))
