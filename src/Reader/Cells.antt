-- ===== src/Reader/Cells.antt =====
-- The states of the FIXML reader in src/fixml-rd.c: 16 cells, linked by their indices into the stack of the
-- states in use and the list of the free ones. A cell that is given back keeps what is in it.
use libfixc.Base.{
  ℕ, zero, suc, ◌+◌, Option, none, some, ◌>>=◌, List, [], ◌∷◌, get_elem?, set, ltb, if◌then◌else◌,
}

-- `struct ptx_ctxcb_s`.
pub record Cell : Type 0 where
  pub next : Option ℕ
  pub otag : ℕ
  pub cnt : ℕ
  pub cns : ℕ
  pub old : Option ℕ

-- `ctxcb_pool`, `ctxcb_head` and `state`.
pub record Pool : Type 0 where
  pub cells : List Cell
  pub head : Option ℕ
  pub state : Option ℕ

abbrev pub blank : Option ℕ → Cell
blank next = record { next = next; otag = 0; cnt = 0; cns = 0; old = none }

abbrev pub pool_size : ℕ
pool_size = 16

-- Blank cells from index `i` on, as `memset` leaves them, and linked.
unfoldable pub blanks : ℕ → List Cell
blanks zero = []
blanks (suc n) = blank none ∷ blanks n

unfoldable pub linked : ℕ → ℕ → List Cell
linked zero i = []
linked (suc n) i = blank (if ltb (i + 1) pool_size then some (i + 1) else none) ∷ linked n (i + 1)

unfoldable pub no_pool : Pool
no_pool = record { cells = blanks pool_size; head = none; state = none }

-- `init_ctxcb`; the state that is in use stays where it is.
unfoldable pub init_ctxcb : Pool → Pool
init_ctxcb p = record p { cells = linked pool_size 0; head = some 0 }

unfoldable pub cell_at : Option ℕ → Pool → Option Cell
cell_at ptr p = do i ← ptr; get_elem? p.cells i

unfoldable pub current : Pool → Option Cell
current p = cell_at p.state p

-- A change of the current state.
unfoldable pub set_current : (Cell → Cell) → Pool → Option Pool
set_current f p = do
  i ← p.state
  c ← get_elem? p.cells i
  some (record p { cells = set p.cells i (f c) })

-- `ctx->state ? ctx->state->otag : 0`.
unfoldable pub otag_now : Pool → Option ℕ
otag_now p = elim p.state [ none ↦ some 0 | some i ↦ do c ← get_elem? p.cells i; some c.otag ]

-- `peek_ctxcb`, read through.
unfoldable pub peek : Pool → Option Cell
peek p = cell_at p.head p

-- `pop_ctxcb`, and what `push_state` makes of the cell.
unfoldable pub push_cell : ℕ → ℕ → Pool → Option Pool
push_cell otag cns p = do
  i ← p.head
  c ← get_elem? p.cells i
  some (record {
    cells = set p.cells i (record { next = none; otag = otag; cnt = 0; cns = cns; old = p.state });
    head = c.next;
    state = some i;
  })

-- `pop_state` and `push_ctxcb`.
unfoldable pub pop_state : Pool → Option Pool
pop_state p = do
  i ← p.state
  c ← get_elem? p.cells i
  some (record { cells = set p.cells i (record c { next = p.head }); head = some i; state = c.old })
