-- ===== src/Storage/Grow.antt =====
-- `check_size` makes room: what it returns has the slots and bytes that were asked for.
use native.Mathlib.Nat.{le_trans}
use libfixc.Base.{
  ℕ, ◌+◌, ◌^◌, ◌≤◌, ◌<◌, ◌≡◌, refl, ap, true, false, some, arith, inl, inr, length, take,
  length-take, take_all, Bool-cases,
}
use libfixc.Message.{Msg, nflds}
use libfixc.Power.{add_size, next_2power}
use libfixc.Power.Laws.{
  next_2power_least, le-next_2power, next_2power-next_2power, next_2power_mono,
}
use libfixc.Storage.{has_room, move_block, check_size, allocd_fspc, allocd_vspc}

-- The fields fit the slots, the values fit the bytes, and the size that the code computes from `pz`
-- is no more than what is allocated.
pub record IsValid (m : Msg) : Type 0 where
  pub written : m.pz ≤ length m.pr
  pub values_in : length m.pr ≤ m.vspc
  pub flds_in : nflds m ≤ m.fspc
  pub room : 0 < m.fspc → next_2power (m.pz + 1) ≤ m.vspc

-- Sizes far below the address space, `f` fields and `v` bytes counted in.
pub record IsSmall (m : Msg) (f v : ℕ) : Type 0 where
  pub few : nflds m + f ≤ 2 ^ 56
  pub short : m.pz + v < 2 ^ 60

-- What `check_size` guarantees.
pub record Grown (m : Msg) (f v : ℕ) (m' : Msg) : Type 0 where
  pub valid : IsValid m'
  pub slots : nflds m + f ≤ m'.fspc
  pub bytes : m.pz + v < m'.vspc
  pub spare : next_2power (m.pz + v + 1) ≤ m'.vspc
  pub same_flds : m'.flds ≡ m.flds
  pub same_pz : m'.pz ≡ m.pz
  pub same_values : take m.pz m'.pr ≡ take m.pz m.pr
  pub same_f8 : m'.f8 ≡ m.f8
  pub same_f9 : m'.f9 ≡ m.f9
  pub same_f35 : m'.f35 ≡ m.f35
  pub same_f10 : m'.f10 ≡ m.f10

module _ (m : Msg) (f v : ℕ) (small : IsSmall m f v) where
  allocd_vspc_exact : allocd_vspc m ≡ next_2power (m.pz + 1)
  unfolding allocd_vspc
  allocd_vspc_exact = ap next_2power (omega arith)

  has_room_parts :
      has_room m f v ≡ true → (nflds m + f < m.fspc) × (m.pz + v < next_2power (m.pz + 1))
  unfolding has_room allocd_fspc
  has_room_parts h = ground (arith, allocd_vspc_exact)

  Grown-has_room : IsValid m → has_room m f v ≡ true → Grown m f v m
  Grown-has_room ok h =
      let (slots, bytes) = has_room_parts h in
      let fits = ok.room (omega arith) in
      let least = next_2power-next_2power (m.pz + v + 1) (m.pz + 1) in
      record {
        valid = ok;
        slots = omega arith;
        bytes = omega arith;
        spare = omega (arith, least (omega arith) (omega arith) (omega arith) (omega arith));
        same_flds = refl;
        same_pz = refl;
        same_values = refl;
        same_f8 = refl;
        same_f9 = refl;
        same_f35 = refl;
        same_f10 = refl;
      }

  -- The two sizes of a fresh block.
  new_vspc : ℕ
  new_vspc = next_2power (add_size (add_size (allocd_vspc m) v) 1)

  new_fspc : ℕ
  new_fspc = next_2power (add_size (nflds m) f)

  new_vspc_bounds :
      (next_2power (m.pz + v + 1) ≤ new_vspc) × (m.pz + v + 1 < new_vspc) × (new_vspc ≤ 2 ^ 63)
  unfolding new_vspc
  new_vspc_bounds =
      let (low, high) = le-next_2power (m.pz + 1) (omega arith) (omega arith) in
      let capped = next_2power_least (m.pz + 1) (omega arith) (omega arith) 60 (omega arith) in
      let exact : add_size (add_size (allocd_vspc m) v) 1 ≡ next_2power (m.pz + 1) + v + 1 =
        rw allocd_vspc_exact (omega arith) in
      let (above, top) =
        le-next_2power (next_2power (m.pz + 1) + v + 1) (omega arith) (omega arith) in
      rw exact (
        next_2power_mono (m.pz + v + 1) (next_2power (m.pz + 1) + v + 1) (omega arith) (omega arith)
            (omega arith),
        omega arith,
        top,
      )

  new_fspc_bounds : 0 < f → (nflds m + f ≤ new_fspc) × (new_fspc ≤ 2 ^ 56)
  unfolding new_fspc
  new_fspc_bounds some_more =
      let exact : add_size (nflds m) f ≡ nflds m + f = omega arith in
      let (up, _) = le-next_2power (nflds m + f) (omega arith) (omega arith) in
      rw exact (up, next_2power_least (nflds m + f) (omega arith) (omega arith) 56 small.few)

  abbrev moved : Msg
  moved = record m { pr = take m.pz m.pr; vspc = new_vspc; fspc = new_fspc; embedded = false }

  move_block_lem : 0 < f → move_block m new_fspc new_vspc ≡ some moved
  unfolding move_block allocd_fspc
  move_block_lem some_more = ground (arith, new_vspc_bounds, new_fspc_bounds some_more)

  Grown-moved : IsValid m → 0 < f → Grown m f v moved
  Grown-moved ok some_more =
      let (near, enough, _) = new_vspc_bounds in
      let kept = length-take m.pz m.pr in
      let (slots, _) = new_fspc_bounds some_more in
      record {
        valid = record {
          written = omega arith;
          values_in = omega arith;
          flds_in = omega arith;
          room = λ _.
              le_trans
                (next_2power_mono (m.pz + 1) (m.pz + v + 1) (omega arith) (omega arith)
                  (omega arith))
                near;
        };
        slots = slots;
        bytes = omega arith;
        spare = near;
        same_flds = refl;
        same_pz = refl;
        same_values = take_all (take m.pz m.pr) m.pz (omega arith);
        same_f8 = refl;
        same_f9 = refl;
        same_f35 = refl;
        same_f10 = refl;
      }

  -- On a valid message, asked for one field at least and with sizes far below the address space,
  -- `check_size` does not fault: it returns a valid message with the same fields and values that has
  -- the slots and bytes asked for.
  pub check_size_lem :
      IsValid m → 0 < f → (m' : Msg) × (check_size m f v ≡ some m') × Grown m f v m'
  unfolding check_size new_vspc new_fspc
  check_size_lem ok some_more = elim (Bool-cases (has_room m f v)) [
    | inl enough ↦ (m, rw enough, Grown-has_room ok enough)
    | inr short ↦ (moved, rw short (move_block_lem some_more), Grown-moved ok some_more)
  ]
