-- ===== src/Edit/Place.antt =====
-- The common end of the adding functions of src/fix.c: a slot is made, and a value copied.
use native.Mathlib.Nat.{add_assoc}
use libfixc.Base.{
  ℕ, ◌+◌, ◌≤◌, ◌≡◌, ap, ◌∙◌, arith, some, [], ◌∷◌, ◌++◌, Bytes, length, take, insert_at,
  length-insert_at, length-append, length-splice, take-splice_end, splice, max,
}
use libfixc.Message.{Fld, Msg, nflds}
use libfixc.Storage.Grow.{IsValid, IsSmall, Grown, check_size_lem}
use libfixc.Edit.{ok, insert_fld, insert_tag, off_fld, put_tag}

-- The four special slots are the same.
pub record SameHead (m m' : Msg) : Type 0 where
  pub same_f8 : m'.f8 ≡ m.f8
  pub same_f9 : m'.f9 ≡ m.f9
  pub same_f35 : m'.f35 ≡ m.f35
  pub same_f10 : m'.f10 ≡ m.f10

-- `m'` is `m` with the field `fld` in front of the `idx`-th, and the same values.
pub record Placed (m : Msg) (fld : Fld) (idx : ℕ) (m' : Msg) : Type 0 where
  pub valid : IsValid m'
  pub head : SameHead m m'
  pub placed : m'.flds ≡ insert_at m.flds idx fld
  pub same_pz : m'.pz ≡ m.pz
  pub same_values : take m.pz m'.pr ≡ take m.pz m.pr

-- `m'` is `m` with a field in front of the `idx`-th that refers to `val`, copied behind the values.
pub record Tagged (m : Msg) (tag : ℕ) (val : Bytes) (idx : ℕ) (m' : Msg) : Type 0 where
  pub valid : IsValid m'
  pub head : SameHead m m'
  pub placed : m'.flds ≡ insert_at m.flds idx (off_fld tag m.pz)
  pub grown_pz : m'.pz ≡ m.pz + length val + 1
  pub values : take m'.pz m'.pr ≡ take m.pz m.pr ++ (val ++ 0 ∷ [])

module _ (m : Msg) (fld : Fld) (idx : ℕ) (ok_m : IsValid m) (small : IsSmall m 1 0) where
  pub insert_fld_lem : (m' : Msg) × (insert_fld m fld idx ≡ some (ok, m')) × Placed m fld idx m'
  unfolding insert_fld
  insert_fld_lem =
      let (n, e, g) = check_size_lem m 1 0 small ok_m (omega arith) in
      let slots : nflds n + 1 ≤ n.fspc = rw g.same_flds g.slots in
      let p = length-insert_at n.flds idx fld in
      (
        record n { flds = insert_at n.flds idx fld },
        rw e (ground arith),
        record {
          valid = record {
            written = g.valid.written;
            values_in = g.valid.values_in;
            flds_in = omega arith;
            room = g.valid.room;
          };
          head = record {
            same_f8 = g.same_f8;
            same_f9 = g.same_f9;
            same_f35 = g.same_f35;
            same_f10 = g.same_f10;
          };
          placed = ap (λ l. insert_at l idx fld) g.same_flds;
          same_pz = g.same_pz;
          same_values = g.same_values;
        },
      )

-- The copy of a value, where there is room for it and its NUL.
module _ (n : Msg) (val : Bytes) (ok_n : IsValid n) (fits : n.pz + length val + 1 ≤ n.vspc) where
  abbrev text : Bytes
  text = val ++ 0 ∷ []

  length-text : length text ≡ length val + 1
  length-text = length-append val (0 ∷ [])

  length-values : length (splice n.pr n.pz text) ≡ max (n.pz + length val + 1) (length n.pr)
  length-values = omega (arith, length-splice n.pr n.pz text ok_n.written, length-text)

  take-values : take (n.pz + length val + 1) (splice n.pr n.pz text) ≡ take n.pz n.pr ++ text
  take-values =
      let e : n.pz + length val + 1 ≡ n.pz + length text = omega (arith, length-text) in
      rw e (take-splice_end n.pr n.pz text ok_n.written)

module _ (m : Msg) (tag : ℕ) (val : Bytes) (idx : ℕ) (ok_m : IsValid m)
    (small : IsSmall m 1 (length val + 1)) where
  Tagged-of_Grown :
      (n : Msg)
      → Grown m 1 (length val + 1) n
      → (m' : Msg) × (put_tag n tag val idx ≡ some (ok, m')) × Tagged m tag val idx m'
  unfolding put_tag
  Tagged-of_Grown n g =
      let slots : nflds n + 1 ≤ n.fspc = rw g.same_flds g.slots in
      let fits : n.pz + length val + 1 ≤ n.vspc = omega (arith, g.bytes, g.same_pz) in
      let longer = length-values n val g.valid fits in
      (
        record n {
          flds = insert_at n.flds idx (off_fld tag n.pz);
          pr = splice n.pr n.pz (val ++ 0 ∷ []);
          pz = n.pz + length val + 1;
        },
        ground arith,
        record {
          valid = record {
            written = omega arith;
            values_in = omega (arith, g.valid.values_in);
            flds_in = omega (arith, length-insert_at n.flds idx (off_fld tag n.pz));
            room = λ _. rw (g.same_pz, add_assoc m.pz (length val) 1) g.spare;
          };
          head = record {
            same_f8 = g.same_f8;
            same_f9 = g.same_f9;
            same_f35 = g.same_f35;
            same_f10 = g.same_f10;
          };
          placed = rw (g.same_flds, g.same_pz);
          grown_pz = rw g.same_pz;
          values =
              take-values n val g.valid fits
              ∙ ap (λ l. l ++ (val ++ 0 ∷ [])) (rw g.same_pz g.same_values);
        },
      )

  pub insert_tag_lem :
      (m' : Msg) × (insert_tag m tag val idx ≡ some (ok, m')) × Tagged m tag val idx m'
  unfolding insert_tag
  insert_tag_lem =
      let (n, e, g) = check_size_lem m 1 (length val + 1) small ok_m (omega arith) in
      let (m', e', t) = Tagged-of_Grown n g in (m', rw e e', t)
