-- ===== src/Edit/Valid.antt =====
-- `fixc_add_fld_at` and `fixc_add_tag_at` do not fault on a valid message, keep it valid, and do what
-- the specification of `View` says, on every branch.
use libfixc.Base.{
  ℕ, suc, ◌+◌, ◌≡◌, ap, ◌∙◌, arith, none, some, ◌≢◌, Bytes, length, take, insert_at, true,
  length-take,
}
use libfixc.Message.{Fld, Msg, low32, msgt_unk, msgt_batch}
use libfixc.Storage.Grow.{IsValid, IsSmall}
use libfixc.Edit.{
  Ret, ok, Result, insert_fld, as_batch, old_type, add_by_tag, add_fld_body, add_fld_at, insert_tag,
  off_fld,
}
use libfixc.Edit.Place.{Placed, insert_fld_lem, insert_tag_lem}
use libfixc.Edit.View.{View, view, has_type, demote, put, put_text, IsTyped}

-- On a batch the body makes no call of itself.
body-batch :
    (k k' : Msg → Fld → ℕ → Result) (m : Msg) (fld : Fld) (idx : ℕ)
    → low32 m.f35 ≡ msgt_batch
    → add_fld_body k m fld idx ≡ add_fld_body k' m fld idx
unfolding add_fld_body add_by_tag
body-batch k k' m fld idx h = ground arith

low32-as_batch : (m : Msg) → low32 (as_batch m).f35 ≡ msgt_batch
unfolding as_batch
low32-as_batch m = omega arith

-- The body depends on its call of itself at one place only.
body-again :
    (k k' : Msg → Fld → ℕ → Result) (m : Msg) (fld : Fld) (idx : ℕ)
    → k (as_batch m) (old_type m) 0 ≡ k' (as_batch m) (old_type m) 0
    → add_fld_body k m fld idx ≡ add_fld_body k' m fld idx
unfolding add_fld_body add_by_tag
body-again k k' m fld idx h = ground arith

-- The body of `fixc_add_fld_at` makes no third level of calls: what two levels of it return is the same
-- whatever stands for the call inside them, so that this call is never made and the recursion ends. And
-- `fixc_add_fld_at`, which stands for two levels, is its body with its own calls in it.
pub add_fld_at_ends :
    (k k' : Msg → Fld → ℕ → Result) (m : Msg) (fld : Fld) (idx : ℕ)
    → (add_fld_body (add_fld_body k) m fld idx ≡ add_fld_body (add_fld_body k') m fld idx)
      × (add_fld_at m fld idx ≡ add_fld_body (add_fld_body k) m fld idx)
      × (add_fld_at m fld idx ≡ add_fld_body add_fld_at m fld idx)
unfolding add_fld_at
add_fld_at_ends k k' m fld idx = (
  two k k',
  two (λ m' fld' idx'. none) k,
  two (λ m' fld' idx'. none) (add_fld_body (λ m' fld' idx'. none)),
)
  where
    two :
        (j j' : Msg → Fld → ℕ → Result)
        → add_fld_body (add_fld_body j) m fld idx ≡ add_fld_body (add_fld_body j') m fld idx
    two j j' =
        body-again (add_fld_body j) (add_fld_body j') m fld idx
          (body-batch j j' (as_batch m) (old_type m) 0 (low32-as_batch m))

-- A well-formed message: valid storage, and a type slot that can be stored.
pub record IsWell (m : Msg) : Type 0 where
  pub storage : IsValid m
  pub typed : IsTyped m.f35

-- A call that returns, with a well-formed message of the given view.
abbrev pub Gives : Result → Ret × View → Type 0
Gives run spec = (m' : Msg) × (run ≡ some (spec.0, m')) × IsWell m' × (view m' ≡ spec.1)

pub length-values : (m : Msg) → IsValid m → length (view m).values ≡ m.pz
length-values m v = omega (arith, length-take m.pz m.pr)

IsTyped-batch : (m : Msg) → IsTyped m.f35 → low32 m.f35 ≢ msgt_unk → IsTyped (as_batch m).f35
unfolding as_batch
IsTyped-batch m t h = record { tag_is = λ _. t.tag_is h; typ_is = λ _. t.typ_is h }

-- The `default` branch.
pub Gives-insert :
    (m : Msg) (fld : Fld) (idx : ℕ)
    → IsWell m
    → IsSmall m 1 0
    → Gives (insert_fld m fld idx) (ok, put (view m) fld idx)
Gives-insert m fld idx w small =
    let (m', e, p) = insert_fld_lem m fld idx w.storage small in
    (
      m',
      e,
      record { storage = p.valid; typed = rw p.head.same_f35 w.typed },
      λ i. record {
        f8 = p.head.same_f8 i;
        f9 = p.head.same_f9 i;
        f35 = p.head.same_f35 i;
        f10 = p.head.same_f10 i;
        flds = p.placed i;
        values = same p i;
      },
    )
  where
    same : {m' : Msg} → Placed m fld idx m' → take m'.pz m'.pr ≡ take m.pz m.pr
    same p = rw p.same_pz p.same_values

pub Gives-insert_tag :
    (m : Msg) (tag : ℕ) (val : Bytes) (idx : ℕ)
    → IsWell m
    → IsSmall m 1 (length val + 1)
    → Gives (insert_tag m tag val idx) (ok, put_text (view m) tag val idx)
Gives-insert_tag m tag val idx w small =
    let (m', e, p) = insert_tag_lem m tag val idx w.storage small in
    (
      m',
      e,
      record { storage = p.valid; typed = rw p.head.same_f35 w.typed },
      λ i. record {
        f8 = p.head.same_f8 i;
        f9 = p.head.same_f9 i;
        f35 = p.head.same_f35 i;
        f10 = p.head.same_f10 i;
        flds = (p.placed ∙ at_end) i;
        values = p.values i;
      },
    )
  where
    at_end :
        insert_at m.flds idx (off_fld tag m.pz)
        ≡ insert_at m.flds idx (off_fld tag (length (take m.pz m.pr)))
    at_end =
        ap (λ z. insert_at m.flds idx (off_fld tag z))
          (omega (arith, length-take m.pz m.pr, w.storage.written))

-- The nested call stores the old type in front.
module _ (m : Msg) (w : IsWell m) (typed : low32 m.f35 ≢ msgt_unk) where
  nested : add_fld_at (as_batch m) (old_type m) 0 ≡ insert_fld (as_batch m) (old_type m) 0
  unfolding add_fld_at as_batch old_type
  nested = ground (arith, w.typed.tag_is typed, w.typed.typ_is typed)

  as_batch-IsWell : IsWell (as_batch m)
  as_batch-IsWell = record { storage = storage_of; typed = IsTyped-batch m w.typed typed }
    where
      storage_of : IsValid (as_batch m)
      storage_of =
          unfold as_batch in
          record {
            written = w.storage.written;
            values_in = w.storage.values_in;
            flds_in = w.storage.flds_in;
            room = w.storage.room;
          }

  pub Gives-nested :
      {f v : ℕ}
      → IsSmall m (suc f) v
      → has_type (view m) ≡ true
      → (m' : Msg) × (add_fld_at (as_batch m) (old_type m) 0 ≡ some (ok, m'))
        × IsWell m'
        × (view m' ≡ demote (view m))
        × IsSmall m' f v
  unfolding as_batch old_type
  Gives-nested small h =
      let (m', e, w', v) =
        Gives-insert (as_batch m) (old_type m) 0 as_batch-IsWell (omega (arith, small)) in
      (
        m',
        nested ∙ e,
        w',
        v ∙ rw h,
        omega (
          arith,
          small,
          length-values m w.storage,
          length-values m' w'.storage,
          ap (λ (x : View). length x.values) v,
          ap (λ (x : View). length x.flds) v,
        ),
      )
