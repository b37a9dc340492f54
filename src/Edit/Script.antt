-- ===== src/Edit/Script.antt =====
-- Sequences of calls: `fixc_add_fld_at`, `fixc_add_tag_at` and `fixc_del_fld` in any order, on a message
-- that `make_fixc_msg` has made.
use libfixc.Base.{
  ℕ, zero, suc, ◌+◌, ◌*◌, ◌^◌, ◌≤◌, ◌<◌, ◌≡◌, refl, ap, ◌∙◌, arith, some, Option, List, [], ◌∷◌,
  ◌++◌, Bytes, length, length-insert_at, length-append, ◌>>=◌,
}
use libfixc.Message.{Fld, Msg, nflds, make_fixc_msg}
use libfixc.Storage.Grow.{IsSmall}
use libfixc.Edit.{add_fld_at, add_tag_at, del_fld, off_fld}
use libfixc.Edit.View.{View, view, demote, add_fld_spec, add_tag_spec}
use libfixc.Edit.Valid.{IsWell, length-values}
use libfixc.Edit.Refine.{add_fld_at_refines, add_tag_at_refines}
use libfixc.Edit.Delete.{without, del_fld_lem}

-- A call on a message.
pub data Call : Type 0 where
  fld_at : Fld → ℕ → Call
  tag_at : ℕ → Bytes → ℕ → Call
  del : ℕ → Call

-- What a call does to a message; its return code is dropped.
unfoldable pub call : Call → Msg → Option Msg
call (fld_at fld idx) m = do r ← add_fld_at m fld idx; some r.1
call (tag_at tag val idx) m = do r ← add_tag_at m tag val idx; some r.1
call (del n) m = some (del_fld m n)

unfoldable pub calls : List Call → Msg → Option Msg
unfolding call
calls [] m = some m
calls (c ∷ cs) m = do m' ← call c m; calls cs m'

-- What it does to the view.
unfoldable pub call_spec : Call → View → View
call_spec (fld_at fld idx) v = (add_fld_spec v fld idx).1
call_spec (tag_at tag val idx) v = (add_tag_spec v tag val idx).1
call_spec (del n) v = record v { flds = without v.flds n }

unfoldable pub calls_spec : List Call → View → View
unfolding call_spec
calls_spec [] v = v
calls_spec (c ∷ cs) v = calls_spec cs (call_spec c v)

-- The bytes that calls may add.
unfoldable pub bytes_of : List Call → ℕ
bytes_of [] = 0
bytes_of (fld_at fld idx ∷ cs) = bytes_of cs
bytes_of (tag_at tag val idx ∷ cs) = length val + 1 + bytes_of cs
bytes_of (del n ∷ cs) = bytes_of cs

make_fixc_msg-IsWell : (ctx : ℕ) → IsWell (make_fixc_msg ctx)
unfolding make_fixc_msg
make_fixc_msg-IsWell ctx = record {
  storage = record {
    written = omega arith;
    values_in = omega arith;
    flds_in = omega arith;
    room = λ h. absurd (omega arith);
  };
  typed = record { tag_is = λ _. refl; typ_is = λ _. ground arith };
}

add_fld_spec-grows :
    (v : View) (fld : Fld) (idx : ℕ)
    → (length (add_fld_spec v fld idx).1.flds ≤ length v.flds + 2)
      × (length (add_fld_spec v fld idx).1.values ≤ length v.values)
unfolding add_fld_spec
add_fld_spec-grows v fld idx =
    ground (arith, length-insert_at v.flds idx fld, length-insert_at (demote v).flds idx fld)

add_tag_spec-grows :
    (v : View) (tag : ℕ) (val : Bytes) (idx : ℕ)
    → (length (add_tag_spec v tag val idx).1.flds ≤ length v.flds + 2)
      × (length (add_tag_spec v tag val idx).1.values ≤ length v.values + (length val + 1))
unfolding add_tag_spec
add_tag_spec-grows v tag val idx = ground (
  arith,
  length-insert_at v.flds idx (off_fld tag (length v.values)),
  length-insert_at (demote v).flds idx (off_fld tag (length v.values)),
  length-append v.values (val ++ 0 ∷ []),
  length-append val (0 ∷ []),
)

length-without : (fs : List Fld) (n : ℕ) → length (without fs n) ≤ length fs
unfolding without
length-without [] n = omega arith
length-without (f ∷ []) zero = omega arith
length-without (f ∷ []) (suc n) = omega arith
length-without (f ∷ g ∷ fs) zero = omega arith
length-without (f ∷ g ∷ fs) (suc n) = omega (arith, length-without (g ∷ fs) n)

-- Room for a number of calls and of bytes.
record HasBudget (m : Msg) (n bytes : ℕ) : Type 0 where
  few : nflds m + 2 * n ≤ 2 ^ 56
  short : m.pz + bytes < 2 ^ 60

-- A message whose view has grown by two fields and `k` bytes at most.
spent :
    (m m' : Msg) (n k bytes : ℕ) (v : View)
    → IsWell m
    → IsWell m'
    → view m' ≡ v
    → length v.flds ≤ nflds m + 2
    → length v.values ≤ length (view m).values + k
    → HasBudget m (suc n) (k + bytes)
    → HasBudget m' n bytes
spent m m' n k bytes v w w' e flds values b =
    let same : nflds m' ≡ length v.flds = ap (λ x. length x.flds) e in
    let kept : length (view m').values ≡ length v.values = ap (λ x. length x.values) e in
    record {
      few = omega (arith, b.few);
      short = omega (arith, b.short, length-values m w.storage, length-values m' w'.storage);
    }

-- A call returns what the specification says, and spends its share.
call_step :
    (c : Call) (cs : List Call) (m : Msg)
    → IsWell m
    → HasBudget m (suc (length cs)) (bytes_of (c ∷ cs))
    → (m' : Msg) × (call c m ≡ some m')
      × IsWell m'
      × (view m' ≡ call_spec c (view m))
      × HasBudget m' (length cs) (bytes_of cs)
unfolding call call_spec bytes_of
call_step (fld_at fld idx) cs m w b =
    let small : IsSmall m 2 0 = record {
      few = omega (arith, b.few);
      short = omega (arith, b.short);
    } in
    let (m', e, w', v) = add_fld_at_refines m fld idx w small in
    let (flds, values) = add_fld_spec-grows (view m) fld idx in
    let b' : HasBudget m (suc (length cs)) (0 + bytes_of cs) = record {
      few = b.few;
      short = omega (arith, b.short);
    } in
    (
      m',
      rw e,
      w',
      v,
      spent m m' (length cs) 0 (bytes_of cs) _ w w' v flds (omega (arith, values)) b',
    )
call_step (tag_at tag val idx) cs m w b =
    let small : IsSmall m 2 (length val + 1) = record {
      few = omega (arith, b.few);
      short = omega (arith, b.short);
    } in
    let (m', e, w', v) = add_tag_at_refines m tag val idx w small in
    let (flds, values) = add_tag_spec-grows (view m) tag val idx in
    (m', rw e, w', v, spent m m' (length cs) (length val + 1) (bytes_of cs) _ w w' v flds values b)
call_step (del n) cs m w b =
    let (w', v) = del_fld_lem m n w in
    let b' : HasBudget m (suc (length cs)) (0 + bytes_of cs) = record {
      few = b.few;
      short = omega (arith, b.short);
    } in
    let fewer : length (without m.flds n) ≤ nflds m + 2 = omega (arith, length-without m.flds n) in
    (
      del_fld m n,
      refl,
      w',
      v,
      spent m (del_fld m n) (length cs) 0 (bytes_of cs) _ w w' v fewer (omega arith) b',
    )

calls-refine :
    (cs : List Call) (m : Msg)
    → IsWell m
    → HasBudget m (length cs) (bytes_of cs)
    → (m' : Msg) × (calls cs m ≡ some m') × IsWell m' × (view m' ≡ calls_spec cs (view m))
unfolding calls calls_spec
calls-refine [] m w b = (m, refl, w, refl)
calls-refine (c ∷ cs) m w b =
    let (m', e, w', v, b') = call_step c cs m w b in
    let (m'', e', w'', v') = calls-refine cs m' w' b' in
    (m'', rw (e, e'), w'', v' ∙ ap (calls_spec cs) v)

-- From a new message, any sequence of `fixc_add_fld_at`, `fixc_add_tag_at` and `fixc_del_fld`, of fewer
-- than 2^55 calls and fewer than 2^60 bytes of values in all, does not leave the message's block: it ends in a
-- well-formed message, whose view is what the calls' specifications make of the new one's.
pub calls-make_fixc_msg :
    (ctx : ℕ) (cs : List Call)
    → length cs < 2 ^ 55
    → bytes_of cs < 2 ^ 60
    → (m : Msg) × (calls cs (make_fixc_msg ctx) ≡ some m)
      × IsWell m
      × (view m ≡ calls_spec cs (view (make_fixc_msg ctx)))
unfolding make_fixc_msg
calls-make_fixc_msg ctx cs few short =
    calls-refine cs (make_fixc_msg ctx) (make_fixc_msg-IsWell ctx)
      (record { few = omega (arith, few); short = omega (arith, short) })
