-- ===== src/Reader/Sizes.antt =====
-- How much room the items of a document take, and what adding them one after the other comes to.
use libfixc.Base.{
  ℕ, ◌+◌, ◌≡◌, ◌≤◌, refl, ap, arith, List, [], ◌∷◌, ◌++◌, length, length-append, length-drop_last,
}
use libfixc.Message.{Msg}
use libfixc.Storage.Grow.{IsSmall}
use libfixc.Edit.View.{View, view}
use libfixc.Edit.Valid.{length-values}
use libfixc.Reader.Markup.{Item, drop_same, put_item, put_items, text_size}
use libfixc.Reader.Marks.{IsRead}

pub put_items-append :
    (is js : List Item) (v : View) → put_items (is ++ js) v ≡ put_items js (put_items is v)
unfolding put_items
put_items-append [] js v = refl
put_items-append (i ∷ is) js v = put_items-append is js (put_item i v)

pub text_size-append : (is js : List Item) → text_size (is ++ js) ≡ text_size is + text_size js
unfolding text_size
text_size-append [] js = omega arith
text_size-append (i ∷ is) js = omega (arith, text_size-append is js)

-- What items add to the sizes.
record Sized (is : List Item) (v w : View) : Type 0 where
  few : length w.flds ≤ length v.flds + length is
  short : length w.values ≡ length v.values + text_size is

Sized-drop_same :
    (tag : ℕ) (v : View)
    → (length (drop_same tag v).flds ≤ length v.flds) × ((drop_same tag v).values ≡ v.values)
unfolding drop_same
Sized-drop_same tag v = ground (arith, length-drop_last v.flds)

Sized-put_items : (is : List Item) (v : View) → Sized is v (put_items is v)
unfolding put_items put_item text_size
Sized-put_items [] v = record { few = omega arith; short = omega arith }
Sized-put_items (i ∷ is) v =
    let (less, same) = Sized-drop_same i.tag v in
    let s = Sized-put_items is (put_item i v) in
    record {
      few = omega (arith, s.few, less, length-append (drop_same i.tag v).flds (_ ∷ []));
      short = omega (
        arith,
        s.short,
        ap length same,
        length-append (drop_same i.tag v).values (i.val ++ 0 ∷ []),
        length-append i.val (0 ∷ []),
      );
    }

-- The room that is left.
pub IsSmall-put_items :
    (is : List Item) (m m' : Msg) {f v : ℕ}
    → IsRead m
    → IsRead m'
    → view m' ≡ put_items is (view m)
    → IsSmall m (length is + f) (text_size is + v)
    → IsSmall m' f v
IsSmall-put_items is m m' r r' e small =
    let s = Sized-put_items is (view m) in
    omega (
      arith,
      small,
      s.few,
      s.short,
      ap (λ (x : View). length x.flds) e,
      ap (λ (x : View). length x.values) e,
      length-values m r.well.storage,
      length-values m' r'.well.storage,
    )

pub IsSmall-same :
    (m m' : Msg) {f v : ℕ}
    → IsRead m
    → IsRead m'
    → view m' ≡ view m
    → IsSmall m f v
    → IsSmall m' f v
IsSmall-same m m' r r' e small = omega (
  arith,
  small,
  ap (λ (x : View). length x.flds) e,
  ap (λ (x : View). length x.values) e,
  length-values m r.well.storage,
  length-values m' r'.well.storage,
)

-- The room for items in three parts.
pub IsSmall-append :
    (m : Msg) (is js ks : List Item)
    → IsSmall m (length (is ++ (js ++ ks)) + 1) (text_size (is ++ (js ++ ks)))
    → IsSmall m
        (length is + (length js + (length ks + 1)))
        (text_size is + (text_size js + text_size ks))
IsSmall-append m is js ks small = omega (
  arith,
  small,
  length-append is (js ++ ks),
  length-append js ks,
  text_size-append is (js ++ ks),
  text_size-append js ks,
)

pub put_items-append3 :
    (is js ks : List Item) (v v1 v2 v3 v4 : View)
    → v1 ≡ put_items is v
    → v2 ≡ put_items js v1
    → v3 ≡ v2
    → v4 ≡ put_items ks v3
    → v4 ≡ put_items (is ++ (js ++ ks)) v
put_items-append3 is js ks v v1 v2 v3 v4 e1 e2 e3 e4 =
    rw (put_items-append is (js ++ ks), put_items-append js ks, ← e1, ← e2, ← e3) e4
