-- ===== src/Tests/Reading.antt =====
-- Reading FIX text: an order with a version, a type and two fields.
use libfixc.Base.{◌<◌, ◌≡◌, refl, arith, some, List, [], ◌∷◌}
use libfixc.Message.{Msg, nflds}
use libfixc.Number.{strtoui16}
use libfixc.Version
use libfixc.Version.{v44, codes, ver_fixify}
use libfixc.Parse.{from_fix}
use libfixc.Parse.Pairs.{Pair, encode}
use libfixc.Parse.Loop.{AllClean, none_left, clean_pair}
use libfixc.Parse.Message.{message}
use libfixc.Parse.Slots.{
  full_pair, full_end, text_pair, text_end, AllFull, AllText, slots, values, texts, from_fix-slots,
}

abbrev begin : Pair
begin = record { k = codes "8"; v = codes "FIX.4.4" }

abbrev kind : Pair
kind = record { k = codes "35"; v = codes "D" }

abbrev symbol : Pair
symbol = record { k = codes "55"; v = codes "IBM" }

abbrev price : Pair
price = record { k = codes "44"; v = codes "7.5" }

abbrev order : List Pair
order = begin ∷ kind ∷ symbol ∷ price ∷ []

order-AllClean : AllClean order
unfolding strtoui16 Version.fix_verify Version.number
order-AllClean =
    clean_pair
      (record {
        tag_free = (refl, tt);
        val_free = (refl, (refl, (refl, (refl, (refl, (refl, (refl, tt)))))));
        not_comp = refl;
      })
      (clean_pair (record { tag_free = (refl, (refl, tt)); val_free = (refl, tt); not_comp = refl })
        (clean_pair
          (record {
            tag_free = (refl, (refl, tt));
            val_free = (refl, (refl, (refl, tt)));
            not_comp = refl;
          })
          (clean_pair
            (record {
              tag_free = (refl, (refl, tt));
              val_free = (refl, (refl, (refl, tt)));
              not_comp = refl;
            })
            (none_left))))

order-AllFull : AllFull order
order-AllFull = full_pair (omega arith) (omega arith) (
    full_pair (omega arith) (omega arith)
      (full_pair (omega arith) (omega arith) (full_pair (omega arith) (omega arith) (full_end))))

order-AllText : AllText order
order-AllText =
    text_pair (refl, (refl, (refl, (refl, (refl, (refl, (refl, tt)))))))
      (text_pair (refl, tt)
        (text_pair (refl, (refl, (refl, tt))) (text_pair (refl, (refl, (refl, tt))) (text_end))))

from_fix-slots_example :
    (m : Msg) × (from_fix (message order (codes "123")) ≡ some (some m))
    × (m.flds ≡ slots 0 order)
    × (texts m.pr m.flds ≡ values order)
    × (nflds m < m.fspc)
unfolding message encode
from_fix-slots_example =
    from_fix-slots order (codes "123") order-AllClean order-AllFull order-AllText
      (refl, (refl, (refl, tt))) (omega arith)
