-- ===== src/Parse/Message.antt =====
-- `make_fixc_from_fix` on a whole message: clean pairs and a checksum behind them.
use libfixc.Base.{
  ℕ, zero, suc, ◌+◌, ◌-◌, ◌≤◌, ◌<◌, ◌≡◌, refl, ap, ◌∙◌, sym, arith, false, none, some, List, [],
  ◌∷◌, ◌++◌, append_assoc, Bytes, length, length-append, ◌==◌,
}
use libfixc.Message.{Msg, nflds, low32, set_low8, fld_zero}
use libfixc.Message.Tag
use libfixc.Message.Typ
use libfixc.Number.{strtoui16}
use libfixc.Parse.{
  key, value, Anal, parse_tag, byte_at, parse_fld, anal, until, soh, from_fix_husk, from_fix,
  round_in, value_round,
}
use libfixc.Parse.Pairs.{
  Pair, encode, nulled, Free, absorb, absorb_all, nflds-absorb, fspc-absorb, comp-absorb,
}
use libfixc.Parse.Loop.{AllClean, clean_pair, rounds, anal_pairs, anal_key, last_cur, append_cons}

-- The checksum's pair, a SOH at the end of its value.
abbrev pub check : Bytes → Pair
check sum = record { k = b'1' ∷ b'0' ∷ []; v = sum ++ (soh ∷ []) }

-- A message: pairs, and the checksum without anything behind it.
unfoldable pub message : List Pair → Bytes → Bytes
message ps sum = encode ps (b'1' ∷ b'0' ∷ b'=' ∷ (sum ++ soh ∷ []))

until-last : (d : ℕ) (xs : Bytes) → Free d xs → until d (xs ++ d ∷ []) ≡ none
unfolding until
until-last d [] h = refl
until-last d (x ∷ []) h = rw h.0
until-last d (x ∷ x' ∷ xs) h = rw (h.0, until-last d (x' ∷ xs) h.1)

length-last : (xs : Bytes) (d : ℕ) → length (xs ++ d ∷ []) ≡ suc (length xs)
length-last xs d = omega (arith, length-append xs (d ∷ []))

pub rounds-add : (ps : List Pair) (fuel : ℕ) → rounds ps fuel ≡ length ps + length ps + fuel
unfolding rounds
rounds-add [] fuel = omega arith
rounds-add (p ∷ ps) fuel = omega (arith, rounds-add ps fuel)

pub length-encode :
    (ps : List Pair) (tail : Bytes) → length ps + length ps + length tail ≤ length (encode ps tail)
unfolding encode
length-encode [] tail = omega arith
length-encode (p ∷ ps) tail = omega (
  arith,
  length-encode ps tail,
  length-append p.k (b'=' ∷ (p.v ++ (soh ∷ encode ps tail))),
  length-append p.v (soh ∷ encode ps tail),
)

-- With two rounds for a pair there is fuel left for the checksum.
fuel-message :
    (ps : List Pair) (sum : Bytes)
    → (fuel : ℕ) × (length (message ps sum) ≡ rounds ps (suc (suc fuel)))
unfolding message
fuel-message ps sum =
    let tail = b'1' ∷ b'0' ∷ b'=' ∷ (sum ++ soh ∷ []) in
    let n = length (encode ps tail) in
    let enough : length ps + length ps + suc (suc zero) ≤ n =
      omega (arith, length-encode ps tail) in
    let fuel = n - (length ps + length ps + 2) in
    (fuel, omega (arith, rounds-add ps (suc (suc fuel))))

-- The checksum as the reader leaves it: the first byte of its text.
unfoldable pub absorb_sum : Msg → Bytes → Msg
absorb_sum m sum = record m {
  f10 =
      set_low8 (record m.f10 { tag = Tag.check_sum; typ = Typ.uchar })
        (byte_at (sum ++ soh ∷ []) 0);
}

byte_at-nul : (sum : Bytes) → byte_at ((sum ++ soh ∷ []) ++ 0 ∷ []) 0 ≡ byte_at (sum ++ soh ∷ []) 0
byte_at-nul [] = refl
byte_at-nul (x ∷ sum) = refl

anal-end :
    (fuel : ℕ) (a : Anal)
    → a.rest ≡ []
    → anal fuel a ≡ some (record { msg = a.msg; st = a.st; done = a.done; rest = [] })
unfolding anal
anal-end zero a r = rw r
anal-end (suc fuel) a r = rw r

module _ (fuel : ℕ) (a : Anal) (sum : Bytes) where
  -- The last round, of the checksum's value.
  anal_sum :
      a.st ≡ value
      → a.rest ≡ sum ++ soh ∷ []
      → a.cur ≡ parse_tag (check sum).k
      → Free soh sum
      → (low32 a.msg.f8 == 10) ≡ false
      → anal (suc fuel) a
        ≡ some (record {
          msg = absorb_sum a.msg sum;
          st = key;
          done = a.done ++ (sum ++ soh ∷ []);
          rest = [];
        })
  unfolding anal round_in value_round parse_tag strtoui16 absorb_sum parse_fld
  anal_sum s r c free plain =
      let full : (length (sum ++ soh ∷ []) == 0) ≡ false =
        ground (arith, length-append sum (soh ∷ [])) in
      rw (s, r, full, until-last soh sum free, c, byte_at-nul sum, plain) (anal-end fuel _ refl)

pub nflds-absorb_all :
    (m : Msg) (pos : ℕ) (ps : List Pair) → nflds (absorb_all m pos ps) ≤ nflds m + length ps
unfolding absorb_all
nflds-absorb_all m pos [] = omega arith
nflds-absorb_all m pos (p ∷ ps) = omega (
  arith,
  nflds-absorb m pos p,
  nflds-absorb_all (absorb m pos p) (pos + length p.k + 1 + length p.v + 1) ps,
)

pub fspc-absorb_all : (m : Msg) (pos : ℕ) (ps : List Pair) → (absorb_all m pos ps).fspc ≡ m.fspc
unfolding absorb_all
fspc-absorb_all m pos [] = refl
fspc-absorb_all m pos (p ∷ ps) = fspc-absorb_all (absorb m pos p) _ ps ∙ fspc-absorb m pos p

pub comp-absorb_all :
    (m : Msg) (pos : ℕ) (ps : List Pair)
    → AllClean ps
    → (low32 m.f8 == 10) ≡ false
    → (low32 (absorb_all m pos ps).f8 == 10) ≡ false
unfolding absorb_all
comp-absorb_all m pos [] clean h = h
comp-absorb_all m pos (p ∷ ps) (clean_pair c cs) h =
    comp-absorb_all (absorb m pos p) _ ps cs (comp-absorb m pos p c h)

module _ (ps : List Pair) (sum : Bytes) (clean : AllClean ps) (free : Free soh sum) where
  -- The loop on a message, from its start.
  anal-message :
      (fuel : ℕ) (m : Msg)
      → nflds m + length ps < m.fspc
      → (low32 m.f8 == 10) ≡ false
      → anal
          (rounds ps (suc (suc fuel)))
          (record { msg = m; cur = fld_zero; st = key; done = []; rest = message ps sum })
        ≡ some (record {
          msg = absorb_sum (absorb_all m 0 ps) sum;
          st = key;
          done = (nulled ps ++ (b'1' ∷ b'0' ∷ 0 ∷ [])) ++ (sum ++ soh ∷ []);
          rest = [];
        })
  unfolding message
  anal-message fuel m slots plain =
      let start : Anal = record {
        msg = m;
        cur = fld_zero;
        st = key;
        done = [];
        rest = message ps sum;
      } in
      let mid : Anal = record start {
        msg = absorb_all m 0 ps;
        cur = last_cur fld_zero ps;
        done = nulled ps;
        rest = b'1' ∷ b'0' ∷ b'=' ∷ (sum ++ soh ∷ []);
      } in
      let plain' = comp-absorb_all m 0 ps clean plain in
      let slot : nflds mid.msg < mid.msg.fspc =
        omega (arith, nflds-absorb_all m 0 ps, fspc-absorb_all m 0 ps) in
      let (y, ys, front) = append_cons sum soh [] in
      let at_sum : Anal = record mid {
        cur = parse_tag (check sum).k;
        st = value;
        done = nulled ps ++ (b'1' ∷ b'0' ∷ 0 ∷ []);
        rest = y ∷ ys;
      } in
      anal_pairs ps (suc (suc fuel)) start _ _ refl refl clean (omega arith) plain
      ∙ anal_key (suc fuel) mid (b'1' ∷ b'0' ∷ []) y ys refl
          (ap (λ l. b'1' ∷ b'0' ∷ b'=' ∷ l) front) (refl, (refl, tt)) slot plain'
      ∙ anal_sum fuel at_sum sum refl (sym front) refl free plain'

-- `make_fixc_from_fix` on clean pairs and a checksum, with a slot for each: the pairs one after the other.
pub from_fix-message :
    (ps : List Pair) (sum : Bytes)
    → AllClean ps
    → Free soh sum
    → length ps < (from_fix_husk (length (message ps sum))).fspc
    → from_fix (message ps sum)
      ≡ some (
          some
            (record (absorb_sum (absorb_all (from_fix_husk (length (message ps sum))) 0 ps) sum) {
              pr = nulled ps ++ (b'1' ∷ b'0' ∷ 0 ∷ (sum ++ (soh ∷ 0 ∷ [])));
            }))
unfolding from_fix message
from_fix-message ps sum clean free slots =
    let (fuel, e) = fuel-message ps sum in
    let m = from_fix_husk (length (message ps sum)) in
    let run =
      ap
        (λ n.
          anal n (record { msg = m; cur = fld_zero; st = key; done = []; rest = message ps sum }))
        e
      ∙ anal-message ps sum clean free fuel m (omega arith) refl in
    let ten = b'1' ∷ b'0' ∷ 0 ∷ [] in
    let text =
      append_assoc (nulled ps ++ ten) (sum ++ soh ∷ []) (0 ∷ [])
      ∙ append_assoc (nulled ps) ten ((sum ++ soh ∷ []) ++ 0 ∷ [])
      ∙ ap (λ l. nulled ps ++ (ten ++ l)) (append_assoc sum (soh ∷ []) (0 ∷ [])) in
    rw run (ap (λ l. some (some (record (absorb_sum (absorb_all m 0 ps) sum) { pr = l }))) text)
