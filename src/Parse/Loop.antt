-- ===== src/Parse/Loop.antt =====
-- The loop of `anal` over clean pairs and a checksum: a pair takes two rounds.
use libfixc.Base.{
  ℕ, suc, ◌+◌, ◌≤◌, ◌<◌, ◌≡◌, refl, ap, ◌∙◌, sym, arith, true, false, List, [], ◌∷◌, ◌++◌,
  append_assoc, append-nil, Bytes, length, length-append, ltb, ◌==◌,
}
use libfixc.Message.{Fld, Msg, nflds, low32}
use libfixc.Parse.{
  key, value, Anal, parse_tag, parse_fld, round_in, key_round, value_round, compressed, anal, soh,
}
use libfixc.Parse.Pairs.{
  Pair, encode, nulled, Free, until-Free, IsClean, absorb, absorb_all, parse_fld-behind,
  comp-absorb, nflds-absorb, fspc-absorb,
}

not_compressed : (m : Msg) → (low32 m.f8 == 10) ≡ false → compressed m ≡ false
not_compressed m h = rw h

not_empty : (xs : Bytes) (d : ℕ) (ys : Bytes) → (length (xs ++ (d ∷ ys)) == 0) ≡ false
not_empty [] d ys = ground arith
not_empty (x ∷ xs) d ys = ground arith

module _ (fuel : ℕ) (a : Anal) where
  -- The round of a tag.
  pub anal_key :
      (k : Bytes) (y : ℕ) (ys : Bytes)
      → a.st ≡ key
      → a.rest ≡ k ++ (b'=' ∷ y ∷ ys)
      → Free b'=' k
      → nflds a.msg < a.msg.fspc
      → (low32 a.msg.f8 == 10) ≡ false
      → anal (suc fuel) a
        ≡ anal fuel (record a {
          cur = parse_tag k;
          st = value;
          done = a.done ++ (k ++ 0 ∷ []);
          rest = y ∷ ys;
        })
  unfolding anal round_in key_round
  anal_key k y ys s r free slot plain =
      let slot' : ltb (nflds a.msg) a.msg.fspc ≡ true = ground arith in
      rw (s, r, not_empty k b'=' (y ∷ ys), until-Free b'=' k y ys free, slot', plain)

  -- The round of a value.
  anal_value :
      (v : Bytes) (y : ℕ) (ys : Bytes)
      → a.st ≡ value
      → a.rest ≡ v ++ (soh ∷ y ∷ ys)
      → Free soh v
      → (m : Msg) → parse_fld a.msg a.cur (length a.done) (v ++ 0 ∷ []) (length v) ≡ m
      → (low32 m.f8 == 10) ≡ false
      → anal (suc fuel) a
        ≡ anal fuel (record a { msg = m; st = key; done = a.done ++ (v ++ 0 ∷ []); rest = y ∷ ys })
  unfolding anal round_in value_round
  anal_value v y ys s r free m e plain = rw (
    s,
    r,
    not_empty v soh (y ∷ ys),
    until-Free soh v y ys free,
    parse_fld-behind a.msg a.cur (length a.done) v (y ∷ ys),
    e,
    plain,
  )

pub append_cons :
    (xs : Bytes) (d : ℕ) (zs : Bytes) → (y : ℕ) × (ys : Bytes) × (xs ++ (d ∷ zs) ≡ y ∷ ys)
append_cons [] d zs = (d, zs, refl)
append_cons (x ∷ xs) d zs = (x, xs ++ (d ∷ zs), refl)

encode_cons :
    (ps : List Pair) (t : ℕ) (ts : Bytes) → (y : ℕ) × (ys : Bytes) × (encode ps (t ∷ ts) ≡ y ∷ ys)
unfolding encode
encode_cons [] t ts = (t, ts, refl)
encode_cons (p ∷ ps) t ts = append_cons p.k _ _

-- Two rounds take a clean pair.
anal_pair :
    (fuel : ℕ) (a : Anal) (p : Pair) (ps : List Pair) (t : ℕ) (ts : Bytes)
    → a.st ≡ key
    → a.rest ≡ encode (p ∷ ps) (t ∷ ts)
    → IsClean p
    → nflds a.msg < a.msg.fspc
    → (low32 a.msg.f8 == 10) ≡ false
    → anal (suc (suc fuel)) a
      ≡ anal fuel (record a {
        msg = absorb a.msg (length a.done) p;
        cur = parse_tag p.k;
        st = key;
        done = a.done ++ (p.k ++ 0 ∷ []) ++ (p.v ++ 0 ∷ []);
        rest = encode ps (t ∷ ts);
      })
unfolding encode absorb
anal_pair fuel a p ps t ts s r clean slot plain =
    let (y, ys, front) = append_cons p.v soh (encode ps (t ∷ ts)) in
    let (z, zs, behind) = encode_cons ps t ts in
    let mid = record a {
      cur = parse_tag p.k;
      st = value;
      done = a.done ++ (p.k ++ 0 ∷ []);
      rest = y ∷ ys;
    } in
    let pos : length (a.done ++ (p.k ++ 0 ∷ [])) ≡ length a.done + length p.k + 1 =
      omega (arith, length-append a.done (p.k ++ 0 ∷ []), length-append p.k (0 ∷ [])) in
    anal_key (suc fuel) a p.k y ys s (r ∙ ap (λ l. p.k ++ (b'=' ∷ l)) front) clean.tag_free slot
      plain
    ∙ anal_value fuel mid p.v z zs refl (sym front ∙ ap (λ l. p.v ++ (soh ∷ l)) behind)
        clean.val_free (absorb a.msg (length a.done) p)
        (ap (λ i. parse_fld a.msg (parse_tag p.k) i (p.v ++ 0 ∷ []) (length p.v)) pos)
        (comp-absorb a.msg (length a.done) p clean plain)
    ∙ ap
        (λ l. anal fuel (record mid {
          msg = absorb a.msg (length a.done) p;
          st = key;
          done = mid.done ++ (p.v ++ 0 ∷ []);
          rest = l;
        }))
        (sym behind)

pub data AllClean : List Pair → Type 0 where
  none_left : AllClean []
  clean_pair : {p : Pair} {ps : List Pair} → IsClean p → AllClean ps → AllClean (p ∷ ps)

-- The slot behind the fields after the pairs.
pub last_cur : Fld → List Pair → Fld
last_cur cur [] = cur
last_cur cur (p ∷ ps) = last_cur (parse_tag p.k) ps

-- Two rounds for every pair, and `fuel` more.
unfoldable pub rounds : List Pair → ℕ → ℕ
rounds [] fuel = fuel
rounds (p ∷ ps) fuel = suc (suc (rounds ps fuel))

pub anal_pairs :
    (ps : List Pair) (fuel : ℕ) (a : Anal) (t : ℕ) (ts : Bytes)
    → a.st ≡ key
    → a.rest ≡ encode ps (t ∷ ts)
    → AllClean ps
    → nflds a.msg + length ps ≤ a.msg.fspc
    → (low32 a.msg.f8 == 10) ≡ false
    → anal (rounds ps fuel) a
      ≡ anal fuel (record a {
        msg = absorb_all a.msg (length a.done) ps;
        cur = last_cur a.cur ps;
        done = a.done ++ nulled ps;
        rest = t ∷ ts;
      })
unfolding rounds last_cur absorb_all nulled encode
anal_pairs [] fuel a t ts s r clean slots plain =
    ap (anal fuel) λ i. record a { done = sym (append-nil a.done) i; rest = r i }
anal_pairs (p ∷ ps) fuel a t ts s r (clean_pair c cs) slots plain =
    anal_pair (rounds ps fuel) a p ps t ts s r c (omega arith) plain
    ∙ anal_pairs ps fuel next t ts refl refl cs
        (omega (arith, nflds-absorb a.msg (length a.done) p, fspc-absorb a.msg (length a.done) p))
        (comp-absorb a.msg (length a.done) p c plain)
    ∙ ap (anal fuel) (λ i. record {
      msg = absorb_all next.msg (there i) ps;
      cur = last_cur next.cur ps;
      st = sym s i;
      done = (append_assoc (a.done ++ k) v (nulled ps) ∙ append_assoc a.done k (v ++ nulled ps)) i;
      rest = t ∷ ts;
    })
  where
    k : Bytes
    k = p.k ++ 0 ∷ []

    v : Bytes
    v = p.v ++ 0 ∷ []

    next : Anal
    next = record a {
      msg = absorb a.msg (length a.done) p;
      cur = parse_tag p.k;
      st = key;
      done = a.done ++ k ++ v;
      rest = encode ps (t ∷ ts);
    }

    there : length next.done ≡ length a.done + length p.k + 1 + length p.v + 1
    there = omega (
      arith,
      length-append (a.done ++ k) v,
      length-append a.done k,
      length-append p.k (0 ∷ []),
      length-append p.v (0 ∷ []),
    )
