-- ===== src/Number.antt =====
-- Numbers as text in src/fix.c: `__strtoui16`, `__ui16tostr` and `__ui8tostr`, and what the code uses of
-- the C library: `strtol` in base 10, and `snprintf` with `%i` and `%zu`.
pub mod RoundTrip
pub mod Decimal
use libfixc.Base.{
  ℕ, zero, suc, ◌+◌, ◌-◌, ◌*◌, ◌/◌, ◌%◌, ◌^◌, ◌≡◌, refl, ◌&&◌, ◌||◌, Bool, List, [], ◌∷◌, ◌++◌,
  Bytes, min, ltb, leb, ◌==◌, if◌then◌else◌,
}
use libfixc.Edit.{char_to_uint}

-- One round of the loop of `__strtoui16`, in `unsigned int`.
abbrev pub accumulate : ℕ → ℕ → ℕ
accumulate res c = (res * 10 % 2 ^ 32 + (char_to_uint c + 2 ^ 32 - b'0')) % 2 ^ 32

pub scan : ℕ → Bytes → ℕ
scan res [] = res
scan res (c ∷ cs) = scan (accumulate res c) cs

-- `__strtoui16`: any number of 65536 and more is 0.
unfoldable pub strtoui16 : Bytes → ℕ
unfolding scan
strtoui16 s = if ltb (scan 0 s) 65536 then scan 0 s else 0

abbrev pub digit : ℕ → ℕ → ℕ
digit v k = v / k % 10 + b'0'

-- The number of digits that `__ui16tostr` chooses for a buffer of `bsz` bytes.
pub log_digits : ℕ → ℕ → ℕ
log_digits bsz v =
    if leb 10000 v
    then (if leb 6 bsz then 5 else 0)
    else if leb 1000 v && leb 5 bsz
    then 4
    else if leb 100 v
    then (if leb 4 bsz then 3 else 0)
    else if leb 10 v
    then (if leb 3 bsz then 2 else 0)
    else (if leb 2 bsz then 1 else 0)

-- The switch falls through from the first digit to the last, and the `=` behind it.
pub print_digits : ℕ → ℕ → Bytes
print_digits log v =
    if log == 5
    then digit v 10000 ∷ digit v 1000 ∷ digit v 100 ∷ digit v 10 ∷ digit v 1 ∷ b'=' ∷ []
    else if log == 4
    then digit v 1000 ∷ digit v 100 ∷ digit v 10 ∷ digit v 1 ∷ b'=' ∷ []
    else if log == 3
    then digit v 100 ∷ digit v 10 ∷ digit v 1 ∷ b'=' ∷ []
    else if log == 2
    then digit v 10 ∷ digit v 1 ∷ b'=' ∷ []
    else if log == 1
    then digit v 1 ∷ b'=' ∷ []
    else []

-- `__ui16tostr`: the bytes that it writes and counts. Where it counts none it stores a NUL.
unfoldable pub ui16tostr : ℕ → ℕ → Bytes
unfolding log_digits print_digits
ui16tostr bsz v = print_digits (log_digits bsz v) v

-- `__ui8tostr`.
unfoldable pub ui8tostr : ℕ → ℕ → Bytes
ui8tostr bsz v = if ltb bsz 3 then [] else digit v 100 ∷ digit v 10 ∷ digit v 1 ∷ []

-- `isdigit` and `isspace` of the C locale.
abbrev pub is_digit : ℕ → Bool
is_digit c = leb b'0' c && leb c b'9'

abbrev pub is_space : ℕ → Bool
is_space c = c == 32 || (leb 9 c && leb c 13)

-- The digits at the front of a text, as a number behind `n`.
pub read_digits : ℕ → Bytes → ℕ
read_digits n [] = n
read_digits n (c ∷ cs) =
    let rest = read_digits (n * 10 + (c - b'0')) cs in if is_digit c then rest else n

-- A magnitude as a `long`, saturated: the bit pattern of its low 32 bits.
abbrev pub long_pos : ℕ → ℕ
long_pos n = min n (2 ^ 63 - 1) % 2 ^ 32

abbrev pub long_neg : ℕ → ℕ
long_neg n = (2 ^ 64 - min n (2 ^ 63)) % 2 ^ 32

pub read_sign : Bytes → ℕ
unfolding read_digits
read_sign [] = 0
read_sign (c ∷ cs) =
    if c == b'-'
    then long_neg (read_digits 0 cs)
    else if c == b'+'
    then long_pos (read_digits 0 cs)
    else long_pos (read_digits 0 (c ∷ cs))

-- `(int32_t)strtol(str, NULL, 10)`, as a bit pattern.
unfoldable pub strtol : Bytes → ℕ
unfolding read_sign
strtol [] = 0
strtol (c ∷ cs) = let rest = strtol cs in if is_space c then rest else read_sign (c ∷ cs)

-- Decimal digits with `fuel` for their number; twenty serve for 64 bits.
pub decimal_fuel : ℕ → ℕ → Bytes
decimal_fuel zero n = []
decimal_fuel (suc fuel) n =
    let front = decimal_fuel fuel (n / 10) in
    if ltb n 10 then (n + b'0') ∷ [] else front ++ ((n % 10 + b'0') ∷ [])

-- `%zu`.
unfoldable pub decimal : ℕ → Bytes
unfolding decimal_fuel
decimal = decimal_fuel 20

-- `%i` of a bit pattern of `w` bits, `half` being 2^(w - 1).
unfoldable pub signed_decimal : ℕ → ℕ → Bytes
unfolding decimal
signed_decimal half v = if ltb v half then decimal v else b'-' ∷ decimal (2 * half - v)

read_digits-nul :
    (n : ℕ) (v behind : Bytes) → read_digits n (v ++ (0 ∷ behind)) ≡ read_digits n (v ++ 0 ∷ [])
unfolding read_digits
read_digits-nul n [] behind = refl
read_digits-nul n (c ∷ v) behind = rw (read_digits-nul (n * 10 + (c - b'0')) v behind)

read_sign-nul : (v behind : Bytes) → read_sign (v ++ (0 ∷ behind)) ≡ read_sign (v ++ 0 ∷ [])
unfolding read_sign
read_sign-nul [] behind = refl
read_sign-nul (c ∷ v) behind = rw (read_digits-nul 0 v behind, read_digits-nul 0 (c ∷ v) behind)

-- `strtol` stops at a NUL.
pub strtol-nul : (v behind : Bytes) → strtol (v ++ (0 ∷ behind)) ≡ strtol (v ++ 0 ∷ [])
unfolding strtol
strtol-nul [] behind = refl
strtol-nul (c ∷ v) behind = rw (strtol-nul v behind, read_sign-nul (c ∷ v) behind)
