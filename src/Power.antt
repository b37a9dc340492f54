-- ===== src/Power.antt =====
-- `__next_2power` of src/fix.c and `next2p` of src/fixml-wr.c, over a 64-bit `size_t`.
pub mod Bits
pub mod Laws
use libfixc.Base.{ℕ, ◌+◌, ◌-◌, ◌/◌, ◌%◌, ◌^◌, bit_or}

abbrev pub size_mod : ℕ
size_mod = 2 ^ 64

-- `size_t` addition.
abbrev pub add_size : ℕ → ℕ → ℕ
add_size a b = (a + b) % size_mod

-- `v |= v >> k`.
pub smear : ℕ → ℕ → ℕ
smear k v = bit_or v (v / 2 ^ k)

-- The six rounds of `|=`.
pub smear_all : ℕ → ℕ
smear_all v = smear 32 (smear 16 (smear 8 (smear 4 (smear 2 (smear 1 v)))))

-- `v--`, the rounds, `++v`.
pub next_2power : ℕ → ℕ
next_2power v = add_size (smear_all ((v + size_mod - 1) % size_mod)) 1
