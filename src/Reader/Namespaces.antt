-- ===== src/Reader/Namespaces.antt =====
-- The name spaces of the FIXML reader in src/fixml-rd.c: `tag_massage`, `__pref_to_ns`, `__nsid_from_href`,
-- `ptx_reg_ns` and `ptx_pref_p`.
use libfixc.Base.{
  ℕ, zero, suc, ◌+◌, ◌-◌, Bool, true, false, ◌&&◌, ◌||◌, Option, none, some, ◌>>=◌, List, [], ◌∷◌,
  Bytes, length, get_elem?, set, take, drop, leb, ◌==◌, if◌then◌else◌,
}
use libfixc.Version.{equal, fixml_nsiddify, number}

-- `struct ptx_ns_s`, and the array of them with the number of those in use.
pub record Ns : Type 0 where
  pub pref : Option Bytes
  pub href : Option Bytes
  pub nsid : ℕ

abbrev pub no_ns : Ns
no_ns = record { pref = none; href = none; nsid = 0 }

pub record Spaces : Type 0 where
  pub ns : List Ns
  pub nns : ℕ

abbrev blank_spaces : ℕ → List Ns
blank_spaces zero = []
blank_spaces (suc n) = no_ns ∷ blank_spaces n

abbrev pub max_spaces : ℕ
max_spaces = 16

unfoldable pub no_spaces : Spaces
no_spaces = record { ns = blank_spaces max_spaces; nns = 0 }

unfoldable pub ns_at : ℕ → Spaces → Option Ns
ns_at i s = get_elem? s.ns i

-- `tag_massage`: where the colon of a name is, and the name behind it.
unfoldable pub colon : Bytes → Option ℕ
colon [] = none
colon (c ∷ cs) = let rest = colon cs in if c == b':' then some 0 else (do p ← rest; some (p + 1))

unfoldable pub real_name : Bytes → Bytes
real_name s = elim (colon s) [ none ↦ s | some p ↦ drop (p + 1) s ]

-- `relem - elem`.
unfoldable pub pref_len : Bytes → ℕ
pref_len s = elim (colon s) [ none ↦ 0 | some p ↦ p + 1 ]

-- The length without a colon at the end; a length of 0 reads in front of the text.
unfoldable pub less_colon : Bytes → ℕ → Option ℕ
less_colon s zero = none
less_colon s (suc n) = do c ← get_elem? s n; some (if c == b':' then n else suc n)

-- The search of `__pref_to_ns`: the prefix of a name space may be a null pointer.
unfoldable pub find_ns : ℕ → Bytes → List Ns → ℕ → Option (Option ℕ)
find_ns zero pref nss i = some none
find_ns (suc n) pref [] i = none
find_ns (suc n) pref (s ∷ ss) i =
    let rest = find_ns n pref ss (suc i) in
    elim s.pref [
      | none ↦ none
      | some p ↦ if equal (take (length pref) p) pref then some (some i) else rest
    ]

-- `__pref_to_ns`: the index of the name space, or `none` for NULL.
unfoldable pub pref_to_ns : Spaces → Bytes → ℕ → Option (Option ℕ)
pref_to_ns s pref len = do
  first ← ns_at 0 s
  let default : Bool = elim first.pref [ none ↦ true | some _ ↦ false ]
  if first.nsid == 0 then some (some 0) else if len == 0 && default then some (some 0) else (do
    n ← less_colon pref len
    let i = if default then 1 else 0
    find_ns (s.nns - i) (take n pref) (drop i s.ns) i)

-- `__nsid_from_href`.
unfoldable pub nsid_from_href : Bytes → ℕ
nsid_from_href href = elim (fixml_nsiddify href) [ none ↦ 0 | some v ↦ number v ]

abbrev pub is_favourite : ℕ → Bool
is_favourite nsid = nsid == 6 || nsid == 7 || nsid == 8

-- A name space behind those in use.
abbrev pub append_ns : Ns → Spaces → Spaces
append_ns x s = record { ns = set s.ns s.nns x; nns = s.nns + 1 }

-- The one at 0 moved behind those in use, if there is one.
unfoldable pub move_first : Spaces → Spaces
move_first s = elim (ns_at 0 s) [
  | none ↦ s
  | some first ↦ elim first.href [ none ↦ s | some _ ↦ append_ns first s ]
]

-- `ptx_reg_ns`.
unfoldable pub reg_ns : Option Bytes → Bytes → Spaces → Spaces
reg_ns pref href s =
    let nsid = nsid_from_href href in
    let new : Ns = record { pref = pref; href = some href; nsid = nsid } in
    let moved = move_first s in
    if leb max_spaces s.nns
    then s
    else if is_favourite nsid
    then record moved { ns = set moved.ns 0 new }
    else append_ns new s

-- `ptx_pref_p`.
unfoldable pub pref_p : Spaces → Bytes → ℕ → Option Bool
pref_p s pref len = do
  first ← ns_at 0 s
  elim first.href [
    | none ↦ some false
    | some _ ↦ elim first.pref [
      | none ↦ some (len == 0)
      | some p ↦
          if len == 0
          then some false
          else (do n ← less_colon pref len; some (equal (take n pref) (take n p)))
    ]
  ]

-- The length under which an attribute is looked up: that of its prefix, where that is none of ours.
unfoldable pub lookup_len : Spaces → Bytes → Option ℕ
lookup_len s attr = elim (colon attr) [
  | none ↦ some (length attr)
  | some p ↦ do ours ← pref_p s attr (p + 1); some (if ours then length attr - (p + 1) else p)
]

abbrev pub v50_sp2_id : ℕ
v50_sp2_id = 8

-- The versions with a handler.
abbrev pub is_fixml : ℕ → Bool
is_fixml nsid = nsid == 5 || is_favourite nsid
