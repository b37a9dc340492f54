-- ===== src/Engine/Paths.antt =====
-- `add_myself` of src/engdso.c: the directories that it gives the loader, by the path of the running
-- program and by the directory that was configured at build time.
use libfixc.Base.{
  ℕ, ◌+◌, Bool, false, ◌||◌, Option, none, some, ◌>>=◌, List, [], ◌∷◌, ◌++◌, Bytes, length, ltb,
  ◌==◌, if◌then◌else◌,
}
use libfixc.Version.{codes, equal}

-- `strrchr(s, '/')`: the text before the last slash, and the text from it on.
unfoldable pub at_last_slash : Bytes → Option (Bytes × Bytes)
at_last_slash [] = none
at_last_slash (c ∷ cs) = elim (at_last_slash cs) [
  | some (a, b) ↦ some (c ∷ a, b)
  | none ↦ if c == b'/' then some ([], c ∷ cs) else none
]

-- `memcmp(s, p, n)` for a literal `p` of `n` bytes, and what is behind it.
unfoldable pub behind : Bytes → Bytes → Option Bytes
behind [] s = some s
behind (c ∷ cs) [] = none
behind (c ∷ cs) (x ∷ xs) = let rest = behind cs xs in if c == x then rest else none

abbrev pub path_max : ℕ
path_max = 4096

unfoldable pub starts : ℕ → Bytes → Bool
starts c [] = false
starts c (x ∷ xs) = x == c

-- The directory relative to the installation's prefix: `none` where there is none to look for.
unfoldable pub relative : Bytes → Option Bytes
relative moddir = elim (behind (codes "${exec_prefix}") moddir) [
  | some rel ↦ some rel
  | none ↦ behind (codes "${prefix}") moddir
]

-- The last part: one level up from a directory `bin` or `sbin`. The new path has to fit with its NUL.
unfoldable pub beside : Bytes → Bytes → Option (List Bytes)
beside dir rel = elim (at_last_slash dir) [
  | none ↦ some []
  | some (up, last) ↦
      if equal last (codes "/bin") || equal last (codes "/sbin")
      then (if ltb (length up + length rel) path_max then some ((up ++ rel) ∷ []) else none)
      else some []
]

-- The tests on the first character of the configured directory.
unfoldable pub more_dirs : Bytes → Bytes → Option (List Bytes)
more_dirs dir moddir =
    if starts b'/' moddir
    then some (moddir ∷ [])
    else if starts b'.' moddir
    then some []
    else elim (relative moddir) [ none ↦ some [] | some rel ↦ beside dir rel ]

-- `add_myself`. The path has to be there and to fit with its NUL: the code takes the result of `readlink`
-- for an index without a test.
unfoldable pub search_dirs : Option Bytes → Bytes → Option (List Bytes)
search_dirs none moddir = none
search_dirs (some exe) moddir =
    if ltb (length exe) path_max
    then elim (at_last_slash exe) [
      | none ↦ some []
      | some (dir, _) ↦ do more ← more_dirs dir moddir; some (dir ∷ more)
    ]
    else none
