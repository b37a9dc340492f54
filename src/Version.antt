-- ===== src/Version.antt =====
-- The versions of src/fix-nsuri.h and the tables between them and their names: the keywords of
-- src/fix-ver.gperf (`__fix_verify`), and `__ver_fixify`, `__ver_fixmlify` and `__ver_fixml_v_ify`
-- of src/fixml-nsuri-rev.c. The table of src/fixml-nsuri.gperf (`__fixml_nsiddify`) goes back.
pub mod RoundTrip
use Prim.Native.Char.{code}
use Prim.Native.String.{String}
use libfixc.Base.{
  ℕ, Bool, true, false, ◌&&◌, List, [], ◌∷◌, Option, none, some, Bytes, ◌==◌, if◌then◌else◌,
}

pub data Ver : Type 0 where
  unk v40 v41 v42 v43 v44 v50 v50_sp1 v50_sp2 t11 comp : Ver

-- The value of the C enum.
unfoldable pub number : Ver → ℕ
number unk = 0
number v40 = 1
number v41 = 2
number v42 = 3
number v43 = 4
number v44 = 5
number v50 = 6
number v50_sp1 = 7
number v50_sp2 = 8
number t11 = 9
number comp = 10

-- The bytes of an ASCII text.
abbrev pub codes : String → Bytes
codes String.[] = []
codes (String.◌∷◌ c s) = code c ∷ codes s

-- `strcmp` of texts with no NUL in them.
unfoldable pub equal : Bytes → Bytes → Bool
equal [] [] = true
equal (x ∷ xs) (y ∷ ys) = x == y && equal xs ys
equal _ _ = false

pub find : List (String × Ver) → Bytes → Option Ver
unfolding equal
find [] s = none
find ((name, v) ∷ rows) s = if equal s (codes name) then some v else find rows s

abbrev pub fix_ver_keywords : List (String × Ver)
fix_ver_keywords =
    ("FIX.4.0", v40)
    ∷ ("FIX.4.1", v41)
    ∷ ("FIX.4.2", v42)
    ∷ ("FIX.4.3", v43)
    ∷ ("FIX.4.4", v44)
    ∷ ("FIX.5.0", v50)
    ∷ ("FIX.5.0.SP1", v50_sp1)
    ∷ ("FIX.5.0.SP2", v50_sp2)
    ∷ ("FIXT.1.1", t11)
    ∷ ("FIXCOMP", comp)
    ∷ []

-- `__fix_verify`; `none` for NULL.
unfoldable pub fix_verify : Bytes → Option Ver
unfolding find
fix_verify = find fix_ver_keywords

-- `__ver_fixify`.
unfoldable pub ver_fixify : Ver → Bytes
ver_fixify v40 = codes "FIX.4.0"
ver_fixify v41 = codes "FIX.4.1"
ver_fixify v42 = codes "FIX.4.2"
ver_fixify v43 = codes "FIX.4.3"
ver_fixify v44 = codes "FIX.4.4"
ver_fixify v50 = codes "FIX.5.0"
ver_fixify v50_sp1 = codes "FIX.5.0.SP1"
ver_fixify v50_sp2 = codes "FIX.5.0.SP2"
ver_fixify t11 = codes "FIXT.1.1"
ver_fixify _ = []

abbrev pub nsuri_keywords : List (String × Ver)
nsuri_keywords =
    ("http://www.fixprotocol.org/FIXML-4-4", v44)
    ∷ ("4.4", v44)
    ∷ ("http://www.fixprotocol.org/FIXML-5-0", v50)
    ∷ ("5.0", v50)
    ∷ ("http://www.fixprotocol.org/FIXML-5-0-SP1", v50_sp1)
    ∷ ("5.0 SP1", v50_sp1)
    ∷ ("5.0SP1", v50_sp1)
    ∷ ("http://www.fixprotocol.org/FIXML-5-0-SP2", v50_sp2)
    ∷ ("5.0 SP2", v50_sp2)
    ∷ ("5.0SP2", v50_sp2)
    ∷ []

-- `__fixml_nsiddify`.
unfoldable pub fixml_nsiddify : Bytes → Option Ver
unfolding find
fixml_nsiddify = find nsuri_keywords

-- `__ver_fixmlify`.
unfoldable pub ver_fixmlify : Ver → Bytes
ver_fixmlify v44 = codes "http://www.fixprotocol.org/FIXML-4-4"
ver_fixmlify v50 = codes "http://www.fixprotocol.org/FIXML-5-0"
ver_fixmlify v50_sp1 = codes "http://www.fixprotocol.org/FIXML-5-0-SP1"
ver_fixmlify v50_sp2 = codes "http://www.fixprotocol.org/FIXML-5-0-SP2"
ver_fixmlify _ = []

-- `__ver_fixml_v_ify`.
unfoldable pub ver_fixml_v_ify : Ver → Bytes
ver_fixml_v_ify v44 = codes "4.4"
ver_fixml_v_ify v50 = codes "5.0"
ver_fixml_v_ify v50_sp1 = codes "5.0 SP1"
ver_fixml_v_ify v50_sp2 = codes "5.0 SP2"
ver_fixml_v_ify _ = []

-- The enum value that a union holds, as a version; a value of no constant is taken by each `default`.
unfoldable pub of_number : ℕ → Ver
of_number n =
    if n == 1
    then v40
    else if n == 2
    then v41
    else if n == 3
    then v42
    else if n == 4
    then v43
    else if n == 5
    then v44
    else if n == 6
    then v50
    else if n == 7
    then v50_sp1
    else if n == 8
    then v50_sp2
    else if n == 9
    then t11
    else if n == 10
    then comp
    else unk
