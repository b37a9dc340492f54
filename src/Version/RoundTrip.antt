-- ===== src/Version/RoundTrip.antt =====
-- The tables invert one another wherever both have an entry.
use libfixc.Base.{◌≡◌, ◌≢◌, refl, some, []}
use libfixc.Version.{
  Ver, unk, v40, v44, v50, v50_sp1, v50_sp2, comp, number, of_number, fix_verify, ver_fixify,
  fixml_nsiddify, ver_fixmlify, ver_fixml_v_ify,
}

-- Every version that has a name in FIX is found again by that name.
pub fix_verify-ver_fixify : (v : Ver) → ver_fixify v ≢ [] → fix_verify (ver_fixify v) ≡ some v
unfolding fix_verify ver_fixify
fix_verify-ver_fixify unk named = absurd (named refl)
fix_verify-ver_fixify comp named = absurd (named refl)
fix_verify-ver_fixify v40 named = refl
fix_verify-ver_fixify _ named = refl

-- Every version that has a name space in FIXML is found again by it and by its short name.
pub fixml_nsiddify-ver_fixmlify :
    (v : Ver)
    → ver_fixmlify v ≢ []
    → (fixml_nsiddify (ver_fixmlify v) ≡ some v) × (fixml_nsiddify (ver_fixml_v_ify v) ≡ some v)
unfolding fixml_nsiddify ver_fixmlify ver_fixml_v_ify
fixml_nsiddify-ver_fixmlify v44 named = (refl, refl)
fixml_nsiddify-ver_fixmlify v50 named = (refl, refl)
fixml_nsiddify-ver_fixmlify v50_sp1 named = (refl, refl)
fixml_nsiddify-ver_fixmlify v50_sp2 named = (refl, refl)
fixml_nsiddify-ver_fixmlify _ named = absurd (named refl)

pub of_number-number : (v : Ver) → of_number (number v) ≡ v
unfolding of_number number
of_number-number unk = refl
of_number-number _ = refl
