-- ===== src/Tests/Printing.antt =====
-- Printing a field into a buffer of 64 bytes, and a message into one of 200.
use libfixc.Base.{
  ℕ, suc, zero, ◌+◌, ◌≡◌, refl, arith, some, [], ◌∷◌, ◌++◌, Bytes, length, splice, take,
}
use libfixc.Message.{Fld, Msg, husk, fld_zero}
use libfixc.Edit.{strlen}
use libfixc.Number.{signed_decimal, decimal}
use libfixc.Version.{codes, ver_fixify, of_number}
use libfixc.Render.{render_fld, render_fix}
use libfixc.Render.Field.{value_text, fld_text, render_fld_lem}
use libfixc.Render.Body.{texts_of}
use libfixc.Render.Sum.{sum_text}
use libfixc.Render.Whole.{before_sum, rendered, render_fix_lem}

zeros : ℕ → Bytes
zeros zero = []
zeros (suc n) = 0 ∷ zeros n

-- `38=-250`.
abbrev quantity : Fld
quantity = record fld_zero { tag = 38; typ = 4; val = 0xffffff06 }

render_fld_lem_example :
    render_fld (zeros 64) 20 40 [] quantity
    ≡ some (splice (zeros 64) 20 (fld_text 38 (codes "-250")), length (fld_text 38 (codes "-250")))
unfolding zeros value_text signed_decimal decimal
render_fld_lem_example =
    render_fld_lem (zeros 64) 20 40 [] quantity (codes "-250") (omega arith) refl (omega arith)
      (omega arith) (omega arith)

-- An order of FIX 4.4 with a symbol and a quantity.
abbrev order : Msg
order = record husk {
  pr = codes "IBM" ++ 0 ∷ [];
  pz = 4;
  vspc = 64;
  f8 = record fld_zero { tag = 8; typ = 1; val = 5 };
  f9 = record fld_zero { tag = 9; typ = 4 };
  f35 = record fld_zero { tag = 35; typ = 6; val = 0x4400 };
  flds = record fld_zero { tag = 55 } ∷ quantity ∷ [];
  fspc = 32;
}

order_body : Bytes
order_body =
    fld_text 35 (codes "D") ++ (fld_text 55 (codes "IBM") ++ (fld_text 38 (codes "-250") ++ []))

render_fix_lem_example :
    (let xs = before_sum (codes "FIX.4.4") order_body in
      (buf : Bytes) × (render_fix (zeros 200) 200 order
        ≡ some (buf, length (xs ++ sum_text xs), rendered order xs))
      × (take (length (xs ++ sum_text xs) + 1) buf ≡ (xs ++ sum_text xs) ++ 0 ∷ []))
unfolding zeros value_text texts_of order_body ver_fixify of_number strlen signed_decimal decimal
    fld_text
render_fix_lem_example =
    render_fix_lem (zeros 200) order (codes "FIX.4.4") (codes "0") order_body
      (omega arith, (omega arith, (omega arith, tt))) refl refl refl (omega arith) (omega arith)
      (omega arith)
