-- ===== src/Reader/Root.antt =====
-- The message that `make_fixc_from_fixml` begins with, and the first element of a document.
use libfixc.Base.{ℕ, ◌^◌, ◌≡◌, ◌<◌, refl, arith, true, some, List, [], ◌∷◌, Bytes}
use libfixc.Message.{Msg}
use libfixc.Power.Laws.{next_2power_lem}
use libfixc.Storage.Grow.{IsValid}
use libfixc.Edit.View.{view}
use libfixc.Version.{codes}
use libfixc.Engine.{Engine}
use libfixc.Reader.Namespaces.{no_spaces, colon, is_fixml, pref_to_ns, ns_at, pref_len, real_name}
use libfixc.Reader.Cells.{no_pool, init_ctxcb, otag_now}
use libfixc.Reader.Stack.{IsStack-init_ctxcb}
use libfixc.Reader.Marks.{IsRead}
use libfixc.Reader.Attributes.{IsReading, Reads}
use libfixc.Reader.Steps.{push_state_lem}
use libfixc.Reader.Head.{IsHead, learn_lem}
use libfixc.Reader.Context.{Ctx, push_state}
use libfixc.Reader.{
  comp_fixml, set_version, set_type, bo_fixml_elt, learn, retry, el_sta, fixml_husk,
}

abbrev pub fixml : Bytes
fixml = codes "FIXML"

-- The message that is made for a text is well-formed, and so it is with its version and type.
module _ (ver doclen : ℕ) (few : doclen < 2 ^ 60) where
  husk-IsValid : IsValid (set_version ver (fixml_husk doclen))
  unfolding fixml_husk
  husk-IsValid = record {
    written = omega arith;
    values_in = omega arith;
    flds_in = omega arith;
    room = λ _. omega (arith, next_2power_lem 1 (omega arith) (omega arith));
  }

  pub husk-IsRead : IsRead (set_version ver (fixml_husk doclen))
  unfolding fixml_husk
  husk-IsRead = record {
    well = record {
      storage = husk-IsValid;
      typed = record { tag_is = λ h. absurd (h refl); typ_is = λ h _. h refl };
    };
    front = λ _. refl;
  }

pub IsRead-set_type : (mty : ℕ) (m : Msg) → IsRead m → IsRead (set_type mty m)
IsRead-set_type mty m r = record {
  well = record {
    storage = storage_of r.well.storage;
    typed = record { tag_is = λ _. refl; typ_is = λ _ z. absurd (omega (arith, z)) };
  };
  front = r.front;
}
  where
    storage_of : IsValid m → IsValid (set_type mty m)
    storage_of v = record {
      written = v.written;
      values_in = v.values_in;
      flds_in = v.flds_in;
      room = v.room;
    }

abbrev pub start_ctx : ℕ → Ctx
start_ctx doclen = record { spaces = no_spaces; pool = no_pool; msg = fixml_husk doclen }

-- The steps of the first element, where each goes through.
root_run :
    (e : Engine) (ver doclen : ℕ) (head : List (Bytes × Bytes)) {ctx ctx' : Ctx}
    → e.get_cid 0 fixml 5 ≡ comp_fixml
    → learn e fixml head (start_ctx doclen) ≡ some (ver, ctx)
    → is_fixml ver ≡ true
    → otag_now ctx.pool ≡ some 0
    → push_state comp_fixml (record ctx { pool = init_ctxcb ctx.pool }) ≡ some ctx'
    → el_sta e fixml head (start_ctx doclen) ≡ some ctx'
unfolding el_sta pref_to_ns no_spaces ns_at colon pref_len real_name retry bo_fixml_elt
root_run e ver doclen head root run ours idle push = rw (run, ours, idle, root, push)

-- The first element.
pub root_lem :
    (e : Engine) (ver doclen : ℕ) (head : List (Bytes × Bytes))
    → doclen < 2 ^ 60
    → IsHead e ver head
    → e.get_cid 0 fixml 5 ≡ comp_fixml
    → Reads
        (el_sta e fixml head (start_ctx doclen))
        (record { otag = comp_fixml; cnt = 0 } ∷ [])
        (view (set_version ver (fixml_husk doclen)))
unfolding otag_now no_pool
root_lem e ver doclen head few head_known root =
    let (s, run, plain, ours) = learn_lem e ver head no_pool (fixml_husk doclen) refl head_known in
    let ctx : Ctx = record {
      spaces = s;
      pool = init_ctxcb no_pool;
      msg = set_version ver (fixml_husk doclen);
    } in
    let r : IsReading [] ctx = record {
      plain = plain;
      stack = IsStack-init_ctxcb no_pool refl;
      read = husk-IsRead ver doclen few;
    } in
    let (ctx', push, r', v) = push_state_lem comp_fixml ctx r (omega arith) in
    (ctx', root_run e ver doclen head root run ours refl push, r', v)
