-- ===== src/Reader/Head.antt =====
-- The beginning of a FIXML document: the version that its first element names, and the name space that it makes.
use libfixc.Base.{
  ℕ, ◌≡◌, refl, true, Bool-cases, inl, inr, none, some, List, [], ◌∷◌, Bytes, length,
}
use libfixc.Version.{Ver, number, codes, fixml_nsiddify, equal}
use libfixc.Engine.{Engine}
use libfixc.Reader.Namespaces.{
  Spaces, no_spaces, ns_at, is_fixml, is_favourite, v50_sp2_id, colon, reg_ns, move_first,
  nsid_from_href, lookup_len,
}
use libfixc.Message.{Msg}
use libfixc.Reader.Cells.{Pool, otag_now}
use libfixc.Reader.Attributes.{IsFixmlSpace}
use libfixc.Reader.Context.{Ctx}
use libfixc.Reader.{
  attr_xmlns, attr_v, is_xmlns, set_version, name_fixml, guess, learn, proc_xmlns, proc_unk_attr,
  unk_attrs,
}

-- The name spaces that a version makes the default.
record Starts (n : ℕ) (s : Spaces) : Type 0 where
  space : IsFixmlSpace s
  same : space.ns.nsid ≡ n

-- The attributes of the first element, and the version that they name: none at all stand for 5.0 SP2.
pub data IsHead (e : Engine) : ℕ → List (Bytes × Bytes) → Type 0 where
  bare : IsHead e v50_sp2_id []
  by_uri :
      {uri : Bytes} {ver : Ver}
      → e.get_aid 0 (codes "xmlns") 5 ≡ attr_xmlns
      → fixml_nsiddify uri ≡ some ver
      → is_fixml (number ver) ≡ true
      → IsHead e (number ver) ((codes "xmlns", uri) ∷ [])
  by_both :
      {uri text : Bytes} {ver : Ver}
      → e.get_aid 0 (codes "xmlns") 5 ≡ attr_xmlns
      → e.get_aid 0 (codes "v") 1 ≡ attr_v
      → fixml_nsiddify uri ≡ some ver
      → fixml_nsiddify text ≡ some ver
      → is_fixml (number ver) ≡ true
      → IsHead e (number ver) ((codes "xmlns", uri) ∷ (codes "v", text) ∷ [])

nsid_lem :
    (href : Bytes) {ver : Ver} → fixml_nsiddify href ≡ some ver → nsid_from_href href ≡ number ver
unfolding nsid_from_href
nsid_lem href h = rw (nsid_from_href, h)

module _ (n : ℕ) (ours : is_fixml n ≡ true) where
  starts :
      {s : Spaces} (href : Bytes)
      → ns_at 0 s ≡ some (record { pref = none; href = some href; nsid = n })
      → Starts n s
  starts href h = record {
    space = record { ns = _; first = h; default = refl; version = ours };
    same = refl;
  }

  -- The first name space, and one more of the same version.
  reg_ns-first : (href : Bytes) → nsid_from_href href ≡ n → Starts n (reg_ns none href no_spaces)
  unfolding reg_ns no_spaces move_first ns_at
  reg_ns-first href h = elim (Bool-cases (is_favourite n)) [
    | inl fav ↦ rw (h, fav) (starts href refl)
    | inr other ↦ rw (h, other) (starts href refl)
  ]

  reg_ns-second :
      (href text : Bytes)
      → nsid_from_href href ≡ n
      → nsid_from_href text ≡ n
      → Starts n (reg_ns none text (reg_ns none href no_spaces))
  unfolding reg_ns no_spaces move_first ns_at
  reg_ns-second href text h h' = elim (Bool-cases (is_favourite n)) [
    | inl fav ↦ rw (h, h', fav) (starts text refl)
    | inr other ↦ rw (h, h', other) (starts href refl)
  ]

-- A name space that is declared by an attribute without a prefix.
module _ (e : Engine) (name value : Bytes) (ctx : Ctx) (idle : ctx.pool.state ≡ none)
    (plain : colon name ≡ none) (tag : ℕ) (is_tag : e.get_aid 0 name (length name) ≡ tag)
    (declares : is_xmlns tag ≡ true) where
  otag_idle : otag_now ctx.pool ≡ some 0
  unfolding otag_now
  otag_idle = rw (otag_now, idle)

  len_plain : lookup_len ctx.spaces name ≡ some (length name)
  unfolding lookup_len
  len_plain = rw (lookup_len, plain)

  proc_plain : proc_xmlns name value ctx ≡ record ctx { spaces = reg_ns none value ctx.spaces }
  unfolding proc_xmlns
  proc_plain = rw (proc_xmlns, plain)

  proc_unk_attr_lem :
      proc_unk_attr e name value ctx ≡ some (record ctx { spaces = reg_ns none value ctx.spaces })
  unfolding proc_unk_attr
  proc_unk_attr_lem = rw (len_plain, otag_idle, is_tag, declares, proc_plain)

-- The first element in an unknown name space: `el_sta` learns the version from it.
pub learn_lem :
    (e : Engine) (n : ℕ) (attrs : List (Bytes × Bytes)) (pool : Pool) (msg : Msg)
    → pool.state ≡ none
    → IsHead e n attrs
    → (s : Spaces) × (learn e
          (codes "FIXML")
          attrs
          (record { spaces = no_spaces; pool = pool; msg = msg })
        ≡ some (n, record { spaces = s; pool = pool; msg = set_version n msg }))
      × IsFixmlSpace s
      × (is_fixml n ≡ true)
unfolding learn unk_attrs guess name_fixml no_spaces ns_at equal colon
learn_lem e n attrs pool msg idle bare =
    (_, refl, record { ns = _; first = refl; default = refl; version = refl }, refl)
learn_lem e n attrs pool msg idle (by_uri {uri} {ver} xmlns is_ver ours) =
    let first = reg_ns-first (number ver) ours uri (nsid_lem uri is_ver) in
    let run1 =
      proc_unk_attr_lem e (codes "xmlns") uri
        (record { spaces = no_spaces; pool = pool; msg = msg }) idle refl attr_xmlns xmlns refl in
    (_, rw (run1, first.space.first, first.same), first.space, ours)
learn_lem e n attrs pool msg idle (by_both {uri} {text} {ver} xmlns v is_ver is_ver' ours) =
    let all =
      reg_ns-second (number ver) ours uri text (nsid_lem uri is_ver) (nsid_lem text is_ver') in
    let run1 =
      proc_unk_attr_lem e (codes "xmlns") uri
        (record { spaces = no_spaces; pool = pool; msg = msg }) idle refl attr_xmlns xmlns refl in
    let run2 =
      proc_unk_attr_lem e (codes "v") text
        (record { spaces = reg_ns none uri no_spaces; pool = pool; msg = msg }) idle refl attr_v v
        refl in
    (_, rw (run1, run2, all.space.first, all.same), all.space, ours)
