-- ===== src/Engine.antt =====
-- Engines in src/engdso.c: the table of functions through which the library asks its dictionary, the
-- husks that stand in it before a module is loaded, and `fixc_open_eng` and `fixc_close_eng`.
-- What a module holds is not in the repository, and neither is the loader: a module is a parameter, and
-- so are the loader's answers. A context, component, message type or attribute is its number.
pub mod Laws
pub mod Paths
use libfixc.Base.{
  ℕ, ◌≡◌, Bool, true, false, Option, none, some, List, [], ◌∷◌, ◌++◌, Bytes, if◌then◌else◌,
}
use libfixc.Engine.Paths.{search_dirs}

-- `struct fixc_comp_sub_s`, less the bounds that the code does not read.
pub record Sub : Type 0 where
  pub ctx : ℕ
  pub subs : List ℕ

-- The function pointers; `none` is a null pointer that is returned. A table of contexts is the list of
-- the `nmsgs + ncomps` entries of `struct fixc_fld_ctx_s`.
pub record Engine : Type 0 where
  pub comp_sub : ℕ → Option Sub
  pub comp_rptb : ℕ → ℕ
  pub comp_orb : ℕ → ℕ
  pub fld_ctx : ℕ → Option (List ℕ)
  pub msgt_fixmlify : ℕ → Option Bytes
  pub comp_fixmlify : ℕ → Option Bytes
  pub attr_fixmlify : ℕ → ℕ → Option Bytes
  pub get_aid : ℕ → Bytes → ℕ → ℕ
  pub get_cid : ℕ → Bytes → ℕ → ℕ
  pub get_mty : Bytes → ℕ → ℕ

-- The weak functions of the library itself.
unfoldable pub husks : Engine
husks = record {
  comp_sub = λ ctx. none;
  comp_rptb = λ ctx. 0;
  comp_orb = λ ctx. 0;
  fld_ctx = λ ctx. none;
  msgt_fixmlify = λ m. none;
  comp_fixmlify = λ c. none;
  attr_fixmlify = λ ctx a. none;
  get_aid = λ ctx attr alen. 0;
  get_cid = λ ctx elem elen. 0;
  get_mty = λ elem elen. 0;
}

-- What `eng_sym` finds in a module under the names of these functions.
pub record Module : Type 0 where
  pub comp_sub : Option (ℕ → Option Sub)
  pub comp_rptb : Option (ℕ → ℕ)
  pub comp_orb : Option (ℕ → ℕ)
  pub fld_ctx : Option (ℕ → Option (List ℕ))
  pub msgt_fixmlify : Option (ℕ → Option Bytes)
  pub comp_fixmlify : Option (ℕ → Option Bytes)
  pub attr_fixmlify : Option (ℕ → ℕ → Option Bytes)
  pub get_aid : Option (ℕ → Bytes → ℕ → ℕ)
  pub get_cid : Option (ℕ → Bytes → ℕ → ℕ)
  pub get_mty : Option (Bytes → ℕ → ℕ)

-- `if ((fun = eng_sym(res, ...)) != NULL) { ... = fun; }`
abbrev pub over {ℓ} : {A : Type ℓ} → Option A → A → A
over none old = old
over (some new) old = new

-- The ten assignments of `fixc_open_eng`.
unfoldable pub install : Module → Engine → Engine
install m e = record {
  comp_sub = over m.comp_sub e.comp_sub;
  comp_rptb = over m.comp_rptb e.comp_rptb;
  comp_orb = over m.comp_orb e.comp_orb;
  fld_ctx = over m.fld_ctx e.fld_ctx;
  msgt_fixmlify = over m.msgt_fixmlify e.msgt_fixmlify;
  comp_fixmlify = over m.comp_fixmlify e.comp_fixmlify;
  attr_fixmlify = over m.attr_fixmlify e.attr_fixmlify;
  get_aid = over m.get_aid e.get_aid;
  get_cid = over m.get_cid e.get_cid;
  get_mty = over m.get_mty e.get_mty;
}

-- The static variables, and the directories that have been added to the loader's search path.
pub record Globals : Type 0 where
  pub initted : Bool
  pub dirs : List Bytes
  pub eng : Engine

-- The program as it starts.
abbrev pub start : Globals
start = record { initted = false; dirs = []; eng = husks }

-- What the system answers: the link of the running program, and the module in a file.
pub record Loader : Type 0 where
  pub exe : Option Bytes
  pub moddir : Bytes
  pub load : Bytes → Option Module

-- The part that runs once; `none` is a fault of `add_myself`.
unfoldable pub init_once : Loader → Globals → Option Globals
init_once l g = if g.initted then some g else elim (search_dirs l.exe l.moddir) [
  | none ↦ none
  | some new ↦ some (record g { initted = true; dirs = g.dirs ++ new })
]

-- The handle that is returned is the module.
unfoldable pub open_with : Option Module → Globals → Globals × Option Module
open_with none g = (g, none)
open_with (some m) g = (record g { eng = install m g.eng }, some m)

-- `fixc_open_eng`.
unfoldable pub open_eng : Loader → Bytes → Globals → Option (Globals × Option Module)
open_eng l file g = elim (init_once l g) [
  | none ↦ none
  | some g' ↦ some (open_with (l.load file) g')
]

-- `fixc_close_eng`: whatever module is closed.
unfoldable pub close_eng : Module → Globals → Globals
close_eng m g = record g { eng = husks }
