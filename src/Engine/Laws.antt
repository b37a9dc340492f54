-- ===== src/Engine/Laws.antt =====
-- Any sequence of `fixc_open_eng` and `fixc_close_eng` from the program's start.
use libfixc.Base.{◌≡◌, refl, ap, ◌∙◌, true, Option, none, some, ◌>>=◌, List, [], ◌∷◌, Bytes}
use libfixc.Engine.{
  Engine, Module, husks, over, install, Globals, start, Loader, init_once, open_with, open_eng,
  close_eng,
}
use libfixc.Engine.Paths.{search_dirs}

pub data EngCall : Type 0 where
  opens : Bytes → EngCall
  closes : Module → EngCall

unfoldable pub eng_calls : Loader → List EngCall → Globals → Option Globals
eng_calls l [] g = some g
eng_calls l (opens file ∷ cs) g = do r ← open_eng l file g; eng_calls l cs r.0
eng_calls l (closes m ∷ cs) g = eng_calls l cs (close_eng m g)

-- The modules that the calls have opened since the last close, the newest in front; a file without a
-- module opens none, and a close forgets them all.
unfoldable pub since : Loader → List EngCall → List Module → List Module
since l [] ms = ms
since l (opens file ∷ cs) ms = since l cs (elim (l.load file) [ none ↦ ms | some m ↦ m ∷ ms ])
since l (closes m ∷ cs) ms = since l cs []

-- The function of the newest module that has it, or else the library's own.
unfoldable pub newest {ℓ} : {A : Type ℓ} → (Module → Option A) → A → List Module → A
newest has own [] = own
newest has own (m ∷ ms) = elim (has m) [ none ↦ newest has own ms | some f ↦ f ]

-- A table in which each of the ten functions is the newest, on its own. The library's own functions know
-- nothing: null pointers, and 0.
unfoldable pub newest_table : List Module → Engine
newest_table ms = record {
  comp_sub = newest (λ m. m.comp_sub) (λ ctx. none) ms;
  comp_rptb = newest (λ m. m.comp_rptb) (λ ctx. 0) ms;
  comp_orb = newest (λ m. m.comp_orb) (λ ctx. 0) ms;
  fld_ctx = newest (λ m. m.fld_ctx) (λ tag. none) ms;
  msgt_fixmlify = newest (λ m. m.msgt_fixmlify) (λ mty. none) ms;
  comp_fixmlify = newest (λ m. m.comp_fixmlify) (λ ctx. none) ms;
  attr_fixmlify = newest (λ m. m.attr_fixmlify) (λ ctx tag. none) ms;
  get_aid = newest (λ m. m.get_aid) (λ ctx attr alen. 0) ms;
  get_cid = newest (λ m. m.get_cid) (λ ctx elem elen. 0) ms;
  get_mty = newest (λ m. m.get_mty) (λ elem elen. 0) ms;
}

-- The search path after the calls: set once.
unfoldable pub path_after : List EngCall → List Bytes → List Bytes
path_after [] dirs = []
path_after (opens file ∷ cs) dirs = dirs
path_after (closes m ∷ cs) dirs = path_after cs dirs

over_lem {ℓ} :
    {A : Type ℓ} (o : Option A) (old : A) → over o old ≡ elim o [ none ↦ old | some f ↦ f ]
over_lem none old = refl
over_lem (some f) old = refl

over_newest {ℓ} :
    {A : Type ℓ} (has : Module → Option A) (own : A) (m : Module) (ms : List Module)
    → over (has m) (newest has own ms) ≡ newest has own (m ∷ ms)
unfolding newest
over_newest has own m ms = over_lem (has m) (newest has own ms)

-- `install` puts a module in front of the others.
install-newest_table :
    (m : Module) (ms : List Module) → install m (newest_table ms) ≡ newest_table (m ∷ ms)
unfolding install newest_table
install-newest_table m ms i = record {
  comp_sub = over_newest (λ n. n.comp_sub) (λ ctx. none) m ms i;
  comp_rptb = over_newest (λ n. n.comp_rptb) (λ ctx. 0) m ms i;
  comp_orb = over_newest (λ n. n.comp_orb) (λ ctx. 0) m ms i;
  fld_ctx = over_newest (λ n. n.fld_ctx) (λ tag. none) m ms i;
  msgt_fixmlify = over_newest (λ n. n.msgt_fixmlify) (λ mty. none) m ms i;
  comp_fixmlify = over_newest (λ n. n.comp_fixmlify) (λ ctx. none) m ms i;
  attr_fixmlify = over_newest (λ n. n.attr_fixmlify) (λ ctx tag. none) m ms i;
  get_aid = over_newest (λ n. n.get_aid) (λ ctx attr alen. 0) m ms i;
  get_cid = over_newest (λ n. n.get_cid) (λ ctx elem elen. 0) m ms i;
  get_mty = over_newest (λ n. n.get_mty) (λ elem elen. 0) m ms i;
}

husks-newest_table : husks ≡ newest_table []
unfolding husks newest_table newest
husks-newest_table = refl

opened_table :
    (o : Option Module) (ms : List Module)
    → elim o [ none ↦ newest_table ms | some m ↦ install m (newest_table ms) ]
      ≡ newest_table (elim o [ none ↦ ms | some m ↦ m ∷ ms ])
opened_table none ms = refl
opened_table (some m) ms = install-newest_table m ms

opened_eng :
    (o : Option Module) {e : Engine} (ms : List Module)
    → e ≡ newest_table ms
    → elim o [ none ↦ e | some m ↦ install m e ]
      ≡ newest_table (elim o [ none ↦ ms | some m ↦ m ∷ ms ])
opened_eng o ms t = ap (λ e'. elim o [ none ↦ e' | some m ↦ install m e' ]) t ∙ opened_table o ms

module _ (l : Loader) where
  opened : Bytes → Globals → Globals
  opened file g = (open_with (l.load file) g).0

  open_eng-again :
      (file : Bytes) (g : Globals)
      → g.initted ≡ true
      → open_eng l file g ≡ some (open_with (l.load file) g)
  unfolding open_eng init_once
  open_eng-again file g e = rw e

  opened-fields :
      (o : Option Module) (g : Globals)
      → ((open_with o g).0.initted ≡ g.initted)
        × ((open_with o g).0.dirs ≡ g.dirs)
        × ((open_with o g).0.eng ≡ elim o [ none ↦ g.eng | some m ↦ install m g.eng ])
  unfolding open_with
  opened-fields none g = (refl, refl, refl)
  opened-fields (some m) g = (refl, refl, refl)

  -- Once the path is set.
  later_calls :
      (cs : List EngCall) (g : Globals) (ms : List Module)
      → g.initted ≡ true
      → g.eng ≡ newest_table ms
      → (g' : Globals) × (eng_calls l cs g ≡ some g')
        × (g'.eng ≡ newest_table (since l cs ms))
        × (g'.dirs ≡ g.dirs)
  unfolding eng_calls since close_eng
  later_calls [] g ms on t = (g, refl, t, refl)
  later_calls (opens file ∷ cs) g ms on t =
      let (i, d, e) = opened-fields (l.load file) g in
      let (g', run, eng, dirs) =
        later_calls cs (open_with (l.load file) g).0 _ (i ∙ on)
          (e ∙ opened_eng (l.load file) ms t) in
      (g', rw (open_eng-again file g on) run, eng, dirs ∙ d)
  later_calls (closes m ∷ cs) g ms on t =
      later_calls cs (record g { eng = husks }) [] on husks-newest_table

  open_eng-first :
      (dirs : List Bytes) (file : Bytes) (e : Engine)
      → search_dirs l.exe l.moddir ≡ some dirs
      → open_eng l file (record start { eng = e })
        ≡ some (open_with (l.load file) (record { initted = true; dirs = dirs; eng = e }))
  unfolding open_eng init_once
  open_eng-first dirs file e found = rw (open_eng, init_once, found)

  -- From a program that has opened nothing yet.
  first_calls :
      (dirs : List Bytes)
      → search_dirs l.exe l.moddir ≡ some dirs
      → (cs : List EngCall)
      → (g : Globals) × (eng_calls l cs start ≡ some g)
        × (g.eng ≡ newest_table (since l cs []))
        × (g.dirs ≡ path_after cs dirs)
  unfolding eng_calls since path_after close_eng
  first_calls dirs found [] = (start, refl, husks-newest_table, refl)
  first_calls dirs found (opens file ∷ cs) =
      let ready : Globals = record { initted = true; dirs = dirs; eng = husks } in
      let (i, d, e) = opened-fields (l.load file) ready in
      let (g, run, eng, same) =
        later_calls cs (open_with (l.load file) ready).0 _ i
          (e ∙ opened_eng (l.load file) [] husks-newest_table) in
      (g, rw (open_eng-first dirs file husks found) run, eng, same ∙ d)
  first_calls dirs found (closes m ∷ cs) = first_calls dirs found cs

-- Where the path of the running program can be found out and fits, any sequence of `fixc_open_eng` and
-- `fixc_close_eng` from the program's start runs without a fault: the search path is set by the first
-- open and by no later one, and each of the ten functions of the table is the one of the newest module
-- with such a function among those opened since the last close, or, where there is none, the library's
-- own, which returns a null pointer or 0.
pub eng_calls-start :
    (l : Loader) (cs : List EngCall) {dirs : List Bytes}
    → search_dirs l.exe l.moddir ≡ some dirs
    → (g : Globals) × (eng_calls l cs start ≡ some g)
      × (g.eng ≡ newest_table (since l cs []))
      × (g.dirs ≡ path_after cs dirs)
eng_calls-start l cs {dirs} found = first_calls l dirs found cs
