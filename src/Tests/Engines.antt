-- ===== src/Tests/Engines.antt =====
-- Engines that are opened and closed, with a loader of two files.
use libfixc.Base.{◌≡◌, refl, none, some, List, [], ◌∷◌, ◌==◌, if◌then◌else◌, length}
use libfixc.Version.{codes, equal}
use libfixc.Engine.{Module, Loader, Globals, start}
use libfixc.Engine.Paths.{search_dirs, at_last_slash, more_dirs, starts, relative, behind, beside}
use libfixc.Engine.Laws.{
  EngCall, opens, closes, eng_calls, since, newest_table, path_after, eng_calls-start,
}

-- A module with one function.
abbrev counters : Module
counters = record {
  comp_sub = none;
  comp_rptb = some (λ ctx. 453);
  comp_orb = none;
  fld_ctx = none;
  msgt_fixmlify = none;
  comp_fixmlify = none;
  attr_fixmlify = none;
  get_aid = none;
  get_cid = none;
  get_mty = none;
}

abbrev loader : Loader
loader = record {
  exe = some (codes "/usr/bin/fix2fixml");
  moddir = codes "${exec_prefix}/lib/fixc";
  load = λ file. if length file == 5 then some counters else none;
}

abbrev session : List EngCall
session =
    closes counters
    ∷ opens (codes "fix44")
    ∷ opens (codes "no")
    ∷ closes counters
    ∷ opens (codes "fix50")
    ∷ []

loader_dirs :
    search_dirs loader.exe loader.moddir ≡ some (codes "/usr/bin" ∷ codes "/usr/lib/fixc" ∷ [])
unfolding search_dirs at_last_slash more_dirs starts relative behind beside equal
loader_dirs = refl

eng_calls-start_example :
    (g : Globals) × (eng_calls loader session start ≡ some g)
    × (g.eng ≡ newest_table (since loader session []))
    × (g.dirs ≡ path_after session (codes "/usr/bin" ∷ codes "/usr/lib/fixc" ∷ []))
eng_calls-start_example = eng_calls-start loader session loader_dirs
