-- ===== src/Stress/Loader/Search.antt =====
-- `loadSpec` of ebpf-stress/pkg/ebpf/loader.go against a description of its search.
use net_perf_test.Common.{
  ℕ, ◌≡◌, refl, String, Option, none, some, List, [], ◌∷◌, Result, ok, err, ◌>>=◌, map,
}
use net_perf_test.Stress.Loader.Types.{
  System, Trace, Error, spec_not_found, spec_not_loaded, stat, load_collection_spec, Run,
  record_call, attempt, get_loader,
}
use net_perf_test.Stress.Loader.Attach.{found, load_spec_from, load_spec, fallback_paths}

-- A file that is not there, one that does not load, and one that loads.
pub data FileState : Type 0 where
  missing : FileState
  broken : ℕ → FileState
  loadable : ℕ → FileState

abbrev pub last_error : Option ℕ → Result Error ℕ
last_error none = err spec_not_found
last_error (some e) = err (spec_not_loaded e)

-- The first file that loads; without one, the error of the last that is there, if any is.
abbrev pub first_loadable : List FileState → Option ℕ → Result Error ℕ
first_loadable [] last_err = last_error last_err
first_loadable (missing ∷ files) last_err = first_loadable files last_err
first_loadable (broken e ∷ files) last_err = first_loadable files (some e)
first_loadable (loadable spec ∷ files) last_err = ok spec

-- The file system keeps the files as they are, and answers both calls by them.
pub record IsFileSystem (sys : System) (file : String → FileState) : Type 0 where
  pub stat_missing :
      (t : Trace) (p : String) → file p ≡ missing → (e : ℕ) × (sys.answer t (stat p) ≡ err e)
  pub stat_there :
      (t : Trace) (p : String) → ¬ (file p ≡ missing) → (h : ℕ) × (sys.answer t (stat p) ≡ ok h)
  pub load_broken :
      (t : Trace) (p : String) (e : ℕ)
      → file p ≡ broken e
      → sys.answer t (load_collection_spec p) ≡ err e
  pub load_loadable :
      (t : Trace) (p : String) (spec : ℕ)
      → file p ≡ loadable spec
      → sys.answer t (load_collection_spec p) ≡ ok spec

module _ (sys : System) (file : String → FileState) (fs : IsFileSystem sys file) where
  module _ (p : String) (paths : List String)
      (rest : (e : Option ℕ) (t : Run)
        → (load_spec_from sys paths e t).0 ≡ first_loadable (map file paths) e) where
    found-eq :
        (last_err : Option ℕ) (s : Run) (f : FileState)
        → file p ≡ f
        → (found sys p
            (load_spec_from sys paths)
            last_err
            (sys.answer s.trace (stat p))
            (record_call (stat p) (sys.answer s.trace (stat p)) s)).0
          ≡ first_loadable (f ∷ map file paths) last_err
    unfolding ◌>>=◌ attempt
    found-eq last_err s missing e =
        let (x, q) = fs.stat_missing s.trace p e in rw q (rest last_err _)
    found-eq last_err s (broken x) e =
        let (h, q) = fs.stat_there s.trace p (λ k. cc) in
        rw q (rw (fs.load_broken _ p x e) (rest (some x) _))
    found-eq last_err s (loadable spec) e =
        let (h, q) = fs.stat_there s.trace p (λ k. cc) in rw q (rw (fs.load_loadable _ p spec e))

  load_spec_from-eq :
      (paths : List String) (last_err : Option ℕ) (s : Run)
      → (load_spec_from sys paths last_err s).0 ≡ first_loadable (map file paths) last_err
  unfolding load_spec_from attempt
  load_spec_from-eq [] none s = refl
  load_spec_from-eq [] (some e) s = refl
  load_spec_from-eq (p ∷ paths) last_err s =
      found-eq p paths (load_spec_from-eq paths) last_err s (file p) refl

  -- On a file system that keeps its files, `loadSpec` returns the first file that loads, among the
  -- configured path and the four fallbacks in their order. If none loads, the error is the one of
  -- the last file that is there, or "not found" if none is there.
  pub load_spec-first_loadable :
      (s : Run)
      → (load_spec sys s).0
        ≡ first_loadable (map file (s.loader.config.program ∷ fallback_paths)) none
  unfolding load_spec get_loader
  load_spec-first_loadable s = load_spec_from-eq _ none s
