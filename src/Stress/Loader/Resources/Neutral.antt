-- ===== src/Stress/Loader/Resources/Neutral.antt =====
-- The steps of ebpf-stress/pkg/ebpf/loader.go that open and close nothing.
use net_perf_test.Common.{
  ℕ, ◌>>=◌, String, Bool, Option, none, some, List, [], ◌∷◌, ok, err, arith, true, false,
}
use net_perf_test.Common.Floats.{Floats}
use net_perf_test.Stress.Loader.Types.{
  System, Answer, Error, record_call, Run, attempt, expect, get_loader, remove_memlock, stat,
  load_collection_spec,
}
use net_perf_test.Stress.Loader.Attach.{found, loaded, load_spec_from, load_spec}
use net_perf_test.Stress.Loader.Lifecycle.{
  chmod_each, make_maps_readable, readable_if, readable_if_pinned, set_enabled, set_loop_count,
  configure,
}
use net_perf_test.Stress.Loader.Readings.{
  sum_per_cpu_map, read_counter, with_collection_held, read_stats, get_stats,
}
use net_perf_test.Stress.Loader.Resources.{IsBalanced, IsUnattached, IsIdle, IsNeutral}

pub IsNeutral-trans : {s t u : Run} → IsNeutral s t → IsNeutral t u → IsNeutral s u
IsNeutral-trans p q = ground arith

pub IsNeutral-IsBalanced : {s t : Run} → IsNeutral s t → IsBalanced s → IsBalanced t
IsNeutral-IsBalanced n b = ground arith

pub IsNeutral-IsUnattached : {s t : Run} → IsNeutral s t → IsUnattached s → IsUnattached t
IsNeutral-IsUnattached n b = ground arith

pub IsNeutral-IsIdle : {s t : Run} → IsNeutral s t → IsIdle s → IsIdle t
IsNeutral-IsIdle n b = ground arith

IsNeutral-refl : (s : Run) → IsNeutral s s
IsNeutral-refl s = ground arith

module _ (sys : System) where
  module _ (path : String) (paths : List String)
      (rest : (e : Option ℕ) (t : Run) → IsNeutral t (load_spec_from sys paths e t).1) where
    loaded-IsNeutral :
        (s : Run) (a : Answer)
        → IsNeutral s
            (loaded sys
              (load_spec_from sys paths)
              a
              (record_call (load_collection_spec path) a s)).1
    loaded-IsNeutral s (ok spec) = ground arith
    loaded-IsNeutral s (err e) =
        IsNeutral-trans (ground arith)
          (rest (some e) (record_call (load_collection_spec path) (err e) s))

    found-IsNeutral :
        (last_err : Option ℕ) (s : Run) (a : Answer)
        → IsNeutral s
            (found sys path (load_spec_from sys paths) last_err a (record_call (stat path) a s)).1
    unfolding attempt ◌>>=◌
    found-IsNeutral last_err s (err e) =
        IsNeutral-trans (ground arith) (rest last_err (record_call (stat path) (err e) s))
    found-IsNeutral last_err s (ok h) =
        IsNeutral-trans (ground arith) (loaded-IsNeutral (record_call (stat path) (ok h) s) _)

  load_spec_from-IsNeutral :
      (paths : List String) (last_err : Option ℕ) (s : Run)
      → IsNeutral s (load_spec_from sys paths last_err s).1
  unfolding load_spec_from attempt
  load_spec_from-IsNeutral [] none s = IsNeutral-refl s
  load_spec_from-IsNeutral [] (some e) s = IsNeutral-refl s
  load_spec_from-IsNeutral (path ∷ paths) last_err s =
      found-IsNeutral path paths (load_spec_from-IsNeutral paths) last_err s _

  pub expect_memlock-IsNeutral :
      (wrap : ℕ → Error) (s : Run) → IsNeutral s (expect sys remove_memlock wrap s).1
  unfolding expect
  expect_memlock-IsNeutral wrap s = ground arith

  pub load_spec-IsNeutral : (s : Run) → IsNeutral s (load_spec sys s).1
  unfolding load_spec get_loader
  load_spec-IsNeutral s = load_spec_from-IsNeutral _ none s

  chmod_each-IsNeutral : (names : List String) (s : Run) → IsNeutral s (chmod_each sys names s).1
  unfolding chmod_each attempt
  chmod_each-IsNeutral [] s = IsNeutral-refl s
  chmod_each-IsNeutral (name ∷ names) s =
      IsNeutral-trans (ground arith) (chmod_each-IsNeutral names _)

  make_maps_readable-IsNeutral : (s : Run) → IsNeutral s (make_maps_readable sys s).1
  unfolding make_maps_readable attempt
  make_maps_readable-IsNeutral s = IsNeutral-trans (ground arith) (chmod_each-IsNeutral _ _)

  readable_if-IsNeutral : (pin : Bool) (s : Run) → IsNeutral s (readable_if sys pin s).1
  readable_if-IsNeutral true s = make_maps_readable-IsNeutral s
  readable_if-IsNeutral false s = IsNeutral-refl s

  pub readable_if_pinned-IsNeutral : (s : Run) → IsNeutral s (readable_if_pinned sys s).1
  unfolding readable_if_pinned
  readable_if_pinned-IsNeutral s = readable_if-IsNeutral _ s

  pub set_enabled-IsNeutral : (on : Bool) (s : Run) → IsNeutral s (set_enabled sys on s).1
  unfolding set_enabled expect get_loader
  set_enabled-IsNeutral on s = ground arith

  pub set_loop_count-IsNeutral : (n : ℕ) (s : Run) → IsNeutral s (set_loop_count sys n s).1
  unfolding set_loop_count expect get_loader
  set_loop_count-IsNeutral n s = ground arith

  pub configure-IsNeutral : (s : Run) → IsNeutral s (configure sys s).1
  unfolding configure expect get_loader
  configure-IsNeutral s = ground arith

  sum_per_cpu_map-IsNeutral : (m key : ℕ) (s : Run) → IsNeutral s (sum_per_cpu_map sys m key s).1
  unfolding sum_per_cpu_map attempt expect
  sum_per_cpu_map-IsNeutral m key s = ground arith

  pub read_counter-IsNeutral : (m : Option ℕ) (s : Run) → IsNeutral s (read_counter sys m s).1
  unfolding read_counter
  read_counter-IsNeutral none s = IsNeutral-refl s
  read_counter-IsNeutral (some m) s = sum_per_cpu_map-IsNeutral m 0 s

  module _ (floats : Floats) where
    read_stats-IsNeutral : (s : Run) → IsNeutral s (read_stats sys floats s).1
    unfolding read_stats
    read_stats-IsNeutral s = IsNeutral-trans (read_counter-IsNeutral _ s) (
        IsNeutral-trans (read_counter-IsNeutral _ _)
          (IsNeutral-trans (read_counter-IsNeutral _ _) (read_counter-IsNeutral _ _)))

    with_collection_held-IsNeutral :
        (c : Option ℕ) (s : Run) → IsNeutral s (with_collection_held sys floats c s).1
    with_collection_held-IsNeutral none s = IsNeutral-refl s
    with_collection_held-IsNeutral (some c) s = read_stats-IsNeutral s

    pub get_stats-IsNeutral : (s : Run) → IsNeutral s (get_stats sys floats s).1
    unfolding get_stats
    get_stats-IsNeutral s = with_collection_held-IsNeutral _ s
