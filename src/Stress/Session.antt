-- ===== src/Stress/Session.antt =====
-- Whole runs of ebpf-stress/cmd/ebpf-stress/main.go: what they leave in the kernel.
use net_perf_test.Common.{
  ◌≡◌, inl, inr, true, false, List, [], ◌∷◌, ◌++◌, Result, ok, err, arith, Bool-cases, All,
}
use net_perf_test.Common.Ints.{is_positive}
use net_perf_test.Common.Floats.{Floats}
use net_perf_test.Stress.Loader.Types.{Config as LoaderConfig, System, Error, Run}
use net_perf_test.Stress.Loader.Lifecycle.{new_loader}
use net_perf_test.Stress.Loader.Resources.{IsBalanced, IsIdle}
use net_perf_test.Stress.Loader.Resources.Neutral.{IsNeutral-IsBalanced, get_stats-IsNeutral}
use net_perf_test.Stress.Loader.Resources.Balance.{detach-IsIdle, load_and_attach-IsBalanced}
use net_perf_test.Stress.Main.{
  ConfigError, Config, Signal, stats_tick, finished, cleanup, ends, on_tick, main_loop, started,
  validated, validate_config, run,
}

module _ (sys : System) where
  pub new_loader-IsIdle : (c : LoaderConfig) → IsIdle (new_loader sys c)
  unfolding new_loader
  new_loader-IsIdle c = ground arith

  module _ (floats : Floats) where
    pub cleanup-IsIdle : (s : Run) → IsBalanced s → IsIdle (cleanup sys floats s)
    unfolding cleanup
    cleanup-IsIdle s b =
        detach-IsIdle sys _ (IsNeutral-IsBalanced (get_stats-IsNeutral sys floats s) b)

    pub on_tick-IsBalanced :
        (signal : Signal) (s : Run) → IsBalanced s → IsBalanced (on_tick sys floats signal s)
    on_tick-IsBalanced stats_tick s b = IsNeutral-IsBalanced (get_stats-IsNeutral sys floats s) b
    on_tick-IsBalanced _ s b = b

    main_loop-IsIdle :
        (c : Config) (signals : List Signal) (s : Run)
        → IsBalanced s
        → (main_loop sys floats c signals s).0 ≡ finished
        → IsIdle (main_loop sys floats c signals s).1
    unfolding main_loop
    main_loop-IsIdle c [] s b h = cc
    main_loop-IsIdle c (signal ∷ signals) s b h = ground (
      arith,
      cleanup-IsIdle s b,
      main_loop-IsIdle c signals (on_tick sys floats signal s) (on_tick-IsBalanced signal s b),
    )

    started-IsIdle :
        (c : Config) (signals : List Signal) (r : Result Error (Unit {0})) (s : Run)
        → IsBalanced s
        → (started sys floats c signals r s).0 ≡ finished
        → IsIdle (started sys floats c signals r s).1
    started-IsIdle c signals (err e) s b h = cc
    started-IsIdle c signals (ok _) s b h = elim (Bool-cases (is_positive c.stats_interval)) [
      | inl p ↦ ground (arith, main_loop-IsIdle c signals s b)
      | inr p ↦ ground arith
    ]

    -- The state after signals that do not end the loop.
    abbrev after_ticks : List Signal → Run → Run
    after_ticks [] s = s
    after_ticks (x ∷ xs) s = after_ticks xs (on_tick sys floats x s)

    -- A run that finishes has made a call to remove every link and filter that it made, whatever those
    -- calls answered, the collection is closed, and the loader holds nothing.
    pub run-IsIdle :
        (c : Config) (empty : Run) (signals : List Signal)
        → (run sys floats c empty signals).0 ≡ finished
        → IsIdle (run sys floats c empty signals).1
    unfolding run
    run-IsIdle c empty signals = at (validate_config c)
      where
        at :
            (v : Result ConfigError Config)
            → (validated sys floats empty signals v).0 ≡ finished
            → IsIdle (validated sys floats empty signals v).1
        at (err e) h = cc
        at (ok d) h =
            started-IsIdle d signals _ _ (load_and_attach-IsBalanced sys _ (new_loader-IsIdle _)) h

    -- The main loop goes on through signals that do not end it, and finishes at the first that
    -- does, after one cleanup; the signals behind that one make no difference.
    pub main_loop_finishes :
        (c : Config) (before : List Signal) (signal : Signal) (behind : List Signal) (s : Run)
        → All (λ x. ends c x ≡ false) before
        → ends c signal ≡ true
        → main_loop sys floats c (before ++ (signal ∷ behind)) s
          ≡ (finished, cleanup sys floats (after_ticks before s))
    unfolding main_loop
    main_loop_finishes c [] signal behind s none_ends h = rw h
    main_loop_finishes c (x ∷ before) signal behind s (q, none_ends) h =
        rw q (main_loop_finishes c before signal behind (on_tick sys floats x s) none_ends h)
