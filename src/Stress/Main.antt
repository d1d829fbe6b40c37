-- ===== src/Stress/Main.antt =====
-- ebpf-stress/cmd/ebpf-stress/main.go: the configuration, the main loop and the cleanup. What is
-- printed is left out.
use net_perf_test.Common.{
  ℕ, String, Bool, true, false, List, [], ◌∷◌, Result, ok, err, ltb, ◌==◌, ◌||◌, not, str_eq,
  if◌then◌else◌,
}
use net_perf_test.Common.Ints.{ℤ, is_positive}
use net_perf_test.Common.Floats.{Floats}
use net_perf_test.Stress.Loader.Types.{System, Error, Run, Config as LoaderConfig}
use net_perf_test.Stress.Loader.Lifecycle.{new_loader, load_and_attach, detach}
use net_perf_test.Stress.Loader.Readings.{get_stats}

-- `Config`. The durations are in nanoseconds.
pub record Config : Type 0 where
  pub hook : String
  pub interface_name : String
  pub loops : ℕ  -- uint32
  pub duration : ℤ
  pub verbose : Bool
  pub pin_maps : Bool
  pub stats_interval : ℤ

pub data ConfigError : Type 0 where
  invalid_hook : String → ConfigError
  interface_required : ConfigError
  loops_zero : ConfigError

abbrev pub is_valid_hook : String → Bool
is_valid_hook hook =
    str_eq hook "xdp" || str_eq hook "tc-ingress" || str_eq hook "tc-egress" || str_eq hook "socket"

abbrev pub max_loops : ℕ
max_loops = 2500

-- The configuration is global: on success it is returned as the check leaves it.
unfoldable pub validate_config : Config → Result ConfigError Config
validate_config c =
    if not (is_valid_hook c.hook)
    then err (invalid_hook c.hook)
    else if str_eq c.interface_name ""
    then err interface_required
    else if c.loops == 0
    then err loops_zero
    else if ltb max_loops c.loops
    then ok (record c { loops = max_loops })
    else ok c

-- The loader's configuration that `run` builds; `Program` is left at its zero value.
unfoldable pub loader_config : Config → LoaderConfig
loader_config c = record {
  hook = c.hook;
  interface_name = c.interface_name;
  loops = c.loops;
  program = "";
  pin_maps = c.pin_maps;
}

-- What the `select` of the main loop receives.
pub data Signal : Type 0 where
  interrupt duration_over stats_tick context_done : Signal

-- `waiting` is a main loop that has received no signal that ends it. `time.NewTicker` panics
-- for an interval that is not positive, behind the attachment and without a cleanup.
pub data Outcome : Type 0 where
  config_error : ConfigError → Outcome
  load_error : Error → Outcome
  ticker_panic : Outcome
  waiting : Outcome
  finished : Outcome

-- The channel of the duration is nil, and is never received from, unless the duration is positive.
abbrev pub ends : Config → Signal → Bool
ends c interrupt = true
ends c duration_over = is_positive c.duration
ends c stats_tick = false
ends c context_done = true

module _ (sys : System) (floats : Floats) where
  -- The final statistics are read, whether or not that works, and the loader is detached.
  unfoldable pub cleanup : Run → Run
  cleanup s = (detach sys (get_stats sys floats s).1).1

  abbrev pub on_tick : Signal → Run → Run
  on_tick stats_tick s = (get_stats sys floats s).1
  on_tick _ s = s

  -- The signals up to the first that ends the loop; later ones are not received.
  unfoldable pub main_loop : Config → List Signal → Run → Outcome × Run
  main_loop c [] s = (waiting, s)
  main_loop c (signal ∷ signals) s =
      let rest = main_loop c signals (on_tick signal s) in
      if ends c signal then (finished, cleanup s) else rest

  abbrev pub started : Config → List Signal → Result Error (Unit {0}) → Run → Outcome × Run
  started c signals (err e) s = (load_error e, s)
  started c signals (ok _) s =
      if is_positive c.stats_interval then main_loop c signals s else (ticker_panic, s)

  abbrev pub validated : Run → List Signal → Result ConfigError Config → Outcome × Run
  validated empty signals (err e) = (config_error e, empty)
  validated empty signals (ok c) =
      let r = load_and_attach sys (new_loader sys (loader_config c)) in started c signals r.0 r.1

  -- `empty` is the state before any loader is made.
  unfoldable pub run : Config → Run → List Signal → Outcome × Run
  run c empty signals = validated empty signals (validate_config c)
