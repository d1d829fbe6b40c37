-- ===== src/Stress/Command.antt =====
-- The command line of ebpf-stress/cmd/ebpf-stress/main.go: the flags with their defaults, and `main`.
-- Reading the arguments is cobra's work: a result of it is what the arguments ask for.
use net_perf_test.Common.{ℕ, String, Bool, true, false, List, [], ◌∷◌}
use net_perf_test.Common.Ints.{ℤ, pos}
use net_perf_test.Common.Floats.{Floats}
use net_perf_test.Stress.Loader.Types.{System, Run}
use net_perf_test.Stress.Main.{
  Config, Signal, Outcome, config_error, load_error, ticker_panic, waiting, finished, run,
}

-- The values that the flags have if they are not given.
abbrev pub default_config : Config
default_config = record {
  hook = "xdp";
  interface_name = "lo";
  loops = 1000;
  duration = pos 0;
  verbose = false;
  pin_maps = true;
  stats_interval = pos 5_000_000_000;
}

-- A flag that is given, with its value as pflag has read it.
pub data Setting : Type 0 where
  hook interface_name : String → Setting
  loops : ℕ → Setting
  duration stats_interval : ℤ → Setting
  verbose pin_maps : Bool → Setting

unfoldable pub apply_setting : Setting → Config → Config
apply_setting (hook v) c = record c { hook = v }
apply_setting (interface_name v) c = record c { interface_name = v }
apply_setting (loops v) c = record c { loops = v }
apply_setting (duration v) c = record c { duration = v }
apply_setting (stats_interval v) c = record c { stats_interval = v }
apply_setting (verbose v) c = record c { verbose = v }
apply_setting (pin_maps v) c = record c { pin_maps = v }

-- A flag that is given twice has its last value.
unfoldable pub apply_settings : List Setting → Config → Config
apply_settings [] c = c
apply_settings (setting ∷ settings) c = apply_settings settings (apply_setting setting c)

-- The arguments are refused, they ask for the help or for the version, or the command is run.
pub data Request : Type 0 where
  refused shown : Request
  given : List Setting → Request

-- How the process ends: with status 0, with status 1, or by a panic; or it does not yet.
pub data Exit : Type 0 where
  success failure panicked running : Exit

abbrev pub exit_of : Outcome → Exit
exit_of (config_error _) = failure
exit_of (load_error _) = failure
exit_of ticker_panic = panicked
exit_of waiting = running
exit_of finished = success

module _ (sys : System) (floats : Floats) where
  unfoldable pub main : Request → Run → List Signal → Exit × Run
  main refused empty signals = (failure, empty)
  main shown empty signals = (success, empty)
  main (given settings) empty signals =
      let r = run sys floats (apply_settings settings default_config) empty signals in
      (exit_of r.0, r.1)
