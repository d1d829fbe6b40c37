-- ===== src/Exporter/Command.antt =====
-- The command line of ebpf-exporter/cmd/ebpf-exporter/main.go: the flags with their defaults, and
-- `main`. Reading the arguments is cobra's work: a result of it is what the arguments ask for.
use net_perf_test.Common.{String, Bool, false, none, List, [], ◌∷◌}
use net_perf_test.Common.Ints.{ℤ, pos}
use net_perf_test.Common.Floats.{Floats}
use net_perf_test.Exporter.Configuration.{default_pin_path, Config}
use net_perf_test.Exporter.Collector.Types.{System}
use net_perf_test.Exporter.Process.{
  Course, World, Ending, config_error, registration_panic, ticker_panic, stopped, run,
}

-- The values that the flags have if they are not given; the other fields are at their zero values.
abbrev pub default_config : Config
default_config = record {
  port = pos 9091;
  pin_path = default_pin_path;
  poll_interval = pos 5_000_000_000;
  verbose = false;
  config_file = "";
  interfaces = [];
  yaml_config = none;
  latency_enabled = false;
  latency_pin_path = "";
  latency_interfaces = [];
}

-- A flag that is given, with its value as pflag has read it.
pub data Setting : Type 0 where
  config_file pin_path : String → Setting
  port poll_interval : ℤ → Setting
  verbose : Bool → Setting
  interfaces : List String → Setting

unfoldable pub apply_setting : Setting → Config → Config
apply_setting (config_file v) c = record c { config_file = v }
apply_setting (pin_path v) c = record c { pin_path = v }
apply_setting (port v) c = record c { port = v }
apply_setting (poll_interval v) c = record c { poll_interval = v }
apply_setting (verbose v) c = record c { verbose = v }
apply_setting (interfaces v) c = record c { interfaces = v }

-- The settings in turn. `--interfaces` that is given twice is one setting, of all the names.
unfoldable pub apply_settings : List Setting → Config → Config
apply_settings [] c = c
apply_settings (setting ∷ settings) c = apply_settings settings (apply_setting setting c)

-- The arguments are refused, they ask for the help or for the version, or the command is run.
pub data Request : Type 0 where
  refused shown : Request
  given : List Setting → Request

-- How the process ends: with status 0, with status 1, or by a panic.
pub data Exit : Type 0 where
  success failure panicked : Exit

module _ (sys : System) (floats : Floats) {S : Type 0} (world : World S) where
  abbrev pub exit_of : Ending sys floats → Exit
  exit_of (config_error _) = failure
  exit_of registration_panic = panicked
  exit_of (ticker_panic _) = panicked
  exit_of (stopped _ _) = success

  unfoldable pub main : Request → Course → Exit
  main refused course = failure
  main shown course = success
  main (given settings) course =
      exit_of (run sys floats world (apply_settings settings default_config) course)
