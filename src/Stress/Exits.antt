-- ===== src/Stress/Exits.antt =====
-- What the ends of the process leave behind, for ebpf-stress/cmd/ebpf-stress/main.go.
use net_perf_test.Common.{◌≡◌, false}
use net_perf_test.Common.Ints.{is_positive}
use net_perf_test.Common.Floats.{Floats}
use net_perf_test.Stress.Loader.Types.{Run}
use net_perf_test.Stress.Loader.Resources.{IsBalanced, IsUnattached, IsIdle}
use net_perf_test.Stress.Loader.Outcomes.{IsAttached}
use net_perf_test.Stress.Main.{Config}
use net_perf_test.Stress.Command.{
  Request, given, Exit, success, failure, panicked, running, default_config, apply_settings,
}

-- Status 0: every link and filter has got a call to remove it, whatever that answered, and the
-- collection is closed. Status 1: no program is attached, though a collection may be
-- open. A panic: the program is still attached, and the interval of the statistics was not positive.
abbrev pub Leaves : Exit → Config → Run → Type 0
Leaves success c s = IsIdle s
Leaves failure c s = IsUnattached s
Leaves panicked c s = IsBalanced s × IsAttached s × (is_positive c.stats_interval ≡ false)
Leaves running c s = IsBalanced s

abbrev pub config_of : Request → Config
config_of (given settings) = apply_settings settings default_config
config_of _ = default_config
