-- ===== src/Exporter/Exits.antt =====
-- With which status ebpf-exporter/cmd/ebpf-exporter/main.go ends.
use net_perf_test.Common.{Bool, true, false, Result, ok, err, if◌then◌else◌}
use net_perf_test.Common.Ints.{is_positive}
use net_perf_test.Common.Floats.{Floats}
use net_perf_test.Exporter.Configuration.{Config, LoadError}
use net_perf_test.Exporter.Command.{Exit, success, failure, panicked}

-- The status by the configuration, once the flags and the file are read, and by whether the registry
-- takes the metrics.
abbrev pub status_by : Bool → Result LoadError Config → Exit
status_by registers (err _) = failure
status_by false (ok c) = panicked
status_by true (ok c) = if is_positive c.poll_interval then success else panicked
