-- ===== src/Exporter/Tests.antt =====
-- The theorems on ebpf-exporter at concrete data: a BPF file system with or without the packet map.
use net_perf_test.Common.{
  ℕ, List, ◌≡◌, ◌<>◌, refl, String, true, false, Option, none, some, [], ◌∷◌, ◌++◌, Result, ok, err,
  arith, str_eq, if◌then◌else◌,
}
use net_perf_test.Common.Ints.{ℤ, pos}
use net_perf_test.Common.Sample.{naturals}
use net_perf_test.Exporter.Configuration.{YamlConfig, Config, apply_yaml_config}
use net_perf_test.Exporter.Priority.{enabled_names, apply_yaml_config_priority}
use net_perf_test.Exporter.Sample.{name_registry}
use net_perf_test.Exporter.Latency.Metrics.{registered}
use net_perf_test.Exporter.Collector.Metrics.{stress_metrics, kernel_metrics}
use net_perf_test.Exporter.Registry.{all_new-Untaken}
use net_perf_test.Exporter.Registration.{exporter_list, register_metrics-once}
use net_perf_test.Exporter.Collector.Metrics.{
  new_metrics as exporter_metrics, register_metrics as register_exporter,
}
use net_perf_test.Exporter.Latency.Metrics.{
  new_metrics as latency_metrics, register_metrics as register_latency,
}
use net_perf_test.Exporter.Collector.Types.{
  Call, load_pinned_map, System, Collector, InterfaceStats,
}
use net_perf_test.Exporter.Collector.Maps.{stats_packets, stats_bytes}
use net_perf_test.Exporter.Collector.Collect.{Round, update_interfaces, run_rounds, ready_status}
use net_perf_test.Exporter.Collector.Reconnect.{IsKept, partial_open_stays}
use net_perf_test.Exporter.Collector.Rates.{all_sets, rates_exact}

abbrev bytes_path : String
bytes_path = "/sys/fs/bpf/ebpf-stress/stats_bytes"

-- All maps but the one of the bytes are pinned.
abbrev respond : Call → Result ℕ ℕ
respond (load_pinned_map p) = if str_eq p bytes_path then err 2 else ok 4
respond _ = ok 0

abbrev bpf_fs : System
bpf_fs = record { answer = λ t c. respond c; words = λ b. 3 ∷ 4 ∷ []; join = λ a b. a <> "/" <> b }

abbrev eth0 : InterfaceStats
eth0 = record { last_packets = 0; last_loops = 0; last_bytes = 0; last_time_ns = 0; last_check = 0 }

abbrev unopened : Collector ℕ
unopened = record {
  pin_path = "/sys/fs/bpf/ebpf-stress";
  latency_pin_path = "";
  packets_map = none;
  loops_map = none;
  bytes_map = none;
  time_map = none;
  loop_count_map = none;
  latency_packets_map = none;
  latency_ns_map = none;
  latency_histogram_map = none;
  interface_stats = ("eth0", eth0) ∷ [];
  latency_maps_available = false;
  gauges = [];
  trace = [];
}

abbrev partial : Collector ℕ
partial = record unopened { packets_map = some 4; loops_map = some 5 }

abbrev round : Round
round = record { order = stats_packets ∷ stats_bytes ∷ []; uptime = 1000000000; now = 1000000000 }

rates_exact_example :
    (update_interfaces bpf_fs naturals
      (record { packets = 30; loops = 60; bytes = 90; time_ns = 9 })
      2000000000
      (update_interfaces bpf_fs naturals
        (record { packets = 10; loops = 20; bytes = 30; time_ns = 3 })
        1000000000
        unopened)).gauges
    ≡ all_sets bpf_fs naturals
        (record { packets = 10; loops = 20; bytes = 30; time_ns = 3 })
        (record { packets = 30; loops = 60; bytes = 90; time_ns = 9 })
        1000000000
        unopened.interface_stats
      ++ (update_interfaces bpf_fs naturals
          (record { packets = 10; loops = 20; bytes = 30; time_ns = 3 })
          1000000000
          unopened).gauges
rates_exact_example =
    rates_exact bpf_fs naturals (record { packets = 10; loops = 20; bytes = 30; time_ns = 3 })
      (record { packets = 30; loops = 60; bytes = 90; time_ns = 9 }) 1000000000 2000000000
      (record {
        packets_grow = omega arith;
        loops_grow = omega arith;
        bytes_grow = omega arith;
        packets_fit = omega arith;
        loops_fit = omega arith;
        bytes_fit = omega arith;
      })
      (omega arith) (omega arith) unopened

partial_open_stays_example :
    IsKept partial (run_rounds bpf_fs naturals (round ∷ round ∷ []) partial)
    × (ready_status bpf_fs naturals (run_rounds bpf_fs naturals (round ∷ round ∷ []) partial) ≡ 200)
partial_open_stays_example = partial_open_stays bpf_fs naturals (round ∷ round ∷ []) partial refl

abbrev given : Config
given = record {
  port = pos 9400;
  pin_path = "/sys/fs/bpf/ebpf-stress";
  poll_interval = pos 1000000000;
  verbose = false;
  config_file = "";
  interfaces = "lo" ∷ [];
  yaml_config = none;
  latency_enabled = false;
  latency_pin_path = "";
  latency_interfaces = [];
}

abbrev old_format : YamlConfig
old_format = record {
  server = record { port = pos 0; poll_interval = "" };
  ebpf_stress = record { enabled = true; pin_path = "" };
  ebpf_pin_path = "/sys/fs/bpf/old";
  latency_measurement = record { enabled = false; pin_path = ""; interfaces = [] };
  interfaces =
      record { name = "eth0"; enabled = true } ∷ record { name = "eth1"; enabled = false } ∷ [];
  metrics = record {
    packets_total = true;
    loops_total = true;
    bytes_total = true;
    processing_time_ns_total = true;
    packets_per_second = true;
    loops_per_second = true;
    loops_per_packet = true;
    avg_time_per_packet_ns = true;
    uptime_seconds = true;
    configured_loops = true;
    kernel_stack_latency = false;
    latency_histogram = false;
  };
  logging = record { verbose = false; format = "" };
}

abbrev no_duration : String → Option ℤ
no_duration s = none

apply_yaml_config_priority_example :
    ((apply_yaml_config no_duration old_format given).pin_path ≡ "/sys/fs/bpf/ebpf-stress")
    × ((apply_yaml_config no_duration old_format given).interfaces
        ≡ given.interfaces ++ enabled_names old_format.interfaces)
apply_yaml_config_priority_example = apply_yaml_config_priority no_duration old_format given

-- A registry that holds two metrics of other collectors.
abbrev used_names : List String
used_names = "go_goroutines" ∷ "process_open_fds" ∷ []

register_metrics-once_example :
    ((t : List String) × (register_latency name_registry latency_metrics used_names ≡ (ok tt, t))
      × ((e : ℕ) × (register_latency name_registry latency_metrics t ≡ (err e, t))))
    × ((t : List String) × (register_exporter name_registry exporter_metrics used_names ≡ some t)
        × ((e : ℕ) × (register_latency name_registry latency_metrics t ≡ (err e, t))))
unfolding registered exporter_metrics stress_metrics kernel_metrics latency_metrics
register_metrics-once_example =
    register_metrics-once name_registry used_names
      (all_new-Untaken used_names (registered latency_metrics) refl, refl)
      (all_new-Untaken used_names exporter_list refl, refl)
