-- ===== src/Exporter/Collector/Types.antt =====
-- The data of the collector of ebpf-exporter/cmd/ebpf-exporter/main.go. What the BPF file system
-- answers is up to the parameter `System`; the trace records each call with its answer, the newest
-- first. A gauge is what its newest `Set` in `gauges` says.
use net_perf_test.Common.{ℕ, String, Bool, Option, List, ◌∷◌, Result}

-- `InterfaceStats`. The times are nanoseconds of the monotonic clock.
pub record InterfaceStats : Type 0 where
  pub last_packets : ℕ
  pub last_loops : ℕ
  pub last_bytes : ℕ
  pub last_time_ns : ℕ
  pub last_check : ℕ

pub data Call : Type 0 where
  load_pinned_map : String → Call
  lookup_values : ℕ → ℕ → Call
  lookup_single : ℕ → ℕ → Call
  lookup_word : ℕ → ℕ → Call
  close_map : ℕ → Call

abbrev pub Event : Type 0
Event = Call × Result ℕ ℕ

abbrev pub Trace : Type 0
Trace = List Event

-- `words` are the values that an answered per-CPU lookup has filled in; `join` is `filepath.Join`.
pub record System : Type 0 where
  pub answer : Trace → Call → Result ℕ ℕ
  pub words : ℕ → List ℕ
  pub join : String → String → String

-- The gauges with their labels. The hook of the first four is always "xdp".
pub data Gauge : Type 0 where
  packets_total loops_total bytes_total time_ns_total : String → String → Gauge
  loops_per_packet avg_time_per_pkt packets_per_sec loops_per_sec bytes_per_sec : String → Gauge
  interfaces_up : String → Gauge
  uptime_seconds configured_loops exporter_up : Gauge
  kernel_stack_packets_total kernel_stack_latency_ns_total : String → Gauge
  kernel_stack_latency_avg_ns : String → Gauge
  kernel_stack_histogram : String → Gauge
  kernel_stack_collector_up : Gauge

-- `Collector`, without the lock: each operation holds it from start to end. `interface_stats` has
-- one entry for each monitored interface.
pub record Collector (F : Type 0) : Type 0 where
  pub pin_path : String
  pub latency_pin_path : String
  pub packets_map : Option ℕ
  pub loops_map : Option ℕ
  pub bytes_map : Option ℕ
  pub time_map : Option ℕ
  pub loop_count_map : Option ℕ
  pub latency_packets_map : Option ℕ
  pub latency_ns_map : Option ℕ
  pub latency_histogram_map : Option ℕ
  pub interface_stats : List (String × InterfaceStats)
  pub latency_maps_available : Bool
  pub gauges : List (Gauge × F)
  pub trace : Trace

abbrev pub record_call : {F : Type 0} → Call → Result ℕ ℕ → Collector F → Collector F
record_call a r c = record c { trace = (a, r) ∷ c.trace }
