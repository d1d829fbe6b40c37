-- ===== src/Exporter/Collector/Maps.antt =====
-- `openMaps`, `openLatencyMaps`, `close` and `sumPerCPUMap` of
-- ebpf-exporter/cmd/ebpf-exporter/main.go.
use net_perf_test.Common.{
  ℕ, String, Option, none, some, List, [], ◌∷◌, Result, ok, err, str_eq, if◌then◌else◌,
}
use net_perf_test.Common.Words.{sum_onto}
use net_perf_test.Exporter.Configuration.{default_latency_pin_path}
use net_perf_test.Exporter.Collector.Types.{
  Call, load_pinned_map, lookup_values, lookup_single, close_map, System, Collector, record_call,
}

-- The keys of the table of `openMaps`.
pub data StressMap : Type 0 where
  stats_packets stats_loops stats_bytes stats_time_ns config_loop_count : StressMap

abbrev pub stress_name : StressMap → String
stress_name stats_packets = "stats_packets"
stress_name stats_loops = "stats_loops"
stress_name stats_bytes = "stats_bytes"
stress_name stats_time_ns = "stats_time_ns"
stress_name config_loop_count = "config_loop_count"

-- The keys of the table of `openLatencyMaps`.
pub data LatencyMap : Type 0 where
  global_packets global_latency_ns latency_histogram : LatencyMap

abbrev pub latency_name : LatencyMap → String
latency_name global_packets = "global_packets"
latency_name global_latency_ns = "global_latency_ns"
latency_name latency_histogram = "latency_histogram"

module _ {F : Type 0} where
  abbrev pub stress_field : StressMap → Collector F → Option ℕ
  stress_field stats_packets c = c.packets_map
  stress_field stats_loops c = c.loops_map
  stress_field stats_bytes c = c.bytes_map
  stress_field stats_time_ns c = c.time_map
  stress_field config_loop_count c = c.loop_count_map

  -- `*mapPtr = m`
  abbrev pub set_stress : StressMap → ℕ → Collector F → Collector F
  set_stress stats_packets m c = record c { packets_map = some m }
  set_stress stats_loops m c = record c { loops_map = some m }
  set_stress stats_bytes m c = record c { bytes_map = some m }
  set_stress stats_time_ns m c = record c { time_map = some m }
  set_stress config_loop_count m c = record c { loop_count_map = some m }

  abbrev pub set_latency : LatencyMap → ℕ → Collector F → Collector F
  set_latency global_packets m c = record c { latency_packets_map = some m }
  set_latency global_latency_ns m c = record c { latency_ns_map = some m }
  set_latency latency_histogram m c = record c { latency_histogram_map = some m }

-- The number that a lookup fills in, or its zero value.
abbrev pub or_zero : Result ℕ ℕ → ℕ
or_zero (ok n) = n
or_zero (err _) = 0

module _ (sys : System) {F : Type 0} where
  -- The answer to a call, and the state behind it.
  abbrev pub reply : Call → Collector F → Result ℕ ℕ
  reply a c = sys.answer c.trace a

  abbrev pub after : Call → Collector F → Collector F
  after a c = record_call a (reply a c) c

  -- The loop over a table of maps, in the order in which Go happens to range over it. It stops at
  -- the first map that does not load, and the maps before that stay in the collector.
  module _ {K : Type 0} (name : K → String) (assign : K → ℕ → Collector F → Collector F) where
    abbrev pub opened :
        (Collector F → Result K (Unit {0}) × Collector F)
        → K
        → Result ℕ ℕ
        → Collector F
        → Result K (Unit {0}) × Collector F
    opened rest k (ok m) c = rest (assign k m c)
    opened rest k (err _) c = (err k, c)

    unfoldable pub open_each : String → List K → Collector F → Result K (Unit {0}) × Collector F
    open_each pin_path [] c = (ok tt, c)
    open_each pin_path (k ∷ ks) c =
        let a = load_pinned_map (sys.join pin_path (name k)) in
        opened (open_each pin_path ks) k (reply a c) (after a c)

  unfoldable pub open_maps :
      List StressMap → Collector F → Result StressMap (Unit {0}) × Collector F
  open_maps order c = open_each stress_name set_stress c.pin_path order c

  unfoldable pub open_latency_maps :
      List LatencyMap → Collector F → Result LatencyMap (Unit {0}) × Collector F
  open_latency_maps order c =
      open_each latency_name set_latency
        (if str_eq c.latency_pin_path "" then default_latency_pin_path else c.latency_pin_path)
        order c

  abbrev pub close_if : Option ℕ → Collector F → Collector F
  close_if none c = c
  close_if (some m) c = after (close_map m) c

  -- The fields keep their values.
  unfoldable pub close : Collector F → Collector F
  close c =
      let c1 = close_if c.packets_map c in
      let c2 = close_if c.loops_map c1 in
      let c3 = close_if c.bytes_map c2 in
      let c4 = close_if c.time_map c3 in
      let c5 = close_if c.loop_count_map c4 in
      let c6 = close_if c.latency_packets_map c5 in
      let c7 = close_if c.latency_ns_map c6 in close_if c.latency_histogram_map c7

  -- A map that is not per-CPU fails the first lookup, and is read as a single value.
  abbrev pub summed : ℕ → ℕ → Result ℕ ℕ → Collector F → ℕ × Collector F
  summed m key (ok buffer) c = (sum_onto 0 (sys.words buffer), c)
  summed m key (err _) c = (or_zero (reply (lookup_single m key) c), after (lookup_single m key) c)

  unfoldable pub sum_per_cpu_map : Option ℕ → ℕ → Collector F → ℕ × Collector F
  sum_per_cpu_map none key c = (0, c)
  sum_per_cpu_map (some m) key c =
      summed m key (reply (lookup_values m key) c) (after (lookup_values m key) c)
