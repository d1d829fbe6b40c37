-- ===== src/Exporter/Collector/Collect.antt =====
-- `collect` and `collectLatencyMetrics`, the start of the collector in `run`, and the handler of
-- /ready in ebpf-exporter/cmd/ebpf-exporter/main.go.
use net_perf_test.Common.{
  ℕ, ◌-◌, suc, String, Bool, true, Option, none, some, List, [], ◌∷◌, Result, ok, err, is_some, ltb,
  ◌&&◌, if◌then◌else◌,
}
use net_perf_test.Common.Words.{sub64}
use net_perf_test.Common.Floats.{Floats}
use net_perf_test.Exporter.Collector.Types.{
  InterfaceStats, lookup_word, System, Gauge, packets_total, loops_total, bytes_total,
  time_ns_total, loops_per_packet, avg_time_per_pkt, packets_per_sec, loops_per_sec, bytes_per_sec,
  interfaces_up, uptime_seconds, configured_loops, exporter_up, kernel_stack_packets_total,
  kernel_stack_latency_ns_total, kernel_stack_latency_avg_ns, kernel_stack_histogram,
  kernel_stack_collector_up, Collector,
}
use net_perf_test.Exporter.Collector.Maps.{
  StressMap, LatencyMap, reply, after, open_maps, open_latency_maps, or_zero, sum_per_cpu_map,
}

abbrev pub histogram_buckets : List String
histogram_buckets =
    "0-1us" ∷ "1-2us" ∷ "2-4us" ∷ "4-8us" ∷ "8-16us" ∷ "16-32us" ∷ "32-64us" ∷ "64-128us"
    ∷ "128-256us" ∷ "256-512us" ∷ "512-1024us" ∷ "1-2ms" ∷ "2-4ms" ∷ "4-8ms" ∷ "8-16ms" ∷ "16ms+"
    ∷ []

-- The sums that one round reads.
pub record Totals : Type 0 where
  pub packets : ℕ
  pub loops : ℕ
  pub bytes : ℕ
  pub time_ns : ℕ

-- What a round of `collect` is given from outside: the order in which Go ranges over the table of
-- maps, if they are opened, the time since the start, and the time of the round.
pub record Round : Type 0 where
  pub order : List StressMap
  pub uptime : ℕ
  pub now : ℕ

module _ (sys : System) (floats : Floats) where
  open floats use {Float, of_uint, seconds, div}

  abbrev pub State : Type 0
  State = Collector Float

  -- `gauge.Set(v)`
  abbrev pub set : Gauge → Float → State → State
  set g v c = record c { gauges = (g, v) ∷ c.gauges }

  abbrev pub set_totals : Totals → String → State → State
  set_totals t name c = set (time_ns_total name "xdp") (of_uint t.time_ns) (
      set (bytes_total name "xdp") (of_uint t.bytes) (
        set (loops_total name "xdp") (of_uint t.loops)
          (set (packets_total name "xdp") (of_uint t.packets) c)))

  -- The rates since the last round, and the averages.
  abbrev pub set_rates : Totals → ℕ → String → InterfaceStats → State → State
  set_rates t now name stats c =
      let elapsed = seconds (now - stats.last_check) in
      set (avg_time_per_pkt name) (div (of_uint t.time_ns) (of_uint t.packets)) (
        set (loops_per_packet name) (div (of_uint t.loops) (of_uint t.packets)) (
          set (bytes_per_sec name) (div (of_uint (sub64 t.bytes stats.last_bytes)) elapsed) (
            set (loops_per_sec name) (div (of_uint (sub64 t.loops stats.last_loops)) elapsed) (
              set (packets_per_sec name)
                (div (of_uint (sub64 t.packets stats.last_packets)) elapsed)
                (set (interfaces_up name) (of_uint 1) c)))))

  -- `elapsed > 0 && packets > 0`: the seconds of a duration are positive where the duration is.
  abbrev pub is_counting : Totals → ℕ → InterfaceStats → Bool
  is_counting t now stats = ltb stats.last_check now && ltb 0 t.packets

  abbrev pub update_gauges : Totals → ℕ → String → InterfaceStats → State → State
  update_gauges t now name stats c =
      if is_counting t now stats
      then set_rates t now name stats (set_totals t name c)
      else set (interfaces_up name) (of_uint 0) (set_totals t name c)

  abbrev pub tracked : Totals → ℕ → InterfaceStats
  tracked t now = record {
    last_packets = t.packets;
    last_loops = t.loops;
    last_bytes = t.bytes;
    last_time_ns = t.time_ns;
    last_check = now;
  }

  -- The loop over the interfaces: the entries as they are left, and the gauges.
  unfoldable pub update_each :
      Totals → ℕ → List (String × InterfaceStats) → State → List (String × InterfaceStats) × State
  update_each t now [] c = ([], c)
  update_each t now ((name, stats) ∷ rest) c =
      let (kept, c') = update_each t now rest (update_gauges t now name stats c) in
      ((name, tracked t now) ∷ kept, c')

  abbrev pub update_interfaces : Totals → ℕ → State → State
  update_interfaces t now c =
      let (kept, c') = update_each t now c.interface_stats c in record c' { interface_stats = kept }

  unfoldable pub read_totals : State → Totals × State
  read_totals c =
      let (packets, c1) = sum_per_cpu_map sys c.packets_map 0 c in
      let (loops, c2) = sum_per_cpu_map sys c1.loops_map 0 c1 in
      let (bytes, c3) = sum_per_cpu_map sys c2.bytes_map 0 c2 in
      let (time_ns, c4) = sum_per_cpu_map sys c3.time_map 0 c3 in
      (record { packets = packets; loops = loops; bytes = bytes; time_ns = time_ns }, c4)

  -- The configured loop count; it stays 0 if the lookup fails.
  abbrev pub word_at : Option ℕ → State → ℕ × State
  word_at none c = (0, c)
  word_at (some m) c = (or_zero (reply sys (lookup_word m 0) c), after sys (lookup_word m 0) c)

  -- The loop of `collectLatencyMetrics` over the interfaces.
  unfoldable pub set_latency_each : ℕ → ℕ → List (String × InterfaceStats) → State → State
  set_latency_each packets ns [] c = c
  set_latency_each packets ns ((name, _) ∷ rest) c =
      let c1 =
        set (kernel_stack_latency_ns_total name) (of_uint ns)
          (set (kernel_stack_packets_total name) (of_uint packets) c) in
      set_latency_each packets ns rest (
        if ltb 0 packets
        then set (kernel_stack_latency_avg_ns name) (div (of_uint ns) (of_uint packets)) c1
        else c1)

  -- The loop over the buckets, from bucket `i` on.
  unfoldable pub set_histogram : ℕ → List String → State → State
  set_histogram i [] c = c
  set_histogram i (bucket ∷ buckets) c =
      let (count, c') = sum_per_cpu_map sys c.latency_histogram_map i c in
      set_histogram (suc i) buckets (set (kernel_stack_histogram bucket) (of_uint count) c')

  unfoldable pub read_latency : State → State
  read_latency c =
      let (packets, c1) = sum_per_cpu_map sys c.latency_packets_map 0 c in
      let (ns, c2) = sum_per_cpu_map sys c1.latency_ns_map 0 c1 in
      set_histogram 0 histogram_buckets (set_latency_each packets ns c2.interface_stats c2)

  unfoldable pub collect_latency_metrics : State → State
  collect_latency_metrics c = if c.latency_maps_available then read_latency c else c

  -- A round on maps that are open.
  unfoldable pub collect_open : Round → State → State
  collect_open r c =
      let c1 = set uptime_seconds (seconds r.uptime) c in
      let (t, c2) = read_totals c1 in
      let (loops, c3) = word_at c2.loop_count_map c2 in
      let c4 = set configured_loops (of_uint loops) c3 in
      collect_latency_metrics (update_interfaces t r.now c4)

  abbrev pub reconnected : Round → Result StressMap (Unit {0}) → State → State
  reconnected r (err _) c = set exporter_up (of_uint 0) c
  reconnected r (ok _) c = collect_open r (set exporter_up (of_uint 1) c)

  abbrev pub collect_at : Round → Option ℕ → State → State
  collect_at r none c = let o = open_maps sys r.order c in reconnected r o.0 o.1
  collect_at r (some _) c = collect_open r c

  unfoldable pub collect : Round → State → State
  collect r c = collect_at r c.packets_map c

  abbrev pub stress_connected : Result StressMap (Unit {0}) → State → State
  stress_connected (err _) c = set exporter_up (of_uint 0) c
  stress_connected (ok _) c = set exporter_up (of_uint 1) c

  abbrev pub latency_connected : Result LatencyMap (Unit {0}) → State → State
  latency_connected (err _) c = set kernel_stack_collector_up (of_uint 0) c
  latency_connected (ok _) c =
      set kernel_stack_collector_up (of_uint 1) (record c { latency_maps_available = true })

  -- The attempts of `run` to open the two tables of maps, before the first round.
  unfoldable pub connect : Bool → List StressMap → List LatencyMap → State → State
  connect latency_enabled order latency_order c =
      let r = open_maps sys order c in
      let c1 = stress_connected r.0 r.1 in
      let l = open_latency_maps sys latency_order c1 in
      if latency_enabled
      then latency_connected l.0 l.1
      else set kernel_stack_collector_up (of_uint 0) c1

  -- `c.run`: a first round, and one for each tick until the context is done.
  unfoldable pub run_rounds : List Round → State → State
  run_rounds [] c = c
  run_rounds (r ∷ rounds) c = run_rounds rounds (collect r c)

  -- The status that /ready answers with.
  unfoldable pub ready_status : State → ℕ
  ready_status c = if is_some c.packets_map then 200 else 503
