-- ===== src/Exporter/Collector/Reconnect.antt =====
-- When the collector of ebpf-exporter/cmd/ebpf-exporter/main.go opens its maps again.
use net_perf_test.Common.{
  ℕ, suc, ◌≡◌, refl, String, Bool, true, false, Option, none, some, List, [], ◌∷◌, Result, ok, err,
  arith, is_some, count_by,
}
use net_perf_test.Common.Floats.{Floats}
use net_perf_test.Exporter.Collector.Types.{
  InterfaceStats, Gauge, exporter_up, uptime_seconds, configured_loops, kernel_stack_histogram,
  lookup_values, Event, load_pinned_map, System, Collector,
}
use net_perf_test.Exporter.Collector.Opening.{map_calls}
use net_perf_test.Exporter.Collector.Maps.{sum_per_cpu_map, after, summed}
use net_perf_test.Exporter.Collector.Collect.{
  Round, Totals, State, set, update_gauges, update_each, update_interfaces, read_totals, word_at,
  set_latency_each, set_histogram, read_latency, collect_latency_metrics, collect_open, collect,
  run_rounds, ready_status,
}

abbrev is_load : Event → Bool
is_load (load_pinned_map _, _) = true
is_load _ = false

abbrev is_exporter_up : {F : Type 0} → Gauge × F → Bool
is_exporter_up (exporter_up, _) = true
is_exporter_up _ = false

-- The eight maps are as they were, none was loaded or closed, and `exporter_up` was not set.
pub record IsKept {F : Type 0} (c d : Collector F) : Type 0 where
  pub same_packets : d.packets_map ≡ c.packets_map
  pub same_loops : d.loops_map ≡ c.loops_map
  pub same_bytes : d.bytes_map ≡ c.bytes_map
  pub same_time : d.time_map ≡ c.time_map
  pub same_loop_count : d.loop_count_map ≡ c.loop_count_map
  pub same_latency_packets : d.latency_packets_map ≡ c.latency_packets_map
  pub same_latency_ns : d.latency_ns_map ≡ c.latency_ns_map
  pub same_latency_histogram : d.latency_histogram_map ≡ c.latency_histogram_map
  pub same_map_calls : map_calls d.trace ≡ map_calls c.trace
  pub no_load : count_by is_load d.trace ≡ count_by is_load c.trace
  pub same_up : count_by is_exporter_up d.gauges ≡ count_by is_exporter_up c.gauges

module _ {F : Type 0} where
  pub IsKept-refl : (c : Collector F) → IsKept c c
  IsKept-refl c = ground arith

  pub IsKept-trans : {b c d : Collector F} → IsKept b c → IsKept c d → IsKept b d
  IsKept-trans p q = ground arith

module _ (sys : System) (floats : Floats) where
  pub set-IsKept :
      (g : Gauge) (v : floats.Float) (c : State sys floats)
      → is_exporter_up (g, v) ≡ false
      → IsKept c (set sys floats g v c)
  set-IsKept g v c h = ground arith

  lookup-IsKept : (m key : ℕ) (c : State sys floats) → IsKept c (after sys (lookup_values m key) c)
  lookup-IsKept m key c = ground arith

  summed-IsKept :
      (m key : ℕ) (r : Result ℕ ℕ) (c : State sys floats) → IsKept c (summed sys m key r c).1
  summed-IsKept m key (ok b) c = IsKept-refl c
  summed-IsKept m key (err _) c = ground arith

  pub sum_per_cpu_map-IsKept :
      (m : Option ℕ) (key : ℕ) (c : State sys floats) → IsKept c (sum_per_cpu_map sys m key c).1
  unfolding sum_per_cpu_map
  sum_per_cpu_map-IsKept none key c = IsKept-refl c
  sum_per_cpu_map-IsKept (some m) key c =
      IsKept-trans (lookup-IsKept m key c) (summed-IsKept m key _ _)

  read_totals-IsKept : (c : State sys floats) → IsKept c (read_totals sys floats c).1
  unfolding read_totals
  read_totals-IsKept c = IsKept-trans (sum_per_cpu_map-IsKept _ 0 c) (
      IsKept-trans (sum_per_cpu_map-IsKept _ 0 _)
        (IsKept-trans (sum_per_cpu_map-IsKept _ 0 _) (sum_per_cpu_map-IsKept _ 0 _)))

  word_at-IsKept : (m : Option ℕ) (c : State sys floats) → IsKept c (word_at sys floats m c).1
  word_at-IsKept none c = IsKept-refl c
  word_at-IsKept (some m) c = ground arith

  update_gauges-IsKept :
      (t : Totals) (now : ℕ) (name : String) (stats : InterfaceStats) (c : State sys floats)
      → IsKept c (update_gauges sys floats t now name stats c)
  update_gauges-IsKept t now name stats c = ground arith

  update_each-IsKept :
      (t : Totals) (now : ℕ) (l : List (String × InterfaceStats)) (c : State sys floats)
      → IsKept c (update_each sys floats t now l c).1
  unfolding update_each
  update_each-IsKept t now [] c = IsKept-refl c
  update_each-IsKept t now ((name, stats) ∷ l) c =
      IsKept-trans (update_gauges-IsKept t now name stats c) (update_each-IsKept t now l _)

  update_interfaces-IsKept :
      (t : Totals) (now : ℕ) (c : State sys floats)
      → IsKept c (update_interfaces sys floats t now c)
  update_interfaces-IsKept t now c = ground (arith, update_each-IsKept t now c.interface_stats c)

  set_latency_each-IsKept :
      (packets ns : ℕ) (l : List (String × InterfaceStats)) (c : State sys floats)
      → IsKept c (set_latency_each sys floats packets ns l c)
  unfolding set_latency_each
  set_latency_each-IsKept packets ns [] c = IsKept-refl c
  set_latency_each-IsKept packets ns ((name, _) ∷ l) c =
      IsKept-trans (ground arith) (set_latency_each-IsKept packets ns l _)

  set_histogram-IsKept :
      (i : ℕ) (l : List String) (c : State sys floats) → IsKept c (set_histogram sys floats i l c)
  unfolding set_histogram
  set_histogram-IsKept i [] c = IsKept-refl c
  set_histogram-IsKept i (b ∷ l) c = IsKept-trans (sum_per_cpu_map-IsKept _ i c) (
      IsKept-trans (set-IsKept (kernel_stack_histogram b) _ _ refl)
        (set_histogram-IsKept (suc i) l _))

  read_latency-IsKept : (c : State sys floats) → IsKept c (read_latency sys floats c)
  unfolding read_latency
  read_latency-IsKept c = IsKept-trans (sum_per_cpu_map-IsKept _ 0 c) (
      IsKept-trans (sum_per_cpu_map-IsKept _ 0 _)
        (IsKept-trans (set_latency_each-IsKept _ _ _ _) (set_histogram-IsKept 0 _ _)))

  collect_latency_metrics-IsKept :
      (c : State sys floats) → IsKept c (collect_latency_metrics sys floats c)
  unfolding collect_latency_metrics
  collect_latency_metrics-IsKept c = ground (arith, read_latency-IsKept c)

  collect_open-IsKept : (r : Round) (c : State sys floats) → IsKept c (collect_open sys floats r c)
  unfolding collect_open
  collect_open-IsKept r c = IsKept-trans (set-IsKept uptime_seconds _ c refl) (
      IsKept-trans (read_totals-IsKept _) (
        IsKept-trans (word_at-IsKept _ _) (
          IsKept-trans (set-IsKept configured_loops _ _ refl)
            (IsKept-trans (update_interfaces-IsKept _ _ _) (collect_latency_metrics-IsKept _)))))

  pub collect-IsKept :
      (r : Round) (c : State sys floats)
      → is_some c.packets_map ≡ true
      → IsKept c (collect sys floats r c)
  unfolding collect
  collect-IsKept r c h = ground (arith, collect_open-IsKept r c)

  pub run_rounds-IsKept :
      (rounds : List Round) (c : State sys floats)
      → is_some c.packets_map ≡ true
      → IsKept c (run_rounds sys floats rounds c)
  unfolding run_rounds
  run_rounds-IsKept [] c h = IsKept-refl c
  run_rounds-IsKept (r ∷ rounds) c h =
      let k = collect-IsKept r c h in
      IsKept-trans k (run_rounds-IsKept rounds _ (ground (arith, k)))

  -- Once the packet map is open, no round opens any map again, whatever became of the other four:
  -- over any rounds the eight maps stay as they are, a missing one missing, no map is loaded or closed,
  -- `exporter_up` is not set, and /ready answers 200.
  pub partial_open_stays :
      (rounds : List Round) (c : State sys floats)
      → is_some c.packets_map ≡ true
      → IsKept c (run_rounds sys floats rounds c)
        × (ready_status sys floats (run_rounds sys floats rounds c) ≡ 200)
  unfolding ready_status
  partial_open_stays rounds c h =
      (run_rounds-IsKept rounds c h, ground (arith, run_rounds-IsKept rounds c h))
