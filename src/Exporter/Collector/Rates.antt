-- ===== src/Exporter/Collector/Rates.antt =====
-- The rates and averages that `collect` of ebpf-exporter/cmd/ebpf-exporter/main.go sets, and what
-- it keeps for the next round.
use mathlib.Core.List.{append_assoc}
use net_perf_test.Common.{
  ℕ, suc, ◌-◌, ◌≤◌, ◌<◌, ◌≡◌, refl, ap, sym, ◌∙◌, String, Option, none, some, List, [], ◌∷◌, ◌++◌,
  Result, ok, err, arith,
}
use net_perf_test.Common.Words.{u64_mod, sub64_exact}
use net_perf_test.Common.Floats.{Floats}
use net_perf_test.Exporter.Collector.Types.{
  InterfaceStats, Gauge, packets_per_sec, loops_per_sec, bytes_per_sec, loops_per_packet,
  avg_time_per_pkt, interfaces_up, packets_total, loops_total, bytes_total, time_ns_total,
  uptime_seconds, System,
}
use net_perf_test.Exporter.Collector.Maps.{sum_per_cpu_map, summed}
use net_perf_test.Exporter.Collector.Collect.{
  Round, Totals, State, set, tracked, update_gauges, update_each, update_interfaces, read_totals,
  word_at, set_latency_each, set_histogram, read_latency, collect_latency_metrics, collect_open,
}

-- The later totals are not below the earlier ones, and fit into a uint64.
pub record IsGrowth (t u : Totals) : Type 0 where
  pub packets_grow : t.packets ≤ u.packets
  pub loops_grow : t.loops ≤ u.loops
  pub bytes_grow : t.bytes ≤ u.bytes
  pub packets_fit : u.packets < u64_mod
  pub loops_fit : u.loops < u64_mod
  pub bytes_fit : u.bytes < u64_mod

module _ (sys : System) (floats : Floats) where
  open floats use {Float, of_uint, seconds, div}

  -- What is kept for the next round: every entry under its name, at the totals and the time.
  abbrev pub all_tracked :
      Totals → ℕ → List (String × InterfaceStats) → List (String × InterfaceStats)
  all_tracked t now [] = []
  all_tracked t now ((name, _) ∷ l) = (name, tracked sys floats t now) ∷ all_tracked t now l

  update_each-tracked :
      (t : Totals) (now : ℕ) (l : List (String × InterfaceStats)) (c : State sys floats)
      → (update_each sys floats t now l c).0 ≡ all_tracked t now l
  unfolding update_each
  update_each-tracked t now [] c = refl
  update_each-tracked t now ((name, stats) ∷ l) c =
      ap (λ rest. (name, tracked sys floats t now) ∷ rest) (update_each-tracked t now l _)

  -- The sets for one interface, the newest first, with the exact increases since the totals `t`.
  abbrev pub interface_sets : Totals → Totals → ℕ → String → List (Gauge × Float)
  interface_sets t u elapsed name =
      (avg_time_per_pkt name, div (of_uint u.time_ns) (of_uint u.packets))
      ∷ (loops_per_packet name, div (of_uint u.loops) (of_uint u.packets))
      ∷ (bytes_per_sec name, div (of_uint (u.bytes - t.bytes)) (seconds elapsed))
      ∷ (loops_per_sec name, div (of_uint (u.loops - t.loops)) (seconds elapsed))
      ∷ (packets_per_sec name, div (of_uint (u.packets - t.packets)) (seconds elapsed))
      ∷ (interfaces_up name, of_uint 1)
      ∷ (time_ns_total name "xdp", of_uint u.time_ns)
      ∷ (bytes_total name "xdp", of_uint u.bytes)
      ∷ (loops_total name "xdp", of_uint u.loops)
      ∷ (packets_total name "xdp", of_uint u.packets)
      ∷ []

  abbrev pub all_sets : Totals → Totals → ℕ → List (String × InterfaceStats) → List (Gauge × Float)
  all_sets t u elapsed [] = []
  all_sets t u elapsed ((name, _) ∷ l) = all_sets t u elapsed l ++ interface_sets t u elapsed name

  module _ (t u : Totals) (before now : ℕ) (grows : IsGrowth t u) (later : before < now)
      (seen : 0 < u.packets) where
    update_gauges-sets :
        (name : String) (c : State sys floats)
        → (update_gauges sys floats u now name (tracked sys floats t before) c).gauges
          ≡ interface_sets t u (now - before) name ++ c.gauges
    update_gauges-sets name c = ground (
      arith,
      sub64_exact u.packets t.packets grows.packets_grow grows.packets_fit,
      sub64_exact u.loops t.loops grows.loops_grow grows.loops_fit,
      sub64_exact u.bytes t.bytes grows.bytes_grow grows.bytes_fit,
    )

    update_each-sets :
        (l : List (String × InterfaceStats)) (c : State sys floats)
        → (update_each sys floats u now (all_tracked t before l) c).1.gauges
          ≡ all_sets t u (now - before) l ++ c.gauges
    unfolding update_each
    update_each-sets [] c = refl
    update_each-sets ((name, stats) ∷ l) c =
        update_each-sets l _
        ∙ ap (λ g. all_sets t u (now - before) l ++ g) (update_gauges-sets name c)
        ∙ sym (
            append_assoc (all_sets t u (now - before) l) (interface_sets t u (now - before) name)
              c.gauges)

    -- Two rounds of updates in a row, with totals that grow, at a later time and with packets seen:
    -- the second sets, for each interface, the totals, the interface up, the exact increases over
    -- the time between the two rounds, and the averages per packet; and nothing else.
    pub rates_exact :
        (c : State sys floats)
        → (update_interfaces sys floats u now (update_interfaces sys floats t before c)).gauges
          ≡ all_sets t u (now - before) c.interface_stats
            ++ (update_interfaces sys floats t before c).gauges
    rates_exact c =
        rw (update_each-tracked t before c.interface_stats c) (update_each-sets c.interface_stats _)

  summed-stats :
      (m key : ℕ) (r : Result ℕ ℕ) (c : State sys floats)
      → (summed sys m key r c).1.interface_stats ≡ c.interface_stats
  summed-stats m key (ok b) c = refl
  summed-stats m key (err _) c = refl

  sum_per_cpu_map-stats :
      (m : Option ℕ) (key : ℕ) (c : State sys floats)
      → (sum_per_cpu_map sys m key c).1.interface_stats ≡ c.interface_stats
  unfolding sum_per_cpu_map
  sum_per_cpu_map-stats none key c = refl
  sum_per_cpu_map-stats (some m) key c = summed-stats m key _ _

  read_totals-stats :
      (c : State sys floats) → (read_totals sys floats c).1.interface_stats ≡ c.interface_stats
  unfolding read_totals
  read_totals-stats c =
      sum_per_cpu_map-stats _ 0 _
      ∙ sum_per_cpu_map-stats _ 0 _
      ∙ sum_per_cpu_map-stats _ 0 _
      ∙ sum_per_cpu_map-stats _ 0 c

  word_at-stats :
      (m : Option ℕ) (c : State sys floats)
      → (word_at sys floats m c).1.interface_stats ≡ c.interface_stats
  word_at-stats none c = refl
  word_at-stats (some m) c = refl

  set_latency_each-stats :
      (packets ns : ℕ) (l : List (String × InterfaceStats)) (c : State sys floats)
      → (set_latency_each sys floats packets ns l c).interface_stats ≡ c.interface_stats
  unfolding set_latency_each
  set_latency_each-stats packets ns [] c = refl
  set_latency_each-stats packets ns (_ ∷ l) c = set_latency_each-stats packets ns l _ ∙ ground arith

  set_histogram-stats :
      (i : ℕ) (l : List String) (c : State sys floats)
      → (set_histogram sys floats i l c).interface_stats ≡ c.interface_stats
  unfolding set_histogram
  set_histogram-stats i [] c = refl
  set_histogram-stats i (b ∷ l) c =
      set_histogram-stats (suc i) l _ ∙ sum_per_cpu_map-stats c.latency_histogram_map i c

  read_latency-stats :
      (c : State sys floats) → (read_latency sys floats c).interface_stats ≡ c.interface_stats
  unfolding read_latency
  read_latency-stats c =
      set_histogram-stats 0 _ _
      ∙ set_latency_each-stats _ _ _ _
      ∙ sum_per_cpu_map-stats _ 0 _
      ∙ sum_per_cpu_map-stats _ 0 c

  collect_latency_metrics-stats :
      (c : State sys floats)
      → (collect_latency_metrics sys floats c).interface_stats ≡ c.interface_stats
  unfolding collect_latency_metrics
  collect_latency_metrics-stats c = ground (arith, read_latency-stats c)

  -- A round on open maps leaves every interface with the totals that the round has read and with
  -- its time, for the next round to measure from.
  pub collect_open-tracked :
      (r : Round) (c : State sys floats)
      → (collect_open sys floats r c).interface_stats
        ≡ all_tracked
            (read_totals sys floats (set sys floats uptime_seconds (seconds r.uptime) c)).0
            r.now
            c.interface_stats
  unfolding collect_open
  collect_open-tracked r c =
      let c1 : State sys floats = set sys floats uptime_seconds (seconds r.uptime) c in
      let kept =
        word_at-stats (read_totals sys floats c1).1.loop_count_map _ ∙ read_totals-stats c1 in
      collect_latency_metrics-stats _
      ∙ update_each-tracked _ r.now _ _
      ∙ ap (all_tracked (read_totals sys floats c1).0 r.now) kept
