-- ===== src/Exporter/Latency/Tests.antt =====
-- The theorems on the latency collector at concrete data.
use net_perf_test.Common.{
  ℕ, ◌≡◌, ◌<>◌, refl, true, some, [], ◌∷◌, Result, ok, err, count_by, str_eq, if◌then◌else◌, ◌>>=◌,
}
use net_perf_test.Common.Sample.{naturals}
use net_perf_test.Exporter.Latency.Types.{
  InterfaceStats, Call, load_pinned_map, interface_by_name, System, Collector, expect,
  get_collector, change,
}
use net_perf_test.Exporter.Latency.Start.{new_collector, load_each, open_pinned_maps, start, stop}
use net_perf_test.Exporter.Latency.Collect.{no_stats, aggregate, collect}
use net_perf_test.Exporter.Latency.Aggregation.{IsAggregate, aggregate-IsAggregate}
use net_perf_test.Exporter.Latency.Links.{is_attached, is_closed}
use net_perf_test.Exporter.Latency.Balance.{IsPrepared, start-stop}
use net_perf_test.Exporter.Latency.Pinned.{is_of_interface, start_pinned-no_interfaces}

abbrev cpu : ℕ → ℕ → InterfaceStats
cpu least most = record no_stats {
  packets_total = 5;
  latency_min_ns = least;
  latency_max_ns = most;
}

aggregate-IsAggregate_example :
    IsAggregate
      (cpu 0 0 ∷ cpu 40 90 ∷ cpu 30 70 ∷ [])
      (aggregate no_stats (cpu 0 0 ∷ cpu 40 90 ∷ cpu 30 70 ∷ []))
aggregate-IsAggregate_example = aggregate-IsAggregate (cpu 0 0 ∷ cpu 40 90 ∷ cpu 30 70 ∷ [])

-- No map is pinned, and one interface is missing.
abbrev respond : Call → Result ℕ ℕ
respond (load_pinned_map p) = err 2
respond (interface_by_name name) = if str_eq name "eth9" then err 19 else ok 3
respond _ = ok 5

-- Every call works, also those for the pinned maps.
abbrev accept : Call → Result ℕ ℕ
accept c = ok 5

abbrev kernel_of : (Call → Result ℕ ℕ) → System
kernel_of reply = record {
  answer = λ t c. reply c;
  map_of = λ c name. some 4;
  program_of = λ c name. some 6;
  words = λ b. 1 ∷ 2 ∷ [];
  stats = λ b. [];
  join = λ a b. a <> "/" <> b;
}

abbrev fresh : Collector ℕ
unfolding new_collector
fresh = new_collector ("eth0" ∷ "eth9" ∷ "lo" ∷ []) ""

fresh-IsPrepared : IsPrepared (kernel_of respond) naturals 4 fresh
unfolding new_collector
fresh-IsPrepared = record {
  owned = record { owned = refl };
  no_links = refl;
  distinct = ((refl, (refl, tt)), ((refl, tt), (tt, tt)));
}

start-stop_example :
    let sys = kernel_of respond in
    count_by (is_attached 4) (stop sys naturals (start sys naturals fresh).1).trace
    ≡ count_by (is_closed 4) (stop sys naturals (start sys naturals fresh).1).trace
start-stop_example = start-stop (kernel_of respond) naturals 4 fresh fresh-IsPrepared

start_pinned-no_interfaces_example :
    let sys = kernel_of accept in
    ((start sys naturals fresh).1.running ≡ true)
    × (count_by is_of_interface (collect sys naturals (start sys naturals fresh).1).gauges
        ≡ count_by is_of_interface fresh.gauges)
unfolding new_collector expect open_pinned_maps load_each get_collector change ◌>>=◌
start_pinned-no_interfaces_example =
    start_pinned-no_interfaces (kernel_of accept) naturals fresh 5 refl refl refl
