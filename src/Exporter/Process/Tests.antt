-- ===== src/Exporter/Process/Tests.antt =====
-- Runs of the exporter at concrete data: two maps are pinned, and no file of configuration is there.
use net_perf_test.Common.{
  ℕ, ◌≡◌, ◌<>◌, refl, String, none, List, [], ◌∷◌, Result, ok, err, All, count_by, str_eq,
  if◌then◌else◌, ◌||◌,
}
use net_perf_test.Common.Ints.{pos}
use net_perf_test.Common.Sample.{naturals}
use net_perf_test.Exporter.Sample.{name_registry}
use net_perf_test.Exporter.Configuration.{
  Config, load_yaml_config, try_default_configs, load_config,
}
use net_perf_test.Exporter.Web.{Response}
use net_perf_test.Exporter.Collector.Types.{Call, load_pinned_map, System}
use net_perf_test.Exporter.Collector.Maps.{
  stats_packets, stats_loops, stats_bytes, global_packets, open_each, open_maps, open_latency_maps,
}
use net_perf_test.Exporter.Collector.Collect.{Round, State, connect}
use net_perf_test.Exporter.Collector.Opening.{is_opened, is_closed}
use net_perf_test.Exporter.Command.{poll_interval, default_config}
use net_perf_test.Exporter.Registry.{register_each, register_next}
use net_perf_test.Exporter.Collector.Metrics.{
  register_metrics, new_metrics, stress_metrics, kernel_metrics,
}
use net_perf_test.Exporter.Process.{
  Course, World, Route, ready, round, request, new_collector, stopped, run, connected,
}
use net_perf_test.Exporter.Process.Handles.{Distinct, handles}
use net_perf_test.Exporter.Process.Requests.{IsReady}
use net_perf_test.Exporter.Process.Ends.{run-closes}

abbrev respond : Call → Result ℕ ℕ
respond (load_pinned_map p) =
    if str_eq p "/sys/fs/bpf/ebpf-stress/stats_packets"
      || str_eq p "/sys/fs/bpf/ebpf-stress/stats_loops"
    then ok 4
    else err 2
respond _ = ok 0

abbrev bpf_fs : System
bpf_fs = record { answer = λ t c. respond c; words = λ b. 3 ∷ 4 ∷ []; join = λ a b. a <> "/" <> b }

abbrev world : World (List String)
world = record {
  parse_duration = λ s. none;
  read_file = λ path. err 2;
  unmarshal = λ text. err 22;
  found_interfaces = err 1;
  registry = name_registry;
  registered = [];
  formats = record { decimal = λ n. "9091"; duration_text = λ d. "5s" };
}

abbrev tick : Round
tick = record { order = stats_packets ∷ []; uptime = 1000000000; now = 1000000000 }

abbrev course : Course
course = record {
  started = 0;
  order = stats_packets ∷ stats_loops ∷ stats_bytes ∷ [];
  latency_order = global_packets ∷ [];
  events = round tick ∷ request ready ∷ [];
  late = tick ∷ [];
  last = tick ∷ [];
}

order-Distinct : Distinct course.order
order-Distinct = (((λ p. cc), ((λ p. cc), tt)), (((λ p. cc), tt), (tt, tt)))

run-closes_example :
    (answers : List (Route × Response)) × (s : State bpf_fs naturals) × (run bpf_fs naturals world
        default_config course
      ≡ stopped answers s)
    × All IsReady answers
    × ((handle : ℕ)
        → let h = handles handle (connected bpf_fs naturals world default_config course) in
          (count_by (is_opened handle) s.trace ≡ h) × (count_by (is_closed handle) s.trace ≡ h))
unfolding load_config try_default_configs load_yaml_config connect open_maps open_latency_maps
    open_each new_collector register_metrics new_metrics stress_metrics kernel_metrics register_each
    register_next
run-closes_example =
    run-closes bpf_fs naturals world default_config default_config course refl _ refl refl
      order-Distinct (tt, tt) refl

abbrev no_interval : Config
no_interval = record default_config { poll_interval = pos 0 }
