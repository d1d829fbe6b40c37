-- ===== src/Reproducer/Scenarios.antt =====
-- The theorems on the samples, the charts and the runs of af_packet_reproducer, at a concrete host.
use mathlib.Core.Path.{subst}
use net_perf_test.Common.{
  ℕ, sym, ◌∙◌, ◌+◌, ◌≤◌, ◌≡◌, ◌↔◌, ◌*◌, ◌>>=◌, Option, refl, ap, arith, Bool, true, false, none,
  some, String, List, [], ◌∷◌, map, Result, ok, err, All, length, inl, str_eq, ◌==◌, if◌then◌else◌,
}
use net_perf_test.Common.Ints.{pos}
use net_perf_test.Common.Logs.{onto}
use net_perf_test.Common.Sample.{naturals}
use net_perf_test.Reproducer.Captures.{Capture, Call, Trace}
use net_perf_test.Reproducer.Prometheus.Types.{
  Response, MetricPoint, MetricsCollector, text, PrometheusResponse, Config, Web, asked, nil_line,
}
use net_perf_test.Reproducer.Prometheus.Queries.{
  cpu_queries, memory_queries, network_queries, softirq_queries, sample_queries,
}
use net_perf_test.Reproducer.Prometheus.Request.{
  query_prometheus, test_prometheus_connection, authorization, read_response, read_decoded,
  first_value, second_value,
}
use net_perf_test.Reproducer.Prometheus.Braces.{braces, sample_queries-braces}
use net_perf_test.Reproducer.Prometheus.Refusal.{Refuses}
use net_perf_test.Reproducer.Prometheus.Sampling.{Run, add_point, collect}
use net_perf_test.Reproducer.Prometheus.Asked.{IsPair, Paired}
use net_perf_test.Reproducer.Prometheus.Collected.{collect-one_sample, collect-no_cpu}
use net_perf_test.Reproducer.Charts.Types.{Plotter}
use net_perf_test.Reproducer.Charts.Saving.{save_charts}
use net_perf_test.Reproducer.Charts.Lost.{save_charts-refused}
use net_perf_test.Reproducer.Discovery.{
  Cluster, Discovered, name_label, any_pod, discover_prometheus, load_config, discovered_pods,
  node_filter_of, join_names, main_pod, setup_port_forward,
}
use net_perf_test.Reproducer.Pods.{discover-main_pod}
use net_perf_test.Reproducer.Monitoring.{
  Options, Host, Event, interrupt, tick, elapsed, Outcome, setup, connect, start_tcpdump, main,
}
use net_perf_test.Reproducer.Runs.Loop.{at_interrupt, at_tick, no_end}
use net_perf_test.Reproducer.Runs.Whole.{made_captures, main-Bounded, IsDone, main-IsDone}

-- Each answer has the value 7 at the time 5; a query whose braces are not in order is refused.
abbrev response : PrometheusResponse
response = record {
  status = "success";
  result_type = "vector";
  result = record { metric = []; value = text "5" ∷ text "7" ∷ [] } ∷ [];
}

abbrev status_by : Option Bool → ℕ
status_by none = 400
status_by (some _) = 200

abbrev status_of : String → ℕ
status_of query = status_by (braces query (some false))

abbrev web : Web ℕ
web = record {
  new_request = λ _. none;
  send = λ s r. ok (record { status_code = status_of r.query; body = "" });
  decode = λ _. ok response;
  parse_float = λ _. ok 7;
  read_file = λ _. err 2;
  trim_space = λ t. t;
}

abbrev PairsIn : Result ℕ PrometheusResponse → Type 0
PairsIn (ok r) = All IsPair r.result
PairsIn (err _) = Unit

paired : Paired naturals web
paired s q a r sent fine e = subst PairsIn e (omega arith, tt)

abbrev code_of : Result ℕ Response → ℕ
code_of (ok a) = a.status_code
code_of (err _) = 0

refuses : (filter : String) → Refuses naturals web filter
refuses filter s r a p h sent =
    ap (λ n. n == 200) (sym (ap code_of sent)) ∙ ap (λ b. status_by b == 200) h

abbrev config : Config
config = record { host = "https://api"; bearer_token = "t"; bearer_token_file = "" }

abbrev collector : List (MetricPoint ℕ) → MetricsCollector ℕ
collector points = record {
  points = points;
  start_time = 0;
  output_dir = "/data";
  prometheus_url = "http://localhost:9090";
  node_filter = ".*(node).*";
}

abbrev point : MetricPoint ℕ
point = record {
  timestamp = 3;
  active_sockets = 0;
  cpu_usage = 1;
  cpu_soft_irq = 1;
  cpu_user = 1;
  cpu_system = 1;
  cpu_idle = 1;
  memory_usage = 1;
  network_rx = 1;
  network_tx = 1;
  network_rx_pps = 1;
  network_tx_pps = 1;
  network_rx_drops = 1;
  network_tx_drops = 1;
  network_rx_errors = 1;
  network_tx_errors = 1;
  soft_irq_netrx = 1;
  soft_irq_nettx = 1;
}

-- The process 3 is not there any more.
abbrev signal : Trace → Call → Result ℕ ℕ
signal t c = ok 0

abbrev captures : List Capture
captures = record { id = 1; process = some 7 } ∷ []

abbrev run : Run ℕ
run = record { collector = collector []; signals = []; requests = [] }

-- A plotter that takes every line, and cannot write the second file; and one that takes none.
abbrev plotter : Plotter ℕ
plotter = record { new_line = λ _. none; save = λ s _. if length s == 1 then some 28 else none }

abbrev no_lines : Plotter ℕ
no_lines = record { new_line = λ _. some 1; save = λ _ _. none }

sample_queries-braces_example :
    All
      (λ q. braces q (some false) ≡ (if str_eq "node" "" then some false else none))
      (cpu_queries "node")
    × All (λ q. braces q (some false) ≡ some false) (memory_queries "node")
    × All (λ q. braces q (some false) ≡ some false) (network_queries "node")
    × All (λ q. braces q (some false) ≡ some false) (softirq_queries "node")
sample_queries-braces_example = sample_queries-braces "node" refl

collect-one_sample_example :
    let r = collect naturals web signal captures config 9 run in
    (r.0 ≡ ok tt)
    × ((p : MetricPoint ℕ) × (r.1.collector ≡ add_point naturals web p (collector []))
        × (p.active_sockets ≤ 1))
    × (map asked r.1.requests ≡ onto (sample_queries ".*(node).*") [])
collect-one_sample_example =
    collect-one_sample signal naturals web captures config 9 run paired refl

collect-no_cpu_example :
    let r = collect naturals web signal captures config 9 run in
    (r.0 ≡ ok tt)
    × ((p : MetricPoint ℕ) × (r.1.collector ≡ add_point naturals web p (collector []))
        × (p.cpu_usage ≡ 0)
        × (p.cpu_soft_irq ≡ 0)
        × (p.cpu_user ≡ 0)
        × (p.cpu_system ≡ 0)
        × (p.cpu_idle ≡ 0))
collect-no_cpu_example =
    collect-no_cpu signal naturals web captures config 9 run paired refl (refuses _) refl refl

save_charts-refused_example :
    let r = save_charts naturals no_lines (collector (point ∷ point ∷ [])) [] in
    (r.0 ≡ err nil_line) × (length r.1 ≤ 4 + 0)
save_charts-refused_example =
    save_charts-refused naturals no_lines (collector (point ∷ point ∷ [])) [] (omega arith)
      (inl (1, refl))

-- The pods, by the label under which they are found.
abbrev cluster : String → Cluster
cluster label = record {
  build_config = λ _. ok config;
  in_cluster_config = err 1;
  home = "";
  default_path = λ h. h;
  new_client = λ _. none;
  pods = λ _ namespace l. if str_eq l label then ok ("prometheus-0" ∷ []) else ok [];
  nodes = λ _. ok ("node" ∷ []);
  parse_url = λ _. none;
  round_tripper = λ _. none;
  new_forwarder = λ _ _. none;
}

abbrev discovered : Discovered
discovered = record { url = "http://localhost:9090"; config = config; node_filter = ".*(node).*" }

discover-main_pod_example :
    let pods = (cluster "prometheus=prometheus-k8s").pods config in
    (main_pod (cluster "prometheus=prometheus-k8s") config ≡ none) ↔ (
      (any_pod (pods "openshift-monitoring" name_label) ≡ false)
      × (any_pod (pods "monitoring" name_label) ≡ false)
      × (any_pod (pods "monitoring" "prometheus=prometheus-k8s") ≡ true))
unfolding discover_prometheus load_config discovered_pods node_filter_of join_names
discover-main_pod_example =
    discover-main_pod (cluster "prometheus=prometheus-k8s") "kubeconfig" discovered refl

abbrev host : Host ℕ
host = record {
  cluster = cluster name_label;
  web = web;
  plotter = plotter;
  signal = signal;
  make_dir = λ _. none;
  start = λ command. if command.id == 2 then err 1 else ok (100 + command.id);
  clock = λ n. 5 * n + 2;
  start_time = 1;
}

abbrev options : ℕ → Options
options interval = record {
  socket_count = pos 10;
  capture_dir = "/data/pcaps";
  interface = "any";
  duration = pos 0;
  metrics_dir = "/data";
  metrics_interval = pos interval;
  kubeconfig = "kubeconfig";
}

abbrev events : List Event
events = tick ∷ elapsed ∷ interrupt ∷ []

abbrev outcome : ℕ → Outcome ℕ
outcome interval = elim (main naturals host (options interval) events) [
  | ok o ↦ o
  | err (ending, requests) ↦ record { ending = ending; run = run; charts = [] }
]

main_ok : (interval : ℕ) → main naturals host (options interval) events ≡ ok (outcome interval)
unfolding ◌>>=◌ main setup connect discover_prometheus load_config discovered_pods node_filter_of
    join_names main_pod setup_port_forward test_prometheus_connection query_prometheus authorization
    read_response read_decoded first_value second_value
main_ok interval = refl

main-IsDone_example : IsDone naturals host (options 5) 10 (1 + (1 + 1)) (outcome 5)
unfolding start_tcpdump
main-IsDone_example =
    main-IsDone naturals host (options 5) paired 10 refl 1 events (outcome 5) refl
      (at_tick 0 _ (no_end 0 _ refl (at_interrupt []))) (main_ok 5)

main-Bounded_example :
    All
      (λ p. p.active_sockets ≤ length (made_captures naturals host (options 5) 10))
      (outcome 5).run.collector.points
main-Bounded_example =
    main-Bounded naturals host (options 5) paired 10 refl events (outcome 5) (main_ok 5)
