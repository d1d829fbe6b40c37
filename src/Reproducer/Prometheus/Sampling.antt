-- ===== src/Reproducer/Prometheus/Sampling.antt =====
-- `Collect` and `NewMetricsCollector` of af_packet_reproducer/main.go.
use net_perf_test.Common.{ℕ, String, List, [], ◌∷◌, ◌++◌, Result, ok, err, M, pure, ◌>>=◌}
use net_perf_test.Common.Floats.{Floats}
use net_perf_test.Reproducer.Captures.{Capture, Call, Trace, count_active_processes}
use net_perf_test.Reproducer.Prometheus.Types.{
  MetricPoint, MetricsCollector, CpuMetrics, NetworkStats, SoftIrqStats, Config, Panic, Requests,
  Web,
}
use net_perf_test.Reproducer.Prometheus.Request.{QueryM}
use net_perf_test.Reproducer.Prometheus.Gather.{
  get_cpu_metrics, get_memory_usage, get_network_stats, get_soft_irq_stats,
}

-- The collector, with the signals to the processes and the requests made so far.
pub record Run (F : Type 0) : Type 0 where
  pub collector : MetricsCollector F
  pub signals : Trace
  pub requests : Requests

-- The directory is made elsewhere; that it cannot be made is only logged.
unfoldable pub new_metrics_collector :
    {F : Type 0} → String → String → String → ℕ → MetricsCollector F
new_metrics_collector output_dir prom_url node_filter now = record {
  points = [];
  start_time = now;
  output_dir = output_dir;
  prometheus_url = prom_url;
  node_filter = node_filter;
}

module _ (floats : Floats) (web : Web floats.Float) where
  open floats use {Float}

  -- What is asked of Prometheus for a sample.
  pub record Gathered : Type 0 where
    pub cpu_metrics : CpuMetrics Float
    pub mem_usage : Float
    pub net_stats : NetworkStats Float
    pub soft_irq_stats : SoftIrqStats Float

  unfoldable pub gather : MetricsCollector Float → Config → QueryM floats web Gathered
  gather mc config = do
    cpu ← get_cpu_metrics floats web mc config
    mem ← get_memory_usage floats web mc config
    net ← get_network_stats floats web mc config
    irq ← get_soft_irq_stats floats web mc config
    pure (record { cpu_metrics = cpu; mem_usage = mem; net_stats = net; soft_irq_stats = irq })

  unfoldable pub point_of : ℕ → ℕ → Gathered → MetricPoint Float
  point_of now active g = record {
    timestamp = now;
    active_sockets = active;
    cpu_usage = g.cpu_metrics.usage;
    cpu_soft_irq = g.cpu_metrics.soft_irq;
    cpu_user = g.cpu_metrics.user;
    cpu_system = g.cpu_metrics.system;
    cpu_idle = g.cpu_metrics.idle;
    memory_usage = g.mem_usage;
    network_rx = g.net_stats.rx_mb;
    network_tx = g.net_stats.tx_mb;
    network_rx_pps = g.net_stats.rx_pps;
    network_tx_pps = g.net_stats.tx_pps;
    network_rx_drops = g.net_stats.rx_drops;
    network_tx_drops = g.net_stats.tx_drops;
    network_rx_errors = g.net_stats.rx_errors;
    network_tx_errors = g.net_stats.tx_errors;
    soft_irq_netrx = g.soft_irq_stats.netrx;
    soft_irq_nettx = g.soft_irq_stats.nettx;
  }

  abbrev pub add_point : MetricPoint Float → MetricsCollector Float → MetricsCollector Float
  add_point point mc = record mc { points = mc.points ++ point ∷ [] }

  -- The point is added, unless a query panicked.
  abbrev pub appended :
      ℕ → ℕ → Run Float → Result Panic Gathered → Result Panic (Unit {0}) × Run Float
  appended now active s (ok g) =
      (ok tt, record s { collector = add_point (point_of now active g) s.collector })
  appended now active s (err p) = (err p, s)

  -- `now` is the time behind the queries; `answer` answers the signals.
  unfoldable pub collect :
      (Trace → Call → Result ℕ ℕ) → List Capture → Config → ℕ → M (Run Float) Panic (Unit {0})
  collect answer captures config now s =
      let (active, t) = count_active_processes answer captures s.signals in
      let r = gather s.collector config s.requests in
      appended now active (record s { signals = t; requests = r.1 }) r.0
