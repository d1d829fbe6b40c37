-- ===== src/Reproducer/Prometheus/Gather.antt =====
-- getCPUMetrics, getMemoryUsage, getNetworkStats and getSoftIRQStats of
-- af_packet_reproducer/main.go.
use net_perf_test.Common.{pure, ◌>>=◌, if◌then◌else◌}
use net_perf_test.Common.Floats.{Floats}
use net_perf_test.Reproducer.Prometheus.Types.{
  MetricsCollector, CpuMetrics, NetworkStats, SoftIrqStats, Config, Web,
}
use net_perf_test.Reproducer.Prometheus.Queries.{
  usage_query, mode_query, memory_query, throughput_query, network_query, softirq_query,
}
use net_perf_test.Reproducer.Prometheus.Request.{QueryM, reading}

module _ (floats : Floats) (web : Web floats.Float) where
  open floats use {Float, of_uint, div, sub, mul, eq}

  module _ (mc : MetricsCollector Float) (config : Config) where
    unfoldable pub get_cpu_metrics : QueryM floats web (CpuMetrics Float)
    get_cpu_metrics = do
      let filter = mc.node_filter
      usage ← reading floats web mc config (usage_query filter)
      soft_irq ← reading floats web mc config (mode_query "softirq" filter)
      user ← reading floats web mc config (mode_query "user" filter)
      system ← reading floats web mc config (mode_query "system" filter)
      idle ← reading floats web mc config (mode_query "idle" filter)
      pure
          (record { usage = usage; soft_irq = soft_irq; user = user; system = system; idle = idle })

    -- `100.0 * used / total`
    abbrev pub used_percent : Float → Float → Float
    used_percent total available =
        if eq total (of_uint 0)
        then of_uint 0
        else div (mul (of_uint 100) (sub total available)) total

    unfoldable pub get_memory_usage : QueryM floats web Float
    get_memory_usage = do
      total ← reading floats web mc config (memory_query "MemTotal" mc.node_filter)
      available ← reading floats web mc config (memory_query "MemAvailable" mc.node_filter)
      pure (used_percent total available)

    unfoldable pub get_network_stats : QueryM floats web (NetworkStats Float)
    get_network_stats = do
      let filter = mc.node_filter
      rx_mb ← reading floats web mc config (throughput_query "receive_bytes" filter)
      tx_mb ← reading floats web mc config (throughput_query "transmit_bytes" filter)
      rx_pps ← reading floats web mc config (network_query "receive_packets" filter)
      tx_pps ← reading floats web mc config (network_query "transmit_packets" filter)
      rx_drops ← reading floats web mc config (network_query "receive_drop" filter)
      tx_drops ← reading floats web mc config (network_query "transmit_drop" filter)
      rx_errors ← reading floats web mc config (network_query "receive_errs" filter)
      tx_errors ← reading floats web mc config (network_query "transmit_errs" filter)
      pure (record {
        rx_mb = rx_mb;
        tx_mb = tx_mb;
        rx_pps = rx_pps;
        tx_pps = tx_pps;
        rx_drops = rx_drops;
        tx_drops = tx_drops;
        rx_errors = rx_errors;
        tx_errors = tx_errors;
      })

    unfoldable pub get_soft_irq_stats : QueryM floats web (SoftIrqStats Float)
    get_soft_irq_stats = do
      netrx ← reading floats web mc config (softirq_query "NET_RX" mc.node_filter)
      nettx ← reading floats web mc config (softirq_query "NET_TX" mc.node_filter)
      pure (record { netrx = netrx; nettx = nettx })
