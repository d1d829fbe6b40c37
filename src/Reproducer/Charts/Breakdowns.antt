-- ===== src/Reproducer/Charts/Breakdowns.antt =====
-- The charts of af_packet_reproducer/main.go that drop the errors of their lines:
-- plotCombinedMetrics, plotCPUBreakdown, plotNetworkDropsErrors and plotSoftIRQRates.
use net_perf_test.Common.{ℕ, List, [], ◌∷◌, ◌>>=◌, if◌then◌else◌}
use net_perf_test.Common.Floats.{Floats}
use net_perf_test.Reproducer.Prometheus.Types.{MetricPoint, MetricsCollector}
use net_perf_test.Reproducer.Charts.Types.{
  Line, plain, sockets_max, Plotter, DrawM, series, unchecked_line, save_chart,
}

module _ (floats : Floats) (plotter : Plotter floats.Float) where
  open floats use {Float, of_uint, gt, div, mul}

  -- The loop for `maxSockets`. The other maxima of the loop are not used.
  unfoldable pub max_sockets_from : Float → List (MetricPoint Float) → Float
  max_sockets_from highest [] = highest
  max_sockets_from highest (point ∷ points) =
      let sockets = of_uint point.active_sockets in
      max_sockets_from (if gt sockets highest then sockets else highest) points

  -- `(float64(point.ActiveSockets) / maxSockets) * 100`
  abbrev pub normalized : Float → MetricPoint Float → Float
  normalized highest point = mul (div (of_uint point.active_sockets) highest) (of_uint 100)

  module _ (mc : MetricsCollector Float) where
    abbrev unchecked_series :
        (MetricPoint Float → Float) → ℕ → ℕ → DrawM floats plotter (Line Float)
    unchecked_series field color width =
        unchecked_line floats plotter (series floats plotter mc field) color width

    unfoldable pub plot_combined_metrics : DrawM floats plotter (Unit {0})
    plot_combined_metrics = do
      let highest = max_sockets_from (of_uint 0) mc.points
      sockets ← unchecked_series (normalized highest) 0 2
      cpu ← unchecked_series (λ point. point.cpu_usage) 1 2
      soft_irq ← unchecked_series (λ point. point.cpu_soft_irq) 2 3
      mem ← unchecked_series (λ point. point.memory_usage) 3 2
      save_chart floats plotter mc "combined_metrics.png" (14, 8)
          (record {
            title = "AF_PACKET Socket Issue - Combined Metrics Overview";
            y_label = "Value";
            lines =
                (sockets_max highest, sockets)
                ∷ (plain "CPU Usage (%)", cpu)
                ∷ (plain "SoftIRQ Time (%) - CRITICAL", soft_irq)
                ∷ (plain "Memory Usage (%)", mem)
                ∷ [];
          })

    unfoldable pub plot_cpu_breakdown : DrawM floats plotter (Unit {0})
    plot_cpu_breakdown = do
      user ← unchecked_series (λ point. point.cpu_user) 0 2
      system ← unchecked_series (λ point. point.cpu_system) 1 2
      soft_irq ← unchecked_series (λ point. point.cpu_soft_irq) 2 3
      idle ← unchecked_series (λ point. point.cpu_idle) 3 2
      save_chart floats plotter mc "cpu_breakdown.png" (14, 8)
          (record {
            title = "CPU Breakdown by Mode";
            y_label = "CPU Time (%)";
            lines =
                (plain "User", user)
                ∷ (plain "System", system)
                ∷ (plain "SoftIRQ (CRITICAL)", soft_irq)
                ∷ (plain "Idle", idle)
                ∷ [];
          })

    unfoldable pub plot_network_drops_errors : DrawM floats plotter (Unit {0})
    plot_network_drops_errors = do
      rx_drop ← unchecked_series (λ point. point.network_rx_drops) 0 2
      tx_drop ← unchecked_series (λ point. point.network_tx_drops) 1 2
      rx_err ← unchecked_series (λ point. point.network_rx_errors) 2 2
      tx_err ← unchecked_series (λ point. point.network_tx_errors) 3 2
      save_chart floats plotter mc "network_drops_errors.png" (12, 6)
          (record {
            title = "Network Packet Drops and Errors";
            y_label = "Rate (per second)";
            lines =
                (plain "RX Drops", rx_drop)
                ∷ (plain "TX Drops", tx_drop)
                ∷ (plain "RX Errors", rx_err)
                ∷ (plain "TX Errors", tx_err)
                ∷ [];
          })

    unfoldable pub plot_soft_irq_rates : DrawM floats plotter (Unit {0})
    plot_soft_irq_rates = do
      netrx ← unchecked_series (λ point. point.soft_irq_netrx) 0 2
      nettx ← unchecked_series (λ point. point.soft_irq_nettx) 1 2
      save_chart floats plotter mc "softirq_rates.png" (12, 6)
          (record {
            title = "SoftIRQ Rates - NET_RX and NET_TX";
            y_label = "SoftIRQ Rate (per second)";
            lines = (plain "NET_RX SoftIRQ", netrx) ∷ (plain "NET_TX SoftIRQ", nettx) ∷ [];
          })
