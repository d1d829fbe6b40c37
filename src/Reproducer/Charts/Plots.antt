-- ===== src/Reproducer/Charts/Plots.antt =====
-- The charts of af_packet_reproducer/main.go that return the error of a line: plotActiveSockets,
-- plotCPUUsage, plotMemoryUsage and plotNetworkThroughput; and plotSoftIRQTime.
use net_perf_test.Common.{true, List, [], ◌∷◌, pure, throw, ◌>>=◌}
use net_perf_test.Common.Floats.{Floats}
use net_perf_test.Reproducer.Prometheus.Types.{MetricPoint, MetricsCollector, index_out_of_range}
use net_perf_test.Reproducer.Charts.Types.{
  plain, Plotter, panicked, DrawM, elapsed, series, checked_line, unchecked_line, save_chart,
}

module _ (floats : Floats) (plotter : Plotter floats.Float) where
  open floats use {Float, of_uint}

  -- `mc.points[len(mc.points)-1]`
  abbrev pub last_point : List (MetricPoint Float) → DrawM floats plotter (MetricPoint Float)
  last_point [] = throw (panicked index_out_of_range)
  last_point (point ∷ []) = pure point
  last_point (_ ∷ next ∷ rest) = last_point (next ∷ rest)

  module _ (mc : MetricsCollector Float) where
    unfoldable pub plot_active_sockets : DrawM floats plotter (Unit {0})
    plot_active_sockets = do
      line ←
          checked_line floats plotter
            (series floats plotter mc (λ point. of_uint point.active_sockets)) 0 2
      save_chart floats plotter mc "active_sockets.png" (12, 6)
          (record {
            title = "Active AF_PACKET Sockets Over Time";
            y_label = "Active Sockets";
            lines = (plain "Active Sockets", line) ∷ [];
          })

    unfoldable pub plot_cpu_usage : DrawM floats plotter (Unit {0})
    plot_cpu_usage = do
      line ← checked_line floats plotter (series floats plotter mc (λ point. point.cpu_usage)) 1 2
      save_chart floats plotter mc "cpu_usage.png" (12, 6)
          (record {
            title = "CPU Usage Over Time (Total)";
            y_label = "CPU Usage (%)";
            lines = (plain "Total CPU Usage", line) ∷ [];
          })

    unfoldable pub plot_memory_usage : DrawM floats plotter (Unit {0})
    plot_memory_usage = do
      line ←
          checked_line floats plotter (series floats plotter mc (λ point. point.memory_usage)) 2 2
      save_chart floats plotter mc "memory_usage.png" (12, 6)
          (record {
            title = "Memory Usage Over Time";
            y_label = "Memory Usage (%)";
            lines = (plain "Memory Usage", line) ∷ [];
          })

    unfoldable pub plot_network_throughput : DrawM floats plotter (Unit {0})
    plot_network_throughput = do
      rx ← checked_line floats plotter (series floats plotter mc (λ point. point.network_rx)) 3 2
      tx ← checked_line floats plotter (series floats plotter mc (λ point. point.network_tx)) 4 2
      save_chart floats plotter mc "network_throughput.png" (12, 6)
          (record {
            title = "Network Throughput Over Time";
            y_label = "Throughput (MB/s)";
            lines = (plain "RX (MB/s)", rx) ∷ (plain "TX (MB/s)", tx) ∷ [];
          })

    -- The threshold is a line at 50 from the start to the last sample.
    unfoldable pub plot_soft_irq_time : DrawM floats plotter (Unit {0})
    plot_soft_irq_time = do
      line ←
          checked_line floats plotter (series floats plotter mc (λ point. point.cpu_soft_irq)) 0 3
      last ← last_point mc.points
      threshold ←
          unchecked_line floats plotter
            ((of_uint 0, of_uint 50) ∷ (elapsed floats plotter mc last, of_uint 50) ∷ []) 1 1
      save_chart floats plotter mc "cpu_softirq_time.png" (12, 6)
          (record {
            title = "System Interrupt (SoftIRQ) Time - CRITICAL METRIC";
            y_label = "SoftIRQ Time (%)";
            lines =
                (plain "SoftIRQ Time (%)", line)
                ∷ (plain "Critical (50%)", record threshold { dashed = true })
                ∷ [];
          })
