-- ===== src/Reproducer/Charts/Saving.antt =====
-- `SaveCharts` of af_packet_reproducer/main.go.
use net_perf_test.Common.{Result, ok, err, M, ◌>>◌, pure, length, ltb, if◌then◌else◌}
use net_perf_test.Common.Floats.{Floats}
use net_perf_test.Reproducer.Prometheus.Types.{MetricsCollector, Panic}
use net_perf_test.Reproducer.Charts.Types.{Plotter, Charts, Stop, failed, panicked, DrawM}
use net_perf_test.Reproducer.Charts.Plots.{
  plot_active_sockets, plot_cpu_usage, plot_memory_usage, plot_network_throughput,
  plot_soft_irq_time,
}
use net_perf_test.Reproducer.Charts.Breakdowns.{
  plot_combined_metrics, plot_cpu_breakdown, plot_network_drops_errors, plot_soft_irq_rates,
}

pub data ChartError : Type 0 where
  not_enough_points : ChartError

module _ (floats : Floats) (plotter : Plotter floats.Float) where
  open floats use {Float}

  -- An error is only logged; a panic is one of the program.
  abbrev pub logging : Result Stop (Unit {0}) → Result Panic (Unit {0})
  logging (ok _) = ok tt
  logging (err (failed _)) = ok tt
  logging (err (panicked p)) = err p

  unfoldable pub or_log : DrawM floats plotter (Unit {0}) → M (Charts Float) Panic (Unit {0})
  or_log draw s = let r = draw s in (logging r.0, r.1)

  module _ (mc : MetricsCollector Float) where
    unfoldable pub first_charts : M (Charts Float) Panic (Unit {0})
    first_charts = do
      or_log (plot_active_sockets floats plotter mc)
      or_log (plot_cpu_usage floats plotter mc)
      or_log (plot_memory_usage floats plotter mc)
      or_log (plot_network_throughput floats plotter mc)

    unfoldable pub later_charts : M (Charts Float) Panic (Unit {0})
    later_charts = do
      or_log (plot_combined_metrics floats plotter mc)
      or_log (plot_soft_irq_time floats plotter mc)
      or_log (plot_cpu_breakdown floats plotter mc)
      or_log (plot_network_drops_errors floats plotter mc)
      or_log (plot_soft_irq_rates floats plotter mc)

    unfoldable pub save_charts : M (Charts Float) Panic (Result ChartError (Unit {0}))
    save_charts =
        if ltb (length mc.points) 2
        then pure (err not_enough_points)
        else (do first_charts; later_charts; pure (ok tt))
