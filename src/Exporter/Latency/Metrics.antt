-- ===== src/Exporter/Latency/Metrics.antt =====
-- The metrics of ebpf-exporter/pkg/latency/collector.go: `Metrics`, `newMetrics` and
-- `RegisterMetrics`.
use net_perf_test.Common.{ℕ, List, [], ◌∷◌, Result}
use net_perf_test.Exporter.Registry.{Metric, gauge, gauge_vec, Registry, register_each}

pub record Metrics : Type 0 where
  pub packets_total : Metric
  pub bytes_total : Metric
  pub latency_ns_total : Metric
  pub latency_min_ns : Metric
  pub latency_max_ns : Metric
  pub latency_avg_ns : Metric
  pub xdp_packets : Metric
  pub tc_ingress_packets : Metric
  pub tc_egress_packets : Metric
  pub global_packets : Metric
  pub global_latency_ns : Metric
  pub global_avg_ns : Metric
  pub latency_histogram : Metric
  pub collector_up : Metric
  pub attached_interfaces : Metric

unfoldable pub new_metrics : Metrics
new_metrics = record {
  packets_total =
      gauge_vec
        (record {
          name = "kernel_stack_packets_total";
          help = "Total packets measured for latency";
        })
        ("interface" ∷ []);
  bytes_total =
      gauge_vec (record { name = "kernel_stack_bytes_total"; help = "Total bytes processed" })
        ("interface" ∷ []);
  latency_ns_total =
      gauge_vec
        (record {
          name = "kernel_stack_latency_ns_total";
          help = "Total packet latency in nanoseconds (time in kernel stack)";
        })
        ("interface" ∷ []);
  latency_min_ns =
      gauge_vec
        (record {
          name = "kernel_stack_latency_min_ns";
          help = "Minimum observed packet latency in nanoseconds";
        })
        ("interface" ∷ []);
  latency_max_ns =
      gauge_vec
        (record {
          name = "kernel_stack_latency_max_ns";
          help = "Maximum observed packet latency in nanoseconds";
        })
        ("interface" ∷ []);
  latency_avg_ns =
      gauge_vec
        (record {
          name = "kernel_stack_latency_avg_ns";
          help = "Average packet latency in nanoseconds (cost per packet)";
        })
        ("interface" ∷ []);
  xdp_packets =
      gauge_vec
        (record { name = "kernel_stack_xdp_packets_total"; help = "Packets seen at XDP layer" })
        ("interface" ∷ []);
  tc_ingress_packets =
      gauge_vec
        (record {
          name = "kernel_stack_tc_ingress_packets_total";
          help = "Packets seen at TC ingress layer";
        })
        ("interface" ∷ []);
  tc_egress_packets =
      gauge_vec
        (record {
          name = "kernel_stack_tc_egress_packets_total";
          help = "Packets seen at TC egress layer";
        })
        ("interface" ∷ []);
  global_packets = gauge (record {
    name = "kernel_stack_global_packets_total";
    help = "Total packets measured globally";
  });
  global_latency_ns = gauge (record {
    name = "kernel_stack_global_latency_ns_total";
    help = "Total latency globally in nanoseconds";
  });
  global_avg_ns = gauge (record {
    name = "kernel_stack_global_avg_latency_ns";
    help = "Global average cost per packet in nanoseconds";
  });
  latency_histogram =
      gauge_vec
        (record { name = "kernel_stack_latency_histogram"; help = "Histogram of packet latencies" })
        ("bucket" ∷ []);
  collector_up = gauge (record {
    name = "kernel_stack_collector_up";
    help = "Whether the latency collector is running (1 = yes)";
  });
  attached_interfaces =
      gauge_vec
        (record {
          name = "kernel_stack_interface_attached";
          help = "Whether eBPF is attached to interface (1 = yes)";
        })
        ("interface" ∷ []);
}

-- The metrics that `RegisterMetrics` goes through, in its order.
unfoldable pub registered : Metrics → List Metric
registered metrics =
    metrics.packets_total ∷ metrics.bytes_total ∷ metrics.latency_ns_total ∷ metrics.latency_min_ns
    ∷ metrics.latency_max_ns ∷ metrics.latency_avg_ns ∷ metrics.xdp_packets
    ∷ metrics.tc_ingress_packets ∷ metrics.tc_egress_packets ∷ metrics.global_packets
    ∷ metrics.global_latency_ns ∷ metrics.global_avg_ns ∷ metrics.latency_histogram
    ∷ metrics.collector_up ∷ metrics.attached_interfaces ∷ []

unfoldable pub register_metrics : {S : Type 0} → Registry S → Metrics → S → Result ℕ (Unit {0}) × S
register_metrics registry metrics s = register_each registry.register s (registered metrics)
