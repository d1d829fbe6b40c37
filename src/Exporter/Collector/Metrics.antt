-- ===== src/Exporter/Collector/Metrics.antt =====
-- The metrics of ebpf-exporter/cmd/ebpf-exporter/main.go: `Metrics`, `newMetrics`, and the
-- registration in `run`.
use net_perf_test.Common.{List, [], ◌∷◌, Option, none, some}
use net_perf_test.Exporter.Registry.{Metric, gauge, gauge_vec, Registry}

pub record Metrics : Type 0 where
  pub packets_total : Metric
  pub loops_total : Metric
  pub bytes_total : Metric
  pub time_ns_total : Metric
  pub loops_per_packet : Metric
  pub avg_time_per_pkt : Metric
  pub packets_per_sec : Metric
  pub loops_per_sec : Metric
  pub bytes_per_sec : Metric
  pub uptime_seconds : Metric
  pub configured_loops : Metric
  pub exporter_up : Metric
  pub interfaces_up : Metric
  pub kernel_stack_packets_total : Metric
  pub kernel_stack_bytes_total : Metric
  pub kernel_stack_latency_ns_total : Metric
  pub kernel_stack_latency_min_ns : Metric
  pub kernel_stack_latency_max_ns : Metric
  pub kernel_stack_latency_avg_ns : Metric
  pub kernel_stack_histogram : Metric
  pub kernel_stack_collector_up : Metric

unfoldable pub new_metrics : Metrics
new_metrics = record {
  packets_total =
      gauge_vec
        (record {
          name = "ebpf_stress_packets_total";
          help = "Total packets processed by eBPF program";
        })
        ("interface" ∷ "hook" ∷ []);
  loops_total =
      gauge_vec
        (record { name = "ebpf_stress_loops_total"; help = "Total loop iterations performed" })
        ("interface" ∷ "hook" ∷ []);
  bytes_total =
      gauge_vec (record { name = "ebpf_stress_bytes_total"; help = "Total bytes processed" })
        ("interface" ∷ "hook" ∷ []);
  time_ns_total =
      gauge_vec
        (record {
          name = "ebpf_stress_processing_time_ns_total";
          help = "Total processing time in nanoseconds (time spent in softIRQ/interrupt context)";
        })
        ("interface" ∷ "hook" ∷ []);
  loops_per_packet =
      gauge_vec
        (record { name = "ebpf_stress_loops_per_packet"; help = "Average loops per packet" })
        ("interface" ∷ []);
  avg_time_per_pkt =
      gauge_vec
        (record {
          name = "ebpf_stress_avg_time_per_packet_ns";
          help = "Average processing time per packet in nanoseconds";
        })
        ("interface" ∷ []);
  packets_per_sec =
      gauge_vec
        (record { name = "ebpf_stress_packets_per_second"; help = "Packets processed per second" })
        ("interface" ∷ []);
  loops_per_sec =
      gauge_vec
        (record { name = "ebpf_stress_loops_per_second"; help = "Loop iterations per second" })
        ("interface" ∷ []);
  bytes_per_sec =
      gauge_vec
        (record { name = "ebpf_stress_bytes_per_second"; help = "Bytes processed per second" })
        ("interface" ∷ []);
  uptime_seconds =
      gauge (record { name = "ebpf_stress_uptime_seconds"; help = "Exporter uptime in seconds" });
  configured_loops =
      gauge (record {
        name = "ebpf_stress_configured_loops";
        help = "Configured loop count per packet";
      });
  exporter_up = gauge (record {
    name = "ebpf_exporter_up";
    help = "Whether the exporter is connected to eBPF maps (1 = yes, 0 = no)";
  });
  interfaces_up =
      gauge_vec
        (record {
          name = "ebpf_stress_interface_up";
          help = "Whether eBPF program is attached to interface (1 = yes, 0 = no)";
        })
        ("interface" ∷ []);
  kernel_stack_packets_total =
      gauge_vec
        (record {
          name = "kernel_stack_packets_total";
          help = "Total packets measured for kernel stack latency";
        })
        ("interface" ∷ []);
  kernel_stack_bytes_total =
      gauge_vec
        (record {
          name = "kernel_stack_bytes_total";
          help = "Total bytes processed through kernel stack";
        })
        ("interface" ∷ []);
  kernel_stack_latency_ns_total =
      gauge_vec
        (record {
          name = "kernel_stack_latency_ns_total";
          help = "Total packet latency in nanoseconds (time in kernel stack)";
        })
        ("interface" ∷ []);
  kernel_stack_latency_min_ns =
      gauge_vec
        (record {
          name = "kernel_stack_latency_min_ns";
          help = "Minimum observed packet latency in nanoseconds";
        })
        ("interface" ∷ []);
  kernel_stack_latency_max_ns =
      gauge_vec
        (record {
          name = "kernel_stack_latency_max_ns";
          help = "Maximum observed packet latency in nanoseconds";
        })
        ("interface" ∷ []);
  kernel_stack_latency_avg_ns =
      gauge_vec
        (record {
          name = "kernel_stack_latency_avg_ns";
          help = "Average packet latency in nanoseconds (cost per packet in kernel stack)";
        })
        ("interface" ∷ []);
  kernel_stack_histogram =
      gauge_vec
        (record {
          name = "kernel_stack_latency_histogram";
          help = "Histogram of packet latencies through kernel stack";
        })
        ("bucket" ∷ []);
  kernel_stack_collector_up = gauge (record {
    name = "kernel_stack_collector_up";
    help = "Whether the kernel stack latency collector is running (1 = yes, 0 = no)";
  });
}

-- The first call of `MustRegister` in `run`.
unfoldable pub stress_metrics : Metrics → List Metric
stress_metrics metrics =
    metrics.packets_total ∷ metrics.loops_total ∷ metrics.bytes_total ∷ metrics.time_ns_total
    ∷ metrics.loops_per_packet ∷ metrics.avg_time_per_pkt ∷ metrics.packets_per_sec
    ∷ metrics.loops_per_sec ∷ metrics.bytes_per_sec ∷ metrics.uptime_seconds
    ∷ metrics.configured_loops ∷ metrics.exporter_up ∷ metrics.interfaces_up ∷ []

-- The second call.
unfoldable pub kernel_metrics : Metrics → List Metric
kernel_metrics metrics =
    metrics.kernel_stack_packets_total ∷ metrics.kernel_stack_bytes_total
    ∷ metrics.kernel_stack_latency_ns_total ∷ metrics.kernel_stack_latency_min_ns
    ∷ metrics.kernel_stack_latency_max_ns ∷ metrics.kernel_stack_latency_avg_ns
    ∷ metrics.kernel_stack_histogram ∷ metrics.kernel_stack_collector_up ∷ []

abbrev pub unless_panic : {S : Type 0} → (S → Option S) → Option S → Option S
unless_panic rest none = none
unless_panic rest (some t) = rest t

-- Both calls; `none` is a panic.
unfoldable pub register_metrics : {S : Type 0} → Registry S → Metrics → S → Option S
register_metrics registry metrics s =
    unless_panic (λ t. registry.must_register t (kernel_metrics metrics))
      (registry.must_register s (stress_metrics metrics))
