-- ===== src/Exporter/Latency/Collect.antt =====
-- `Collect`, `readInterfaceStats` and `sumPerCPUArray` of ebpf-exporter/pkg/latency/collector.go.
use net_perf_test.Common.{
  ℕ, suc, zero, String, Option, none, some, List, [], ◌∷◌, ok, err, ltb, ◌==◌, ◌&&◌, ◌||◌,
  if◌then◌else◌,
}
use net_perf_test.Common.Words.{add64, sum_onto}
use net_perf_test.Common.Floats.{Floats}
use net_perf_test.Exporter.Latency.Types.{
  InterfaceStats, Call, lookup_values, lookup_single, Answer, System, record_call, set, packets,
  bytes, latency_ns, latency_min, latency_max, latency_avg, xdp, tc_ingress, tc_egress,
  global_packets_total, global_latency_ns_total, global_avg_ns, histogram, collector_up,
}
use net_perf_test.Exporter.Latency.Start.{State}

-- `var total InterfaceStats`
abbrev pub no_stats : InterfaceStats
no_stats = record {
  packets_total = 0;
  bytes_total = 0;
  latency_ns_total = 0;
  latency_min_ns = 0;
  latency_max_ns = 0;
  xdp_packets = 0;
  tc_ingress_packets = 0;
  tc_egress_packets = 0;
  softirq_time_ns = 0;
}

-- The values of one CPU added to the totals; the softirq time is not added up.
abbrev pub add_cpu : InterfaceStats → InterfaceStats → InterfaceStats
add_cpu total v = record total {
  packets_total = add64 total.packets_total v.packets_total;
  bytes_total = add64 total.bytes_total v.bytes_total;
  latency_ns_total = add64 total.latency_ns_total v.latency_ns_total;
  xdp_packets = add64 total.xdp_packets v.xdp_packets;
  tc_ingress_packets = add64 total.tc_ingress_packets v.tc_ingress_packets;
  tc_egress_packets = add64 total.tc_egress_packets v.tc_egress_packets;
  latency_min_ns =
      if ltb 0 v.latency_min_ns
        && (total.latency_min_ns == 0 || ltb v.latency_min_ns total.latency_min_ns)
      then v.latency_min_ns
      else total.latency_min_ns;
  latency_max_ns =
      if ltb total.latency_max_ns v.latency_max_ns then v.latency_max_ns else total.latency_max_ns;
}

-- `for _, v := range values`
unfoldable pub aggregate : InterfaceStats → List InterfaceStats → InterfaceStats
aggregate total [] = total
aggregate total (v ∷ values) = aggregate (add_cpu total v) values

abbrev pub bucket_count : ℕ
bucket_count = 16

module _ (sys : System) (floats : Floats) where
  open floats use {Float, of_uint, div}

  abbrev pub St : Type 0
  St = State sys floats

  abbrev pub reply : Call → St → Answer
  reply a c = sys.answer c.trace a

  abbrev pub after : Call → St → St
  after a c = record_call a (reply a c) c

  abbrev pub or_zero : Answer → ℕ
  or_zero (ok n) = n
  or_zero (err _) = 0

  abbrev pub summed : ℕ → ℕ → Answer → St → ℕ × St
  summed m key (ok buffer) c = (sum_onto 0 (sys.words buffer), c)
  summed m key (err _) c = (or_zero (reply (lookup_single m key) c), after (lookup_single m key) c)

  unfoldable pub sum_per_cpu_array : Option ℕ → ℕ → St → ℕ × St
  sum_per_cpu_array none key c = (0, c)
  sum_per_cpu_array (some m) key c =
      summed m key (reply (lookup_values m key) c) (after (lookup_values m key) c)

  -- The gauges of one interface.
  abbrev pub set_interface : String → InterfaceStats → St → St
  set_interface ifname total c =
      let c1 = set (tc_egress ifname) (of_uint total.tc_egress_packets) (
        set (tc_ingress ifname) (of_uint total.tc_ingress_packets) (
          set (xdp ifname) (of_uint total.xdp_packets) (
            set (latency_max ifname) (of_uint total.latency_max_ns) (
              set (latency_min ifname) (of_uint total.latency_min_ns) (
                set (latency_ns ifname) (of_uint total.latency_ns_total) (
                  set (bytes ifname) (of_uint total.bytes_total)
                    (set (packets ifname) (of_uint total.packets_total) c))))))) in
      if ltb 0 total.packets_total
      then set (latency_avg ifname)
          (div (of_uint total.latency_ns_total) (of_uint total.packets_total)) c1
      else c1

  abbrev pub set_read : String → Answer → St → St
  set_read ifname (ok buffer) c = set_interface ifname (aggregate no_stats (sys.stats buffer)) c
  set_read ifname (err _) c = c

  -- The loop over the known interfaces, in the order in which Go happens to range over them.
  unfoldable pub read_interface_stats : ℕ → List (ℕ × String) → St → St
  read_interface_stats m [] c = c
  read_interface_stats m ((index, ifname) ∷ rest) c =
      read_interface_stats m rest
        (set_read ifname (reply (lookup_values m index) c) (after (lookup_values m index) c))

  unfoldable pub read_histogram : ℕ → ℕ → St → St
  read_histogram i zero c = c
  read_histogram i (suc n) c =
      let (count, d) = sum_per_cpu_array c.latency_histogram i c in
      read_histogram (suc i) n (set (histogram i) (of_uint count) d)

  abbrev pub read_interfaces : Option ℕ → St → St
  read_interfaces none c = c
  read_interfaces (some m) c = read_interface_stats m c.ifindex_to_name c

  abbrev pub set_global : ℕ → ℕ → St → St
  set_global n ns c =
      let c1 = set global_latency_ns_total (of_uint ns) (set global_packets_total (of_uint n) c) in
      if ltb 0 n then set global_avg_ns (div (of_uint ns) (of_uint n)) c1 else c1

  -- `Collect` while the collector runs.
  unfoldable pub collect_running : St → St
  collect_running c =
      let (n, c1) = sum_per_cpu_array c.global_packets 0 c in
      let (ns, c2) = sum_per_cpu_array c1.global_latency_ns 0 c1 in
      let c3 = read_histogram 0 bucket_count (set_global n ns c2) in
      read_interfaces c3.interface_stats c3

  unfoldable pub collect : St → St
  collect c = if c.running then collect_running c else set collector_up (of_uint 0) c
