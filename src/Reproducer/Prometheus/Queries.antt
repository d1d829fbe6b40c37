-- ===== src/Reproducer/Prometheus/Queries.antt =====
-- The PromQL that getCPUMetrics, getMemoryUsage, getNetworkStats and getSoftIRQStats of
-- af_packet_reproducer/main.go write, by the node filter of the collector.
use net_perf_test.Common.{String, List, [], ◌∷◌, ◌++◌, ◌<>◌, str_eq, if◌then◌else◌}

abbrev pub query_window : String
query_window = "5m"

-- `{instance=~"%s"}`, or nothing without a filter
unfoldable pub instance_selector : String → String
instance_selector filter = if str_eq filter "" then "" else "{instance=~\"" <> filter <> "\"}"

unfoldable pub device_selector : String → String
device_selector filter =
    if str_eq filter ""
    then "{device!=\"lo\"}"
    else "{instance=~\"" <> filter <> "\",device!=\"lo\"}"

-- The direction is "NET_RX" or "NET_TX".
unfoldable pub softirq_selector : String → String → String
softirq_selector direction filter =
    if str_eq filter ""
    then "{softirq=\"" <> direction <> "\"}"
    else "{softirq=\"" <> direction <> "\",instance=~\"" <> filter <> "\"}"

abbrev pub usage_query : String → String
usage_query filter =
    "100 - (avg(rate(node_cpu_seconds_total{mode=\"idle\""
    <> instance_selector filter
    <> "}["
    <> query_window
    <> "])) * 100)"

abbrev pub mode_query : String → String → String
mode_query mode filter =
    "100 * avg(rate(node_cpu_seconds_total{mode=\""
    <> mode
    <> "\""
    <> instance_selector filter
    <> "}["
    <> query_window
    <> "]))"

abbrev pub memory_query : String → String → String
memory_query name filter = "avg(node_memory_" <> name <> "_bytes" <> instance_selector filter <> ")"

-- `sum(rate(<name><selector>[5m]))`
abbrev pub rate_query : String → String → String
rate_query name selector = "sum(rate(" <> name <> selector <> "[" <> query_window <> "]))"

abbrev pub network_query : String → String → String
network_query name filter =
    rate_query ("node_network_" <> name <> "_total") (device_selector filter)

abbrev pub throughput_query : String → String → String
throughput_query name filter = network_query name filter <> " / 1024 / 1024"

abbrev pub softirq_query : String → String → String
softirq_query direction filter =
    rate_query "node_softirqs_total" (softirq_selector direction filter)

-- The queries of one sample, in the order in which they are made.
abbrev pub cpu_queries : String → List String
cpu_queries filter =
    usage_query filter
    ∷ mode_query "softirq" filter
    ∷ mode_query "user" filter
    ∷ mode_query "system" filter
    ∷ mode_query "idle" filter
    ∷ []

abbrev pub memory_queries : String → List String
memory_queries filter = memory_query "MemTotal" filter ∷ memory_query "MemAvailable" filter ∷ []

abbrev pub network_queries : String → List String
network_queries filter =
    throughput_query "receive_bytes" filter
    ∷ throughput_query "transmit_bytes" filter
    ∷ network_query "receive_packets" filter
    ∷ network_query "transmit_packets" filter
    ∷ network_query "receive_drop" filter
    ∷ network_query "transmit_drop" filter
    ∷ network_query "receive_errs" filter
    ∷ network_query "transmit_errs" filter
    ∷ []

abbrev pub softirq_queries : String → List String
softirq_queries filter = softirq_query "NET_RX" filter ∷ softirq_query "NET_TX" filter ∷ []

abbrev pub sample_queries : String → List String
sample_queries filter =
    cpu_queries filter ++ memory_queries filter ++ network_queries filter ++ softirq_queries filter
