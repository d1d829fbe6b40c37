-- ===== src/Exporter/Program/Buckets.antt =====
-- The histogram of ebpf-exporter/bpf/latency.c, and the labels that
-- ebpf-exporter/cmd/ebpf-exporter/main.go gives its buckets.
use net_perf_test.Common.{ℕ, ◌-◌, ◌*◌, ◌^◌, ◌≤◌, ◌<◌, arith, ltb, if◌then◌else◌, length}
use net_perf_test.Exporter.Collector.Collect.{histogram_buckets}
use net_perf_test.Exporter.Program.Statistics.{get_latency_bucket}

-- The least microseconds of a bucket.
abbrev pub least_of : ℕ → ℕ
least_of b = if ltb 0 b then 2 ^ (b - 1) else 0

-- A latency falls into the bucket of its microseconds: bucket 0 is below one, bucket b from
-- 2 ^ (b - 1) on and below 2 ^ b, and the last one, 15, is open above. There is a label for it.
pub get_latency_bucket-bounds :
    (latency_ns : ℕ)
    → let b = get_latency_bucket latency_ns in
      (least_of b * 1000 ≤ latency_ns)
      × (b < 15 → latency_ns < 2 ^ b * 1000)
      × (b < length histogram_buckets)
unfolding get_latency_bucket
get_latency_bucket-bounds latency_ns = ground arith
