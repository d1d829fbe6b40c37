-- ===== src/Exporter/Latency.antt =====
-- The latency collector, ebpf-exporter/pkg/latency/collector.go.
pub mod Types
pub mod Start
pub mod Metrics
pub mod Collect
pub mod Aggregation
pub mod Links
pub mod Balance
pub mod Pinned
mod Tests
