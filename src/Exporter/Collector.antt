-- ===== src/Exporter/Collector.antt =====
-- The collector of ebpf-exporter/cmd/ebpf-exporter/main.go.
pub mod Types
pub mod Maps
pub mod Collect
pub mod Opening
pub mod Reconnect
pub mod Rates
pub mod Metrics
