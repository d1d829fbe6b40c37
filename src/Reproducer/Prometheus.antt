-- ===== src/Reproducer/Prometheus.antt =====
-- The samples that af_packet_reproducer/main.go takes from Prometheus.
pub mod Types
pub mod Queries
pub mod Request
pub mod Gather
pub mod Braces
pub mod Refusal
pub mod Sampling
pub mod Asked
pub mod Collected
