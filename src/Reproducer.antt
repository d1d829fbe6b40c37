-- ===== src/Reproducer.antt =====
-- The command af_packet_reproducer (af_packet_reproducer/main.go).
pub mod Prometheus
pub mod Charts
pub mod Discovery
pub mod Pods
pub mod Monitoring
pub mod Samples
pub mod Runs
pub mod Captures
pub mod Sizes
pub mod Stopping
pub mod Units
pub mod Files
mod Tests
mod Scenarios
