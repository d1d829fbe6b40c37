-- ===== src/Stress/Loader.antt =====
-- ebpf-stress/pkg/ebpf/loader.go.
pub mod Types
pub mod Attach
pub mod Lifecycle
pub mod Readings
pub mod Resources
pub mod Outcomes
pub mod Search
pub mod Totals
