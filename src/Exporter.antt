-- ===== src/Exporter.antt =====
-- The command ebpf-exporter (ebpf-exporter/cmd/ebpf-exporter/main.go).
pub mod Configuration
pub mod Interfaces
pub mod Registry
pub mod Registration
pub mod Web
pub mod Process
pub mod Command
pub mod Exits
pub mod Sample
pub mod Program
pub mod Collector
pub mod Latency
pub mod Priority
mod Tests
