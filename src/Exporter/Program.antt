-- ===== src/Exporter/Program.antt =====
-- The BPF programs of ebpf-exporter, ebpf-exporter/bpf/latency.c.
pub mod Hash
pub mod Statistics
pub mod Packets
pub mod Buckets
pub mod Hooks
pub mod Unmeasured
pub mod XdpOnly
mod Tests
