-- ===== src/Stress/Program.antt =====
-- The BPF programs of ebpf-stress, ebpf-stress/bpf/stress.c.
pub mod Loop
pub mod Packets
pub mod Rounds
pub mod Totals
pub mod Overcount
mod Tests
