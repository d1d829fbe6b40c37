-- ===== src/Reproducer/Runs.antt =====
-- Runs of af_packet_reproducer/main.go.
pub mod Creation
pub mod Loop
pub mod Bounds
pub mod Setup
pub mod Whole
