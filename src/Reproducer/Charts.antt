-- ===== src/Reproducer/Charts.antt =====
-- The charts of af_packet_reproducer/main.go.
pub mod Types
pub mod Plots
pub mod Breakdowns
pub mod Saving
pub mod Lost
