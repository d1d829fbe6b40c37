-- ===== src/Stress.antt =====
-- The command ebpf-stress.
pub mod Loader
pub mod Main
pub mod Validation
pub mod Session
pub mod Command
pub mod Exits
pub mod Reports
pub mod Program
mod Tests
