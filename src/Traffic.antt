-- ===== src/Traffic.antt =====
-- The command traffic-gen (traffic-generator/cmd/traffic-gen/main.go). afpacket-stress has copies
-- of its senders, with other addresses.
pub mod Pacing
pub mod Sender
pub mod Workers
pub mod Shared
pub mod Reports
pub mod Increases
pub mod Bounds
pub mod Counting
pub mod Command
pub mod Ends
mod Tests
