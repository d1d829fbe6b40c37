-- ===== src/Afpacket.antt =====
-- The command afpacket-stress (traffic-generator/cmd/afpacket-stress/main.go).
pub mod Sockets
pub mod Progressive
pub mod Receiver
pub mod Softirq
pub mod Resources
pub mod Senders
pub mod Reports
pub mod ByteOrder
pub mod Batches
pub mod Run
pub mod Shutdown
pub mod Reception
pub mod Receivers
pub mod Receipts
mod Tests
