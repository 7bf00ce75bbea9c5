-- ===== src/Tests.antt =====
-- Runs of the modelled code of hds_udp/ at concrete inputs.
pub mod Parts
pub mod Collector
pub mod Transfer
pub mod Complex
pub mod Table
pub mod Queue
pub mod Tree
pub mod Window
pub mod Pool
pub mod Timers
pub mod Starting
pub mod Receiving
pub mod Submitting
pub mod Bitmap
