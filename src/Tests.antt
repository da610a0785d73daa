-- ===== src/Tests.antt =====
-- The theorems at concrete inputs.
pub mod Codec
pub mod Events
pub mod Rows
pub mod Scans
pub mod Packets
pub mod Ports
pub mod Indexes
pub mod Gtids
pub mod Messages
pub mod Values
pub mod Selections
