-- ===== src/Protocol.antt =====
-- The HT2MP/6 wire protocol: include/ht2mp/protocol and src/protocol.
pub mod Types
pub mod Float
pub mod Replication
pub mod Utf8
pub mod Validation
pub mod Vehicles
pub mod Writer
pub mod Reader
pub mod Ranges
pub mod Wire
pub mod Codec
