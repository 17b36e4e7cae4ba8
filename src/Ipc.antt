-- ===== src/Ipc.antt =====
-- include/ht2mp/ipc and src/ipc: the frames between the sidecar and the bridge.
pub mod Types
pub mod Payload
pub mod Frame
pub mod Messages
pub mod Authentication
