-- ===== src/Tests.antt =====
-- Runs on concrete inputs, and the theorems at concrete inputs, component by component.
mod Samples
mod Wire
mod Coordinator
pub mod Bridge
mod Queue
mod Sim
mod Pattern
mod ActorList
mod Vehicles
mod Ipc
mod Utf8
