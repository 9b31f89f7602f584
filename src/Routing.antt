-- ===== src/Routing.antt =====
-- audio_hw.c: the sound devices and the usecases that are routed to them.
pub mod Types
pub mod Devices
pub mod Depth
pub mod Paths
pub mod Uses
pub mod Bluetooth
pub mod Usecases
pub mod Reroute
pub mod Rerouted
pub mod Moved
pub mod Gathered
pub mod Clear
pub mod Select
pub mod Switch
pub mod Kept
pub mod Selected
pub mod Histories
pub mod Names
pub mod Nesting
mod Examples
