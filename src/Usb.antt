-- ===== src/Usb.antt =====
-- usb.c: the USB sound cards, what their stream files say, and the configuration chosen for a
-- stream.
pub mod Text
pub mod Types
pub mod Rates
pub mod Match
pub mod MatchLaws
pub mod RateLaws
pub mod Policy
pub mod RangeLines
pub mod ListLines
pub mod Marked
pub mod Capability
pub mod Devices
pub mod DeviceLaws
pub mod Histories
pub mod Queries
pub mod Altset
pub mod Lost
mod Examples
pub mod Parsed
