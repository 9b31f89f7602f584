-- ===== src/Rome.antt =====
-- The Rome Bluetooth controller: its firmware download over the UART (hw_rome.c and hci_uart.c).
pub mod Write
pub mod Written
pub mod Read
pub mod Frames
pub mod Bounds
pub mod Soc
pub mod Events
pub mod Nested
pub mod Command
pub mod Tlv
pub mod Sending
pub mod Chunks
pub mod Delivery
pub mod Download
pub mod EventLaws
pub mod CommandLaws
pub mod Waits
pub mod DeadLine
pub mod TlvFile
pub mod Tags
pub mod Patch
pub mod Patched
mod Examples
mod DownloadExamples
