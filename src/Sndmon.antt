-- ===== src/Sndmon.antt =====
-- sndmonitor.c: the states of the sound cards, and the streams that are told of their changes.
pub mod Defs
pub mod Enumerate
pub mod Counted
pub mod Numbered
pub mod Changes
pub mod Told
pub mod Listening
pub mod Leaving
mod Examples
