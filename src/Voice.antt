-- ===== src/Voice.antt =====
-- audio/qcom/hal/voice.c and voice_extn/voice_extn.c: the voice calls of the audio HAL.
pub mod Types
pub mod Usecase
pub mod Calls
pub mod Held
pub mod Stopping
pub mod Starting
pub mod Updates
pub mod Sweeps
pub mod Histories
pub mod Muting
mod Examples
