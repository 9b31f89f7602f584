-- ===== src/A2dp.antt =====
-- audio/qcom/hal/audio_extn/a2dp.c: the A2DP offload session of the audio HAL.
pub mod Types
pub mod Env
pub mod Backend
pub mod Resources
pub mod BackendNeutral
pub mod Abr
pub mod Encoder
pub mod Control
pub mod Session
pub mod Invariant
pub mod InvariantEncoder
pub mod InvariantSession
pub mod Sound
pub mod Histories
pub mod Frames
pub mod Sessions
pub mod Resuming
pub mod Latency
pub mod EncoderLaws
pub mod Instances
pub mod BackendLaws
mod Examples
