-- ===== src/Voice/Types.antt =====
-- voice.c and voice_extn.c: the sessions, and what the two files call and do not implement.
use android_device_zte_fujis.Common.{ℕ, Bool, true, false, List, ◌∷◌, ℤ, ◌==◌, if◌then◌else◌}

-- The CALL_* states.
pub data CallState : Type 0 where
  inactive active hold local_hold : CallState

abbrev pub is_inactive : CallState → Bool
is_inactive inactive = true
is_inactive _ = false

abbrev pub same_state : CallState → CallState → Bool
same_state inactive inactive = true
same_state active active = true
same_state hold hold = true
same_state local_hold local_hold = true
same_state _ _ = false

-- `struct voice_session`: whether the two PCM pointers are not NULL, and the states; with it the
-- number of usecases of the list that have the session's usecase id.
pub record Session : Type 0 where
  pub pcm_rx : Bool
  pub pcm_tx : Bool
  pub current : CallState
  pub new : CallState
  pub usecases : ℕ

pub data Mode : Type 0 where
  normal in_call in_communication other_mode : Mode

-- Calls that concern a session have its index.
pub data Call : Type 0 where
  select_devices open_tx open_rx ready_tx ready_rx start_tx start_rx close_tx close_rx : ℕ → Call
  start_voice_call stop_voice_call disable_audio_route disable_snd_devices : ℕ → Call
  local_call_hold : (on : Bool) → ℕ → Call
  set_sidetone : (on : Bool) → ℕ → Call
  set_mic_break_det enable_speaker set_voice_volume : Call
  set_device_mute set_mic_mute : Bool → Call

-- The newest call stands first.
abbrev pub Trace : Type 0
Trace = List Call

-- `result` is what a call returns, 0 for a NULL pointer; `has_devices` whether both PCM devices of
-- a session's usecase have an id; `is_sidetone_device` whether `voice_is_sidetone_device` accepts
-- the device that was selected for the session; the last two are `mic_break_enabled` and
-- `audio_extn_tfa_98xx_is_supported`.
pub record Env : Type 0 where
  pub result : Trace → Call → ℤ
  pub has_devices : ℕ → Bool
  pub is_sidetone_device : Trace → ℕ → Bool
  pub mic_break_enabled : Bool
  pub has_tfa : Bool

-- `adev->voice` with `mode`, `use_voice_device_mute`, and the calls made so far.
pub record Voice : Type 0 where
  pub session : ℕ → Session
  pub in_call : Bool
  pub mic_mute : Bool
  pub use_voice_device_mute : Bool
  pub mode : Mode
  pub calls : Trace

abbrev pub after : Call → Voice → Voice
after c s = record s { calls = c ∷ s.calls }

-- `adev->voice.session[i] = x`
abbrev pub set_session : ℕ → Session → Voice → Voice
set_session i x s = record s { session = λ j. if j == i then x else s.session j }

abbrev pub set_current : ℕ → CallState → Voice → Voice
set_current i c s = set_session i (record (s.session i) { current = c }) s

-- MAX_VOICE_SESSIONS
abbrev pub max_voice_sessions : ℕ
max_voice_sessions = 7
