-- ===== src/Routing/Types.antt =====
-- audio_hw.c: the audio device as far as routing needs it, and what the routing calls.
use android_device_zte_fujis.Common.{ℕ, Bool, Option, List, ◌∷◌, ℤ, ◌==◌, if◌then◌else◌}

-- The SND_DEVICE_* values that the code names.
abbrev pub no_device : ℕ
no_device = 0

abbrev pub speaker : ℕ
speaker = 2

abbrev pub speaker_reverse : ℕ
speaker_reverse = 3

abbrev pub speaker_safe : ℕ
speaker_safe = 4

abbrev pub headphones : ℕ
headphones = 5

abbrev pub line : ℕ
line = 6

abbrev pub voice_speaker : ℕ
voice_speaker = 12

abbrev pub bt_sco : ℕ
bt_sco = 18

abbrev pub bt_sco_wb : ℕ
bt_sco_wb = 19

abbrev pub bt_a2dp : ℕ
bt_a2dp = 20

abbrev pub speaker_and_bt_a2dp : ℕ
speaker_and_bt_a2dp = 21

abbrev pub speaker_safe_and_bt_a2dp : ℕ
speaker_safe_and_bt_a2dp = 22

abbrev pub voice_music_tx : ℕ
voice_music_tx = 31

abbrev pub usb_headset : ℕ
usb_headset = 39

-- SND_DEVICE_MAX
abbrev pub max_device : ℕ
max_device = 117

-- A device of a call is named by its number, a usecase by its id.
pub data Call : Type 0 where
  send_calibration device_busy device_free spkr_start spkr_stop tfa_disable_speaker : ℕ → Call
  apply_device reset_device : ℕ → Call
  dsm_feedback gain_in_combo : ℕ → (on : Bool) → Call
  spkr_calib_cancel a2dp_start a2dp_stop a2dp_is_force_device_switch a2dp_is_ready tfa_set_mode
        switch_pre :
      Call
  stream_busy stream_free send_app_type_cfg send_usecase_calibration ma_set_device : ℕ → Call
  apply_route reset_route : (id device : ℕ) → Call
  echo_reference : (devices : Option ℕ) → Call
  backend_cfg capture_backend_cfg : (id device : ℕ) → Call
  send_app_type_gain : Call
  sidetone : (device : ℕ) → (on : Bool) → Call
  switch_config switch_post route_post : (out_device in_device : ℕ) → Call

-- The newest call stands first.
abbrev pub Trace : Type 0
Trace = List Call

-- What a call returns; whether speaker protection is enabled; the ids of the calibration tables;
-- whether two devices share a backend, and the number of the mixer path that
-- `platform_get_snd_device_name_extn` names for a device, which several devices may have in common.
pub record Env : Type 0 where
  pub result : Trace → Call → ℤ
  pub spkr_prot : Bool
  pub acdb_id : ℕ → ℤ
  pub backends_match : ℕ → ℕ → Bool
  pub device_path : ℕ → ℕ

-- `snd_dev_ref_cnt`, `a2dp_started` and the calls made so far.
pub record Adev : Type 0 where
  pub ref : ℕ → ℕ
  pub a2dp_started : Bool
  pub calls : Trace

abbrev pub after : Call → Adev → Adev
after c s = record s { calls = c ∷ s.calls }

abbrev pub set_ref : ℕ → ℕ → Adev → Adev
set_ref d n s = record s { ref = λ j. if j == d then n else s.ref j }
