-- ===== src/Routing/Examples.antt =====
-- Tests and concrete inputs for routing.
use android_device_zte_fujis.Common.{
  ℕ, ◌≡◌, refl, ℤ, pos, negsuc, Bool, true, false, not, some, List, [], ◌∷◌, if◌then◌else◌, leb,
  ◌&&◌, ◌||◌, ◌==◌, arith,
}
use android_device_zte_fujis.Routing.Types.{
  speaker, bt_a2dp, speaker_and_bt_a2dp, Trace, Call, Env, Adev, a2dp_start, a2dp_is_ready,
  headphones, usb_headset,
}
use android_device_zte_fujis.Routing.Devices.{
  split, enable_at, enable_snd_device, disable_snd_device,
}
use android_device_zte_fujis.Routing.Depth.{enable_snd_device_deep}
use android_device_zte_fujis.Routing.Names.{is_path_on, run_paths}
use android_device_zte_fujis.Routing.Uses.{enable, disable}
use android_device_zte_fujis.Routing.Bluetooth.{IsHeld}
use android_device_zte_fujis.Routing.Usecases.{
  Usecase, pcm_playback, pcm_capture, get_usecase, Platform, Hal,
}
use android_device_zte_fujis.Routing.Reroute.{
  check_and_route_capture_usecases, check_and_route_playback_usecases,
}
use android_device_zte_fujis.Routing.Rerouted.{
  every, shares_input, check_and_route_capture_usecases_lem,
}
use android_device_zte_fujis.Routing.Clear.{
  is_clear, is_forced, check_and_route_playback_usecases_lem,
}
use android_device_zte_fujis.Routing.Switch.{
  select_at, select_devices, select_devices_with_force_switch,
}
use android_device_zte_fujis.Routing.Nesting.{select_devices_deep}
use android_device_zte_fujis.Routing.Histories.{Step, select, use_of, run, run-IsHeld}

-- A session was tried before.
abbrev was_started : Trace → Bool
was_started [] = false
was_started (c ∷ t) = elim c [ a2dp_start ↦ true | _ ↦ was_started t ]

-- All is well, but for the first start of A2DP when `fails` is set.
abbrev result_of : Bool → Trace → Call → ℤ
result_of fails t c = elim c [
  | a2dp_start ↦ if fails && not (was_started t) then negsuc 0 else pos 0
  | a2dp_is_ready ↦ pos 1
  | _ ↦ pos 0
]

-- SND_DEVICE_OUT_VOICE_USB_HEADSET, which has the path of SND_DEVICE_OUT_USB_HEADSET.
abbrev voice_usb_headset : ℕ
voice_usb_headset = 44

abbrev phone : Bool → Env
phone fails = record {
  result = result_of fails;
  spkr_prot = false;
  acdb_id = λ d. pos d;
  backends_match = λ a b. a == b;
  device_path = λ d. if d == voice_usb_headset then usb_headset else d;
}

-- Output device 1 is A2DP, 2 the speaker, 3 both; the microphone is the sound device 60.
abbrev output_for : ℕ → ℕ
output_for n = if n == 1 then bt_a2dp else if n == 3 then speaker_and_bt_a2dp else speaker

abbrev platform : Bool → Platform
platform fails = record {
  env = phone fails;
  codec_backend = 2;
  usb_devices = 64;
  all_a2dp = 1;
  in_voice_call = 128;
  out_speaker = 2;
  out_hearing_aid = 256;
  out_telephony_tx = 512;
  device_none = 0;
  voice_communication = 7;
  source_priority = λ n. n;
  output_device = λ t. output_for;
  input_device = λ t inputs a n. (60, inputs);
}

abbrev idle : Adev
idle = record { ref = λ d. 0; a2dp_started = false; calls = [] }

abbrev music : Usecase
music = record {
  self = 100;
  id = 0;
  kind = pcm_playback;
  devices = 0;
  out_snd_device = 0;
  in_snd_device = 0;
  stream = some 10;
}

abbrev alarm : Usecase
alarm = record music { self = 101; id = 1; stream = some 11 }

abbrev recording : Usecase
recording = record music { self = 102; id = 10; kind = pcm_capture; stream = some 20 }

-- Music on the speaker and A2DP, an alarm on A2DP, and a recording.
abbrev hal : Hal
hal = record {
  dev = idle;
  usecases = music ∷ alarm ∷ recording ∷ [];
  primary_output = some 10;
  outputs = λ a. record { devices = if a == 10 then 3 else 1; standby = false };
  inputs = λ a. record {
    device = 4;
    source = 7;
    usecase = 10;
    enable_aec = true;
    enable_ec_port = false;
    ec_opened = false;
  };
  in_call = false;
  call_state_active = false;
  in_communication = false;
  hfp_ucid = 8;
}

-- The select of the music selects its voice input too.
selected :
    ((select_devices (platform false) 0 hal).1.dev.ref speaker ≡ 1)
    × ((select_devices (platform false) 0 hal).1.dev.ref bt_a2dp ≡ 1)
    × ((select_devices (platform false) 0 hal).1.dev.ref 60 ≡ 1)
unfolding select_devices
selected = (refl, refl, refl)

-- The speaker with A2DP, then A2DP alone, and the end of the first use.
abbrev combo_uses : List Step
combo_uses =
    use_of (enable speaker_and_bt_a2dp)
    ∷ use_of (enable bt_a2dp)
    ∷ use_of (disable speaker_and_bt_a2dp)
    ∷ []

shared_count : (run (platform false) combo_uses hal).dev.ref bt_a2dp ≡ 1
unfolding enable_snd_device disable_snd_device
shared_count = refl

-- When the first start fails, the end of the first use takes the session of the second.
stolen_count : (run (platform true) combo_uses hal).dev.ref bt_a2dp ≡ 0
unfolding enable_snd_device disable_snd_device
stolen_count = refl

enable_snd_device_deep_example :
    enable_at 5 (phone false) speaker_and_bt_a2dp idle
    ≡ enable_snd_device (phone false) speaker_and_bt_a2dp idle
enable_snd_device_deep_example = enable_snd_device_deep 3 (phone false) speaker_and_bt_a2dp idle

abbrev steps : List Step
steps = select false 0 ∷ select true 1 ∷ use_of (disable bt_a2dp) ∷ select false 10 ∷ []

own_speaker_path :
    (e : ℕ) → (phone true).device_path e ≡ (phone true).device_path speaker → e ≡ speaker
own_speaker_path e same = ground arith

run_paths_example :
    is_path_on (phone true) speaker (run (platform true) steps hal).dev.calls
    ≡ leb 1 ((run (platform true) steps hal).dev.ref speaker)
unfolding split
run_paths_example =
    run_paths (platform true) steps hal speaker refl own_speaker_path refl refl (λ e. refl)

-- A voice call on the USB headset ends while the headset is counted for another use.
abbrev shared_path : List Step
shared_path =
    use_of (enable usb_headset)
    ∷ use_of (enable voice_usb_headset)
    ∷ use_of (disable voice_usb_headset)
    ∷ []

shared_path_off :
    ((run (platform false) shared_path hal).dev.ref usb_headset ≡ 1)
    × (is_path_on (phone false) usb_headset (run (platform false) shared_path hal).dev.calls
        ≡ false)
unfolding enable_snd_device disable_snd_device
shared_path_off = (refl, refl)

run-IsHeld_example : IsHeld (phone true) (run (platform true) steps hal).dev
run-IsHeld_example = run-IsHeld (platform true) steps hal refl refl refl

select_devices_deep_example :
    select_at 7 (platform false) true 0 hal
    ≡ select_devices_with_force_switch (platform false) true 0 hal
unfolding get_usecase
select_devices_deep_example = select_devices_deep 5 (platform false) true 0 hal (λ a. refl)

-- The recording is on another microphone of the same backend as 61.
abbrev shared_platform : Platform
shared_platform = record (platform false) {
  env = record (phone false) { backends_match = λ a b. true };
}

abbrev recording_hal : Hal
recording_hal = record hal {
  usecases =
      record recording { in_snd_device = 60 }
      ∷ record recording { self = 103; id = 12; in_snd_device = 61 }
      ∷ [];
}

check_and_route_capture_usecases_lem_example :
    every
      (λ w. not (shares_input shared_platform music 61 w) || w.in_snd_device == 61)
      (check_and_route_capture_usecases shared_platform music 61 recording_hal).usecases
    ≡ true
check_and_route_capture_usecases_lem_example =
    check_and_route_capture_usecases_lem shared_platform music 61 recording_hal

-- An alarm on headphones of the codec, with music that goes to the speaker.
abbrev alarm_hal : Hal
alarm_hal = record hal {
  usecases = music ∷ record alarm { out_snd_device = headphones; devices = 2 } ∷ [];
}

alarm_moves :
    (check_and_route_playback_usecases shared_platform music speaker alarm_hal).usecases
    ≡ music ∷ record alarm { out_snd_device = speaker; devices = 2 } ∷ []
unfolding check_and_route_playback_usecases
alarm_moves = refl

check_and_route_playback_usecases_lem_example :
    every
      (is_clear shared_platform music speaker
        (is_forced shared_platform music speaker alarm_hal)
        (check_and_route_playback_usecases shared_platform music speaker alarm_hal))
      (check_and_route_playback_usecases shared_platform music speaker alarm_hal).usecases
    ≡ true
check_and_route_playback_usecases_lem_example =
    check_and_route_playback_usecases_lem shared_platform music speaker (λ a b. refl) alarm_hal refl
