-- ===== src/Routing/Usecases.antt =====
-- audio_hw.h and audio_hw.c: usecases, their streams, and their mixer routes.
use android_device_zte_fujis.Common.{
  ℕ, zero, suc, ◌+◌, ◌%◌, ◌/◌, Bool, true, false, ◌&&◌, ◌||◌, Option, none, some, List, [], ◌∷◌,
  ◌==◌, if◌then◌else◌,
}
use android_device_zte_fujis.Routing.Types.{
  Trace, Env, Adev, after, stream_busy, stream_free, send_app_type_cfg, send_usecase_calibration,
  ma_set_device, apply_route, reset_route, echo_reference,
}

-- The USECASE_* values that the code names.
abbrev pub spkr_calib_tx : ℕ
spkr_calib_tx = 25

abbrev pub record_afe_proxy : ℕ
record_afe_proxy = 27

abbrev pub playback_voip : ℕ
playback_voip = 29

abbrev pub music_uplink : ℕ
music_uplink = 31

abbrev pub music_uplink_2 : ℕ
music_uplink_2 = 32

-- `usecase_type_t`
pub data UsecaseKind : Type 0 where
  pcm_playback pcm_capture voice_call pcm_hfp_call : UsecaseKind

abbrev pub is_capture : UsecaseKind → Bool
is_capture pcm_capture = true
is_capture _ = false

abbrev pub is_playback : UsecaseKind → Bool
is_playback pcm_playback = true
is_playback _ = false

abbrev pub is_voice : UsecaseKind → Bool
is_voice voice_call = true
is_voice _ = false

-- `audio_usecase`, with its own address, and the address of its input or output stream.
pub record Usecase : Type 0 where
  pub self : ℕ
  pub id : ℕ
  pub kind : UsecaseKind
  pub devices : ℕ
  pub out_snd_device : ℕ
  pub in_snd_device : ℕ
  pub stream : Option ℕ

pub record StreamOut : Type 0 where
  pub devices : ℕ
  pub standby : Bool

pub record StreamIn : Type 0 where
  pub device : ℕ
  pub source : ℕ
  pub usecase : ℕ
  pub enable_aec : Bool
  pub enable_ec_port : Bool
  pub ec_opened : Bool

-- What audio_hw.c asks of other files. The system's headers have the sets of devices with the
-- codec's backend, of USB devices and of A2DP devices, the numbers of a few devices, and the source of
-- voice communication. The priority is the switch of `source_priority`, whose cases are constants of
-- the system. The platform finds the sound devices, and may mark input streams as it does so.
pub record Platform : Type 0 where
  pub env : Env
  pub codec_backend : ℕ
  pub usb_devices : ℕ
  pub all_a2dp : ℕ
  pub in_voice_call : ℕ
  pub out_speaker : ℕ
  pub out_hearing_aid : ℕ
  pub out_telephony_tx : ℕ
  pub device_none : ℕ
  pub voice_communication : ℕ
  pub source_priority : ℕ → ℕ
  pub output_device : Trace → ℕ → ℕ
  pub input_device : Trace → (ℕ → StreamIn) → Option ℕ → ℕ → ℕ × (ℕ → StreamIn)

-- The part of `audio_device` that routing reads and writes, with the streams by their addresses.
pub record Hal : Type 0 where
  pub dev : Adev
  pub usecases : List Usecase
  pub primary_output : Option ℕ
  pub outputs : ℕ → StreamOut
  pub inputs : ℕ → StreamIn
  pub in_call : Bool
  pub call_state_active : Bool
  pub in_communication : Bool
  pub hfp_ucid : ℕ

-- `a & b` is not 0, for numbers of `width` bits.
unfoldable pub share_bit : (width : ℕ) → ℕ → ℕ → Bool
share_bit zero a b = false
share_bit (suc width) a b = (a % 2 == 1 && b % 2 == 1) || share_bit width (a / 2) (b / 2)

unfoldable pub popcount : (width : ℕ) → ℕ → ℕ
popcount zero a = 0
popcount (suc width) a = a % 2 + popcount width (a / 2)

-- The devices of an output stream.
unfoldable pub devices_of : (ℕ → StreamOut) → Option ℕ → ℕ
devices_of outputs none = 0
devices_of outputs (some a) = (outputs a).devices

abbrev pub stream_devices : Hal → Usecase → ℕ
stream_devices h u = devices_of h.outputs u.stream

-- `get_usecase_from_list`
unfoldable pub get_usecase : ℕ → List Usecase → Option Usecase
get_usecase id [] = none
get_usecase id (u ∷ us) = if u.id == id then some u else get_usecase id us

abbrev pub output_usecase : List Usecase → Option Usecase
output_usecase [] = none
output_usecase (u ∷ us) = if is_capture u.kind then output_usecase us else some u

abbrev pub first_output : Platform → Hal → ℕ
first_output p h = elim (output_usecase h.usecases) [
  | none ↦ p.out_speaker
  | some u ↦ stream_devices h u
]

abbrev pub active_primary : Hal → Option ℕ
active_primary h = elim h.primary_output [
  | none ↦ none
  | some a ↦ if (h.outputs a).standby then none else some a
]

-- The output whose echo is cancelled.
unfoldable pub echo_devices : Platform → Hal → ℕ
unfolding get_usecase devices_of
echo_devices p h = elim (get_usecase playback_voip h.usecases) [
  | some u ↦ stream_devices h u
  | none ↦ elim (active_primary h) [ some a ↦ (h.outputs a).devices | none ↦ first_output p h ]
]

abbrev pub set_input : ℕ → StreamIn → (ℕ → StreamIn) → ℕ → StreamIn
set_input a i inputs b = if b == a then i else inputs b

abbrev pub wants_echo : StreamIn → Bool
wants_echo i = i.enable_aec || i.enable_ec_port

-- The device of a usecase that its route names.
abbrev pub route_device : Usecase → ℕ
route_device u = if is_capture u.kind then u.in_snd_device else u.out_snd_device

abbrev pub input_of : Usecase → Option ℕ
input_of u = if is_capture u.kind then u.stream else none

abbrev pub open_echo_call : Platform → Hal → Usecase → Adev → Adev
open_echo_call p h u s = elim (input_of u) [
  | none ↦ s
  | some a ↦
      if wants_echo (h.inputs a) then after (echo_reference (some (echo_devices p h))) s else s
]

abbrev pub open_echo : Hal → Usecase → ℕ → StreamIn
open_echo h u = elim (input_of u) [
  | none ↦ h.inputs
  | some a ↦
      if wants_echo (h.inputs a)
      then set_input a (record (h.inputs a) { ec_opened = true }) h.inputs
      else h.inputs
]

unfoldable pub enable_audio_route : Platform → Usecase → Hal → Hal
unfolding echo_devices
enable_audio_route p u h = record h {
  dev = after (apply_route u.id (route_device u)) (
      after (send_usecase_calibration u.id) (
        after (ma_set_device u.id) (
          after (send_app_type_cfg u.id) (open_echo_call p h u (after (stream_busy u.id) h.dev)))));
  inputs = open_echo h u;
}

abbrev pub close_echo_call : Hal → Usecase → Adev → Adev
close_echo_call h u s = elim (input_of u) [
  | none ↦ s
  | some a ↦ if (h.inputs a).ec_opened then after (echo_reference none) s else s
]

abbrev pub close_echo : Hal → Usecase → ℕ → StreamIn
close_echo h u = elim (input_of u) [
  | none ↦ h.inputs
  | some a ↦
      if (h.inputs a).ec_opened
      then set_input a (record (h.inputs a) { ec_opened = false }) h.inputs
      else h.inputs
]

unfoldable pub disable_audio_route : Usecase → Hal → Hal
disable_audio_route u h = record h {
  dev =
      after (stream_free u.id)
        (close_echo_call h u (after (reset_route u.id (route_device u)) h.dev));
  inputs = close_echo h u;
}
