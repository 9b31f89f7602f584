-- ===== src/Routing/Select.antt =====
-- audio_hw.c: `select_devices_with_force_switch`.
use android_device_zte_fujis.Common.{
  ℕ, Bool, false, ◌&&◌, ◌||◌, not, Option, none, some, List, [], ◌∷◌, ◌==◌, if◌then◌else◌, truthy,
  ltb,
}
use android_device_zte_fujis.Routing.Types.{
  no_device, speaker, speaker_safe, speaker_and_bt_a2dp, speaker_safe_and_bt_a2dp, voice_music_tx,
  a2dp_is_force_device_switch, a2dp_is_ready,
}
use android_device_zte_fujis.Routing.Usecases.{
  Usecase, UsecaseKind, StreamIn, Hal, Platform, stream_devices, devices_of, share_bit, is_capture,
  is_voice, pcm_playback, pcm_capture, voice_call, pcm_hfp_call, playback_voip, record_afe_proxy,
  music_uplink, music_uplink_2, get_usecase, set_input, active_primary,
}
use android_device_zte_fujis.Routing.Reroute.{update_usecase}

-- `get_voice_usecase_id_from_list`
unfoldable pub voice_usecase_id : List Usecase → Option ℕ
voice_usecase_id [] = none
voice_usecase_id (u ∷ us) = if is_voice u.kind then some u.id else voice_usecase_id us

-- The usecase at an address, which stays in the list.
abbrev pub usecase_at : Usecase → List Usecase → Usecase
usecase_at u [] = u
usecase_at u (v ∷ us) = if v.self == u.self then v else usecase_at u us

-- `adev_get_active_input`: the last one of the list.
unfoldable pub active_input : List Usecase → Option ℕ → Option ℕ
active_input [] last = last
active_input (u ∷ us) last =
    active_input us
      (if is_capture u.kind then elim u.stream [ none ↦ last | some a ↦ some a ] else last)

-- The loop of `get_voice_communication_input`.
abbrev pub communication_input : Platform → (ℕ → StreamIn) → List Usecase → Option ℕ
communication_input p inputs [] = none
communication_input p inputs (u ∷ us) =
    let rest = communication_input p inputs us in
    if is_capture u.kind
    then elim u.stream [
      | none ↦ rest
      | some a ↦ if (inputs a).source == p.voice_communication then some a else rest
    ]
    else rest

unfoldable pub get_voice_communication_input : Platform → Hal → Option ℕ
unfolding active_input
get_voice_communication_input p h = elim (communication_input p h.inputs h.usecases) [
  | some a ↦ some a
  | none ↦ if h.in_communication then active_input h.usecases none else none
]

-- The loop of `get_priority_input`, with the best input so far and its priority.
unfoldable pub priority_input : Platform → (ℕ → StreamIn) → List Usecase → ℕ → Option ℕ → Option ℕ
priority_input p inputs [] last best = best
priority_input p inputs (u ∷ us) last best =
    if is_capture u.kind
    then elim u.stream [
      | none ↦ priority_input p inputs us last best
      | some a ↦
          if ltb last (p.source_priority (inputs a).source)
          then priority_input p inputs us (p.source_priority (inputs a).source) (some a)
          else priority_input p inputs us last best
    ]
    else priority_input p inputs us last best

-- The devices of a call that another usecase takes over, output first.
abbrev lent : Bool → Option Usecase → ℕ × ℕ
lent fits none = (no_device, no_device)
lent fits (some v) = if fits then (v.out_snd_device, v.in_snd_device) else (no_device, no_device)

abbrev voice_fits : Platform → Usecase → Option Usecase → Bool
voice_fits p u none = false
voice_fits p u (some v) =
    share_bit 32 v.devices p.codec_backend
    || v.devices == p.out_hearing_aid
    || u.devices == p.in_voice_call

abbrev hfp_fits : Platform → Option Usecase → Bool
hfp_fits p none = false
hfp_fits p (some v) = share_bit 32 v.devices p.codec_backend

abbrev voice_usecase : List Usecase → Option Usecase
voice_usecase us = elim (voice_usecase_id us) [ none ↦ none | some id ↦ get_usecase id us ]

unfoldable pub borrowed : Platform → Usecase → Hal → ℕ × ℕ
unfolding get_usecase voice_usecase_id share_bit
borrowed p u h =
    if h.in_call
    then lent (voice_fits p u (voice_usecase h.usecases)) (voice_usecase h.usecases)
    else lent (hfp_fits p (get_usecase h.hfp_ucid h.usecases)) (get_usecase h.hfp_ucid h.usecases)

abbrev pub same_stream : Option ℕ → Option ℕ → Bool
same_stream (some a) (some b) = a == b
same_stream _ _ = false

abbrev pub voip_out : Hal → Option ℕ
voip_out h = elim (get_usecase playback_voip h.usecases) [
  | some v ↦ v.stream
  | none ↦ h.primary_output
]

abbrev pub set_devices : ℕ → Usecase → Usecase
set_devices n v = record v { devices = n }

-- The state after the choice, the output device and the input device.
abbrev pub Choice : Type 0
Choice = Hal × ℕ × ℕ

unfoldable pub choose_call : Platform → Usecase → Hal → Choice
unfolding devices_of
choose_call p u h =
    let devices = stream_devices h u in
    let (input, inputs) = p.input_device h.dev.calls h.inputs none devices in
    (
      update_usecase u.self (set_devices devices) (record h { inputs = inputs }),
      p.output_device h.dev.calls devices,
      input,
    )

-- The select of the input for voice communication, which goes with its output.
unfoldable pub select_input : Platform → (ℕ → Hal → Hal) → Usecase → Hal → Hal
unfolding get_usecase get_voice_communication_input
select_input p inner u h = elim (get_voice_communication_input p h) [
  | none ↦ h
  | some a ↦ if same_stream u.stream (voip_out h) then inner (h.inputs a).usecase h else h
]

unfoldable pub choose_playback : Platform → (ℕ → Hal → Hal) → Usecase → Hal → Choice
unfolding borrowed select_input devices_of
choose_playback p inner u h =
    let devices = stream_devices h u in
    let h1 = update_usecase u.self (set_devices devices) h in
    let out = (borrowed p u h).0 in
    if out == no_device
    then (select_input p inner u h1, p.output_device h.dev.calls devices, no_device)
    else (h1, out, no_device)

-- The output that the input for voice communication goes with.
unfoldable pub voip_devices : Platform → Usecase → Hal → ℕ
unfolding get_usecase devices_of
voip_devices p u h =
    if u.id == record_afe_proxy
    then p.out_telephony_tx
    else elim (get_usecase playback_voip h.usecases) [
      | some v ↦ stream_devices h v
      | none ↦ elim (active_primary h) [ some a ↦ (h.outputs a).devices | none ↦ p.out_speaker ]
    ]

abbrev clear_ec_port : ℕ → (ℕ → StreamIn) → ℕ → StreamIn
clear_ec_port a inputs = set_input a (record (inputs a) { enable_ec_port = false }) inputs

-- The input with the highest priority, or the usecase's own.
abbrev priority_or_own : Platform → ℕ → Hal → Option ℕ
priority_or_own p a h = elim (priority_input p h.inputs h.usecases 0 none) [
  | some b ↦ some b
  | none ↦ some a
]

unfoldable pub input_for : Platform → Usecase → ℕ → Hal → ℕ × (ℕ → StreamIn)
unfolding get_voice_communication_input voip_devices priority_input
input_for p u a h = elim (get_voice_communication_input p h) [
  | some b ↦ p.input_device h.dev.calls (clear_ec_port a h.inputs) (some b) (voip_devices p u h)
  | none ↦ p.input_device h.dev.calls h.inputs (priority_or_own p a h) p.device_none
]

unfoldable pub choose_capture : Platform → Usecase → ℕ → Hal → Choice
unfolding borrowed input_for
choose_capture p u a h =
    let h1 = update_usecase u.self (set_devices (h.inputs a).device) h in
    let input = (borrowed p u h).1 in
    if input == no_device
    then (let (found, inputs) = input_for p u a h1 in
        (record h1 { inputs = inputs }, no_device, found))
    else (h1, no_device, input)

-- A capture without a stream, for which the code follows a null pointer, is left as it is.
unfoldable pub choose_of : Platform → (ℕ → Hal → Hal) → UsecaseKind → Usecase → Hal → Choice
unfolding choose_call choose_playback choose_capture
choose_of p inner voice_call u h = choose_call p u h
choose_of p inner pcm_hfp_call u h = choose_call p u h
choose_of p inner pcm_playback u h = choose_playback p inner u h
choose_of p inner pcm_capture u h = elim u.stream [
  | none ↦ (h, no_device, no_device)
  | some a ↦ choose_capture p u a h
]

abbrev pub choose : Platform → (ℕ → Hal → Hal) → Usecase → Hal → Choice
choose p inner u h = choose_of p inner u.kind u h

-- `force_device_switch`
unfoldable pub force_device_switch : Platform → Usecase → Hal → Bool
unfolding share_bit
force_device_switch p u h = not (is_capture u.kind) && elim u.stream [
  | none ↦ false
  | some a ↦
      share_bit 32 (h.outputs a).devices p.all_a2dp
      && truthy (p.env.result h.dev.calls a2dp_is_force_device_switch)
]

abbrev pub is_ready : Platform → Hal → Bool
is_ready p h = truthy (p.env.result h.dev.calls a2dp_is_ready)

-- The output where A2DP is not ready, and for music that is sent into a call.
unfoldable pub final_output : Platform → Usecase → ℕ → Hal → ℕ
final_output p u out h =
    if u.id == music_uplink || u.id == music_uplink_2
    then voice_music_tx
    else if is_ready p h
    then out
    else if out == speaker_safe_and_bt_a2dp
    then speaker_safe
    else if out == speaker_and_bt_a2dp
    then speaker
    else out
