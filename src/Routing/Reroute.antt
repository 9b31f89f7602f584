-- ===== src/Routing/Reroute.antt =====
-- audio_hw.c: the usecases that share a backend with a usecase that is routed.
use android_device_zte_fujis.Common.{
  ℕ, Bool, false, ◌&&◌, ◌||◌, not, none, some, List, [], ◌∷◌, ◌==◌, if◌then◌else◌, truthy, ltb, map,
}
use android_device_zte_fujis.Routing.Types.{
  Env, Adev, after, bt_a2dp, speaker_and_bt_a2dp, speaker_safe_and_bt_a2dp,
  a2dp_is_force_device_switch, backend_cfg, capture_backend_cfg, send_app_type_gain,
}
use android_device_zte_fujis.Routing.Devices.{split, enable_snd_device, disable_snd_device}
use android_device_zte_fujis.Routing.Usecases.{
  Usecase, Hal, Platform, enable_audio_route, disable_audio_route, stream_devices, devices_of,
  share_bit, popcount, is_capture, is_playback, is_voice, spkr_calib_tx, playback_voip,
}

abbrev pub on_dev : (Adev → Adev) → Hal → Hal
on_dev f h = record h { dev = f h.dev }

-- A loop over the list of usecases that takes some of them.
abbrev pub each : (Usecase → Bool) → (Usecase → Hal → Hal) → List Usecase → Hal → Hal
each test f [] h = h
each test f (u ∷ us) h = each test f us (if test u then f u h else h)

abbrev pub is_any : (Usecase → Bool) → List Usecase → Bool
is_any test [] = false
is_any test (u ∷ us) = test u || is_any test us

-- A store into the usecase at an address.
abbrev pub update_usecase : ℕ → (Usecase → Usecase) → Hal → Hal
update_usecase a f h = record h { usecases = map (λ u. if u.self == a then f u else u) h.usecases }

-- `switch_device` after its loop, at the id of a usecase.
abbrev pub is_switched : (Usecase → Bool) → List Usecase → Usecase → Bool
is_switched test us u = is_any (λ v. test v && v.id == u.id) us

abbrev pub disable_device : Env → ℕ → Hal → Hal
disable_device env d = on_dev (λ s. (disable_snd_device env d s).1)

abbrev pub enable_device : Env → ℕ → Hal → Hal
enable_device env d = on_dev (λ s. (enable_snd_device env d s).1)

-- The devices of the two streams are not disjoint, and not the same.
unfoldable pub overlap : ℕ → ℕ → Bool
unfolding share_bit
overlap a1 a2 = not (a1 == a2) && share_bit 32 a1 a2

-- The device that is split, where the two streams overlap.
unfoldable pub combined : (a1 d1 d2 : ℕ) → ℕ
unfolding popcount
combined a1 d1 d2 = if ltb 1 (popcount 32 a1) then d1 else d2

-- `derive_playback_snd_device`, with the devices of the streams and the sound devices.
unfoldable pub derive_from : Env → (a1 a2 d1 d2 : ℕ) → ℕ
unfolding overlap combined split
derive_from env a1 a2 d1 d2 =
    if overlap a1 a2
    then elim (split env (combined a1 d1 d2)) [
      | none ↦ d2
      | some ab ↦ if env.backends_match ab.0 ab.1 then d2 else d1
    ]
    else if env.backends_match d1 d2
    then d2
    else d1

unfoldable pub derive_playback_snd_device : Env → Hal → Usecase → Usecase → ℕ → ℕ
unfolding derive_from devices_of
derive_playback_snd_device env h u new d =
    derive_from env (stream_devices h u) (stream_devices h new) u.out_snd_device d

-- The devices of a usecase go over the codec's backend or USB.
abbrev pub has_shared_backend : Platform → Usecase → Bool
has_shared_backend p u =
    share_bit 32 u.devices p.codec_backend || share_bit 32 u.devices p.usb_devices

module _ (p : Platform) (uc : Usecase) (d : ℕ) where
  -- The test of the first loop of `check_and_route_playback_usecases`.
  unfoldable pub is_playback_clash : (force : Bool) → Usecase → Bool
  is_playback_clash force u =
      not (is_capture u.kind || u.self == uc.self)
      && (force
          || (not (u.out_snd_device == d)
              && has_shared_backend p u
              && p.env.backends_match d u.out_snd_device))

  abbrev is_a2dp_output : Bool
  is_a2dp_output = bt_a2dp == d || speaker_and_bt_a2dp == d || speaker_safe_and_bt_a2dp == d

  -- `force_routing`
  unfoldable pub force_routing : Adev → Bool
  force_routing s =
      truthy (p.env.result s.calls (backend_cfg uc.id d))
      || (is_a2dp_output
          && truthy (p.env.result (backend_cfg uc.id d ∷ s.calls) a2dp_is_force_device_switch))

  abbrev pub move_output : Usecase → Hal → Hal
  move_output u h =
      let d1 = derive_playback_snd_device p.env h u uc d in
      update_usecase u.self (λ v. record v { out_snd_device = d1 }) (enable_device p.env d1 h)

  abbrev pub send_gain : Usecase → Hal → Hal
  send_gain u h = elim u.stream [
    | none ↦ h
    | some a ↦ if u.id == playback_voip then on_dev (after send_app_type_gain) h else h
  ]

  abbrev pub route_output : Usecase → Hal → Hal
  route_output u h = send_gain u (enable_audio_route p u h)

  -- The loops for the usecases that are switched.
  unfoldable pub switch_outputs : (Usecase → Bool) → Hal → Hal
  unfolding disable_snd_device enable_snd_device derive_playback_snd_device enable_audio_route
  switch_outputs switched h =
      let h1 = each switched (λ u. disable_device p.env u.out_snd_device) h.usecases h in
      let h2 = each switched move_output h1.usecases h1 in each switched route_output h2.usecases h2

  unfoldable pub check_and_route_playback_usecases : Hal → Hal
  unfolding switch_outputs force_routing is_playback_clash disable_audio_route
  check_and_route_playback_usecases h =
      let clash = is_playback_clash (force_routing h.dev) in
      let h1 = on_dev (after (backend_cfg uc.id d)) h in
      let h2 = each clash disable_audio_route h1.usecases h1 in
      if is_any clash h.usecases then switch_outputs (is_switched clash h.usecases) h2 else h2

  -- The test of the first loop of `check_and_route_capture_usecases`.
  unfoldable pub is_capture_clash : Usecase → Bool
  is_capture_clash u =
      not (is_playback u.kind)
      && not (u.self == uc.self)
      && not (u.in_snd_device == d)
      && ((is_voice uc.kind && u.devices == p.in_voice_call)
          || p.env.backends_match d u.in_snd_device)
      && not (u.id == spkr_calib_tx)

  abbrev pub input_on : Usecase → Usecase
  input_on u = record u { in_snd_device = d }

  abbrev pub route_input : Usecase → Hal → Hal
  route_input u h = enable_audio_route p (input_on u) (update_usecase u.self input_on h)

  unfoldable pub switch_inputs : (Usecase → Bool) → Hal → Hal
  unfolding disable_snd_device enable_snd_device enable_audio_route
  switch_inputs switched h =
      let h1 = each switched (λ u. disable_device p.env u.in_snd_device) h.usecases h in
      let h2 = each switched (λ u. enable_device p.env d) h1.usecases h1 in
      each switched route_input h2.usecases h2

  unfoldable pub check_and_route_capture_usecases : Hal → Hal
  unfolding switch_inputs is_capture_clash disable_audio_route
  check_and_route_capture_usecases h =
      let h1 = on_dev (after (capture_backend_cfg uc.id d)) h in
      let h2 = each is_capture_clash disable_audio_route h1.usecases h1 in
      if is_any is_capture_clash h.usecases
      then switch_inputs (is_switched is_capture_clash h.usecases) h2
      else h2
