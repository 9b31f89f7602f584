-- ===== src/Routing/Switch.antt =====
-- audio_hw.c: the switch to the devices that `select_devices_with_force_switch` chose.
use android_device_zte_fujis.Common.{
  ℕ, zero, suc, Bool, true, false, ◌&&◌, ◌||◌, not, none, some, ℤ, pos, einval, ◌==◌, if◌then◌else◌,
}
use android_device_zte_fujis.Routing.Types.{
  no_device, Env, after, switch_pre, switch_config, switch_post, route_post, sidetone, tfa_set_mode,
  send_app_type_gain,
}
use android_device_zte_fujis.Routing.Devices.{is_a2dp, enable_snd_device, disable_snd_device}
use android_device_zte_fujis.Routing.Usecases.{
  Usecase, Hal, Platform, enable_audio_route, disable_audio_route, share_bit, is_capture, is_voice,
  playback_voip, get_usecase,
}
use android_device_zte_fujis.Routing.Reroute.{
  on_dev, update_usecase, enable_device, disable_device, check_and_route_playback_usecases,
  check_and_route_capture_usecases, has_shared_backend,
}
use android_device_zte_fujis.Routing.Select.{
  Choice, choose, choose_of, usecase_at, force_device_switch, final_output, is_ready,
}

-- A voice call that has both its devices.
abbrev pub is_voice_switch : Usecase → Bool
is_voice_switch u =
    is_voice u.kind && not (u.in_snd_device == no_device) && not (u.out_snd_device == no_device)

abbrev pub set_sidetone : Bool → ℕ → Hal → Hal
set_sidetone on d h = if h.call_state_active then on_dev (after (sidetone d on)) h else h

unfoldable pub before_switch : Usecase → Hal → Hal
before_switch u h =
    if is_voice_switch u
    then set_sidetone false u.out_snd_device (on_dev (after switch_pre) h)
    else h

-- A current device of the usecase ends.
unfoldable pub leave_device : Env → Usecase → ℕ → Hal → Hal
unfolding disable_audio_route disable_snd_device
leave_device env u d h =
    if d == no_device then h else disable_device env d (disable_audio_route u h)

unfoldable pub configure_switch : Usecase → ℕ → ℕ → Hal → Hal
configure_switch u out input h =
    if is_voice_switch u then on_dev (after (switch_config out input)) h else h

abbrev pub reroutes_outputs : Platform → Usecase → Bool
reroutes_outputs p u = has_shared_backend p u || share_bit 32 u.devices p.all_a2dp

unfoldable pub enter_output : Platform → Usecase → ℕ → Hal → Hal
unfolding check_and_route_playback_usecases enable_snd_device
enter_output p u out h =
    if out == no_device
    then h
    else enable_device p.env out
        (if reroutes_outputs p u then check_and_route_playback_usecases p u out h else h)

unfoldable pub enter_input : Platform → Usecase → ℕ → Hal → Hal
unfolding check_and_route_capture_usecases enable_snd_device
enter_input p u input h =
    if input == no_device
    then h
    else enable_device p.env input (check_and_route_capture_usecases p u input h)

abbrev pub set_route : ℕ → ℕ → Usecase → Usecase
set_route out input v = record v { in_snd_device = input; out_snd_device = out }

-- The usecase has its new devices, and its route is enabled.
unfoldable pub enter_route : Platform → Usecase → ℕ → ℕ → Hal → Hal
unfolding enable_audio_route
enter_route p u out input h =
    let h1 = if is_voice u.kind then on_dev (after (switch_post out input)) h else h in
    let h2 = on_dev (after tfa_set_mode) (update_usecase u.self (set_route out input) h1) in
    enable_audio_route p (set_route out input u) h2

unfoldable pub after_switch : Usecase → ℕ → ℕ → Hal → Hal
unfolding get_usecase
after_switch u out input h =
    let h1 =
      if is_voice u.kind
      then set_sidetone true out (on_dev (after (route_post out input)) h)
      else h in
    elim (get_usecase playback_voip h.usecases) [
      | none ↦ h1
      | some v ↦ if is_capture u.kind then h1 else on_dev (after send_app_type_gain) h1
    ]

-- All of the switch up to the new route.
unfoldable pub switch_route : Platform → Usecase → ℕ → ℕ → Hal → Hal
unfolding before_switch leave_device configure_switch enter_output enter_input enter_route
switch_route p u out input h =
    let h1 = leave_device p.env u u.out_snd_device (before_switch u h) in
    let h2 = configure_switch u out input (leave_device p.env u u.in_snd_device h1) in
    enter_route p u out input (enter_input p u input (enter_output p u out h2))

-- The status is that of the last step for a voice call; those of the earlier ones are replaced.
unfoldable pub switch_devices : Platform → Usecase → ℕ → ℕ → Hal → ℤ × Hal
unfolding switch_route after_switch
switch_devices p u out input h =
    let h1 = switch_route p u out input h in
    (
      if is_voice u.kind then p.env.result h1.dev.calls (route_post out input) else pos 0,
      after_switch u out input h1,
    )

unfoldable pub switch_chosen : Platform → Bool → Usecase → ℕ → ℕ → Hal → ℤ × Hal
unfolding force_device_switch final_output switch_devices
switch_chosen p force u out input h =
    if out == u.out_snd_device
      && input == u.in_snd_device
      && not (force_device_switch p u h || force)
    then (pos 0, h)
    else if is_a2dp out && not (is_ready p h)
    then (pos 0, h)
    else switch_devices p u (final_output p u out h) input h

-- The rest of the select, where the usecase was found and its devices are chosen.
unfoldable pub select_found : Platform → Bool → Usecase → Choice → ℤ × Hal
unfolding switch_chosen
select_found p force u (h1, out, input) =
    switch_chosen p force (usecase_at u h1.usecases) out input h1

-- `select_devices_with_force_switch`, with the call for the input of voice communication.
unfoldable pub select_with : Platform → (ℕ → Hal → Hal) → Bool → ℕ → Hal → ℤ × Hal
unfolding get_usecase choose_of select_found
select_with p inner force id h = elim (get_usecase id h.usecases) [
  | none ↦ (einval, h)
  | some u ↦ select_found p force u (choose p inner u h)
]

-- The depth of the calls one in another; a select of an input makes none.
unfoldable pub select_at : ℕ → Platform → Bool → ℕ → Hal → ℤ × Hal
unfolding select_with
select_at zero p force id h = (einval, h)
select_at (suc depth) p force id h =
    select_with p (λ i k. (select_at depth p false i k).1) force id h

unfoldable pub select_devices_with_force_switch : Platform → Bool → ℕ → Hal → ℤ × Hal
unfolding select_at
select_devices_with_force_switch = select_at 2

unfoldable pub select_devices : Platform → ℕ → Hal → ℤ × Hal
unfolding select_devices_with_force_switch
select_devices p = select_devices_with_force_switch p false
