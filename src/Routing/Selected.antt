-- ===== src/Routing/Selected.antt =====
-- audio_hw.c: what the uses of devices keep, a select of devices keeps.
use android_device_zte_fujis.Common.{
  ℕ, zero, suc, refl, Bool, true, false, ◌&&◌, ◌||◌, not, if_at, option_at, ℤ, pos, einval, ◌==◌,
  if◌then◌else◌,
}
use android_device_zte_fujis.Routing.Types.{
  no_device, Adev, after, switch_pre, switch_config, switch_post, route_post, sidetone,
  tfa_set_mode, send_app_type_gain,
}
use android_device_zte_fujis.Routing.Devices.{is_a2dp}
use android_device_zte_fujis.Routing.Usecases.{
  Usecase, UsecaseKind, Hal, Platform, disable_audio_route, is_capture, is_voice, pcm_playback,
  pcm_capture, voice_call, pcm_hfp_call, get_usecase, playback_voip, stream_devices,
}
use android_device_zte_fujis.Routing.Reroute.{
  on_dev, update_usecase, enable_device, disable_device, check_and_route_playback_usecases,
  check_and_route_capture_usecases,
}
use android_device_zte_fujis.Routing.Select.{
  Choice, choose, choose_of, choose_call, choose_playback, choose_capture, select_input,
  get_voice_communication_input, same_stream, voip_out, set_devices, borrowed, input_for,
  usecase_at, force_device_switch, final_output, is_ready,
}
use android_device_zte_fujis.Routing.Switch.{
  is_voice_switch, set_sidetone, reroutes_outputs, set_route, before_switch, leave_device,
  configure_switch, enter_output, enter_input, enter_route, after_switch, switch_route,
  switch_devices, switch_chosen, select_found, select_with, select_at,
  select_devices_with_force_switch,
}
use android_device_zte_fujis.Routing.Kept.{
  Kept, enable_route_kept, disable_route_kept, playback_kept, capture_kept,
}

module _ (p : Platform) (P : Adev → Type 0) (kept : Kept p.env P) where
  abbrev Good : Hal → Type 0
  Good h = P h.dev

  abbrev GoodChoice : Choice → Type 0
  GoodChoice c = Good c.0

  abbrev GoodResult : ℤ × Hal → Type 0
  GoodResult r = Good r.1

  select_input_kept :
      (inner : ℕ → Hal → Hal) (u : Usecase) (h : Hal)
      → ((id : ℕ) (k : Hal) → Good k → Good (inner id k))
      → Good h
      → Good (select_input p inner u h)
  unfolding select_input
  select_input_kept inner u h keeps q =
      option_at Good (get_voice_communication_input p h) h
        (λ a. if same_stream u.stream (voip_out h) then inner (h.inputs a).usecase h else h) q
        (λ a.
          if_at Good (same_stream u.stream (voip_out h)) (inner (h.inputs a).usecase h) h
            (λ on. keeps (h.inputs a).usecase h q) (λ off. q))

  choose_kept :
      (inner : ℕ → Hal → Hal) (kind : UsecaseKind) (u : Usecase) (h : Hal)
      → ((id : ℕ) (k : Hal) → Good k → Good (inner id k))
      → Good h
      → GoodChoice (choose_of p inner kind u h)
  unfolding choose_of choose_call choose_playback choose_capture
  choose_kept inner voice_call u h keeps q = q
  choose_kept inner pcm_hfp_call u h keeps q = q
  choose_kept inner pcm_playback u h keeps q =
      let devices = stream_devices h u in
      let h1 = update_usecase u.self (set_devices devices) h in
      let out = (borrowed p u h).0 in
      if_at GoodChoice (out == no_device)
        (select_input p inner u h1, p.output_device h.dev.calls devices, no_device)
        (h1, out, no_device) (λ free. select_input_kept inner u h1 keeps q) (λ lent. q)
  choose_kept inner pcm_capture u h keeps q =
      option_at GoodChoice u.stream (h, no_device, no_device) (λ a. choose_capture p u a h) q
        (λ a.
          let h1 = update_usecase u.self (set_devices (h.inputs a).device) h in
          let input = (borrowed p u h).1 in
          if_at GoodChoice (input == no_device)
            (record h1 { inputs = (input_for p u a h1).1 }, no_device, (input_for p u a h1).0)
            (h1, no_device, input) (λ free. q) (λ lent. q))

  sidetone_kept : (on : Bool) (d : ℕ) (h : Hal) → Good h → Good (set_sidetone on d h)
  sidetone_kept on d h q =
      if_at Good h.call_state_active (on_dev (after (sidetone d on)) h) h
        (λ active. kept.on_other _ h.dev refl q) (λ none_is. q)

  before_kept : (u : Usecase) (h : Hal) → Good h → Good (before_switch u h)
  unfolding before_switch
  before_kept u h q =
      if_at Good (is_voice_switch u)
        (set_sidetone false u.out_snd_device (on_dev (after switch_pre) h)) h
        (λ voice.
          sidetone_kept false u.out_snd_device (on_dev (after switch_pre) h)
            (kept.on_other _ h.dev refl q))
        (λ other. q)

  leave_kept : (u : Usecase) (d : ℕ) (h : Hal) → Good h → Good (leave_device p.env u d h)
  unfolding leave_device
  leave_kept u d h q =
      if_at Good (d == no_device) h (disable_device p.env d (disable_audio_route u h)) (λ off. q)
        (λ on. kept.on_disable d (disable_audio_route u h).dev (disable_route_kept p P kept u h q))

  configure_kept :
      (u : Usecase) (out input : ℕ) (h : Hal) → Good h → Good (configure_switch u out input h)
  unfolding configure_switch
  configure_kept u out input h q =
      if_at Good (is_voice_switch u) (on_dev (after (switch_config out input)) h) h
        (λ voice. kept.on_other _ h.dev refl q) (λ other. q)

  enter_output_kept : (u : Usecase) (out : ℕ) (h : Hal) → Good h → Good (enter_output p u out h)
  unfolding enter_output
  enter_output_kept u out h q =
      let h1 = if reroutes_outputs p u then check_and_route_playback_usecases p u out h else h in
      let q1 : Good h1 =
        if_at Good (reroutes_outputs p u) (check_and_route_playback_usecases p u out h) h
          (λ on. playback_kept p P kept u out h q) (λ off. q) in
      if_at Good (out == no_device) h (enable_device p.env out h1) (λ off. q)
        (λ on. kept.on_enable out h1.dev q1)

  enter_input_kept : (u : Usecase) (input : ℕ) (h : Hal) → Good h → Good (enter_input p u input h)
  unfolding enter_input
  enter_input_kept u input h q =
      if_at Good (input == no_device) h
        (enable_device p.env input (check_and_route_capture_usecases p u input h)) (λ off. q)
        (λ on.
          kept.on_enable input (check_and_route_capture_usecases p u input h).dev
            (capture_kept p P kept u input h q))

  enter_route_kept :
      (u : Usecase) (out input : ℕ) (h : Hal) → Good h → Good (enter_route p u out input h)
  unfolding enter_route
  enter_route_kept u out input h q =
      let h1 = if is_voice u.kind then on_dev (after (switch_post out input)) h else h in
      let h2 = on_dev (after tfa_set_mode) (update_usecase u.self (set_route out input) h1) in
      let q1 : Good h1 =
        if_at Good (is_voice u.kind) (on_dev (after (switch_post out input)) h) h
          (λ voice. kept.on_other _ h.dev refl q) (λ other. q) in
      enable_route_kept p P kept (set_route out input u) h2 (kept.on_other _ h1.dev refl q1)

  after_kept : (u : Usecase) (out input : ℕ) (h : Hal) → Good h → Good (after_switch u out input h)
  unfolding after_switch
  after_kept u out input h q =
      let h1 =
        if is_voice u.kind
        then set_sidetone true out (on_dev (after (route_post out input)) h)
        else h in
      let q1 : Good h1 =
        if_at Good (is_voice u.kind)
          (set_sidetone true out (on_dev (after (route_post out input)) h)) h
          (λ voice.
            sidetone_kept true out (on_dev (after (route_post out input)) h)
              (kept.on_other _ h.dev refl q))
          (λ other. q) in
      option_at Good (get_usecase playback_voip h.usecases) h1
        (λ v. if is_capture u.kind then h1 else on_dev (after send_app_type_gain) h1) q1
        (λ v.
          if_at Good (is_capture u.kind) h1 (on_dev (after send_app_type_gain) h1) (λ input_is. q1)
            (λ output_is. kept.on_other _ h1.dev refl q1))

  switch_devices_kept :
      (u : Usecase) (out input : ℕ) (h : Hal) → Good h → GoodResult (switch_devices p u out input h)
  unfolding switch_devices switch_route
  switch_devices_kept u out input h q =
      let h1 = leave_device p.env u u.out_snd_device (before_switch u h) in
      let h2 = configure_switch u out input (leave_device p.env u u.in_snd_device h1) in
      let h3 = enter_input p u input (enter_output p u out h2) in
      let q1 = leave_kept u u.out_snd_device (before_switch u h) (before_kept u h q) in
      let q2 = configure_kept u out input _ (leave_kept u u.in_snd_device h1 q1) in
      let q3 = enter_input_kept u input (enter_output p u out h2) (enter_output_kept u out h2 q2) in
      after_kept u out input (enter_route p u out input h3) (enter_route_kept u out input h3 q3)

  switch_chosen_kept :
      (force : Bool) (u : Usecase) (out input : ℕ) (h : Hal)
      → Good h
      → GoodResult (switch_chosen p force u out input h)
  unfolding switch_chosen
  switch_chosen_kept force u out input h q =
      if_at GoodResult
        (out == u.out_snd_device
          && input == u.in_snd_device
          && not (force_device_switch p u h || force))
        _ _ (λ same. q)
        (λ other.
          if_at GoodResult (is_a2dp out && not (is_ready p h)) (pos 0, h)
            (switch_devices p u (final_output p u out h) input h) (λ unready. q)
            (λ ready. switch_devices_kept u (final_output p u out h) input h q))

  select_found_kept :
      (force : Bool) (u : Usecase) (c : Choice)
      → GoodChoice c
      → GoodResult (select_found p force u c)
  unfolding select_found
  select_found_kept force u (h1, out, input) q =
      switch_chosen_kept force (usecase_at u h1.usecases) out input h1 q

  select_with_kept :
      (inner : ℕ → Hal → Hal) (force : Bool) (id : ℕ) (h : Hal)
      → ((i : ℕ) (k : Hal) → Good k → Good (inner i k))
      → Good h
      → GoodResult (select_with p inner force id h)
  unfolding select_with
  select_with_kept inner force id h keeps q =
      option_at GoodResult (get_usecase id h.usecases) (einval, h)
        (λ u. select_found p force u (choose p inner u h)) q
        (λ u. select_found_kept force u (choose p inner u h) (choose_kept inner u.kind u h keeps q))

  select_at_kept :
      (depth : ℕ) (force : Bool) (id : ℕ) (h : Hal)
      → Good h
      → GoodResult (select_at depth p force id h)
  unfolding select_at
  select_at_kept zero force id h q = q
  select_at_kept (suc depth) force id h q =
      select_with_kept (λ i k. (select_at depth p false i k).1) force id h
        (λ i k. select_at_kept depth false i k) q

  pub select_devices_kept :
      (force : Bool) (id : ℕ) (h : Hal)
      → Good h
      → GoodResult (select_devices_with_force_switch p force id h)
  unfolding select_devices_with_force_switch
  select_devices_kept = select_at_kept 2
