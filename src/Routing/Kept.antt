-- ===== src/Routing/Kept.antt =====
-- audio_hw.c: what the uses of devices keep and the other calls leave alone, routing keeps.
use android_device_zte_fujis.Common.{
  ℕ, ◌≡◌, refl, Bool, true, false, none, some, if_at, option_at, List, [], ◌∷◌, ◌==◌, if◌then◌else◌,
}
use android_device_zte_fujis.Routing.Types.{
  Call, Env, Adev, after, switch_pre, switch_config, switch_post, route_post, sidetone,
  tfa_set_mode, send_app_type_gain, stream_busy, stream_free, send_app_type_cfg,
  send_usecase_calibration, ma_set_device, apply_route, reset_route, echo_reference, backend_cfg,
  capture_backend_cfg,
}
use android_device_zte_fujis.Routing.Devices.{enable_snd_device, disable_snd_device}
use android_device_zte_fujis.Routing.Usecases.{
  Usecase, Hal, Platform, enable_audio_route, disable_audio_route, playback_voip, input_of,
  wants_echo, open_echo_call, close_echo_call, route_device, echo_devices,
}
use android_device_zte_fujis.Routing.Reroute.{
  on_dev, move_output, route_output, route_input, send_gain, each, is_any, is_switched,
  update_usecase, enable_device, disable_device, check_and_route_playback_usecases,
  check_and_route_capture_usecases, switch_outputs, switch_inputs, is_playback_clash,
  is_capture_clash, force_routing, derive_playback_snd_device,
}

-- The calls of the routing that are not about a device's start or end.
abbrev pub is_other : Call → Bool
is_other switch_pre = true
is_other (switch_config a b) = true
is_other (switch_post a b) = true
is_other (route_post a b) = true
is_other (sidetone d on) = true
is_other tfa_set_mode = true
is_other send_app_type_gain = true
is_other (stream_busy i) = true
is_other (stream_free i) = true
is_other (send_app_type_cfg i) = true
is_other (send_usecase_calibration i) = true
is_other (ma_set_device i) = true
is_other (apply_route i d) = true
is_other (reset_route i d) = true
is_other (echo_reference o) = true
is_other (backend_cfg i d) = true
is_other (capture_backend_cfg i d) = true
is_other _ = false

-- A predicate that the uses of devices keep, and that does not depend on the other calls.
pub record Kept (env : Env) (P : Adev → Type 0) : Type 0 where
  pub on_enable : (d : ℕ) (s : Adev) → P s → P (enable_snd_device env d s).1
  pub on_disable : (d : ℕ) (s : Adev) → P s → P (disable_snd_device env d s).1
  pub on_other : (c : Call) (s : Adev) → is_other c ≡ true → P s → P (after c s)

module _ (P : Adev → Type 0) where
  -- A loop whose step keeps a predicate of the device.
  each_keeps :
      (test : Usecase → Bool) (f : Usecase → Hal → Hal) (us : List Usecase) (h : Hal)
      → ((u : Usecase) (k : Hal) → P k.dev → P (f u k).dev)
      → P h.dev
      → P (each test f us h).dev
  each_keeps test f [] h step q = q
  each_keeps test f (u ∷ us) h step q =
      each_keeps test f us (if test u then f u h else h) step
        (if_at (λ (k : Hal). P k.dev) (test u) (f u h) h (λ on. step u h q) (λ off. q))

module _ (p : Platform) (P : Adev → Type 0) (kept : Kept p.env P) where
  abbrev Good : Hal → Type 0
  Good h = P h.dev

  open_call_kept : (h : Hal) (u : Usecase) (s : Adev) → P s → P (open_echo_call p h u s)
  open_call_kept h u s q =
      option_at P (input_of u) s
        (λ a.
          if wants_echo (h.inputs a) then after (echo_reference (some (echo_devices p h))) s else s)
        q
        (λ a.
          if_at P (wants_echo (h.inputs a)) (after (echo_reference (some (echo_devices p h))) s) s
            (λ on. kept.on_other _ s refl q) (λ off. q))

  close_call_kept : (h : Hal) (u : Usecase) (s : Adev) → P s → P (close_echo_call h u s)
  close_call_kept h u s q =
      option_at P (input_of u) s
        (λ a. if (h.inputs a).ec_opened then after (echo_reference none) s else s) q
        (λ a.
          if_at P (h.inputs a).ec_opened (after (echo_reference none) s) s
            (λ on. kept.on_other _ s refl q) (λ off. q))

  pub enable_route_kept : (u : Usecase) (h : Hal) → Good h → Good (enable_audio_route p u h)
  unfolding enable_audio_route
  enable_route_kept u h q =
      let s1 = open_echo_call p h u (after (stream_busy u.id) h.dev) in
      let q1 = open_call_kept h u (after (stream_busy u.id) h.dev) (kept.on_other _ h.dev refl q) in
      let q2 = kept.on_other (send_app_type_cfg u.id) s1 refl q1 in
      let q3 = kept.on_other (ma_set_device u.id) (after (send_app_type_cfg u.id) s1) refl q2 in
      kept.on_other _ _ refl (kept.on_other (send_usecase_calibration u.id) _ refl q3)

  pub disable_route_kept : (u : Usecase) (h : Hal) → Good h → Good (disable_audio_route u h)
  unfolding disable_audio_route
  disable_route_kept u h q = kept.on_other _ _ refl (
      close_call_kept h u (after (reset_route u.id (route_device u)) h.dev)
        (kept.on_other _ h.dev refl q))

  send_gain_kept :
      (uc : Usecase) (d : ℕ) (u : Usecase) (h : Hal) → Good h → Good (send_gain p uc d u h)
  send_gain_kept uc d u h q =
      option_at Good u.stream h
        (λ a. if u.id == playback_voip then on_dev (after send_app_type_gain) h else h) q
        (λ a.
          if_at Good (u.id == playback_voip) (on_dev (after send_app_type_gain) h) h
            (λ on. kept.on_other _ h.dev refl q) (λ off. q))

  switch_outputs_kept :
      (uc : Usecase) (d : ℕ) (switched : Usecase → Bool) (h : Hal)
      → Good h
      → Good (switch_outputs p uc d switched h)
  unfolding switch_outputs
  switch_outputs_kept uc d switched h q =
      let h1 = each switched (λ u. disable_device p.env u.out_snd_device) h.usecases h in
      let h2 = each switched (move_output p uc d) h1.usecases h1 in
      let q1 : Good h1 =
        each_keeps P switched (λ u. disable_device p.env u.out_snd_device) h.usecases h
          (λ u k. kept.on_disable u.out_snd_device k.dev) q in
      let q2 : Good h2 =
        each_keeps P switched (move_output p uc d) h1.usecases h1
          (λ u k. kept.on_enable (derive_playback_snd_device p.env k u uc d) k.dev) q1 in
      each_keeps P switched (route_output p uc d) h2.usecases h2
        (λ u k r. send_gain_kept uc d u (enable_audio_route p u k) (enable_route_kept u k r)) q2

  pub playback_kept :
      (uc : Usecase) (d : ℕ) (h : Hal) → Good h → Good (check_and_route_playback_usecases p uc d h)
  unfolding check_and_route_playback_usecases
  playback_kept uc d h q =
      let clash = is_playback_clash p uc d (force_routing p uc d h.dev) in
      let h1 = on_dev (after (backend_cfg uc.id d)) h in
      let h2 = each clash disable_audio_route h1.usecases h1 in
      let q2 : Good h2 =
        each_keeps P clash disable_audio_route h1.usecases h1 disable_route_kept
          (kept.on_other _ h.dev refl q) in
      if_at Good (is_any clash h.usecases) (switch_outputs p uc d (is_switched clash h.usecases) h2)
        h2 (λ some_do. switch_outputs_kept uc d (is_switched clash h.usecases) h2 q2)
        (λ none_do. q2)

  switch_inputs_kept :
      (uc : Usecase) (d : ℕ) (switched : Usecase → Bool) (h : Hal)
      → Good h
      → Good (switch_inputs p uc d switched h)
  unfolding switch_inputs
  switch_inputs_kept uc d switched h q =
      let h1 = each switched (λ u. disable_device p.env u.in_snd_device) h.usecases h in
      let h2 = each switched (λ u. enable_device p.env d) h1.usecases h1 in
      let q1 : Good h1 =
        each_keeps P switched (λ u. disable_device p.env u.in_snd_device) h.usecases h
          (λ u k. kept.on_disable u.in_snd_device k.dev) q in
      let q2 : Good h2 =
        each_keeps P switched (λ u. enable_device p.env d) h1.usecases h1
          (λ u k. kept.on_enable d k.dev) q1 in
      each_keeps P switched (route_input p uc d) h2.usecases h2
        (λ u k r.
          enable_route_kept (record u { in_snd_device = d })
            (update_usecase u.self (λ v. record v { in_snd_device = d }) k) r)
        q2

  pub capture_kept :
      (uc : Usecase) (d : ℕ) (h : Hal) → Good h → Good (check_and_route_capture_usecases p uc d h)
  unfolding check_and_route_capture_usecases
  capture_kept uc d h q =
      let clash = is_capture_clash p uc d in
      let h1 = on_dev (after (capture_backend_cfg uc.id d)) h in
      let h2 = each clash disable_audio_route h1.usecases h1 in
      let q2 : Good h2 =
        each_keeps P clash disable_audio_route h1.usecases h1 disable_route_kept
          (kept.on_other _ h.dev refl q) in
      if_at Good (is_any clash h.usecases) (switch_inputs p uc d (is_switched clash h.usecases) h2)
        h2 (λ some_do. switch_inputs_kept uc d (is_switched clash h.usecases) h2 q2) (λ none_do. q2)
