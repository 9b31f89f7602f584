-- ===== src/Routing/Clear.antt =====
-- audio_hw.c: after `check_and_route_playback_usecases` no output is left in the way of the routed one.
use android_device_zte_fujis.Common.{
  ℕ, ◌≡◌, refl, Bool, true, false, ◌&&◌, ◌||◌, not, arith, if_at, none, some, List, [], ◌∷◌, ◌==◌,
  if◌then◌else◌, ltb, truthy,
}
use android_device_zte_fujis.Routing.Types.{
  Env, bt_a2dp, speaker_and_bt_a2dp, speaker_safe_and_bt_a2dp, a2dp_is_force_device_switch, after,
  backend_cfg,
}
use android_device_zte_fujis.Routing.Devices.{split}
use android_device_zte_fujis.Routing.Usecases.{
  Usecase, Hal, Platform, disable_audio_route, stream_devices, share_bit, popcount,
}
use android_device_zte_fujis.Routing.Reroute.{
  each, is_any, is_switched, is_playback_clash, force_routing, overlap, combined, switch_outputs,
  check_and_route_playback_usecases, on_dev,
}
use android_device_zte_fujis.Routing.Rerouted.{
  every, usecases-each, usecases-disable_audio_route, self_pending, none_clash,
}
use android_device_zte_fujis.Routing.Moved.{is_distinct, is_settled, is_in_way, is_left}
use android_device_zte_fujis.Routing.Gathered.{AllSettled, outputs_settled, calm_all}

-- The backend's configuration makes all outputs move, or A2DP has to be set up anew.
abbrev pub is_forced : Platform → Usecase → ℕ → Hal → Bool
is_forced p uc d h =
    truthy (p.env.result h.dev.calls (backend_cfg uc.id d))
    || ((d == bt_a2dp || d == speaker_and_bt_a2dp || d == speaker_safe_and_bt_a2dp)
        && truthy (p.env.result (backend_cfg uc.id d ∷ h.dev.calls) a2dp_is_force_device_switch))

-- The devices of two streams overlap and differ, and of their sound devices the one for more devices,
-- or else the new one, is split into parts of different backends.
abbrev pub may_stay : Env → (a1 a2 d1 d2 : ℕ) → Bool
may_stay env a1 a2 d1 d2 =
    (not (a1 == a2) && share_bit 32 a1 a2)
    && elim (split env (if ltb 1 (popcount 32 a1) then d1 else d2)) [
      | none ↦ false
      | some ab ↦ not (env.backends_match ab.0 ab.1)
    ]

is_forced_lem :
    (p : Platform) (uc : Usecase) (d : ℕ) (h : Hal)
    → is_forced p uc d h ≡ force_routing p uc d h.dev
unfolding force_routing
is_forced_lem p uc d h = ground arith

may_stay_lem : (env : Env) (a1 a2 d1 d2 : ℕ) → may_stay env a1 a2 d1 d2 ≡ is_left env a1 a2 d1 d2
unfolding is_left overlap combined
may_stay_lem env a1 a2 d1 d2 = refl

module _ (p : Platform) (uc : Usecase) (d : ℕ) where
  -- The output does not clash with the device.
  abbrev pub is_clear : (force : Bool) → Hal → Usecase → Bool
  is_clear force h w =
      not (is_in_way p uc d force w)
      || may_stay p.env (stream_devices h w) (stream_devices h uc) w.out_snd_device d

  all_clear :
      (force : Bool) (h : Hal) (ws : List Usecase)
      → every (is_settled p uc d force h) ws ≡ true
      → every (is_clear force h) ws ≡ true
  unfolding is_settled
  all_clear force h [] q = refl
  all_clear force h (w ∷ ws) q =
      let rest = all_clear force h ws (ground arith) in
      rw (may_stay_lem p.env (stream_devices h w) (stream_devices h uc) w.out_snd_device d, rest)
        (ground arith)

  module _ (symmetric : (a b : ℕ) → p.env.backends_match a b ≡ p.env.backends_match b a) where
    routing_settled :
        (h : Hal)
        → is_distinct h.usecases ≡ true
        → every
            (is_settled p uc d
              (force_routing p uc d h.dev)
              (check_and_route_playback_usecases p uc d h))
            (check_and_route_playback_usecases p uc d h).usecases
          ≡ true
    unfolding check_and_route_playback_usecases
    routing_settled h distinct =
        let force = force_routing p uc d h.dev in
        let clash = is_playback_clash p uc d force in
        let h1 = on_dev (after (backend_cfg uc.id d)) h in
        let h2 = each clash disable_audio_route h1.usecases h1 in
        let stopped : h2.usecases ≡ h.usecases =
          usecases-each clash disable_audio_route h1.usecases h1 usecases-disable_audio_route in
        if_at (AllSettled p uc d force) (is_any clash h.usecases)
          (switch_outputs p uc d (is_switched clash h.usecases) h2) h2
          (λ some_do.
            outputs_settled p uc d force symmetric (is_switched clash h.usecases) h2
              (rw stopped distinct)
              (rw stopped (self_pending clash h.usecases h.usecases (λ f q. q))))
          (λ none_do.
            calm_all p uc d force h2 h2.usecases (rw stopped (none_clash clash h.usecases none_do)))

    -- Where two devices share a backend in both directions or none, and the usecases of the list are at
    -- distinct addresses: once the outputs are rerouted for a usecase that goes to a device, every other
    -- usecase but captures is on this device, or on one of another backend, if its devices go over the
    -- codec's backend or USB, or all are forced: by the backend's configuration, or for an A2DP device
    -- where A2DP is to be set up anew. Excepted is only an output whose stream's devices overlap with
    -- the usecase's and differ from them, if its sound device, where its stream has more than one
    -- device, or else the new one, is split into parts of different backends.
    pub check_and_route_playback_usecases_lem :
        (h : Hal)
        → is_distinct h.usecases ≡ true
        → every
            (is_clear (is_forced p uc d h) (check_and_route_playback_usecases p uc d h))
            (check_and_route_playback_usecases p uc d h).usecases
          ≡ true
    check_and_route_playback_usecases_lem h distinct = rw (is_forced_lem p uc d h) (
        all_clear (force_routing p uc d h.dev) (check_and_route_playback_usecases p uc d h)
          (check_and_route_playback_usecases p uc d h).usecases (routing_settled h distinct))
