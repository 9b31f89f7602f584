-- ===== src/Routing/Rerouted.antt =====
-- audio_hw.c: no input that shares its backend with a routed input is left on another device.
use android_device_zte_fujis.Common.{
  ℕ, ◌≡◌, refl, ◌∙◌, Bool, true, false, ◌&&◌, ◌||◌, not, Bool-cases, inl, inr, arith, if_at, List,
  [], ◌∷◌, ◌==◌, if◌then◌else◌, map,
}
use android_device_zte_fujis.Routing.Types.{after, capture_backend_cfg}
use android_device_zte_fujis.Routing.Usecases.{
  Usecase, Hal, Platform, is_voice, is_playback, spkr_calib_tx, enable_audio_route,
  disable_audio_route,
}
use android_device_zte_fujis.Routing.Reroute.{
  each, is_any, is_switched, is_capture_clash, switch_inputs, route_input,
  check_and_route_capture_usecases, disable_device, enable_device, on_dev,
}

abbrev pub every : (Usecase → Bool) → List Usecase → Bool
every f [] = true
every f (u ∷ us) = f u && every f us

-- A usecase at the address is still to be taken by a loop.
abbrev pub is_pending : (Usecase → Bool) → List Usecase → ℕ → Bool
is_pending test us a = is_any (λ v. test v && v.self == a) us

-- A loop over usecases whose step leaves the list alone.
pub usecases-each :
    (test : Usecase → Bool) (f : Usecase → Hal → Hal) (us : List Usecase) (h : Hal)
    → ((u : Usecase) (k : Hal) → (f u k).usecases ≡ k.usecases)
    → (each test f us h).usecases ≡ h.usecases
usecases-each test f [] h same = refl
usecases-each test f (u ∷ us) h same =
    usecases-each test f us (if test u then f u h else h) same
    ∙ if_at (λ (k : Hal). k.usecases ≡ h.usecases) (test u) (f u h) h (λ q. same u h) (λ q. refl)

pub usecases-disable_audio_route :
    (u : Usecase) (h : Hal) → (disable_audio_route u h).usecases ≡ h.usecases
unfolding disable_audio_route
usecases-disable_audio_route u h = refl

-- Each usecase that satisfies a test is the witness that some usecase of the list does.
pub self_pending :
    (clash : Usecase → Bool) (ws us : List Usecase)
    → ((f : Usecase → Bool) → is_any f ws ≡ true → is_any f us ≡ true)
    → every (λ w. not (clash w) || is_pending (is_switched clash us) us w.self) ws ≡ true
self_pending clash [] us within = refl
self_pending clash (w ∷ ws) us within =
    let rest = self_pending clash ws us (λ f q. within f (ground arith)) in
    elim (Bool-cases (clash w)) [
      | inl c ↦
          let own : is_switched clash us w ≡ true =
            within (λ v. clash v && v.id == w.id) (ground arith) in
          let pending = within (λ v. is_switched clash us v && v.self == w.self) (ground arith) in
          rw (pending, rest) (ground arith)
      | inr c ↦ rw (c, rest) refl
    ]

pub none_clash :
    (clash : Usecase → Bool) (us : List Usecase)
    → is_any clash us ≡ false
    → every (λ w. not (clash w)) us ≡ true
none_clash clash [] none_is = refl
none_clash clash (u ∷ us) none_is = let rest = none_clash clash us (ground arith) in ground arith

module _ (p : Platform) (uc : Usecase) (d : ℕ) (switched : Usecase → Bool) where
  -- A usecase that moves to the device clashes no more.
  moved_step :
      (u : Usecase) (us ws : List Usecase)
      → every (λ w. not (is_capture_clash p uc d w) || is_pending switched (u ∷ us) w.self) ws
        ≡ true
      → every
          (λ w. not (is_capture_clash p uc d w) || is_pending switched us w.self)
          (map (λ w. if w.self == u.self then record w { in_snd_device = d } else w) ws)
        ≡ true
  unfolding is_capture_clash
  moved_step u us [] h = refl
  moved_step u us (w ∷ ws) h =
      let rest = moved_step u us ws (ground arith) in
      elim (Bool-cases (w.self == u.self)) [ inl same ↦ ground arith | inr other ↦ ground arith ]

  skipped_step :
      (u : Usecase) (us ws : List Usecase)
      → switched u ≡ false
      → every (λ w. not (is_capture_clash p uc d w) || is_pending switched (u ∷ us) w.self) ws
        ≡ true
      → every (λ w. not (is_capture_clash p uc d w) || is_pending switched us w.self) ws ≡ true
  skipped_step u us [] off h = refl
  skipped_step u us (w ∷ ws) off h =
      let rest = skipped_step u us ws off (ground arith) in ground arith

  nothing_pending :
      (ws : List Usecase)
      → every (λ w. not (is_capture_clash p uc d w) || is_pending switched [] w.self) ws ≡ true
      → every (λ w. not (is_capture_clash p uc d w)) ws ≡ true
  nothing_pending [] h = refl
  nothing_pending (w ∷ ws) h = let rest = nothing_pending ws (ground arith) in ground arith

  all_moved :
      (us : List Usecase) (h : Hal)
      → every (λ w. not (is_capture_clash p uc d w) || is_pending switched us w.self) h.usecases
        ≡ true
      → every
          (λ w. not (is_capture_clash p uc d w))
          (each switched (route_input p uc d) us h).usecases
        ≡ true
  unfolding enable_audio_route
  all_moved [] h q = nothing_pending h.usecases q
  all_moved (u ∷ us) h q = all_moved us (if switched u then route_input p uc d u h else h) (
      if_at
        (λ (k : Hal).
          every (λ w. not (is_capture_clash p uc d w) || is_pending switched us w.self) k.usecases
          ≡ true)
        (switched u) (route_input p uc d u h) h (λ on. moved_step u us h.usecases q)
        (λ off. skipped_step u us h.usecases off q))

module _ (p : Platform) (uc : Usecase) (d : ℕ) where
  switched_moved :
      (switched : Usecase → Bool) (h : Hal)
      → every
          (λ w. not (is_capture_clash p uc d w) || is_pending switched h.usecases w.self)
          h.usecases
        ≡ true
      → every (λ w. not (is_capture_clash p uc d w)) (switch_inputs p uc d switched h).usecases
        ≡ true
  unfolding switch_inputs
  switched_moved switched h q =
      let h1 = each switched (λ u. disable_device p.env u.in_snd_device) h.usecases h in
      let h2 = each switched (λ u. enable_device p.env d) h1.usecases h1 in
      let stopped : h1.usecases ≡ h.usecases =
        usecases-each switched (λ u. disable_device p.env u.in_snd_device) h.usecases h
          (λ u k. refl) in
      let started : h2.usecases ≡ h1.usecases =
        usecases-each switched (λ u. enable_device p.env d) h1.usecases h1 (λ u k. refl) in
      all_moved p uc d switched h2.usecases h2 (rw (started, stopped) q)

  -- The usecase would have its input on the device too: it is another one than the routed usecase, no
  -- playback and not the calibration of the speaker, and its device shares a backend with this one, or
  -- the routed usecase is a voice call and it records the call.
  abbrev pub shares_input : Usecase → Bool
  shares_input w =
      (p.env.backends_match d w.in_snd_device || (is_voice uc.kind && w.devices == p.in_voice_call))
      && not (is_playback w.kind || w.self == uc.self || w.id == spkr_calib_tx)

  inputs_shared :
      (ws : List Usecase)
      → every (λ w. not (is_capture_clash p uc d w)) ws ≡ true
      → every (λ w. not (shares_input w) || w.in_snd_device == d) ws ≡ true
  unfolding is_capture_clash
  inputs_shared [] q = refl
  inputs_shared (w ∷ ws) q = let rest = inputs_shared ws (ground arith) in ground arith

  no_clash_left :
      (h : Hal)
      → every
          (λ w. not (is_capture_clash p uc d w))
          (check_and_route_capture_usecases p uc d h).usecases
        ≡ true
  unfolding check_and_route_capture_usecases
  no_clash_left h =
      let clash = is_capture_clash p uc d in
      let h1 = on_dev (after (capture_backend_cfg uc.id d)) h in
      let h2 = each clash disable_audio_route h1.usecases h1 in
      let stopped : h2.usecases ≡ h.usecases =
        usecases-each clash disable_audio_route h1.usecases h1 usecases-disable_audio_route in
      if_at (λ (k : Hal). every (λ w. not (clash w)) k.usecases ≡ true) (is_any clash h.usecases)
        (switch_inputs p uc d (is_switched clash h.usecases) h2) h2
        (λ some_do.
          switched_moved (is_switched clash h.usecases) h2
            (rw stopped (self_pending clash h.usecases h.usecases (λ f q. q))))
        (λ none_do. rw stopped (none_clash clash h.usecases none_do))

  -- Once the inputs are rerouted for a usecase that goes to a device, this device is the input device of
  -- every usecase but playbacks, the usecase itself and the calibration of the speaker whose input
  -- device shares a backend with it, or which records the call, where the usecase is a voice call.
  pub check_and_route_capture_usecases_lem :
      (h : Hal)
      → every
          (λ w. not (shares_input w) || w.in_snd_device == d)
          (check_and_route_capture_usecases p uc d h).usecases
        ≡ true
  check_and_route_capture_usecases_lem h =
      inputs_shared (check_and_route_capture_usecases p uc d h).usecases (no_clash_left h)
