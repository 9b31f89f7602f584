-- ===== src/Routing/Histories.antt =====
-- audio_hw.c: any selects of devices, with any changes of streams and usecases between them.
use android_device_zte_fujis.Common.{ℕ, ◌≡◌, refl, Bool, true, false, List, [], ◌∷◌, arith}
use android_device_zte_fujis.Routing.Types.{Call, Trace, Env, Adev, after, bt_a2dp}
use android_device_zte_fujis.Routing.Usecases.{
  Usecase, Hal, Platform, enable_audio_route, disable_audio_route,
}
use android_device_zte_fujis.Routing.Reroute.{on_dev}
use android_device_zte_fujis.Routing.Switch.{select_devices_with_force_switch}
use android_device_zte_fujis.Routing.Paths.{PathsAgree, is_device_on}
use android_device_zte_fujis.Routing.Uses.{Use, enable, disable, use_device, use_device-PathsAgree}
use android_device_zte_fujis.Routing.Bluetooth.{IsHeld, use_device-IsHeld}
use android_device_zte_fujis.Routing.Kept.{Kept, is_other, enable_route_kept, disable_route_kept}
use android_device_zte_fujis.Routing.Selected.{select_devices_kept}

-- What happens to the routing: a select, a use of a device or its end, a usecase's route that is
-- enabled or disabled, or a change of all but the counted devices.
pub data Step : Type 0 where
  select : (force : Bool) (id : ℕ) → Step
  use_of : Use → Step
  enable_route disable_route : Usecase → Step
  become : Hal → Step

abbrev pub step : Platform → Step → Hal → Hal
step p (select force id) h = (select_devices_with_force_switch p force id h).1
step p (use_of u) h = on_dev (use_device p.env u) h
step p (enable_route u) h = enable_audio_route p u h
step p (disable_route u) h = disable_audio_route u h
step p (become k) h = record k { dev = h.dev }

-- The first step stands first.
abbrev pub run : Platform → List Step → Hal → Hal
run p [] h = h
run p (s ∷ ss) h = run p ss (step p s h)

module _ (p : Platform) (P : Adev → Type 0) (kept : Kept p.env P) where
  step_kept : (s : Step) (h : Hal) → P h.dev → P (step p s h).dev
  step_kept (select force id) h q = select_devices_kept p P kept force id h q
  step_kept (use_of (enable d)) h q = kept.on_enable d h.dev q
  step_kept (use_of (disable d)) h q = kept.on_disable d h.dev q
  step_kept (enable_route u) h q = enable_route_kept p P kept u h q
  step_kept (disable_route u) h q = disable_route_kept p P kept u h q
  step_kept (become k) h q = q

  run_kept : (ss : List Step) (h : Hal) → P h.dev → P (run p ss h).dev
  run_kept [] h q = q
  run_kept (s ∷ ss) h q = run_kept ss (step p s h) (step_kept s h q)

is_device_on-other :
    (c : Call) (t : Trace) (d : ℕ) → is_other c ≡ true → is_device_on d (c ∷ t) ≡ is_device_on d t
is_device_on-other c t d other = ground arith

PathsAgree-Kept : (env : Env) → Kept env (PathsAgree env)
PathsAgree-Kept env = record {
  on_enable = λ d s. use_device-PathsAgree env (enable d) s;
  on_disable = λ d s. use_device-PathsAgree env (disable d) s;
  on_other = λ c s other q d. rw (is_device_on-other c s.calls d other) (q d);
}

other-IsHeld :
    (env : Env) (c : Call) (s : Adev) → is_other c ≡ true → IsHeld env s → IsHeld env (after c s)
other-IsHeld env c s other q = ground arith

IsHeld-Kept : (env : Env) → Kept env (IsHeld env)
IsHeld-Kept env = record {
  on_enable = λ d s. use_device-IsHeld env (enable d) s;
  on_disable = λ d s. use_device-IsHeld env (disable d) s;
  on_other = λ c s. other-IsHeld env c s;
}

module _ (p : Platform) (ss : List Step) (h : Hal) where
  -- Over any selects of devices, uses of devices, routes of usecases, and changes of the streams and
  -- the usecases between them, from a start where nothing was called, and the A2DP device is neither
  -- counted nor marked as started, the routing starts a session of a2dp.c only where it has none open
  -- and stops one only where it has, and a session is open, and `a2dp_started` is set, exactly while
  -- the A2DP device is counted.
  pub run-IsHeld :
      h.dev.calls ≡ []
      → h.dev.ref bt_a2dp ≡ 0
      → h.dev.a2dp_started ≡ false
      → IsHeld p.env (run p ss h).dev
  run-IsHeld fresh zero_refs off =
      run_kept p (IsHeld p.env) (IsHeld-Kept p.env) ss h
        (record { session = ground arith; flag = ground arith; orderly = rw fresh refl })

  pub run-PathsAgree :
      h.dev.calls ≡ [] → ((e : ℕ) → h.dev.ref e ≡ 0) → PathsAgree p.env (run p ss h).dev
  run-PathsAgree fresh zeros =
      run_kept p (PathsAgree p.env) (PathsAgree-Kept p.env) ss h (λ e. ground (arith, zeros e))
