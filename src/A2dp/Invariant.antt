-- ===== src/A2dp/Invariant.antt =====
-- What holds of the state and the calls between two operations of a2dp.c.
use android_device_zte_fujis.Common.{
  ℕ, ℤ, ◌≤◌, ◌≡◌, refl, Bool, true, false, not, ◌∷◌, arith, truthy, if◌then◌else◌, ◌∙◌, if_at,
}
use android_device_zte_fujis.A2dp.Types.{is_disconnected, max_instance_id}
use android_device_zte_fujis.A2dp.Env.{
  Env, Ctl, Routine, State, run, pcm_start, pcm_close, set_value, any_failure, after,
}
use android_device_zte_fujis.A2dp.Resources.{
  loaded, open_pcms, legal, Same, IsNeutral, then-IsNeutral, write_ctl-IsNeutral,
}
use android_device_zte_fujis.A2dp.Abr.{
  switch, paths_on, paths_off, stop_abr, open_abr_pcm, fail_abr, start_abr_pcm, start_abr,
}

-- `lib` and `suspended` are the values of the fields of that name, which most operations keep.
pub record Inv (e : Env) (lib suspended : Bool) (s : State) : Type 0 where
  pub lib_is : s.dev.lib ≡ lib
  pub suspended_is : s.dev.a2dp_suspended ≡ suspended
  pub loaded_is : loaded e s.calls ≡ lib
  pub pcms_are : open_pcms e s.calls ≡ (if s.dev.abr_handle then 1 else 0)
  pub calls_legal : legal e s.calls ≡ true
  pub linked : is_disconnected s.dev.bt_state ≡ false → lib ≡ true
  pub handle_is : s.dev.abr_handle ≡ s.dev.abr_started
  pub abr_on : s.dev.abr_started ≡ true → s.dev.abr_enabled ≡ true
  pub live : suspended ≡ false → s.dev.abr_started ≡ true → s.dev.a2dp_started ≡ true
  pub bounded : s.dev.instance_id ≤ max_instance_id

module _ {e : Env} {lib suspended : Bool} where
  -- An operation that leaves the static data alone, and whose calls take and release nothing.
  pub Inv-Same :
      {s u : State}
      → Inv e lib suspended s
      → u.dev ≡ s.dev
      → Same e s.calls u.calls
      → Inv e lib suspended u
  Inv-Same v d p = record {
    lib_is = rw d v.lib_is;
    suspended_is = rw d v.suspended_is;
    loaded_is = p.same_loaded ∙ v.loaded_is;
    pcms_are = rw d (p.same_pcms ∙ v.pcms_are);
    calls_legal = p.same_legal ∙ v.calls_legal;
    linked = rw d v.linked;
    handle_is = rw d v.handle_is;
    abr_on = rw d v.abr_on;
    live = rw d v.live;
    bounded = rw d v.bounded;
  }

  pub Inv-run :
      {s : State} (m : Routine)
      → IsNeutral m
      → Inv e lib suspended s
      → Inv e lib suspended (run m e s).1
  Inv-run {s} m p v = Inv-Same v refl (p.same e s.calls)

switch-IsNeutral : (c : Ctl) (v : ℕ) → IsNeutral (switch c v)
switch-IsNeutral c v = write_ctl-IsNeutral any_failure c (set_value c v) tt

pub paths_off-IsNeutral : IsNeutral paths_off
unfolding paths_off
paths_off-IsNeutral = search (then-IsNeutral, switch-IsNeutral)

pub paths_on-IsNeutral : IsNeutral paths_on
unfolding paths_on
paths_on-IsNeutral = search (then-IsNeutral, switch-IsNeutral)

-- What is asked of a state before the feedback is cleaned up: the PCM may be open and not started.
pub record Opened (e : Env) (lib suspended : Bool) (s : State) : Type 0 where
  pub lib_is : s.dev.lib ≡ lib
  pub suspended_is : s.dev.a2dp_suspended ≡ suspended
  pub loaded_is : loaded e s.calls ≡ lib
  pub pcms_are : open_pcms e s.calls ≡ (if s.dev.abr_handle then 1 else 0)
  pub calls_legal : legal e s.calls ≡ true
  pub linked : is_disconnected s.dev.bt_state ≡ false → lib ≡ true
  pub bounded : s.dev.instance_id ≤ max_instance_id

module _ {e : Env} {lib suspended : Bool} {s : State} where
  pub Inv-Opened : Inv e lib suspended s → Opened e lib suspended s
  Inv-Opened v = ground arith

  stop_abr-closes :
      Opened e lib suspended s
      → Inv e lib suspended (record s {
        dev = record s.dev { abr_handle = false; abr_started = false; imc_instance = 0 };
        calls = if s.dev.abr_handle then pcm_close ∷ s.calls else s.calls;
      })
  stop_abr-closes v = ground arith

  -- `stop_abr` closes what is open, whatever the mixer answers.
  pub stop_abr-Inv : Opened e lib suspended s → Inv e lib suspended (stop_abr e s).1
  unfolding stop_abr
  stop_abr-Inv v = Inv-run paths_off paths_off-IsNeutral (stop_abr-closes v)

  open_abr_pcm-Opened : Opened e lib suspended s → Opened e lib suspended (open_abr_pcm e s).1
  unfolding open_abr_pcm
  open_abr_pcm-Opened v = ground arith

module _ (e : Env) (s : State) where
  pub stop_abr-off : (stop_abr e s).1.dev.abr_started ≡ false
  unfolding stop_abr
  stop_abr-off = refl

  open_abr_pcm-handle : (open_abr_pcm e s).0 ≡ true → (open_abr_pcm e s).1.dev.abr_handle ≡ true
  unfolding open_abr_pcm
  open_abr_pcm-handle h = ground arith

  open_abr_pcm-flags :
      ((open_abr_pcm e s).1.dev.abr_enabled ≡ s.dev.abr_enabled)
      × ((open_abr_pcm e s).1.dev.a2dp_started ≡ s.dev.a2dp_started)
  unfolding open_abr_pcm
  open_abr_pcm-flags = ground arith

module _ {e : Env} {lib suspended : Bool} {s : State} (v : Opened e lib suspended s) where
  fail_abr-Inv : Inv e lib suspended (fail_abr e s).1
  unfolding fail_abr
  fail_abr-Inv = stop_abr-Inv v

  started_pcm-Opened : s.dev.abr_handle ≡ true → Opened e lib suspended (after pcm_start s)
  started_pcm-Opened h = ground arith

module _ {e : Env} {lib suspended : Bool} {s : State} where
  start_abr_pcm-Inv :
      Opened e lib suspended s
      → s.dev.abr_handle ≡ true
      → s.dev.abr_enabled ≡ true
      → s.dev.a2dp_started ≡ true
      → Inv e lib suspended (start_abr_pcm e s).1
  unfolding start_abr_pcm
  start_abr_pcm-Inv v h on started = ground (arith, fail_abr-Inv (started_pcm-Opened v h))

module _ {e : Env} {lib suspended : Bool} {s : State} where
  -- `start_abr`, called in a started session, keeps the invariant on every path.
  pub start_abr-Inv :
      Inv e lib suspended s → s.dev.a2dp_started ≡ true → Inv e lib suspended (start_abr e s).1
  unfolding start_abr
  start_abr-Inv v started =
      let ready = Inv-Opened (Inv-run paths_on paths_on-IsNeutral v) in
      let opened = open_abr_pcm-Opened ready in
      let flags = open_abr_pcm-flags e (run paths_on e s).1 in
      if_at (λ (r : ℤ × State). Inv e lib suspended r.1) (not s.dev.abr_enabled) _ _ (λ _. v)
        (λ on.
          if_at (λ (r : ℤ × State). Inv e lib suspended r.1) s.dev.abr_started _ _ (λ _. v)
            (λ _.
              if_at (λ (r : ℤ × State). Inv e lib suspended r.1) (truthy (paths_on e s.calls).0) _ _
                (λ _. Inv-run paths_on paths_on-IsNeutral v)
                (λ _.
                  if_at (λ (r : ℤ × State). Inv e lib suspended r.1)
                    (open_abr_pcm e (run paths_on e s).1).0 _ _
                    (λ r.
                      start_abr_pcm-Inv opened (open_abr_pcm-handle e _ r) (ground (arith, flags.0))
                        (flags.1 ∙ started))
                    (λ _. fail_abr-Inv opened))))
