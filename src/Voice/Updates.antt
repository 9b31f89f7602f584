-- ===== src/Voice/Updates.antt =====
-- `update_calls` keeps every session sound, and stops every call that is to end.
use android_device_zte_fujis.Common.{ℕ, ◌≡◌, refl, ap, Bool, true, false, is_neg, arith, if_at, ℤ}
use android_device_zte_fujis.Voice.Types.{
  CallState, inactive, active, hold, local_hold, is_inactive, Env, Voice, set_current,
}
use android_device_zte_fujis.Voice.Usecase.{voice_start_usecase, voice_stop_usecase}
use android_device_zte_fujis.Voice.Calls.{settle, hold_call, update_call}
use android_device_zte_fujis.Voice.Held.{Held, IsSound, Only, Only-trans}
use android_device_zte_fujis.Voice.Stopping.{voice_stop_usecase-Ended}
use android_device_zte_fujis.Voice.Starting.{IsErrno, voice_start_usecase-Settled}

-- The session is sound, only it changed, and it ended if that was asked for.
pub record Updated (e : Env) (i : ℕ) (s t : Voice) : Type 0 where
  pub only : Only e i s t
  pub sound : IsSound e i t
  pub done : is_inactive (s.session i).new ≡ true → is_inactive (t.session i).current ≡ true

module _ (e : Env) (errno : IsErrno e) (i : ℕ) where
  talking-IsSound :
      (s : Voice) (c : CallState)
      → IsSound e i s
      → is_inactive (s.session i).current ≡ false
      → is_inactive c ≡ false
      → Only e i s (set_current i c s) × IsSound e i (set_current i c s)
  talking-IsSound s c v talking c_going = ground (arith, v, v.held)

  ended-IsSound :
      (s : Voice)
      → IsSound e i s
      → is_inactive (s.session i).current ≡ true
      → Only e i s (set_current i inactive s) × IsSound e i (set_current i inactive s)
  ended-IsSound s v idle = ground (arith, v, v.held)

  -- A session in a call that goes on in another state.
  stay-Updated :
      (s : Voice) (c : CallState)
      → IsSound e i s
      → is_inactive (s.session i).current ≡ false
      → is_inactive (s.session i).new ≡ false
      → is_inactive c ≡ false
      → Updated e i s (set_current i c s)
  stay-Updated s c v talking going c_going = ground (arith, v, v.held)

  same-Updated :
      (s : Voice)
      → IsSound e i s
      → (is_inactive (s.session i).new ≡ true → is_inactive (s.session i).current ≡ true)
      → Updated e i s s
  same-Updated s v done = record {
    only = record {
      same = λ j _. refl;
      same_rx = λ j _. refl;
      same_tx = λ j _. refl;
      same_new = refl;
    };
    sound = v;
    done = done;
  }

  hold_call-Updated :
      (on : Bool) (c : CallState) (ret : ℤ) (s : Voice)
      → IsSound e i s
      → is_inactive (s.session i).current ≡ false
      → is_inactive (s.session i).new ≡ false
      → is_inactive c ≡ false
      → Updated e i s (hold_call e on i c ret s).1
  unfolding hold_call
  hold_call-Updated on c ret s v talking going c_going = ground (arith, v, v.held)

  start-Updated :
      (s : Voice)
      → IsSound e i s
      → is_inactive (s.session i).current ≡ true
      → is_inactive (s.session i).new ≡ false
      → Updated e i s (settle i active (voice_start_usecase e i s)).1
  unfolding settle
  start-Updated s v idle going =
      let r = voice_start_usecase-Settled e i errno s v idle in
      let x = voice_start_usecase e i s in
      if_at (λ (t : Voice). Updated e i s t) (is_neg x.0) _ _
        (λ _. record { only = r.only; sound = r.sound; done = λ h. grind (arith, h, going) })
        (λ ok.
          let on = talking-IsSound x.1 active r.sound (r.begun ok) refl in
          record {
            only = Only-trans r.only on.0;
            sound = on.1;
            done = λ h. grind (arith, h, going);
          })

  stop-Updated :
      (s : Voice)
      → IsSound e i s
      → is_inactive (s.session i).current ≡ false
      → Updated e i s (settle i inactive (voice_stop_usecase e i s)).1
  unfolding settle
  stop-Updated s v talking =
      let h : Held e i 1 s = ground (arith, v.held) in
      let r = voice_stop_usecase-Ended e i s h in
      let x = voice_stop_usecase e i s in
      if_at (λ (t : Voice). Updated e i s t) (is_neg x.0) _ _
        (λ _. record { only = r.only; sound = r.sound; done = λ _. r.ended })
        (λ _.
          let off = ended-IsSound x.1 r.sound r.ended in
          record { only = Only-trans r.only off.0; sound = off.1; done = λ _. grind arith })

  pub update_call-Updated :
      (new current : CallState) (ret : ℤ) (s : Voice)
      → IsSound e i s
      → (s.session i).new ≡ new
      → (s.session i).current ≡ current
      → Updated e i s (update_call e i new current ret s).1
  unfolding update_call
  update_call-Updated active inactive ret s v n c =
      start-Updated s v (ap is_inactive c) (ap is_inactive n)
  update_call-Updated active hold ret s v n c =
      stay-Updated s active v (ap is_inactive c) (ap is_inactive n) refl
  update_call-Updated active local_hold ret s v n c =
      hold_call-Updated false active ret s v (ap is_inactive c) (ap is_inactive n) refl
  update_call-Updated active active ret s v n c = same-Updated s v (ground (arith, n))
  update_call-Updated inactive inactive ret s v n c = same-Updated s v (λ _. ap is_inactive c)
  update_call-Updated inactive active ret s v n c = stop-Updated s v (ap is_inactive c)
  update_call-Updated inactive hold ret s v n c = stop-Updated s v (ap is_inactive c)
  update_call-Updated inactive local_hold ret s v n c = stop-Updated s v (ap is_inactive c)
  update_call-Updated hold active ret s v n c =
      stay-Updated s hold v (ap is_inactive c) (ap is_inactive n) refl
  update_call-Updated hold local_hold ret s v n c =
      hold_call-Updated false hold ret s v (ap is_inactive c) (ap is_inactive n) refl
  update_call-Updated hold hold ret s v n c = same-Updated s v (ground (arith, n))
  update_call-Updated hold inactive ret s v n c = same-Updated s v (ground (arith, n))
  update_call-Updated local_hold active ret s v n c =
      hold_call-Updated true local_hold ret s v (ap is_inactive c) (ap is_inactive n) refl
  update_call-Updated local_hold hold ret s v n c =
      hold_call-Updated true local_hold ret s v (ap is_inactive c) (ap is_inactive n) refl
  update_call-Updated local_hold local_hold ret s v n c = same-Updated s v (ground (arith, n))
  update_call-Updated local_hold inactive ret s v n c = same-Updated s v (ground (arith, n))
