-- ===== src/Voice/Histories.antt =====
-- Every history of requests keeps the voice sessions sound, and ending all calls ends them all.
use android_device_zte_fujis.Common.{
  ◌∙◌, ap, ℕ, ◌≤◌, ◌<◌, ◌≡◌, refl, Bool, true, false, not, List, [], ◌∷◌, ◌==◌, arith, pos,
  Bool-cases, inl, inr,
}
use android_device_zte_fujis.Voice.Types.{
  Session, same_state, CallState, is_inactive, Mode, Env, Voice, max_voice_sessions,
}
use android_device_zte_fujis.Voice.Usecase.{voice_set_mic_mute, voice_set_device_mute_flag}
use android_device_zte_fujis.Voice.Calls.{
  update_calls, set_new, update_call_states, voice_start_call, is_normal, all_inactive,
  voice_stop_call, voice_init,
}
use android_device_zte_fujis.Voice.Held.{held_rx, held_tx, count}
use android_device_zte_fujis.Voice.Stopping.{Quiet, voice_set_mic_mute-Quiet}
use android_device_zte_fujis.Voice.Starting.{IsErrno}
use android_device_zte_fujis.Voice.Sweeps.{
  AllSound, update_from-Swept, update_calls-AllSound, Quiet-AllSound,
}

-- What the HAL does with the voice calls. The mode is set by audio_hw.c.
pub data Request : Type 0 where
  call_state : ℕ → CallState → Request
  start_call stop_call : Request
  set_mode : Mode → Request
  mic_mute device_mute_flag : Bool → Request

unfoldable pub serve : Env → Request → Voice → Voice
serve e (call_state i c) s = (update_call_states e i c s).1
serve e start_call s = (voice_start_call e s).1
serve e stop_call s = (voice_stop_call e s).1
serve e (set_mode m) s = record s { mode = m }
serve e (mic_mute b) s = (voice_set_mic_mute e b s).1
serve e (device_mute_flag b) s = voice_set_device_mute_flag b s

unfoldable pub serve_all : Env → List Request → Voice → Voice
serve_all e [] s = s
serve_all e (r ∷ rs) s = serve_all e rs (serve e r s)

abbrev pub history : Env → Mode → List Request → Voice
history e m rs = serve_all e rs (voice_init m)

module _ (e : Env) (errno : IsErrno e) where
  set_new-AllSound : (i : ℕ) (c : CallState) (s : Voice) → AllSound e s → AllSound e (set_new i c s)
  set_new-AllSound i c s v = record {
    each = λ j.
        let old = v.each j in
        elim (Bool-cases (j == i)) [
          | inl same ↦ let here : j ≡ i = ground arith in ground (arith, old, old.held, same, here)
          | inr other ↦ ground (arith, old, old.held, other)
        ];
  }

  update_call_states-AllSound :
      (i : ℕ) (c : CallState) (s : Voice) → AllSound e s → AllSound e (update_call_states e i c s).1
  unfolding update_call_states
  update_call_states-AllSound i c s v =
      let noted = set_new-AllSound i c s v in
      let updated = update_calls-AllSound e errno (set_new i c s) noted in
      ground (arith, v, noted, updated)

  voice_stop_call-AllSound : (s : Voice) → AllSound e s → AllSound e (voice_stop_call e s).1
  unfolding voice_stop_call
  voice_stop_call-AllSound s v =
      let s1 = record s { in_call = false } in
      let noted : AllSound e (all_inactive s1) = record {
        each = λ j. let old = v.each j in ground (arith, old, old.held);
      } in
      let updated = update_calls-AllSound e errno (all_inactive s1) noted in
      let here : AllSound e s1 = record {
        each = λ j. let old = v.each j in ground (arith, old, old.held);
      } in
      ground (arith, here, updated)

  voice_start_call-AllSound : (s : Voice) → AllSound e s → AllSound e (voice_start_call e s).1
  unfolding voice_start_call
  voice_start_call-AllSound s v =
      let s1 = record s { in_call = true } in
      let here : AllSound e s1 = record {
        each = λ j. let old = v.each j in ground (arith, old, old.held);
      } in
      update_calls-AllSound e errno _
        (Quiet-AllSound e errno (voice_set_mic_mute-Quiet e s.mic_mute s1) here)

  device_mute_flag-Quiet : (b : Bool) (s : Voice) → Quiet e s (voice_set_device_mute_flag b s)
  unfolding voice_set_device_mute_flag
  device_mute_flag-Quiet b s = ground arith

  serve-AllSound : (r : Request) (s : Voice) → AllSound e s → AllSound e (serve e r s)
  unfolding serve
  serve-AllSound (call_state i c) s v = update_call_states-AllSound i c s v
  serve-AllSound start_call s v = voice_start_call-AllSound s v
  serve-AllSound stop_call s v = voice_stop_call-AllSound s v
  serve-AllSound (set_mode m) s v = record {
    each = λ j. let old = v.each j in ground (arith, old, old.held);
  }
  serve-AllSound (mic_mute b) s v = Quiet-AllSound e errno (voice_set_mic_mute-Quiet e b s) v
  serve-AllSound (device_mute_flag b) s v = Quiet-AllSound e errno (device_mute_flag-Quiet b s) v

  serve_all-AllSound :
      (rs : List Request) (s : Voice) → AllSound e s → AllSound e (serve_all e rs s)
  unfolding serve_all
  serve_all-AllSound [] s v = v
  serve_all-AllSound (r ∷ rs) s v = serve_all-AllSound rs (serve e r s) (serve-AllSound r s v)

  history-AllSound : (m : Mode) (rs : List Request) → AllSound e (history e m rs)
  unfolding voice_init
  history-AllSound m rs = serve_all-AllSound rs (voice_init m) (record { each = λ j. ground arith })

  -- Where `pcm_start` returns 0 or a negated errno, after every history of requests: a session's two
  -- PCM pointers are set exactly for the PCM devices that are open, of which each session has at
  -- most one on either side, and none unless it is in a call; a session in a call has one usecase
  -- in the list, any other session none.
  pub history_held :
      (m : Mode) (rs : List Request) (j : ℕ)
      → (held_rx e j (history e m rs).calls ≡ count ((history e m rs).session j).pcm_rx)
        × (held_tx e j (history e m rs).calls ≡ count ((history e m rs).session j).pcm_tx)
        × (held_rx e j (history e m rs).calls
            ≤ count (not (is_inactive ((history e m rs).session j).current)))
        × (held_tx e j (history e m rs).calls
            ≤ count (not (is_inactive ((history e m rs).session j).current)))
        × (((history e m rs).session j).usecases
            ≡ count (not (is_inactive ((history e m rs).session j).current)))
  history_held m rs j = let v = (history-AllSound m rs).each j in ground (arith, v, v.held)

  -- Where `pcm_start` returns 0 or a negated errno, after every history of requests, ending the call
  -- in normal mode ends the calls of all seven sessions, whatever else fails.
  pub voice_stop_call_ends :
      (m : Mode) (rs : List Request) (j : ℕ)
      → is_normal (history e m rs).mode ≡ true
      → j < max_voice_sessions
      → is_inactive ((voice_stop_call e (history e m rs)).1.session j).current ≡ true
  unfolding voice_stop_call update_calls
  voice_stop_call_ends m rs j in_normal few =
      let s = history e m rs in
      let s1 = all_inactive (record s { in_call = false }) in
      let v = history-AllSound m rs in
      let noted : AllSound e s1 = record {
        each = λ i. let old = v.each i in ground (arith, old, old.held);
      } in
      let swept = update_from-Swept e errno max_voice_sessions 0 (pos 0) s1 noted in
      let ended = swept.done j (omega arith) (omega arith) refl in ground (arith, in_normal, ended)

  -- Where `pcm_start` returns 0 or a negated errno, after every history of requests, starting the
  -- calls leaves every session alone that is in the state that telephony asked for, whatever the
  -- other sessions do.
  voice_start_call_calm :
      (m : Mode) (rs : List Request) (j : ℕ)
      → same_state ((history e m rs).session j).new ((history e m rs).session j).current ≡ true
      → (voice_start_call e (history e m rs)).1.session j ≡ (history e m rs).session j
  unfolding voice_start_call update_calls
  voice_start_call_calm m rs j calm =
      let s = history e m rs in
      let s1 = record s { in_call = true } in
      let muted = voice_set_mic_mute-Quiet e s.mic_mute s1 in
      let here : AllSound e s1 = record {
        each = λ i. let old = (history-AllSound m rs).each i in ground (arith, old, old.held);
      } in
      let s2 = (voice_set_mic_mute e s.mic_mute s1).1 in
      let swept =
        update_from-Swept e errno max_voice_sessions 0 (pos 0) s2
          (Quiet-AllSound e errno muted here) in
      let stays : s2.session j ≡ s.session j = ap (λ (f : ℕ → Session). f j) muted.session_stays in
      swept.calm j (rw stays calm) ∙ stays
