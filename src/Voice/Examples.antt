-- ===== src/Voice/Examples.antt =====
-- The theorems about voice calls at concrete inputs.
use android_device_zte_fujis.Voice.Histories.{
  Request, call_state, start_call, set_mode, serve, serve_all, history, history_held,
  voice_stop_call_ends,
}
use android_device_zte_fujis.Voice.Usecase.{voice_is_call_state_active, voice_set_mic_mute}
use android_device_zte_fujis.Voice.Calls.{
  update_calls, voice_start_call, update_call_states, voice_init, voice_stop_call,
}
use android_device_zte_fujis.Common.{not, true, false, List, [], ◌∷◌, ◌≡◌, ◌≤◌, refl, ℤ, pos, arith}
use android_device_zte_fujis.Voice.Types.{
  active, hold, is_inactive, normal, in_call, Call, open_tx, open_rx, ready_tx, ready_rx, Env,
  Voice,
}
use android_device_zte_fujis.Voice.Held.{held_rx, held_tx, count}
use android_device_zte_fujis.Voice.Starting.{IsErrno}

-- Everything works.
abbrev answer : Call → ℤ
answer (open_tx _) = pos 1
answer (open_rx _) = pos 1
answer (ready_tx _) = pos 1
answer (ready_rx _) = pos 1
answer _ = pos 0

abbrev platform : Env
platform = record {
  result = λ _ c. answer c;
  has_devices = λ _. true;
  is_sidetone_device = λ _ _. true;
  mic_break_enabled = false;
  has_tfa = false;
}

platform-IsErrno : IsErrno platform
platform-IsErrno = record { tx_failed = λ _ _. refl; rx_failed = λ _ _. refl }

-- Two calls, of which the second is held; then the mode is left.
abbrev two_calls : List Request
two_calls =
    set_mode in_call
    ∷ call_state 5 active
    ∷ start_call
    ∷ call_state 6 active
    ∷ call_state 6 hold
    ∷ set_mode normal
    ∷ []

history_held_example :
    (held_rx platform 6 (history platform normal two_calls).calls
      ≡ count ((history platform normal two_calls).session 6).pcm_rx)
    × (held_tx platform 6 (history platform normal two_calls).calls
        ≡ count ((history platform normal two_calls).session 6).pcm_tx)
    × (held_rx platform 6 (history platform normal two_calls).calls
        ≤ count (not (is_inactive ((history platform normal two_calls).session 6).current)))
    × (held_tx platform 6 (history platform normal two_calls).calls
        ≤ count (not (is_inactive ((history platform normal two_calls).session 6).current)))
    × (((history platform normal two_calls).session 6).usecases
        ≡ count (not (is_inactive ((history platform normal two_calls).session 6).current)))
history_held_example = history_held platform platform-IsErrno normal two_calls 6

voice_stop_call_ends_example :
    is_inactive ((voice_stop_call platform (history platform normal two_calls)).1.session 6).current
    ≡ true
unfolding serve serve_all voice_init update_call_states voice_start_call update_calls
    voice_set_mic_mute voice_is_call_state_active
voice_stop_call_ends_example =
    voice_stop_call_ends platform platform-IsErrno normal two_calls 6 refl (omega arith)

abbrev muted : Voice
muted = record (history platform normal []) { mic_mute = true }
