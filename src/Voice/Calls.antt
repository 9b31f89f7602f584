-- ===== src/Voice/Calls.antt =====
-- voice_extn.c: the sessions are brought to the states that telephony asks for.
use android_device_zte_fujis.Common.{
  ℕ, zero, suc, ◌+◌, Bool, true, false, ◌&&◌, ◌||◌, ltb, [], ℤ, pos, einval, is_neg, if◌then◌else◌,
}
use android_device_zte_fujis.Voice.Types.{
  CallState, inactive, active, hold, local_hold, Mode, normal, local_call_hold, Env, Voice, after,
  set_session, set_current, max_voice_sessions,
}
use android_device_zte_fujis.Voice.Usecase.{
  voice_is_call_state_active, is_in_call_mode, voice_set_mic_mute, voice_start_usecase,
  voice_stop_usecase,
}

-- A change of the usecase, whose result is the loop's; the state follows where it is not negative.
unfoldable pub settle : ℕ → CallState → ℤ × Voice → ℤ × Voice
settle i c (r, s) = (r, if is_neg r then s else set_current i c s)

-- The hold's ioctl; the loop's result stays.
unfoldable pub hold_call : Env → (on : Bool) → ℕ → CallState → ℤ → Voice → ℤ × Voice
hold_call e on i c ret s =
    let called = after (local_call_hold on i) s in
    (
      ret,
      if is_neg (e.result s.calls (local_call_hold on i)) then called else set_current i c called,
    )

-- One round of `update_calls`, by the new and the current state; `ret` is the result so far.
unfoldable pub update_call : Env → ℕ → (new current : CallState) → ℤ → Voice → ℤ × Voice
update_call e i active inactive ret s = settle i active (voice_start_usecase e i s)
update_call e i active hold ret s = (ret, set_current i active s)
update_call e i active local_hold ret s = hold_call e false i active ret s
update_call e i active active ret s = (ret, s)
update_call e i inactive inactive ret s = (ret, s)
update_call e i inactive active ret s = settle i inactive (voice_stop_usecase e i s)
update_call e i inactive hold ret s = settle i inactive (voice_stop_usecase e i s)
update_call e i inactive local_hold ret s = settle i inactive (voice_stop_usecase e i s)
update_call e i hold active ret s = (ret, set_current i hold s)
update_call e i hold local_hold ret s = hold_call e false i hold ret s
update_call e i hold hold ret s = (ret, s)
update_call e i hold inactive ret s = (ret, s)
update_call e i local_hold active ret s = hold_call e true i local_hold ret s
update_call e i local_hold hold ret s = hold_call e true i local_hold ret s
update_call e i local_hold local_hold ret s = (ret, s)
update_call e i local_hold inactive ret s = (ret, s)

-- The rounds from `i` on, `k` of them.
unfoldable pub update_from : Env → (k i : ℕ) → ℤ × Voice → ℤ × Voice
update_from e zero i r = r
update_from e (suc k) i (ret, s) =
    update_from e k (i + 1) (update_call e i (s.session i).new (s.session i).current ret s)

unfoldable pub update_calls : Env → Voice → ℤ × Voice
update_calls e s = update_from e max_voice_sessions 0 (pos 0, s)

abbrev pub set_new : ℕ → CallState → Voice → Voice
set_new i c s = set_session i (record (s.session i) { new = c }) s

-- `i` is the index of the session with the given identifier, if that is one of the seven.
unfoldable pub update_call_states : Env → ℕ → CallState → Voice → ℤ × Voice
update_call_states e i c s =
    let s' = set_new i c s in
    if ltb i max_voice_sessions
    then (
      pos 0,
      if voice_is_call_state_active s' || s.in_call && is_in_call_mode s.mode
          then (update_calls e s').1
          else s',
    )
    else (einval, s)

unfoldable pub voice_start_call : Env → Voice → ℤ × Voice
voice_start_call e s =
    update_calls e (voice_set_mic_mute e s.mic_mute (record s { in_call = true })).1

abbrev pub is_normal : Mode → Bool
is_normal normal = true
is_normal _ = false

abbrev pub all_inactive : Voice → Voice
all_inactive s = record s { session = λ j. record (s.session j) { new = inactive } }

unfoldable pub voice_stop_call : Env → Voice → ℤ × Voice
voice_stop_call e s =
    let s' = record s { in_call = false } in
    if is_normal s.mode then update_calls e (all_inactive s') else (pos 0, s')

-- `voice_init` and `voice_extn_init`, in a mode.
unfoldable pub voice_init : Mode → Voice
voice_init m = record {
  session = λ _. record {
    pcm_rx = false;
    pcm_tx = false;
    current = inactive;
    new = inactive;
    usecases = 0;
  };
  in_call = false;
  mic_mute = false;
  use_voice_device_mute = false;
  mode = m;
  calls = [];
}
