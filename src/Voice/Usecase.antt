-- ===== src/Voice/Usecase.antt =====
-- voice.c: a session's usecase is started and stopped.
use android_device_zte_fujis.Common.{
  ℕ, zero, suc, ◌+◌, ◌-◌, Bool, true, false, not, ◌&&◌, ◌||◌, ◌∷◌, ℤ, pos, einval, eio, truthy,
  is_neg, ◌==◌, if◌then◌else◌,
}
use android_device_zte_fujis.Voice.Types.{
  inactive, active, is_inactive, Session, Mode, in_call, in_communication, normal, other_mode,
  select_devices, open_tx, open_rx, ready_tx, ready_rx, start_tx, start_rx, close_tx, close_rx,
  start_voice_call, stop_voice_call, disable_audio_route, disable_snd_devices, set_sidetone,
  set_mic_break_det, enable_speaker, set_voice_volume, set_device_mute, set_mic_mute, Env, Voice,
  after, set_session, set_current, max_voice_sessions,
}

-- The first `n` sessions are looked at.
abbrev pub any_active : (ℕ → Session) → (n : ℕ) → Bool
any_active f zero = false
any_active f (suc n) = not (is_inactive (f n).current) || any_active f n

-- `voice_extn_is_call_state_active`
unfoldable pub voice_is_call_state_active : Voice → Bool
voice_is_call_state_active s = any_active s.session max_voice_sessions

-- `voice_set_sidetone`, where no call is active.
unfoldable pub sidetone_if_idle : Env → (on : Bool) → ℕ → Voice → Voice
sidetone_if_idle e on i s =
    if not (voice_is_call_state_active s) && e.is_sidetone_device s.calls i
    then after (set_sidetone on i) s
    else s

abbrev pub talks : Mode → Bool
talks in_call = true
talks in_communication = true
talks normal = false
talks other_mode = false

abbrev pub is_in_call_mode : Mode → Bool
is_in_call_mode in_call = true
is_in_call_mode _ = false

unfoldable pub voice_set_mic_mute : Env → Bool → Voice → ℤ × Voice
voice_set_mic_mute e b s =
    let c = if s.use_voice_device_mute then set_device_mute b else set_mic_mute b in
    let muted = record s { mic_mute = b } in
    if talks s.mode then (e.result s.calls c, after c muted) else (pos 0, muted)

-- The mute moves between the device and the stream while the microphone is muted.
unfoldable pub voice_set_device_mute_flag : Bool → Voice → Voice
voice_set_device_mute_flag b s =
    let on = after (set_mic_mute false) (after (set_device_mute true) s) in
    let off = after (set_device_mute false) (after (set_mic_mute true) s) in
    let moved = if s.mic_mute then (if b then on else off) else s in
    record moved { use_voice_device_mute = b }

-- `voice_set_volume` with the volume that is set already.
unfoldable pub apply_volume : Voice → Voice
apply_volume s = if is_in_call_mode s.mode then after set_voice_volume s else s

unfoldable pub close_pcms : ℕ → Voice → Voice
close_pcms i s =
    let x = s.session i in
    let rx = if x.pcm_rx then close_rx i ∷ s.calls else s.calls in
    let tx = if x.pcm_tx then close_tx i ∷ rx else rx in
    record (set_session i (record x { pcm_rx = false; pcm_tx = false }) s) { calls = tx }

unfoldable pub unmute_tfa : Env → Voice → Voice
unmute_tfa e s = if e.has_tfa && s.mic_mute then (voice_set_mic_mute e false s).1 else s

abbrev pub drop_usecase : ℕ → Voice → Voice
drop_usecase i s = set_session i (record (s.session i) { usecases = (s.session i).usecases - 1 }) s

-- The rest of `voice_stop_usecase`, from `platform_stop_voice_call` on.
unfoldable pub tear_down : Env → ℕ → Voice → ℤ × Voice
tear_down e i s =
    let closed = close_pcms i (after (stop_voice_call i) s) in
    let off = after (disable_snd_devices i) (after (disable_audio_route i) closed) in
    (e.result s.calls (stop_voice_call i), drop_usecase i (unmute_tfa e off))

unfoldable pub voice_stop_usecase : Env → ℕ → Voice → ℤ × Voice
voice_stop_usecase e i s =
    if (s.session i).usecases == 0
    then (einval, s)
    else tear_down e i (sidetone_if_idle e false i (set_current i inactive s))

-- The label `error_start_voice`.
unfoldable pub fail_start : Env → ℕ → ℤ → Voice → ℤ × Voice
fail_start e i r s = (r, (voice_stop_usecase e i s).1)

-- From the sidetone on.
unfoldable pub begin_call : Env → ℕ → Voice → ℤ × Voice
begin_call e i s =
    let on = apply_volume (sidetone_if_idle e true i (after enable_speaker s)) in
    let r = e.result on.calls (start_voice_call i) in
    let called = after (start_voice_call i) on in
    if is_neg r then fail_start e i r called else (r, set_current i active called)

unfoldable pub start_pcms : Env → ℕ → Voice → ℤ × Voice
start_pcms e i s =
    let s1 = if e.mic_break_enabled then after set_mic_break_det s else s in
    let tx = e.result s1.calls (start_tx i) in
    let s2 = after (start_tx i) s1 in
    let rx = e.result s2.calls (start_rx i) in
    let s3 = after (start_rx i) s2 in
    if truthy tx
    then fail_start e i tx s2
    else if truthy rx
    then fail_start e i rx s3
    else begin_call e i s3

-- A PCM that opens and is not ready fails the start; one that does not open does not.
unfoldable pub open_rx_pcm : Env → ℕ → Voice → ℤ × Voice
open_rx_pcm e i s =
    let got = truthy (e.result s.calls (open_rx i)) in
    let opened = set_session i (record (s.session i) { pcm_rx = got }) (after (open_rx i) s) in
    let asked = after (ready_rx i) opened in
    if got
    then if truthy (e.result opened.calls (ready_rx i))
      then start_pcms e i asked
      else fail_start e i eio asked
    else start_pcms e i opened

unfoldable pub open_tx_pcm : Env → ℕ → Voice → ℤ × Voice
open_tx_pcm e i s =
    let got = truthy (e.result s.calls (open_tx i)) in
    let opened = set_session i (record (s.session i) { pcm_tx = got }) (after (open_tx i) s) in
    let asked = after (ready_tx i) opened in
    if got
    then if truthy (e.result opened.calls (ready_tx i))
      then open_rx_pcm e i asked
      else fail_start e i eio asked
    else open_rx_pcm e i opened

unfoldable pub voice_start_usecase : Env → ℕ → Voice → ℤ × Voice
voice_start_usecase e i s =
    let x = s.session i in
    let listed =
      after (select_devices i) (record (set_session i (record x { usecases = x.usecases + 1 }) s) {
        use_voice_device_mute = false;
      }) in
    if e.has_devices i then open_tx_pcm e i listed else fail_start e i eio listed
