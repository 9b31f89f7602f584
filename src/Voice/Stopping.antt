-- ===== src/Voice/Stopping.antt =====
-- Stopping a session's usecase gives everything back.
use android_device_zte_fujis.Common.{ℕ, ◌≡◌, ap, Bool, true, false, ◌==◌, arith, if_at, ℤ}
use android_device_zte_fujis.Voice.Types.{
  inactive, is_inactive, Session, Env, Voice, after, set_current, stop_voice_call,
  disable_snd_devices, disable_audio_route,
}
use android_device_zte_fujis.Voice.Usecase.{
  sidetone_if_idle, voice_set_mic_mute, apply_volume, close_pcms, unmute_tfa, tear_down,
  drop_usecase, voice_stop_usecase, fail_start,
}
use android_device_zte_fujis.Voice.Held.{held_rx, held_tx, Held, IsSound, Only, Only-trans}

-- Sessions and PCM devices stay.
pub record Quiet (e : Env) (s t : Voice) : Type 0 where
  pub session_stays : t.session ≡ s.session
  pub rx_stays : (j : ℕ) → held_rx e j t.calls ≡ held_rx e j s.calls
  pub tx_stays : (j : ℕ) → held_tx e j t.calls ≡ held_tx e j s.calls

pub Quiet-Held : {e : Env} {i n : ℕ} {s t : Voice} → Quiet e s t → Held e i n s → Held e i n t
Quiet-Held {i = i} q h =
    let rx = q.rx_stays i in
    let tx = q.tx_stays i in let x = q.session_stays in ground (arith, h, rx, tx, x)

pub Quiet-Only : {e : Env} {i : ℕ} {s t : Voice} → Quiet e s t → Only e i s t
Quiet-Only {i = i} q = record {
  same = λ j _. ap (λ f. f j) q.session_stays;
  same_rx = λ j _. q.rx_stays j;
  same_tx = λ j _. q.tx_stays j;
  same_new = ap (λ (f : ℕ → Session). (f i).new) q.session_stays;
}

module _ (e : Env) where
  pub sidetone_if_idle-Quiet : (b : Bool) (i : ℕ) (s : Voice) → Quiet e s (sidetone_if_idle e b i s)
  unfolding sidetone_if_idle
  sidetone_if_idle-Quiet b i s = ground arith

  pub voice_set_mic_mute-Quiet : (b : Bool) (s : Voice) → Quiet e s (voice_set_mic_mute e b s).1
  unfolding voice_set_mic_mute
  voice_set_mic_mute-Quiet b s = ground arith

  pub apply_volume-Quiet : (s : Voice) → Quiet e s (apply_volume s)
  unfolding apply_volume
  apply_volume-Quiet s = ground arith

  unmute_tfa-Quiet : (s : Voice) → Quiet e s (unmute_tfa e s)
  unfolding unmute_tfa
  unmute_tfa-Quiet s = let muted = voice_set_mic_mute-Quiet false s in ground (arith, muted)

  close_pcms-Only : (i : ℕ) (s : Voice) → Only e i s (close_pcms i s)
  unfolding close_pcms
  close_pcms-Only i s = ground arith

  close_pcms-Held : (i n : ℕ) (s : Voice) → Held e i n s → Held e i n (close_pcms i s)
  unfolding close_pcms
  close_pcms-Held i n s h = ground (arith, h)

  close_pcms-closed :
      (i : ℕ) (s : Voice)
      → (((close_pcms i s).session i).pcm_rx ≡ false)
        × (((close_pcms i s).session i).pcm_tx ≡ false)
        × (((close_pcms i s).session i).current ≡ (s.session i).current)
  unfolding close_pcms
  close_pcms-closed i s = ground arith

-- The session ended, and only it changed.
pub record Ended (e : Env) (i : ℕ) (s t : Voice) : Type 0 where
  pub only : Only e i s t
  pub sound : IsSound e i t
  pub ended : is_inactive (t.session i).current ≡ true

module _ (e : Env) (i : ℕ) where
  -- The last step, once both PCM devices are closed.
  drop_usecase-Ended :
      (s : Voice)
      → Held e i 1 s
      → is_inactive (s.session i).current ≡ true
      → (s.session i).pcm_rx ≡ false
      → (s.session i).pcm_tx ≡ false
      → Ended e i s (drop_usecase i s)
  drop_usecase-Ended s h idle rx tx = ground (arith, h)

  Ended-after : {s t u : Voice} → Only e i s t → Ended e i t u → Ended e i s u
  Ended-after only n = record { only = Only-trans only n.only; sound = n.sound; ended = n.ended }

  tear_down-Ended :
      (s : Voice)
      → Held e i 1 s
      → is_inactive (s.session i).current ≡ true
      → Ended e i s (tear_down e i s).1
  unfolding tear_down
  tear_down-Ended s h idle =
      let s1 = after (stop_voice_call i) s in
      let c = close_pcms i s1 in
      let off = after (disable_snd_devices i) (after (disable_audio_route i) c) in
      let t = unmute_tfa e off in
      let called : Quiet e s s1 = ground arith in
      let disabled : Quiet e c off = ground arith in
      let unmuted = unmute_tfa-Quiet e off in
      let closed = close_pcms-closed e i s1 in
      let held =
        Quiet-Held unmuted (Quiet-Held disabled (close_pcms-Held e i 1 s1 (Quiet-Held called h))) in
      let only = Only-trans (Quiet-Only called) (
        Only-trans (close_pcms-Only e i s1)
          (Only-trans (Quiet-Only disabled) (Quiet-Only unmuted))) in
      let x : t.session i ≡ c.session i = ap (λ f. f i) unmuted.session_stays in
      Ended-after only (
        drop_usecase-Ended t held (ground (arith, x, closed)) (ground (arith, x, closed))
          (ground (arith, x, closed)))

  pub voice_stop_usecase-Ended :
      (s : Voice) → Held e i 1 s → Ended e i s (voice_stop_usecase e i s).1
  unfolding voice_stop_usecase
  voice_stop_usecase-Ended s h =
      let s1 = set_current i inactive s in
      let quiet = sidetone_if_idle-Quiet e false i s1 in
      let h1 : Held e i 1 s1 = ground (arith, h) in
      let only : Only e i s s1 = ground arith in
      let x : (sidetone_if_idle e false i s1).session i ≡ s1.session i =
        ap (λ f. f i) quiet.session_stays in
      let torn =
        tear_down-Ended (sidetone_if_idle e false i s1) (Quiet-Held quiet h1) (ground (arith, x)) in
      if_at (λ (r : ℤ × Voice). Ended e i s r.1) ((s.session i).usecases == 0) _ _
        (λ none_listed. grind (arith, h))
        (λ _. Ended-after only (Ended-after (Quiet-Only quiet) torn))

  pub fail_start-Ended : (r : ℤ) (s : Voice) → Held e i 1 s → Ended e i s (fail_start e i r s).1
  unfolding fail_start
  fail_start-Ended r s h = voice_stop_usecase-Ended s h
