-- ===== src/Voice/Starting.antt =====
-- Starting a session's usecase: it is active afterwards, or everything was given back.
use android_device_zte_fujis.Common.{
  ℕ, ◌+◌, ◌≡◌, refl, sym, ◌∙◌, true, false, truthy, is_neg, if◌then◌else◌, arith, if_at, ℤ, eio,
}
use android_device_zte_fujis.Voice.Types.{
  active, is_inactive, open_tx, open_rx, ready_tx, ready_rx, start_tx, start_rx, enable_speaker,
  set_mic_break_det, start_voice_call, select_devices, Env, Voice, Trace, after, set_session,
  set_current,
}
use android_device_zte_fujis.Voice.Usecase.{
  sidetone_if_idle, apply_volume, fail_start, begin_call, start_pcms, open_rx_pcm, open_tx_pcm,
  voice_start_usecase,
}
use android_device_zte_fujis.Voice.Held.{Held, IsSound, Only, Only-trans}
use android_device_zte_fujis.Voice.Stopping.{
  Quiet, Quiet-Held, Quiet-Only, sidetone_if_idle-Quiet, apply_volume-Quiet, fail_start-Ended,
}

-- `pcm_start` returns 0 or a negated errno.
pub record IsErrno (e : Env) : Type 0 where
  pub tx_failed :
      (t : Trace) (i : ℕ) → truthy (e.result t (start_tx i)) ≡ is_neg (e.result t (start_tx i))
  pub rx_failed :
      (t : Trace) (i : ℕ) → truthy (e.result t (start_rx i)) ≡ is_neg (e.result t (start_rx i))

-- The session is sound, in a call unless the result is negative, and only it changed.
pub record Settled (e : Env) (i : ℕ) (s : Voice) (r : ℤ × Voice) : Type 0 where
  pub only : Only e i s r.1
  pub sound : IsSound e i r.1
  pub begun : is_neg r.0 ≡ false → is_inactive (r.1.session i).current ≡ false

module _ (e : Env) (i : ℕ) where
  Settled-after : {s t : Voice} {r : ℤ × Voice} → Only e i s t → Settled e i t r → Settled e i s r
  Settled-after only r = record { only = Only-trans only r.only; sound = r.sound; begun = r.begun }

  fail_start-Settled :
      (r : ℤ) (s : Voice) → is_neg r ≡ true → Held e i 1 s → Settled e i s (fail_start e i r s)
  unfolding fail_start
  fail_start-Settled r s failed h =
      let n = fail_start-Ended e i r s h in
      record { only = n.only; sound = n.sound; begun = λ ok. grind (arith, failed, ok) }

  activate-Settled : (r : ℤ) (s : Voice) → Held e i 1 s → Settled e i s (r, set_current i active s)
  activate-Settled r s h = ground (arith, h)

  begin_call-Settled : (s : Voice) → Held e i 1 s → Settled e i s (begin_call e i s)
  unfolding begin_call
  begin_call-Settled s h =
      let s1 = after enable_speaker s in
      let s2 = sidetone_if_idle e true i s1 in
      let s3 = apply_volume s2 in
      let s4 = after (start_voice_call i) s3 in
      let q1 : Quiet e s s1 = ground arith in
      let q2 = sidetone_if_idle-Quiet e true i s1 in
      let q3 = apply_volume-Quiet e s2 in
      let q4 : Quiet e s3 s4 = ground arith in
      let held = Quiet-Held q4 (Quiet-Held q3 (Quiet-Held q2 (Quiet-Held q1 h))) in
      let only =
        Only-trans (Quiet-Only q1)
          (Only-trans (Quiet-Only q2) (Only-trans (Quiet-Only q3) (Quiet-Only q4))) in
      let r = e.result s3.calls (start_voice_call i) in
      Settled-after only (
        if_at (Settled e i s4) (is_neg r) _ _ (λ failed. fail_start-Settled r s4 failed held)
          (λ _. activate-Settled r s4 held))

  module _ (errno : IsErrno e) where
    start_pcms-Settled : (s : Voice) → Held e i 1 s → Settled e i s (start_pcms e i s)
    unfolding start_pcms
    start_pcms-Settled s h =
        let s1 = if e.mic_break_enabled then after set_mic_break_det s else s in
        let s2 = after (start_tx i) s1 in
        let s3 = after (start_rx i) s2 in
        let q1 : Quiet e s s1 =
          if_at (λ (t : Voice). Quiet e s t) e.mic_break_enabled _ _ (λ _. ground arith)
            (λ _. ground arith) in
        let q2 : Quiet e s1 s2 = ground arith in
        let q3 : Quiet e s2 s3 = ground arith in
        let h2 = Quiet-Held q2 (Quiet-Held q1 h) in
        let o2 = Only-trans (Quiet-Only q1) (Quiet-Only q2) in
        let h3 = Quiet-Held q3 h2 in
        let o3 = Only-trans o2 (Quiet-Only q3) in
        if_at (Settled e i s) (truthy (e.result s1.calls (start_tx i))) _ _
          (λ failed.
            Settled-after o2
              (fail_start-Settled _ s2 (sym (errno.tx_failed s1.calls i) ∙ failed) h2))
          (λ _.
            if_at (Settled e i s) (truthy (e.result s2.calls (start_rx i))) _ _
              (λ failed.
                Settled-after o3
                  (fail_start-Settled _ s3 (sym (errno.rx_failed s2.calls i) ∙ failed) h3))
              (λ _. Settled-after o3 (begin_call-Settled s3 h3)))

    -- Nothing is open on the side that is opened.
    open_rx_pcm-Settled :
        (s : Voice)
        → Held e i 1 s
        → (s.session i).pcm_rx ≡ false
        → Settled e i s (open_rx_pcm e i s)
    unfolding open_rx_pcm
    open_rx_pcm-Settled s h none_open =
        let got = truthy (e.result s.calls (open_rx i)) in
        let opened = set_session i (record (s.session i) { pcm_rx = got }) (after (open_rx i) s) in
        let asked = after (ready_rx i) opened in
        let h1 : Held e i 1 opened = ground (arith, h) in
        let o1 : Only e i s opened = ground arith in
        let q : Quiet e opened asked = ground arith in
        let h2 = Quiet-Held q h1 in
        let o2 = Only-trans o1 (Quiet-Only q) in
        if_at (Settled e i s) got _ _
          (λ _.
            if_at (Settled e i s) (truthy (e.result opened.calls (ready_rx i))) _ _
              (λ _. Settled-after o2 (start_pcms-Settled asked h2))
              (λ _. Settled-after o2 (fail_start-Settled eio asked refl h2)))
          (λ _. Settled-after o1 (start_pcms-Settled opened h1))

    open_tx_pcm-Settled :
        (s : Voice)
        → Held e i 1 s
        → (s.session i).pcm_rx ≡ false
        → (s.session i).pcm_tx ≡ false
        → Settled e i s (open_tx_pcm e i s)
    unfolding open_tx_pcm
    open_tx_pcm-Settled s h no_rx no_tx =
        let got = truthy (e.result s.calls (open_tx i)) in
        let opened = set_session i (record (s.session i) { pcm_tx = got }) (after (open_tx i) s) in
        let asked = after (ready_tx i) opened in
        let h1 : Held e i 1 opened = ground (arith, h) in
        let o1 : Only e i s opened = ground arith in
        let r1 : (opened.session i).pcm_rx ≡ false = ground arith in
        let q : Quiet e opened asked = ground arith in
        let h2 = Quiet-Held q h1 in
        let o2 = Only-trans o1 (Quiet-Only q) in
        if_at (Settled e i s) got _ _
          (λ _.
            if_at (Settled e i s) (truthy (e.result opened.calls (ready_tx i))) _ _
              (λ _. Settled-after o2 (open_rx_pcm-Settled asked h2 r1))
              (λ _. Settled-after o2 (fail_start-Settled eio asked refl h2)))
          (λ _. Settled-after o1 (open_rx_pcm-Settled opened h1 r1))

    pub voice_start_usecase-Settled :
        (s : Voice)
        → IsSound e i s
        → is_inactive (s.session i).current ≡ true
        → Settled e i s (voice_start_usecase e i s)
    unfolding voice_start_usecase
    voice_start_usecase-Settled s v idle =
        let x = s.session i in
        let listed =
          after (select_devices i)
            (record (set_session i (record x { usecases = x.usecases + 1 }) s) {
              use_voice_device_mute = false;
            }) in
        let rx = v.no_rx idle in
        let tx = v.no_tx idle in
        let h : Held e i 1 listed = ground (arith, v.held) in
        let o : Only e i s listed = ground arith in
        if_at (Settled e i s) (e.has_devices i) _ _
          (λ _. Settled-after o (open_tx_pcm-Settled listed h (ground arith) (ground arith)))
          (λ _. Settled-after o (fail_start-Settled eio listed refl h))
