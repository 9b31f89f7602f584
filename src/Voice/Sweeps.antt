-- ===== src/Voice/Sweeps.antt =====
-- voice_extn.c, `update_calls`: the rounds over the sessions keep all of them sound.
use android_device_zte_fujis.Voice.Types.{
  CallState, same_state, is_inactive, Session, Env, Voice, max_voice_sessions,
}
use android_device_zte_fujis.Common.{
  ℕ, zero, suc, ◌+◌, ◌≤◌, ◌<◌, ◌≡◌, refl, sym, ◌∙◌, ap, true, false, ◌==◌, arith, ℤ, pos,
  Bool-cases, inl, inr,
}
use android_device_zte_fujis.Voice.Calls.{update_call, update_from, update_calls}
use android_device_zte_fujis.Voice.Held.{IsSound, Only}
use android_device_zte_fujis.Voice.Stopping.{Quiet}
use android_device_zte_fujis.Voice.Starting.{IsErrno}
use android_device_zte_fujis.Voice.Updates.{Updated, update_call-Updated}

-- All sessions are sound.
pub record AllSound (e : Env) (s : Voice) : Type 0 where
  pub each : (j : ℕ) → IsSound e j s

Only-others :
    {e : Env} {i : ℕ} {s t : Voice} (j : ℕ)
    → Only e i s t
    → (j == i) ≡ false
    → IsSound e j s
    → IsSound e j t
Only-others j only other v =
    let x = only.same j other in
    let rx = only.same_rx j other in
    let tx = only.same_tx j other in ground (arith, v, v.held, x, rx, tx)

Updated-AllSound : {e : Env} {i : ℕ} {s t : Voice} → Updated e i s t → AllSound e s → AllSound e t
Updated-AllSound {e = e} {i = i} {t = t} u v = record {
  each = λ j. elim (Bool-cases (j == i)) [
    | inl same ↦ let here : j ≡ i = ground arith in rw here u.sound
    | inr other ↦ Only-others j u.only other (v.each j)
  ];
}

-- A round has nothing to do for a session that is in its new state.
update_call_calm :
    (e : Env) (i : ℕ) (new current : CallState) (ret : ℤ) (s : Voice)
    → same_state new current ≡ true
    → (update_call e i new current ret s).1 ≡ s
unfolding update_call
update_call_calm e i new current ret s calm = ground arith

-- The rounds `i` to `i + k - 1` are sound, end each call that is to end, and leave alone the sessions
-- before them and those that are in their new state.
pub record Swept (e : Env) (k i : ℕ) (s t : Voice) : Type 0 where
  pub sound : AllSound e t
  pub kept : (j : ℕ) → j < i → t.session j ≡ s.session j
  pub calm :
      (j : ℕ)
      → same_state (s.session j).new (s.session j).current ≡ true
      → t.session j ≡ s.session j
  pub done :
      (j : ℕ)
      → i ≤ j
      → j < i + k
      → is_inactive (s.session j).new ≡ true
      → is_inactive (t.session j).current ≡ true

module _ (e : Env) (errno : IsErrno e) where
  pub update_from-Swept :
      (k i : ℕ) (ret : ℤ) (s : Voice) → AllSound e s → Swept e k i s (update_from e k i (ret, s)).1
  unfolding update_from
  update_from-Swept zero i ret s v = record {
    sound = v;
    kept = λ j _. refl;
    calm = λ j _. refl;
    done = λ j low high _. grind arith;
  }
  update_from-Swept (suc k) i ret s v =
      let x = update_call e i (s.session i).new (s.session i).current ret s in
      let u =
        update_call-Updated e errno i (s.session i).new (s.session i).current ret s (v.each i) refl
          refl in
      let rest = update_from-Swept k (i + 1) x.0 x.1 (Updated-AllSound u v) in
      record {
        sound = rest.sound;
        calm = λ j calm. elim (Bool-cases (j == i)) [
          | inl same ↦
              let here : j ≡ i = ground arith in
              let nothing =
                update_call_calm e i (s.session i).new (s.session i).current ret s
                  (rw (sym here) calm) in
              let stays : x.1.session j ≡ s.session j = ap (λ (t : Voice). t.session j) nothing in
              rest.calm j (rw stays calm) ∙ stays
          | inr other ↦ let stays = u.only.same j other in rest.calm j (rw stays calm) ∙ stays
        ];
        kept = λ j low. rest.kept j (omega arith) ∙ u.only.same j (ground arith);
        done = λ j low high ending. elim (Bool-cases (j == i)) [
          | inl same ↦
              let here : j ≡ i = ground arith in
              let stays = rest.kept i (omega arith) in
              let ended = u.done (rw (sym here) ending) in rw here (rw stays ended)
          | inr other ↦
              let stays = u.only.same j other in
              rest.done j (ground arith) (omega arith) (rw stays ending)
        ];
      }

  pub update_calls-AllSound : (s : Voice) → AllSound e s → AllSound e (update_calls e s).1
  unfolding update_calls
  update_calls-AllSound s v = (update_from-Swept max_voice_sessions 0 (pos 0) s v).sound

  pub Quiet-AllSound : {s t : Voice} → Quiet e s t → AllSound e s → AllSound e t
  Quiet-AllSound {t = t} q v = record {
    each = λ j.
        let x = ap (λ (f : ℕ → Session). f j) q.session_stays in
        let rx = q.rx_stays j in
        let tx = q.tx_stays j in let old = v.each j in ground (arith, old, old.held, x, rx, tx);
  }
