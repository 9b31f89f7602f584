-- ===== src/A2dp/Resuming.antt =====
-- a2dp.c, `audio_extn_a2dp_set_parameters` with A2dpSuspended=false: a resumption that fails.
use android_device_zte_fujis.Common.{
  ℕ, zero, suc, ◌<◌, ◌≡◌, refl, ◌∙◌, ap, Bool, true, false, ◌&&◌, List, [], ◌∷◌, ℤ, pos, truthy,
  arith, if_at, if◌then◌else◌,
}
use android_device_zte_fujis.A2dp.Types.{A2dp}
use android_device_zte_fujis.A2dp.Env.{
  start, stop, SessionOp, Env, State, Trace, after, stream_start, clear_suspend_flag,
}
use android_device_zte_fujis.A2dp.Session.{
  Usecase, session_op, session_ops, first_session, start_playback, restore_all, restart_stream,
  rejoin_sessions, resume,
}
use android_device_zte_fujis.A2dp.Sessions.{IsLinked}

abbrev pub only_starts : List SessionOp → Bool
only_starts [] = true
only_starts (start ∷ os) = only_starts os
only_starts (stop ∷ os) = false

abbrev pub many_starts : ℕ → List SessionOp
many_starts zero = []
many_starts (suc n) = start ∷ many_starts n

only_starts-many_starts : (n : ℕ) → only_starts (many_starts n) ≡ true
only_starts-many_starts zero = refl
only_starts-many_starts (suc n) = only_starts-many_starts n

-- Sessions are counted though playback is neither started nor suspended.
record IsStuck (s : State) : Type 0 where
  linked : IsLinked s
  awake : s.dev.a2dp_suspended ≡ false
  stopped : s.dev.a2dp_started ≡ false
  counted : 0 < s.dev.total

-- The state in which a resumption asks the stream to start.
abbrev pub cleared : State → State
cleared s = if s.dev.syms.clear_a2dp_suspend_flag then after clear_suspend_flag s else s

dev-cleared : (s : State) → (cleared s).dev ≡ s.dev
dev-cleared s =
    if_at (λ (t : State). t.dev ≡ s.dev) s.dev.syms.clear_a2dp_suspend_flag
      (after clear_suspend_flag s) s (λ on. refl) (λ off. refl)

module _ (e : Env) where
  start_stuck : (s : State) → IsStuck s → start_playback e s ≡ (pos 0, s)
  unfolding start_playback first_session
  start_stuck s stuck = ground (arith, stuck.linked, stuck)

  starts_stuck :
      (os : List SessionOp) (s : State) → only_starts os ≡ true → IsStuck s → session_ops e os s ≡ s
  unfolding session_ops session_op
  starts_stuck [] s only stuck = refl
  starts_stuck (start ∷ os) s only stuck =
      ap (λ (r : ℤ × State). session_ops e os r.1) (start_stuck s stuck)
      ∙ starts_stuck os s only stuck
  starts_stuck (stop ∷ os) s only stuck = ground arith

  module _ (restoring : (t : Trace) (id : ℕ) → only_starts (e.restore t id true) ≡ true) where
    restore_stuck : (us : List Usecase) (s : State) → IsStuck s → restore_all e true us s ≡ s
    unfolding restore_all
    restore_stuck [] s stuck = refl
    restore_stuck (u ∷ us) s stuck =
        if_at (λ (r : State). restore_all e true us r ≡ s) (u.is_playback && u.on_a2dp)
          (session_ops e (e.restore s.calls u.id true) s) s
          (λ on.
            ap (restore_all e true us)
              (starts_stuck (e.restore s.calls u.id true) s (restoring s.calls u.id) stuck)
            ∙ restore_stuck us s stuck)
          (λ off. restore_stuck us s stuck)

    rejoin-IsStuck :
        (s : State)
        → IsLinked s
        → s.dev.a2dp_suspended ≡ false
        → 0 < s.dev.total
        → truthy (e.result s.calls stream_start) ≡ true
        → ((rejoin_sessions e s).0 ≡ e.result s.calls stream_start)
          × ((rejoin_sessions e s).1.dev.total ≡ s.dev.total)
          × IsStuck (rejoin_sessions e s).1
    unfolding rejoin_sessions restart_stream
    rejoin-IsStuck s linked awake counted fails = ground (arith, linked)

    -- Where restoring a usecase only starts sessions, and the library is linked: a resumption with
    -- sessions counted, for which the stream does not start, returns the stream's error and keeps the
    -- sessions counted, but playback is not started, and however often a session is started after it,
    -- 0 is returned and nothing happens at all.
    pub resume_ignores_starts :
        (us : List Usecase) (n : ℕ) (s : State)
        → IsLinked s
        → 0 < s.dev.total
        → truthy (e.result (cleared s).calls stream_start) ≡ true
        → let u = (resume e us s).1 in
          ((resume e us s).0 ≡ e.result (cleared s).calls stream_start)
          × (u.dev.total ≡ s.dev.total)
          × (u.dev.a2dp_started ≡ false)
          × (session_ops e (many_starts n) u ≡ u)
          × (start_playback e u ≡ (pos 0, u))
    unfolding resume
    resume_ignores_starts us n s linked counted fails =
        let awakened = record (cleared s) {
          dev = record (cleared s).dev { a2dp_suspended = false };
        } in
        let v = (rejoin_sessions e awakened).1 in
        let same = dev-cleared s in
        let linked_still : IsLinked awakened = ground (arith, linked, same) in
        let (code, total, stuck) =
          rejoin-IsStuck awakened linked_still refl (ground (arith, counted, same)) fails in
        rw (restore_stuck us v stuck) (
          code,
          total ∙ ap (λ (t : A2dp). t.total) same,
          stuck.stopped,
          starts_stuck (many_starts n) v (only_starts-many_starts n) stuck,
          start_stuck v stuck,
        )
