-- ===== src/A2dp/Sessions.antt =====
-- What starting and stopping a playback session does, on every branch.
use android_device_zte_fujis.Common.{
  [], refl, ℕ, ◌∙◌, List, ◌∷◌, ◌+◌, ◌-◌, ◌<◌, ◌≡◌, Bool, true, false, not, ◌&&◌, ◌==◌, pos,
  etimedout, arith, if_at, if◌then◌else◌,
}
use android_device_zte_fujis.A2dp.Env.{
  start, stop, SessionOp, Env, State, after, stream_start, stream_stop,
}
use android_device_zte_fujis.A2dp.Session.{
  session_op, session_ops, begin_stream, enter_session, first_session, start_playback, end_stream,
  stop_playback,
}
use android_device_zte_fujis.A2dp.Resources.{starts, stops}
use android_device_zte_fujis.A2dp.BackendNeutral.{set_backend_cfg-IsNeutral}
use android_device_zte_fujis.A2dp.Frames.{
  Frame, Frame-trans, Frame-run, start_abr-Frame, scrambler-Frame, configure_encoder_format-Frame,
  reset_config-Frame,
}

-- The library is mapped and has the functions that a start and a stop need.
pub record IsLinked (s : State) : Type 0 where
  pub mapped : s.dev.lib ≡ true
  pub has_start : s.dev.syms.audio_stream_start ≡ true
  pub has_codec : s.dev.syms.audio_get_codec_config ≡ true
  pub has_stop : s.dev.syms.audio_stream_stop ≡ true

-- A start has to ask the stream to start: it is the first session.
abbrev pub is_first : State → Bool
is_first s = not s.dev.a2dp_started && s.dev.total == 0

module _ (e : Env) (s : State) where
  begin_stream-calls :
      let u = (begin_stream e s).1 in
      (starts u.calls ≡ starts s.calls + 1)
      × (stops u.calls ≡ stops s.calls)
      × (u.dev.total ≡ s.dev.total)
      × ((begin_stream e s).0 ≡ (if u.dev.a2dp_started then pos 0 else etimedout))
  unfolding begin_stream
  begin_stream-calls = ground (arith, configure_encoder_format-Frame e (after stream_start s))

  enter_session-Frame :
      Frame (record s { dev = record s.dev { total = s.dev.total + 1 } }) (enter_session e s)
  unfolding enter_session
  enter_session-Frame =
      let counted = record s { dev = record s.dev { total = s.dev.total + 1 } } in
      let prepared =
        Frame-trans (scrambler-Frame e counted) (Frame-run e _ _ (set_backend_cfg-IsNeutral _)) in
      if_at (Frame counted) s.dev.abr_enabled _ _ (λ _. Frame-trans prepared (start_abr-Frame e _))
        (λ _. prepared)

  first_session-calls :
      let u = (first_session e s).1 in
      (starts u.calls ≡ starts s.calls + (if is_first s then 1 else 0))
      × (stops u.calls ≡ stops s.calls)
      × (u.dev.total ≡ s.dev.total)
      × ((first_session e s).0
          ≡ (if is_first s && not u.dev.a2dp_started then etimedout else pos 0))
      × (is_first s ≡ false → u.dev.a2dp_started ≡ s.dev.a2dp_started)
  unfolding first_session
  first_session-calls = ground (arith, begin_stream-calls)

module _ (e : Env) (s : State) where
  -- With the library linked and playback not suspended, a start asks the stream to start exactly if
  -- playback is not started and there is no session, never stops it, counts a session exactly if
  -- playback is started afterwards, and fails, with -ETIMEDOUT, exactly if it asked the stream to
  -- start and playback is not started afterwards. A start that asks nothing leaves the flag alone.
  pub start_playback_lem :
      IsLinked s
      → s.dev.a2dp_suspended ≡ false
      → let u = (start_playback e s).1 in
        (starts u.calls ≡ starts s.calls + (if is_first s then 1 else 0))
        × (stops u.calls ≡ stops s.calls)
        × (u.dev.total ≡ s.dev.total + (if u.dev.a2dp_started then 1 else 0))
        × ((start_playback e s).0
            ≡ (if is_first s && not u.dev.a2dp_started then etimedout else pos 0))
        × (is_first s ≡ false → u.dev.a2dp_started ≡ s.dev.a2dp_started)
  unfolding start_playback
  start_playback_lem linked awake =
      ground (arith, linked, first_session-calls e s, enter_session-Frame e (first_session e s).1)

  end_stream-calls :
      let u = end_stream e s in
      (starts u.calls ≡ starts s.calls)
      × (stops u.calls ≡ stops s.calls + 1)
      × (u.dev.total ≡ s.dev.total)
      × (u.dev.a2dp_started ≡ false)
  unfolding end_stream
  end_stream-calls = ground (arith, reset_config-Frame e (after stream_stop s))

-- A stop ends the last session, or finds none left, while playback is started.
abbrev pub is_last : State → Bool
is_last s = s.dev.a2dp_started && s.dev.total - 1 == 0

module _ (e : Env) (s : State) where
  -- With the library linked, a stop returns 0, gives one session back if there is one, and asks the
  -- stream to stop, once, exactly if playback is started and no session is left; then, and only
  -- then, the flag changes, to not started. It never asks the stream to start.
  pub stop_playback_lem :
      IsLinked s
      → let u = (stop_playback e s).1 in
        ((stop_playback e s).0 ≡ pos 0)
        × (u.dev.total ≡ s.dev.total - 1)
        × (stops u.calls ≡ stops s.calls + (if is_last s then 1 else 0))
        × (starts u.calls ≡ starts s.calls)
        × (u.dev.a2dp_started ≡ (s.dev.a2dp_started && not (is_last s)))
  unfolding stop_playback
  stop_playback_lem linked = ground (
    arith,
    linked,
    end_stream-calls e (record s { dev = record s.dev { total = s.dev.total - 1 } }),
  )

  -- The session's fields that an accepted start or stop keeps.
  start_playback-keeps :
      ((start_playback e s).1.dev.lib ≡ s.dev.lib)
      × ((start_playback e s).1.dev.syms ≡ s.dev.syms)
      × ((start_playback e s).1.dev.a2dp_suspended ≡ s.dev.a2dp_suspended)
  unfolding start_playback first_session begin_stream
  start_playback-keeps = ground (
    arith,
    enter_session-Frame e (first_session e s).1,
    configure_encoder_format-Frame e (after stream_start s),
  )

  stop_playback-keeps :
      ((stop_playback e s).1.dev.lib ≡ s.dev.lib)
      × ((stop_playback e s).1.dev.syms ≡ s.dev.syms)
      × ((stop_playback e s).1.dev.a2dp_suspended ≡ s.dev.a2dp_suspended)
  unfolding stop_playback end_stream
  stop_playback-keeps = ground (
    arith,
    reset_config-Frame e (record s {
      dev = record s.dev { total = s.dev.total - 1 };
      calls = stream_stop ∷ s.calls;
    }),
  )

-- The sessions as the clients see them: a number.
abbrev pub sessions : List SessionOp → ℕ → ℕ
sessions [] n = n
sessions (start ∷ os) n = sessions os (n + 1)
sessions (stop ∷ os) n = sessions os (n - 1)

-- A session is left after every operation.
abbrev pub StaysOpen : List SessionOp → ℕ → Type 0
StaysOpen [] n = Unit {0}
StaysOpen (start ∷ os) n = StaysOpen os (n + 1)
StaysOpen (stop ∷ os) n = (1 < n) × StaysOpen os (n - 1)

pub record InSession (s : State) : Type 0 where
  pub linked : IsLinked s
  pub awake : s.dev.a2dp_suspended ≡ false
  pub playing : s.dev.a2dp_started ≡ true

module _ (e : Env) where
  start_playback-InSession : (s : State) → InSession s → InSession (start_playback e s).1
  start_playback-InSession s i =
      ground (arith, i, i.linked, start_playback_lem e s i.linked i.awake, start_playback-keeps e s)

  stop_playback-InSession :
      (s : State) → 1 < s.dev.total → InSession s → InSession (stop_playback e s).1
  stop_playback-InSession s h i =
      ground (arith, i, i.linked, stop_playback_lem e s i.linked, stop_playback-keeps e s)

module _ (e : Env) where
  -- While playback is started, linked and not suspended, a sequence of starts and stops that always
  -- leaves a session counts exactly as the clients do, keeps playback started, and asks the stream
  -- neither to start nor to stop.
  pub session_ops-sessions :
      (os : List SessionOp) (s : State)
      → InSession s
      → StaysOpen os s.dev.total
      → let u = session_ops e os s in
        InSession u
        × (u.dev.total ≡ sessions os s.dev.total)
        × (starts u.calls ≡ starts s.calls)
        × (stops u.calls ≡ stops s.calls)
  unfolding session_ops session_op
  session_ops-sessions [] s i o = (i, refl, refl, refl)
  session_ops-sessions (start ∷ os) s i o =
      let done = start_playback_lem e s i.linked i.awake in
      let total : (start_playback e s).1.dev.total ≡ s.dev.total + 1 = ground (arith, done, i) in
      let (j, p, q, r) =
        session_ops-sessions os (start_playback e s).1 (start_playback-InSession e s i)
          (rw total o) in
      (j, rw total at p, ground (arith, done, q, i), r ∙ done.1)
  session_ops-sessions (stop ∷ os) s i o =
      let done = stop_playback_lem e s i.linked in
      let (j, p, q, r) =
        session_ops-sessions os (stop_playback e s).1 (stop_playback-InSession e s o.0 i)
          (rw done.1 o.1) in
      (j, rw done.1 at p, q ∙ done.3, ground (arith, done, r, o.0))
