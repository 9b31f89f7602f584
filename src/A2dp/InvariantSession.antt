-- ===== src/A2dp/InvariantSession.antt =====
-- Every operation of a2dp.c keeps the invariant.
use android_device_zte_fujis.Common.{
  ◌+◌, ◌-◌, ◌≡◌, Bool, true, false, not, ◌&&◌, ◌==◌, ◌∷◌, [], List, arith, if_at, Bool-cases, inl,
  inr, truthy, ℤ, if◌then◌else◌,
}
use android_device_zte_fujis.A2dp.Types.{is_disconnected}
use android_device_zte_fujis.A2dp.Env.{
  Env, Trace, State, SessionOp, start, stop, run, after, scrambler_mode, set_value, is_scrambling,
  stream_start, stream_stop, as_is,
}
use android_device_zte_fujis.A2dp.Resources.{write_ctl-IsNeutral}
use android_device_zte_fujis.A2dp.Backend.{check_and_set_scrambler}
use android_device_zte_fujis.A2dp.BackendNeutral.{
  set_bit_format-IsNeutral, set_backend_cfg-IsNeutral, reset_backend_cfg-IsNeutral,
  reset_dec_config_params-IsNeutral,
}
use android_device_zte_fujis.A2dp.Abr.{start_abr}
use android_device_zte_fujis.A2dp.Session.{
  reset_enc_config_params, end_abr, reset_config, begin_stream, enter_session, first_session,
  start_playback, end_stream, stop_playback, session_op, session_ops, Usecase, restore_all,
}
use android_device_zte_fujis.A2dp.Invariant.{
  Inv, Inv-run, Inv-Opened, stop_abr-Inv, stop_abr-off, start_abr-Inv,
}
use android_device_zte_fujis.A2dp.InvariantEncoder.{Idle, configure_encoder_format-Idle}

module _ {e : Env} {lib suspended : Bool} {s : State} where
  pub reset_enc_config_params-Inv :
      Inv e lib suspended s → Inv e lib suspended (reset_enc_config_params e s).1
  unfolding reset_enc_config_params
  reset_enc_config_params-Inv v = Inv-run _ (set_bit_format-IsNeutral 16) (ground arith)

  end_abr-Idle : Inv e lib suspended s → Idle e lib suspended (end_abr e s)
  unfolding end_abr
  end_abr-Idle v = ground (arith, stop_abr-Inv (Inv-Opened v), stop_abr-off e s)

  scrambler-Inv :
      Inv e lib suspended s → Inv e lib suspended (run (check_and_set_scrambler s.dev) e s).1
  unfolding check_and_set_scrambler
  scrambler-Inv v =
      if_at (λ (r : ℤ × Trace). Inv e lib suspended (record s { calls = r.1 }))
        (s.dev.syms.audio_is_scrambling_enabled && not (is_disconnected s.dev.bt_state)) _ _
        (λ asked.
          let w : Inv e lib suspended (after is_scrambling s) = ground arith in
          if_at (λ (r : ℤ × Trace). Inv e lib suspended (record s { calls = r.1 }))
            (truthy (e.result s.calls is_scrambling)) _ _
            (λ _.
              Inv-run _ (write_ctl-IsNeutral as_is scrambler_mode (set_value scrambler_mode 1) tt)
                w)
            (λ _. w))
        (λ _. v)

module _ {e : Env} {lib suspended : Bool} where
  -- After a reset the feedback is off.
  pub reset_config-Idle :
      (s : State) → Inv e lib suspended s → Idle e lib suspended (reset_config e s)
  unfolding reset_config
  reset_config-Idle s v = end_abr-Idle (
      Inv-run _ (reset_backend_cfg-IsNeutral _)
        (Inv-run _ (reset_dec_config_params-IsNeutral _) (reset_enc_config_params-Inv v)))

  begin_stream-Inv :
      (s : State) → lib ≡ true → Idle e lib suspended s → Inv e lib suspended (begin_stream e s).1
  unfolding begin_stream
  begin_stream-Inv s mapped v =
      let asked : Idle e lib suspended (after stream_start s) = ground arith in
      let done = configure_encoder_format-Idle (after stream_start s) mapped asked in
      if_at (λ (r : ℤ × State). Inv e lib suspended r.1) (truthy (e.result s.calls stream_start)) _
        _ (λ _. ground arith) (λ _. ground (arith, done))

module _ {e : Env} {lib suspended : Bool} where
  -- The end of a start, from a state in which the stream has started.
  pub abr_or_not-Inv :
      (s : State)
      → s.dev.a2dp_started ≡ true
      → Inv e lib suspended s
      → Inv e lib suspended (if s.dev.abr_enabled then (start_abr e s).1 else s)
  abr_or_not-Inv s started v =
      if_at (Inv e lib suspended) s.dev.abr_enabled _ _ (λ _. start_abr-Inv v started) (λ _. v)

  enter_session-Inv :
      (s : State)
      → s.dev.a2dp_started ≡ true
      → Inv e lib suspended s
      → Inv e lib suspended (enter_session e s)
  unfolding enter_session
  enter_session-Inv s started v =
      let counted : Inv e lib suspended
          (record s { dev = record s.dev { total = s.dev.total + 1 } }) =
        ground arith in
      abr_or_not-Inv _ started (Inv-run _ (set_backend_cfg-IsNeutral _) (scrambler-Inv counted))

  first_session-Inv :
      (s : State)
      → lib ≡ true
      → suspended ≡ false
      → Inv e lib suspended s
      → Inv e lib suspended (first_session e s).1
  unfolding first_session
  first_session-Inv s mapped awake v =
      if_at (λ (r : ℤ × State). Inv e lib suspended r.1)
        (not s.dev.a2dp_started && s.dev.total == 0) _ _
        (λ fresh. begin_stream-Inv s mapped (record { inv = v; off = ground arith })) (λ _. v)

  pub start_playback-Inv :
      (s : State) → Inv e lib suspended s → Inv e lib suspended (start_playback e s).1
  unfolding start_playback
  start_playback-Inv s v =
      let P : ℤ × State → Type 0 = λ r. Inv e lib suspended r.1 in
      if_at P
        (not (s.dev.lib && s.dev.syms.audio_stream_start && s.dev.syms.audio_get_codec_config)) _ _
        (λ _. v)
        (λ linked.
          if_at P s.dev.a2dp_suspended _ _ (λ _. v)
            (λ awake.
              let begun = first_session-Inv s (ground arith) (ground arith) v in
              if_at (Inv e lib suspended) (first_session e s).1.dev.a2dp_started _ _
                (λ started. enter_session-Inv _ started begun) (λ _. begun)))

  end_stream-Inv :
      (s : State) → lib ≡ true → Inv e lib suspended s → Inv e lib suspended (end_stream e s)
  unfolding end_stream
  end_stream-Inv s mapped v =
      let asked : Inv e lib suspended (after stream_stop s) = ground arith in
      let reset = reset_config-Idle _ asked in
      elim (Bool-cases s.dev.a2dp_suspended) [
        | inl asleep ↦ ground arith
        | inr awake ↦ ground arith
      ]

  pub stop_playback-Inv :
      (s : State) → Inv e lib suspended s → Inv e lib suspended (stop_playback e s).1
  unfolding stop_playback
  stop_playback-Inv s v =
      let left : Inv e lib suspended (record s { dev = record s.dev { total = s.dev.total - 1 } }) =
        ground arith in
      if_at (λ (r : ℤ × State). Inv e lib suspended r.1)
        (not (s.dev.lib && s.dev.syms.audio_stream_stop)) _ _ (λ _. v)
        (λ linked.
          if_at (Inv e lib suspended) (s.dev.a2dp_started && s.dev.total - 1 == 0) _ _
            (λ _. end_stream-Inv _ (ground arith) left) (λ _. left))

  session_ops-Inv :
      (os : List SessionOp) (s : State)
      → Inv e lib suspended s
      → Inv e lib suspended (session_ops e os s)
  unfolding session_ops session_op
  session_ops-Inv [] s v = v
  session_ops-Inv (start ∷ os) s v = session_ops-Inv os _ (start_playback-Inv s v)
  session_ops-Inv (stop ∷ os) s v = session_ops-Inv os _ (stop_playback-Inv s v)

  -- Whatever sessions `check_a2dp_restore` starts and stops in between.
  pub restore_all-Inv :
      (b : Bool) (us : List Usecase) (s : State)
      → Inv e lib suspended s
      → Inv e lib suspended (restore_all e b us s)
  unfolding restore_all
  restore_all-Inv b [] s v = v
  restore_all-Inv b (u ∷ us) s v = restore_all-Inv b us _ (
      if_at (Inv e lib suspended) (u.is_playback && u.on_a2dp) _ _
        (λ _. session_ops-Inv (e.restore s.calls u.id b) s v) (λ _. v))
