-- ===== src/A2dp/Frames.antt =====
-- What the helpers of a session leave alone: the session's own fields, and the stream's calls.
use android_device_zte_fujis.Common.{
  if◌then◌else◌, ◌∷◌, ◌≡◌, Bool, true, false, not, ◌&&◌, none, some, ℤ, arith, if_at, truthy, ◌∙◌,
}
use android_device_zte_fujis.A2dp.Types.{
  A2dp, Codec, sbc, aptx, aptx_hd, aac, ldac, pcm, unsupported, is_disconnected,
}
use android_device_zte_fujis.A2dp.Env.{
  Env, Routine, State, run, after, pcm_start, pcm_close, is_scrambling, set_value, scrambler_mode,
  as_is, Trace,
}
use android_device_zte_fujis.A2dp.Resources.{starts, stops, IsNeutral, write_ctl-IsNeutral}
use android_device_zte_fujis.A2dp.Backend.{check_and_set_scrambler}
use android_device_zte_fujis.A2dp.BackendNeutral.{
  set_bit_format-IsNeutral, configure_decoder_format-IsNeutral, reset_dec_config_params-IsNeutral,
  reset_backend_cfg-IsNeutral,
}
use android_device_zte_fujis.A2dp.Abr.{
  paths_on, paths_off, stop_abr, open_abr_pcm, fail_abr, start_abr_pcm, start_abr,
}
use android_device_zte_fujis.A2dp.Encoder.{
  commit, configure_sbc, configure_aptx, configure_aptx_hd, configure_aac, configure_ldac,
  take_instance, then_decoder, configure_codec, configure_encoder_format,
}
use android_device_zte_fujis.A2dp.Session.{reset_enc_config_params, end_abr, reset_config}
use android_device_zte_fujis.A2dp.Invariant.{paths_on-IsNeutral, paths_off-IsNeutral}
use android_device_zte_fujis.A2dp.InvariantEncoder.{program-IsNeutral}

pub record Frame (s u : State) : Type 0 where
  pub same_lib : u.dev.lib ≡ s.dev.lib
  pub same_syms : u.dev.syms ≡ s.dev.syms
  pub same_bt_state : u.dev.bt_state ≡ s.dev.bt_state
  pub same_started : u.dev.a2dp_started ≡ s.dev.a2dp_started
  pub same_suspended : u.dev.a2dp_suspended ≡ s.dev.a2dp_suspended
  pub same_total : u.dev.total ≡ s.dev.total
  pub same_starts : starts u.calls ≡ starts s.calls
  pub same_stops : stops u.calls ≡ stops s.calls

pub Frame-trans : {s u w : State} → Frame s u → Frame u w → Frame s w
Frame-trans p q = record {
  same_lib = q.same_lib ∙ p.same_lib;
  same_syms = q.same_syms ∙ p.same_syms;
  same_bt_state = q.same_bt_state ∙ p.same_bt_state;
  same_started = q.same_started ∙ p.same_started;
  same_suspended = q.same_suspended ∙ p.same_suspended;
  same_total = q.same_total ∙ p.same_total;
  same_starts = q.same_starts ∙ p.same_starts;
  same_stops = q.same_stops ∙ p.same_stops;
}

pub Frame-refl : (s : State) → Frame s s
Frame-refl s = ground arith

module _ (e : Env) where
  pub Frame-run : (s : State) (m : Routine) → IsNeutral m → Frame s (run m e s).1
  Frame-run s m p = ground (arith, p.same e s.calls)

  pub stop_abr-Frame : (s : State) → Frame s (stop_abr e s).1
  unfolding stop_abr
  stop_abr-Frame s =
      let closed : Frame s (record s {
        dev = record s.dev { abr_handle = false; abr_started = false; imc_instance = 0 };
        calls = if s.dev.abr_handle then pcm_close ∷ s.calls else s.calls;
      }) =
        ground arith in
      Frame-trans closed (Frame-run _ paths_off paths_off-IsNeutral)

module _ (e : Env) where
  fail_abr-Frame : (s : State) → Frame s (fail_abr e s).1
  unfolding fail_abr
  fail_abr-Frame s = stop_abr-Frame e s

  start_abr_pcm-Frame : (s : State) → Frame s (start_abr_pcm e s).1
  unfolding start_abr_pcm
  start_abr_pcm-Frame s = ground (arith, fail_abr-Frame (after pcm_start s))

  open_abr_pcm-Frame : (s : State) → Frame s (open_abr_pcm e s).1
  unfolding open_abr_pcm
  open_abr_pcm-Frame s = ground arith

  pub start_abr-Frame : (s : State) → Frame s (start_abr e s).1
  unfolding start_abr
  start_abr-Frame s =
      let P : ℤ × State → Type 0 = λ r. Frame s r.1 in
      let on = Frame-run e s paths_on paths_on-IsNeutral in
      let opened = Frame-trans on (open_abr_pcm-Frame _) in
      if_at P (not s.dev.abr_enabled) _ _ (λ _. Frame-refl s)
        (λ _.
          if_at P s.dev.abr_started _ _ (λ _. Frame-refl s)
            (λ _.
              if_at P (truthy (paths_on e s.calls).0) _ _ (λ _. on)
                (λ _.
                  if_at P (open_abr_pcm e (run paths_on e s).1).0 _ _
                    (λ _. Frame-trans opened (start_abr_pcm-Frame _))
                    (λ _. Frame-trans opened (fail_abr-Frame _)))))

  commit-Frame :
      (m : Routine) (f : A2dp → A2dp) (s : State)
      → IsNeutral m
      → Frame s (record s { dev = f s.dev })
      → Frame s (commit m f e s).1
  unfolding commit
  commit-Frame m f s p w =
      if_at (λ (r : Bool × State). Frame s r.1) (truthy (m e s.calls).0) _ _
        (λ _. Frame-run e s m p) (λ _. Frame-trans w (Frame-run e _ m p))

  then_decoder-Frame : (r : Bool × State) → Frame r.1 (then_decoder e r).1
  unfolding then_decoder
  then_decoder-Frame (false, s) = Frame-refl s
  then_decoder-Frame (true, s) = Frame-run e s _ (configure_decoder_format-IsNeutral s.dev _)

  pub configure_codec-Frame : (c : Codec) (s : State) → Frame s (configure_codec c e s).1
  unfolding configure_codec configure_sbc configure_aptx configure_aptx_hd configure_aac
      configure_ldac take_instance then_decoder
  configure_codec-Frame (sbc none) s = Frame-refl s
  configure_codec-Frame (sbc (some c)) s = commit-Frame _ _ s (program-IsNeutral _ _) (ground arith)
  configure_codec-Frame (aptx c) s =
      Frame-trans (ground arith) (commit-Frame _ _ _ (program-IsNeutral _ _) (ground arith))
  configure_codec-Frame (aptx_hd none) s = Frame-refl s
  configure_codec-Frame (aptx_hd (some c)) s =
      commit-Frame _ _ s (program-IsNeutral _ _) (ground arith)
  configure_codec-Frame (aac none) s = Frame-refl s
  configure_codec-Frame (aac (some c)) s = commit-Frame _ _ s (program-IsNeutral _ _) (ground arith)
  configure_codec-Frame (ldac none) s =
      let taken : Frame s (record s { dev = take_instance s.dev }) = ground arith in taken
  configure_codec-Frame (ldac (some c)) s = Frame-trans (ground arith) (
      Frame-trans
        (commit-Frame _ _ (record s { dev = take_instance s.dev }) (program-IsNeutral _ _)
          (ground arith))
        (then_decoder-Frame _))
  configure_codec-Frame pcm s = ground arith
  configure_codec-Frame unsupported s = Frame-refl s

module _ (e : Env) where
  pub configure_encoder_format-Frame : (s : State) → Frame s (configure_encoder_format e s).1
  unfolding configure_encoder_format
  configure_encoder_format-Frame s =
      if_at (λ (r : Bool × State). Frame s r.1) s.dev.syms.audio_get_codec_config _ _
        (λ _. Frame-trans (ground arith) (configure_codec-Frame e (e.codec s.calls) _))
        (λ _. Frame-refl s)

  end_abr-Frame : (s : State) → Frame s (end_abr e s)
  unfolding end_abr
  end_abr-Frame s = ground (arith, stop_abr-Frame e s)

  reset_enc_config_params-Frame : (s : State) → Frame s (reset_enc_config_params e s).1
  unfolding reset_enc_config_params
  reset_enc_config_params-Frame s =
      Frame-trans (ground arith) (Frame-run e _ _ (set_bit_format-IsNeutral 16))

  pub reset_config-Frame : (s : State) → Frame s (reset_config e s)
  unfolding reset_config
  reset_config-Frame s = Frame-trans (reset_enc_config_params-Frame s) (
      Frame-trans (Frame-run e _ _ (reset_dec_config_params-IsNeutral _))
        (Frame-trans (Frame-run e _ _ (reset_backend_cfg-IsNeutral _)) (end_abr-Frame _)))

  pub scrambler-Frame : (s : State) → Frame s (run (check_and_set_scrambler s.dev) e s).1
  unfolding check_and_set_scrambler
  scrambler-Frame s =
      let P : ℤ × Trace → Type 0 = λ r. Frame s (record s { calls = r.1 }) in
      let asked : Frame s (after is_scrambling s) = ground arith in
      if_at P (s.dev.syms.audio_is_scrambling_enabled && not (is_disconnected s.dev.bt_state)) _ _
        (λ _.
          if_at P (truthy (e.result s.calls is_scrambling)) _ _
            (λ _. Frame-trans asked (
              Frame-run e _ _
                (write_ctl-IsNeutral as_is scrambler_mode (set_value scrambler_mode 1) tt)))
            (λ _. asked))
        (λ _. Frame-refl s)
