-- ===== src/A2dp/InvariantEncoder.antt =====
-- The configuration of the encoder keeps the invariant, while no feedback is running.
use android_device_zte_fujis.Common.{
  ℕ, ◌≡◌, Bool, true, false, some, none, Option, arith, if_at, Bool-cases, inl, inr, truthy,
}
use android_device_zte_fujis.A2dp.Types.{
  A2dp, Payload, Codec, sbc, aptx, aptx_hd, aac, ldac, pcm, unsupported, SbcConfig, AptxConfig,
  AacConfig, LdacConfig,
}
use android_device_zte_fujis.A2dp.Env.{Env, Routine, State, run, set_array, enc_config_block, as_is}
use android_device_zte_fujis.A2dp.Resources.{IsNeutral, then-IsNeutral, write_ctl-IsNeutral}
use android_device_zte_fujis.A2dp.BackendNeutral.{
  set_bit_format-IsNeutral, configure_decoder_format-IsNeutral,
}
use android_device_zte_fujis.A2dp.Encoder.{
  program, commit, configure_sbc, configure_aptx, configure_aptx_hd, configure_aac, configure_ldac,
  take_instance, then_decoder, configure_codec, configure_encoder_format,
}
use android_device_zte_fujis.A2dp.Invariant.{Inv, Inv-run}

pub record Idle (e : Env) (lib suspended : Bool) (s : State) : Type 0 where
  pub inv : Inv e lib suspended s
  pub off : s.dev.abr_started ≡ false

pub program-IsNeutral : (p : Payload) (bits : ℕ) → IsNeutral (program p bits)
unfolding program
program-IsNeutral p bits =
    then-IsNeutral (write_ctl-IsNeutral as_is enc_config_block (set_array enc_config_block p) tt)
      (set_bit_format-IsNeutral bits)

module _ {e : Env} {lib suspended : Bool} where
  pub Idle-run :
      {s : State} (m : Routine)
      → IsNeutral m
      → Idle e lib suspended s
      → Idle e lib suspended (run m e s).1
  Idle-run m p v = record { inv = Inv-run m p v.inv; off = v.off }

module _ {e : Env} {lib suspended : Bool} where
  commit-Idle :
      (m : Routine) (f : A2dp → A2dp) (s : State)
      → IsNeutral m
      → Idle e lib suspended s
      → Idle e lib suspended (record s { dev = f s.dev })
      → Idle e lib suspended (commit m f e s).1
  unfolding commit
  commit-Idle m f s p v w = elim (Bool-cases (truthy (m e s.calls).0)) [
    | inl failed ↦ rw failed (Idle-run m p v)
    | inr done ↦ rw done (Idle-run m p w)
  ]

module _ {e : Env} {lib suspended : Bool} {s : State} (v : Idle e lib suspended s) where
  configure_sbc-Idle : (c : Option SbcConfig) → Idle e lib suspended (configure_sbc c e s).1
  unfolding configure_sbc
  configure_sbc-Idle none = v
  configure_sbc-Idle (some c) = commit-Idle _ _ s (program-IsNeutral _ _) v (ground arith)

  configure_aptx-Idle : (c : AptxConfig) → Idle e lib suspended (configure_aptx c e s).1
  unfolding configure_aptx
  configure_aptx-Idle c = commit-Idle _ _ s (program-IsNeutral _ _) v (ground arith)

  configure_aptx_hd-Idle :
      (c : Option AptxConfig) → Idle e lib suspended (configure_aptx_hd c e s).1
  unfolding configure_aptx_hd
  configure_aptx_hd-Idle none = v
  configure_aptx_hd-Idle (some c) = commit-Idle _ _ s (program-IsNeutral _ _) v (ground arith)

  configure_aac-Idle : (c : Option AacConfig) → Idle e lib suspended (configure_aac c e s).1
  unfolding configure_aac
  configure_aac-Idle none = v
  configure_aac-Idle (some c) = commit-Idle _ _ s (program-IsNeutral _ _) v (ground arith)

  configure_ldac-Idle : (c : Option LdacConfig) → Idle e lib suspended (configure_ldac c e s).1
  unfolding configure_ldac
  configure_ldac-Idle none = v
  configure_ldac-Idle (some c) = commit-Idle _ _ s (program-IsNeutral _ _) v (ground arith)

  take_instance-Idle : Idle e lib suspended (record s { dev = take_instance s.dev })
  unfolding take_instance
  take_instance-Idle = ground arith

module _ {e : Env} {lib suspended : Bool} where
  then_decoder-Idle :
      (r : Bool × State) → Idle e lib suspended r.1 → Idle e lib suspended (then_decoder e r).1
  unfolding then_decoder
  then_decoder-Idle (false, s) v = v
  then_decoder-Idle (true, s) v = Idle-run _ (configure_decoder_format-IsNeutral s.dev _) v

  configure_codec-Idle :
      (c : Codec) (s : State)
      → Idle e lib suspended s
      → Idle e lib suspended (configure_codec c e s).1
  unfolding configure_codec
  configure_codec-Idle (sbc c) s v = configure_sbc-Idle v c
  configure_codec-Idle (aptx c) s v = configure_aptx-Idle (ground arith) c
  configure_codec-Idle (aptx_hd c) s v = configure_aptx_hd-Idle v c
  configure_codec-Idle (aac c) s v = configure_aac-Idle v c
  configure_codec-Idle (ldac c) s v =
      then_decoder-Idle _ (configure_ldac-Idle (take_instance-Idle v) c)
  configure_codec-Idle pcm s v = ground arith
  configure_codec-Idle unsupported s v = v

  -- The library is mapped when its codec configuration is asked for.
  pub configure_encoder_format-Idle :
      (s : State)
      → lib ≡ true
      → Idle e lib suspended s
      → Idle e lib suspended (configure_encoder_format e s).1
  unfolding configure_encoder_format
  configure_encoder_format-Idle s mapped v =
      if_at (λ (r : Bool × State). Idle e lib suspended r.1) s.dev.syms.audio_get_codec_config _ _
        (λ _. configure_codec-Idle (e.codec s.calls) _ (ground arith)) (λ _. v)
