-- ===== src/A2dp/EncoderLaws.antt =====
-- What the configuration of the encoder writes to the DSP and to the state.
use android_device_zte_fujis.Common.{
  ℕ, ◌≡◌, refl, Bool, true, false, ◌==◌, ◌∷◌, none, some, arith, truthy, if◌then◌else◌,
}
use android_device_zte_fujis.A2dp.Types.{
  A2dp, Codec, sbc, aptx, aptx_hd, aac, ldac, pcm, unsupported, Payload, codec_type_sbc,
  codec_type_aptx, codec_type_aptx_hd, codec_type_aac, codec_type_ldac, codec_type_pcm, dec_block,
}
use android_device_zte_fujis.A2dp.Env.{
  get_ctl, set_array, set_enum, enc_config_block, enc_bit_format, dec_config_block, write_ctl,
  Trace, Env, State, Routine,
}
use android_device_zte_fujis.A2dp.Backend.{
  set_bit_format, bit_format, configure_decoder_format, imc_info, imc_transmit,
}
use android_device_zte_fujis.A2dp.Encoder.{
  program, commit, sbc_channel_mode, configure_sbc, configure_aptx, configure_aptx_hd,
  configure_aac, ldac_channels, configure_ldac, take_instance, then_decoder, configure_codec,
}

-- The format, the sampling rate and the number of channels that a state has configured.
abbrev pub settings : A2dp → ℕ × ℕ × ℕ
settings a = (a.encoder_format, a.enc_sampling_rate, a.enc_channels)

-- What the Bluetooth library negotiated: mono is channel mode 0 for SBC and 4 for LDAC; PCM names
-- no rate and no channels.
abbrev pub negotiated : Codec → A2dp → ℕ × ℕ × ℕ
negotiated (sbc (some c)) a = (codec_type_sbc, c.sampling_rate, if c.channels == 0 then 1 else 2)
negotiated (aptx c) a = (codec_type_aptx, c.sampling_rate, c.channels)
negotiated (aptx_hd (some c)) a = (codec_type_aptx_hd, c.sampling_rate, c.channels)
negotiated (aac (some c)) a = (codec_type_aac, c.sampling_rate, c.channels)
negotiated (ldac (some c)) a =
    (codec_type_ldac, c.sampling_rate, if c.channel_mode == 4 then 1 else 2)
negotiated pcm a = (codec_type_pcm, a.enc_sampling_rate, a.enc_channels)
negotiated _ a = settings a

abbrev pub is_ldac : Codec → Bool
is_ldac (ldac _) = true
is_ldac _ = false

module _ (m : Routine) (f : A2dp → A2dp) (e : Env) (s : State) where
  pub commit-ok : (commit m f e s).0 ≡ true → (commit m f e s).1.dev ≡ f s.dev
  unfolding commit
  commit-ok h = ground arith

  commit-failed : (commit m f e s).0 ≡ false → (commit m f e s).1.dev ≡ s.dev
  unfolding commit
  commit-failed h = ground arith

mono_iff : (n : ℕ) → (sbc_channel_mode n == 1) ≡ (n == 0)
unfolding sbc_channel_mode
mono_iff n = ground arith

module _ (e : Env) where
  pub then_decoder-dev : (r : Bool × State) → (then_decoder e r).1.dev ≡ r.1.dev
  unfolding then_decoder
  then_decoder-dev (false, s) = refl
  then_decoder-dev (true, s) = refl

  pub then_decoder-ok : (r : Bool × State) → (then_decoder e r).0 ≡ true → r.0 ≡ true
  unfolding then_decoder
  then_decoder-ok (false, s) h = h
  then_decoder-ok (true, s) h = refl

  -- If the configuration of a codec succeeds, the state has the format, the rate and the channels
  -- that were negotiated.
  pub configure_codec-negotiated :
      (c : Codec) (s : State)
      → (configure_codec c e s).0 ≡ true
      → settings (configure_codec c e s).1.dev ≡ negotiated c s.dev
  unfolding configure_codec configure_sbc configure_aptx configure_aptx_hd configure_aac
      configure_ldac take_instance ldac_channels
  configure_codec-negotiated (sbc none) s h = cc
  configure_codec-negotiated (sbc (some c)) s h =
      ground (arith, commit-ok _ _ e s h, mono_iff c.channels)
  configure_codec-negotiated (aptx c) s h = rw (commit-ok _ _ e _ h) refl
  configure_codec-negotiated (aptx_hd none) s h = cc
  configure_codec-negotiated (aptx_hd (some c)) s h = rw (commit-ok _ _ e _ h) refl
  configure_codec-negotiated (aac none) s h = cc
  configure_codec-negotiated (aac (some c)) s h = rw (commit-ok _ _ e _ h) refl
  configure_codec-negotiated (ldac none) s h =
      cc (then_decoder-ok (false, record s { dev = take_instance s.dev }) h)
  configure_codec-negotiated (ldac (some c)) s h =
      rw (then_decoder-dev, commit-ok _ _ e _ (then_decoder-ok _ h)) refl
  configure_codec-negotiated pcm s h = refl
  configure_codec-negotiated unsupported s h = cc

  -- If the configuration of any codec but LDAC fails, the state keeps the format, the rate and the
  -- channels that it had.
  configure_codec_failed :
      (c : Codec) (s : State)
      → is_ldac c ≡ false
      → (configure_codec c e s).0 ≡ false
      → settings (configure_codec c e s).1.dev ≡ settings s.dev
  unfolding configure_codec configure_sbc configure_aptx configure_aptx_hd configure_aac
  configure_codec_failed (sbc none) s n h = refl
  configure_codec_failed (sbc (some c)) s n h = rw (commit-failed _ _ e s h) refl
  configure_codec_failed (aptx c) s n h = rw (commit-failed _ _ e _ h) refl
  configure_codec_failed (aptx_hd none) s n h = refl
  configure_codec_failed (aptx_hd (some c)) s n h = rw (commit-failed _ _ e s h) refl
  configure_codec_failed (aac none) s n h = refl
  configure_codec_failed (aac (some c)) s n h = rw (commit-failed _ _ e s h) refl
  configure_codec_failed (ldac c) s n h = cc
  configure_codec_failed pcm s n h = cc
  configure_codec_failed unsupported s n h = refl

-- The calls of a block and a bit format that were both written.
abbrev pub programmed : Payload → (bits : ℕ) → Trace → Trace
programmed p bits t =
    set_enum enc_bit_format (bit_format bits)
    ∷ get_ctl enc_bit_format
    ∷ set_array enc_config_block p
    ∷ get_ctl enc_config_block
    ∷ t

pub program-programmed :
    (p : Payload) (bits : ℕ) (e : Env) (t : Trace)
    → truthy (program p bits e t).0 ≡ false
    → (program p bits e t).1 ≡ programmed p bits t
unfolding program set_bit_format write_ctl
program-programmed p bits e t h = ground arith

pub commit-calls :
    (m : Routine) (f : A2dp → A2dp) (e : Env) (s : State)
    → (commit m f e s).0 ≡ true
    → (truthy (m e s.calls).0 ≡ false) × ((commit m f e s).1.calls ≡ (m e s.calls).1)
unfolding commit
commit-calls m f e s h = ground arith

pub then_decoder-calls :
    (e : Env) (s : State)
    → s.dev.abr_enabled ≡ true
    → (then_decoder e (true, s)).0 ≡ true
    → (then_decoder e (true, s)).1.calls
      ≡ set_array dec_config_block
          (dec_block codec_type_ldac (imc_info imc_transmit s.dev.imc_instance))
        ∷ get_ctl dec_config_block
        ∷ s.calls
unfolding then_decoder configure_decoder_format write_ctl
then_decoder-calls e s on h = ground arith
