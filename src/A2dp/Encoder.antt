-- ===== src/A2dp/Encoder.antt =====
-- a2dp.c: the translation of each negotiated codec into the DSP's configuration block, and the
-- choice among them.
use android_device_zte_fujis.Common.{
  ℕ, ◌-◌, Bool, true, false, not, ◌||◌, Option, none, some, List, [], ◌∷◌, ◌==◌, ltb, truthy,
  if◌then◌else◌,
}
use android_device_zte_fujis.A2dp.Types.{
  A2dp, SbcConfig, AptxConfig, AacConfig, LdacConfig, Codec, sbc, aptx, aptx_hd, aac, ldac, pcm,
  unsupported, SbcEncCfg, CustomEncCfg, AacEncCfg, AbrEncCfg, LdacEncCfg, Payload, sbc_block,
  aptx_block, aptx_hd_block, aac_block, ldac_block, codec_type_sbc, codec_type_aptx,
  codec_type_aptx_hd, codec_type_aac, codec_type_ldac, codec_type_pcm, max_instance_id,
}
use android_device_zte_fujis.A2dp.Env.{
  Env, enc_config_block, set_array, get_codec_config, Routine, ◌>>◌, write_ctl, as_is, State, run,
}
use android_device_zte_fujis.A2dp.Backend.{
  set_bit_format, configure_decoder_format, imc_info, imc_receive,
}

-- Write the block, then the bit format.
unfoldable pub program : Payload → ℕ → Routine
program block bits = do
  write_ctl as_is enc_config_block (set_array enc_config_block block)
  set_bit_format bits

-- Only a routine that succeeded changes the state.
unfoldable pub commit : Routine → (A2dp → A2dp) → Env → State → Bool × State
commit m f e s =
    let r = m e s.calls in
    if truthy r.0
    then (false, record s { calls = r.1 })
    else (true, record s { dev = f s.dev; calls = r.1 })

unfoldable pub sbc_channel_mode : ℕ → ℕ
sbc_channel_mode n = if n == 0 then 1 else if n == 1 then 8 else if n == 3 then 9 else 2

-- A non-zero `alloc` selects the method named LOUDNESS, which is 0.
abbrev pub sbc_enc_cfg : SbcConfig → SbcEncCfg
sbc_enc_cfg c = record {
  enc_format = 0x00010BF2;
  num_subbands = c.subband;
  blk_len = c.blk_len;
  channel_mode = sbc_channel_mode c.channels;
  alloc_method = if c.alloc == 0 then 1 else 0;
  bit_rate = c.bitrate;
  sample_rate = c.sampling_rate;
}

unfoldable pub configure_sbc : Option SbcConfig → Env → State → Bool × State
configure_sbc none e s = (false, s)
configure_sbc (some c) e s =
    commit (program (sbc_block (sbc_enc_cfg c)) c.bits_per_sample)
      (λ a. record a {
        encoder_format = codec_type_sbc;
        enc_sampling_rate = c.sampling_rate;
        enc_channels = if sbc_channel_mode c.channels == 1 then 1 else 2;
      })
      e s

-- PCM_CHANNEL_C for one channel, PCM_CHANNEL_L and PCM_CHANNEL_R for any other number.
unfoldable pub channel_mapping : ℕ → List ℕ
channel_mapping n = if n == 1 then 3 ∷ [] else 1 ∷ 2 ∷ []

abbrev pub custom_enc_cfg : (format rate channels : ℕ) → CustomEncCfg
custom_enc_cfg format rate channels = record {
  enc_format = format;
  sample_rate = rate;
  num_channels = channels;
  channel_mapping = channel_mapping channels;
  custom_size = 0;
}

-- The bit format is read through the default view also of a dual mono configuration.
unfoldable pub configure_aptx : AptxConfig → Env → State → Bool × State
configure_aptx c e s =
    commit
      (program
        (aptx_block (custom_enc_cfg 0x000131ff c.sampling_rate c.channels)
          (if s.dev.dual_mono then c.last else 0))
        c.last)
      (λ a. record a {
        encoder_format = codec_type_aptx;
        enc_channels = c.channels;
        enc_sampling_rate = c.sampling_rate;
      })
      e s

unfoldable pub configure_aptx_hd : Option AptxConfig → Env → State → Bool × State
configure_aptx_hd none e s = (false, s)
configure_aptx_hd (some c) e s =
    commit (program (aptx_hd_block (custom_enc_cfg 0x00013200 c.sampling_rate c.channels)) c.last)
      (λ a. record a {
        encoder_format = codec_type_aptx_hd;
        enc_sampling_rate = c.sampling_rate;
        enc_channels = c.channels;
      })
      e s

unfoldable pub aac_enc_mode : ℕ → ℕ
aac_enc_mode n = if n == 0 then 2 else if n == 2 then 29 else 5

abbrev pub aac_enc_cfg : AacConfig → AacEncCfg
aac_enc_cfg c = record {
  enc_format = 0x00010DA6;
  bit_rate = c.bitrate;
  enc_mode = aac_enc_mode c.enc_mode;
  aac_fmt_flag = c.format_flag;
  channel_cfg = c.channels;
  sample_rate = c.sampling_rate;
  ctl_type = c.ctl_type;
  ctl_value = c.ctl_value;
}

unfoldable pub configure_aac : Option AacConfig → Env → State → Bool × State
configure_aac none e s = (false, s)
configure_aac (some c) e s =
    commit (program (aac_block (aac_enc_cfg c)) c.bits_per_sample)
      (λ a. record a {
        encoder_format = codec_type_aac;
        enc_sampling_rate = c.sampling_rate;
        enc_channels = c.channels;
      })
      e s

unfoldable pub ldac_channels : ℕ → ℕ
ldac_channels mode = if mode == 4 then 1 else 2

abbrev no_abr : AbrEncCfg
no_abr = record {
  mapping_info = record { num_levels = 0; bit_rate_level_map = [] };
  imc_info = record { direction = 0; enable = 0; purpose = 0; comm_instance = 0 };
  is_abr_enabled = false;
}

-- `sizeof(struct ldac_enc_cfg_t)`, which is packed: 24 + 8 + 61.
abbrev ldac_enc_cfg_size : ℕ
ldac_enc_cfg_size = 93

unfoldable pub ldac_enc_cfg : LdacConfig → (instance : ℕ) → LdacEncCfg
ldac_enc_cfg c i = record {
  custom_cfg = record (custom_enc_cfg 0x00013224 c.sampling_rate (ldac_channels c.channel_mode)) {
    custom_size = ldac_enc_cfg_size;
  };
  bit_rate = c.bit_rate;
  channel_mode = c.channel_mode;
  mtu = c.mtu;
  abr_cfg =
      if c.is_abr_enabled
      then record {
        mapping_info = c.level_to_bitrate_map;
        imc_info = imc_info imc_receive i;
        is_abr_enabled = true;
      }
      else no_abr;
}

unfoldable pub configure_ldac : Option LdacConfig → Env → State → Bool × State
configure_ldac none e s = (false, s)
configure_ldac (some c) e s =
    commit (program (ldac_block (ldac_enc_cfg c s.dev.imc_instance)) c.bits_per_sample)
      (λ a. record a {
        encoder_format = codec_type_ldac;
        enc_sampling_rate = c.sampling_rate;
        enc_channels = ldac_channels c.channel_mode;
        abr_enabled = c.is_abr_enabled;
      })
      e s

-- The identifier for the next ABR instance: it counts down and starts over at the largest.
unfoldable pub take_instance : A2dp → A2dp
take_instance a =
    let i =
      if a.instance_id == 0 || ltb max_instance_id a.instance_id
      then max_instance_id
      else a.instance_id in
    record a { imc_instance = i; instance_id = i - 1 }

-- `configured && configure_a2dp_decoder_format(ENC_CODEC_TYPE_LDAC)`
unfoldable pub then_decoder : Env → Bool × State → Bool × State
then_decoder e (false, s) = (false, s)
then_decoder e (true, s) =
    let r = run (configure_decoder_format s.dev codec_type_ldac) e s in (not (truthy r.0), r.1)

-- The `switch` on the codec's type.
unfoldable pub configure_codec : Codec → Env → State → Bool × State
configure_codec (sbc c) e s = configure_sbc c e s
configure_codec (aptx c) e s =
    configure_aptx c e (record s { dev = record s.dev { dual_mono = false } })
configure_codec (aptx_hd c) e s = configure_aptx_hd c e s
configure_codec (aac c) e s = configure_aac c e s
configure_codec (ldac c) e s =
    then_decoder e (configure_ldac c e (record s { dev = take_instance s.dev }))
configure_codec pcm e s =
    (true, record s { dev = record s.dev { encoder_format = codec_type_pcm } })
configure_codec unsupported e s = (false, s)

unfoldable pub configure_encoder_format : Env → State → Bool × State
configure_encoder_format e s =
    if s.dev.syms.audio_get_codec_config
    then configure_codec (e.codec s.calls) e (record s {
      dev = record s.dev { abr_enabled = false };
      calls = get_codec_config ∷ s.calls;
    })
    else (false, s)
