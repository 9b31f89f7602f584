-- ===== src/A2dp/Types.antt =====
-- The data of a2dp.c: the codec constants, the records that cross to the DSP and to the Bluetooth
-- library, and the static state `a2dp` with `instance_id`.
use android_device_zte_fujis.Common.{ℕ, ◌/◌, Bool, Option, List}

-- `enum A2DP_STATE`; `started` and `stopped` are declared by the source and never assigned.
pub data BtState : Type 0 where
  connected started stopped disconnected : BtState

abbrev pub is_disconnected : BtState → Bool
is_disconnected disconnected = Bool.true
is_disconnected _ = Bool.false

-- `enc_codec_t`, with the values of the platform's audio formats that its comments give.
abbrev pub codec_type_invalid : ℕ
codec_type_invalid = 0xFFFFFFFF

abbrev pub codec_type_aac : ℕ
codec_type_aac = 0x04000000

abbrev pub codec_type_sbc : ℕ
codec_type_sbc = 0x1F000000

abbrev pub codec_type_aptx : ℕ
codec_type_aptx = 0x20000000

abbrev pub codec_type_aptx_hd : ℕ
codec_type_aptx_hd = 0x21000000

abbrev pub codec_type_ldac : ℕ
codec_type_ldac = 0x23000000

abbrev pub codec_type_pcm : ℕ
codec_type_pcm = 0x1

abbrev pub max_instance_id : ℕ
max_instance_id = 0xFFFFFFFF / 2

-- What the Bluetooth library negotiated, one record for each `audio_*_encoder_config`.
pub record SbcConfig : Type 0 where
  pub subband : ℕ
  pub blk_len : ℕ
  pub sampling_rate : ℕ
  pub channels : ℕ
  pub alloc : ℕ
  pub bitrate : ℕ
  pub bits_per_sample : ℕ

-- `audio_aptx_default_config` and `audio_aptx_dual_mono_config` share their layout but for the name
-- of the last field, which `last` holds: `bits_per_sample` of the one, `sync_mode` of the other.
pub record AptxConfig : Type 0 where
  pub sampling_rate : ℕ
  pub channels : ℕ
  pub bitrate : ℕ
  pub last : ℕ

pub record AacConfig : Type 0 where
  pub enc_mode : ℕ
  pub format_flag : ℕ
  pub channels : ℕ
  pub sampling_rate : ℕ
  pub bitrate : ℕ
  pub bits_per_sample : ℕ
  pub ctl_type : ℕ
  pub ctl_value : ℕ

pub record BitRateLevel : Type 0 where
  pub link_quality_level : ℕ
  pub bitrate : ℕ

pub record LevelInfo : Type 0 where
  pub num_levels : ℕ
  pub bit_rate_level_map : List BitRateLevel

pub record LdacConfig : Type 0 where
  pub sampling_rate : ℕ
  pub bit_rate : ℕ
  pub channel_mode : ℕ
  pub mtu : ℕ
  pub bits_per_sample : ℕ
  pub is_abr_enabled : Bool
  pub level_to_bitrate_map : LevelInfo

-- `codec_type` together with the `codec_info` that it says how to read; `none` is a NULL pointer.
pub data Codec : Type 0 where
  sbc : Option SbcConfig → Codec
  aptx : AptxConfig → Codec
  aptx_hd : Option AptxConfig → Codec
  aac : Option AacConfig → Codec
  ldac : Option LdacConfig → Codec
  pcm : Codec
  unsupported : Codec

-- The configuration blocks that are written to the DSP.
pub record SbcEncCfg : Type 0 where
  pub enc_format : ℕ
  pub num_subbands : ℕ
  pub blk_len : ℕ
  pub channel_mode : ℕ
  pub alloc_method : ℕ
  pub bit_rate : ℕ
  pub sample_rate : ℕ

-- `channel_mapping` lists the entries that are not 0; `reserved` is always 0.
pub record CustomEncCfg : Type 0 where
  pub enc_format : ℕ
  pub sample_rate : ℕ
  pub num_channels : ℕ
  pub channel_mapping : List ℕ
  pub custom_size : ℕ

pub record AacEncCfg : Type 0 where
  pub enc_format : ℕ
  pub bit_rate : ℕ
  pub enc_mode : ℕ
  pub aac_fmt_flag : ℕ
  pub channel_cfg : ℕ
  pub sample_rate : ℕ
  pub ctl_type : ℕ
  pub ctl_value : ℕ

pub record ImcInfo : Type 0 where
  pub direction : ℕ
  pub enable : ℕ
  pub purpose : ℕ
  pub comm_instance : ℕ

pub record AbrEncCfg : Type 0 where
  pub mapping_info : LevelInfo
  pub imc_info : ImcInfo
  pub is_abr_enabled : Bool

pub record LdacEncCfg : Type 0 where
  pub custom_cfg : CustomEncCfg
  pub bit_rate : ℕ
  pub channel_mode : ℕ
  pub mtu : ℕ
  pub abr_cfg : AbrEncCfg

pub data Payload : Type 0 where
  sbc_block : SbcEncCfg → Payload
  aptx_block : CustomEncCfg → (sync_mode : ℕ) → Payload
  aptx_hd_block : CustomEncCfg → Payload
  aac_block : AacEncCfg → Payload
  ldac_block : LdacEncCfg → Payload
  dec_block : (dec_format : ℕ) → ImcInfo → Payload

-- The function pointers that `open_a2dp_output` looks up: true where the pointer is not NULL.
pub record Symbols : Type 0 where
  pub audio_stream_open : Bool
  pub audio_stream_start : Bool
  pub audio_get_codec_config : Bool
  pub audio_stream_suspend : Bool
  pub audio_handoff_triggered : Bool
  pub clear_a2dp_suspend_flag : Bool
  pub audio_stream_stop : Bool
  pub audio_stream_close : Bool
  pub audio_check_a2dp_ready : Bool
  pub audio_is_scrambling_enabled : Bool
  pub audio_get_a2dp_sink_latency : Bool

-- `struct a2dp_data`, its `abr_config`, and the static `instance_id`. A pointer that is only
-- compared with NULL is a Boolean. `total` never goes below 0, by the guard of its decrement.
pub record A2dp : Type 0 where
  pub lib : Bool
  pub syms : Symbols
  pub bt_state : BtState
  pub encoder_format : ℕ
  pub enc_sampling_rate : ℕ
  pub enc_channels : ℕ
  pub a2dp_started : Bool
  pub a2dp_suspended : Bool
  pub total : ℕ
  pub offload_enabled : Bool
  pub handoff : Bool
  pub dual_mono : Bool
  pub abr_enabled : Bool
  pub abr_started : Bool
  pub abr_handle : Bool
  pub imc_instance : ℕ
  pub instance_id : ℕ
